-- ===== src/OpenApi/Generate/References.antt =====
-- What the references of an operation are, and what it says of its route.
use grpc_composition.Common.{
  ◌≡◌, refl, sym, ◌∙◌, inl, Bool, true, false, List, [], ◌∷◌, ◌++◌, map, append-nil, append_assoc,
  Option, none, some, Text, codes, All,
}
use grpc_composition.Std.Strconv.Itoa.{itoa}
use grpc_composition.Std.Http.{status_text}
use grpc_composition.Host.{Host}
use grpc_composition.Spec.{ParamSpec, OperationInfo}
use grpc_composition.OpenApi.Schema.{Parameter, parameter_of, add_parameters}
use grpc_composition.OpenApi.Components.{Schemas, Refs, Keeps}
use grpc_composition.OpenApi.Components.Outcomes.{SchemaOk, SchemaOk-mono}
use grpc_composition.OpenApi.Generate.{MediaType, Content, RequestBody, Response, Operation}

-- Every schema of the content has references that resolve.
abbrev pub ContentOk : Schemas → Content → Type 0
ContentOk st content = All (λ (e : Text × MediaType). SchemaOk st e.1.media_schema) content

abbrev pub BodyOk : Schemas → Option RequestBody → Type 0
BodyOk st none = Unit
BodyOk st (some body) = ContentOk st body.content

abbrev pub ResponsesOk : Schemas → List (Text × Response) → Type 0
ResponsesOk st answers = All (λ (e : Text × Response). ContentOk st e.1.content) answers

-- Every reference of an operation resolves: those of its parameters, its body and its responses.
pub record OperationOk (st : Schemas) (o : Operation) : Type 0 where
  pub parameters_ok : All (λ (p : Parameter). SchemaOk st p.parameter_schema) o.parameters
  pub body_ok : BodyOk st o.request_body
  pub responses_ok : ResponsesOk st o.responses

All-weaken :
    {A : Type 0} (P Q : A → Type 0) → ((a : A) → P a → Q a) → (xs : List A) → All P xs → All Q xs
All-weaken P Q f [] h = tt
All-weaken P Q f (x ∷ xs) h = (f x h.0, All-weaken P Q f xs h.1)

module _ (st st' : Schemas) (keeps : Keeps st st') where
  ContentOk-mono : (content : Content) → ContentOk st content → ContentOk st' content
  ContentOk-mono =
      All-weaken _ _ (λ (e : Text × MediaType). SchemaOk-mono st st' e.1.media_schema keeps)

  pub BodyOk-mono : (body : Option RequestBody) → BodyOk st body → BodyOk st' body
  BodyOk-mono none h = tt
  BodyOk-mono (some body) h = ContentOk-mono body.content h

  ResponsesOk-mono :
      (answers : List (Text × Response)) → ResponsesOk st answers → ResponsesOk st' answers
  ResponsesOk-mono = All-weaken _ _ (λ (e : Text × Response). ContentOk-mono e.1.content)

  pub OperationOk-mono : (o : Operation) → OperationOk st o → OperationOk st' o
  OperationOk-mono o h = record {
    parameters_ok =
        All-weaken _ _ (λ (p : Parameter). SchemaOk-mono st st' p.parameter_schema keeps)
          o.parameters h.parameters_ok;
    body_ok = BodyOk-mono o.request_body h.body_ok;
    responses_ok = ResponsesOk-mono o.responses h.responses_ok;
  }

pub add_parameters_lem :
    (out : List Parameter) (ps : List ParamSpec)
    → add_parameters out ps ≡ out ++ map parameter_of ps
unfolding add_parameters
add_parameters_lem out [] = sym (append-nil out)
add_parameters_lem out (p ∷ ps) =
    add_parameters_lem (out ++ (parameter_of p ∷ [])) ps
    ∙ append_assoc out (parameter_of p ∷ []) (map parameter_of ps)

-- The schema of a parameter has no reference.
pub parameters-ok :
    (st : Schemas) (ps : List ParamSpec)
    → All (λ (p : Parameter). SchemaOk st p.parameter_schema) (map parameter_of ps)
unfolding Refs
parameters-ok st [] = tt
parameters-ok st (p ∷ ps) = ((inl refl, tt, tt, tt), parameters-ok st ps)

abbrev pub is_some : {A : Type 0} → Option A → Bool
is_some none = false
is_some (some _) = true

-- An operation says what its route says.
pub record Describes {H : Host} (info : OperationInfo H) (o : Operation) : Type 0 where
  pub operation_id_same : o.operation_id ≡ info.doc.operation_id
  pub summary_same : o.summary ≡ info.doc.summary
  pub description_same : o.description ≡ info.doc.description
  pub tags_same : o.tags ≡ info.doc.tags
  pub deprecated_same : o.deprecated ≡ info.doc.deprecated
  pub parameters_same : o.parameters ≡ map parameter_of info.params
  pub body_same : is_some o.request_body ≡ is_some info.body
  pub responses_same :
      map {B = Text × Text} (λ e. (e.0, e.1.description)) o.responses
      ≡ (itoa info.success_status, status_text info.success_status)
        ∷ (codes "default", codes "Error")
        ∷ []

-- What is shown of an operation: it says what its route says, and its references resolve.
abbrev pub Says : {H : Host} → Schemas → OperationInfo H → Operation → Type 0
Says st info o = Describes info o × OperationOk st o
