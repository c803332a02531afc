-- ===== src/Bind/Typed/Ints.antt =====
-- Which texts the integer binders accept, and what they store.
use grpc_composition.Common.{
  ◌^◌, ◌≡◌, sym, ap, ◌∙◌, ◌↔◌, inl, inr, [], ◌∷◌, some, arith, Text, Result, ok, err, ◌>>=◌,
  map_err, Result-cases, ok-injective,
}
use mathlib.Core.Path.{subst, ap₂}
use mathlib.Core.Option.{some-injective}
use grpc_composition.Std.Errors.{wrap}
use grpc_composition.Std.Http.{query_get, header_get}
use grpc_composition.Std.Strconv.{ℤ, parse_int}
use grpc_composition.Std.Strconv.ParseInt.{
  integer_value, IsBelow, parse_int_iff, to_int32_of_IsBelow,
}
use grpc_composition.Host.{Host, Err, Request}
use grpc_composition.Globals.{Globals, path_param}
use grpc_composition.Bind.Typed.{parse_int32, bind_optional, path_int32, query_int32, header_int32}

module _ (H : Host) where
  -- `parseInt32` accepts exactly the texts that denote an integer of 32 bits, and the conversion
  -- to `int32` returns this integer.
  pub parse_int32_iff :
      (s : Text) (z : ℤ)
      → (parse_int32 H s ≡ ok z) ↔ ((integer_value s ≡ some z) × IsBelow (2 ^ 31) z)
  unfolding parse_int32
  parse_int32_iff s z = elim (Result-cases (parse_int 32 s)) [
    | inr (e, fails) ↦
        rw (fails, parse_int32) (λ h. cc, λ h. ground (arith, (parse_int_iff s z).0.1 h))
    | inl (n, read) ↦
        let denoted = (parse_int_iff s n).0.0 read in
        rw (read, parse_int32, to_int32_of_IsBelow n denoted.1)
          (
            λ h.
                subst (λ y. (integer_value s ≡ some y) × IsBelow (2 ^ 31) y) (ok-injective h)
                  denoted,
            λ h. ap ok (some-injective n z (sym denoted.0 ∙ h.0)),
          )
  ]

through : {A B C D : Type 0} → A ↔ (B × C) → C ↔ D → A ↔ (B × D)
through f g = (λ a. let (b, c) = f.0 a in (b, g.0 c), λ (b, d). f.1 (b, g.1 d))

module _ {Req : Type 0} (setter : Req → ℤ → Req) where
  -- The text denotes an integer of 32 bits, and the message is the old one with this stored.
  abbrev pub Stores : Text → Req → Req → Type 0
  Stores raw req req' =
      (z : ℤ) × (integer_value raw ≡ some z) × IsBelow (2 ^ 31) z × (req' ≡ setter req z)

  -- The same for a parameter that may be missing, which leaves the message as it is.
  abbrev pub StoresOptional : Text → Req → Req → Type 0
  StoresOptional [] req req' = req' ≡ req
  StoresOptional (c ∷ s) req req' = Stores (c ∷ s) req req'

module _ (H : Host) {Req : Type 0} (g : Globals H) (name : Text) (setter : Req → ℤ → Req)
    (r r' : Request H) (req req' : Req) where
  parsed_iff :
      (raw : Text)
      → ((map_err (wrap name) (parse_int32 H raw) >>= λ v. ok (setter req v)) ≡ ok req')
        ↔ Stores setter raw req req'
  parsed_iff raw = elim (Result-cases (parse_int32 H raw)) [
    | inr (e, fails) ↦
        rw fails (λ h. cc, λ (z, d, b, _). ground (arith, (parse_int32_iff H raw z).1 (d, b)))
    | inl (n, read) ↦
        let denoted = (parse_int32_iff H raw n).0 read in
        rw read (
          λ h. (n, denoted.0, denoted.1, sym (ok-injective h)),
          λ (z, d, b, e). ap ok (ap (setter req) (some-injective n z (sym denoted.0 ∙ d)) ∙ sym e),
        )
  ]

  optional_iff :
      (raw : Text)
      → (bind_optional H name (parse_int32 H) setter raw req ≡ ok req')
        ↔ StoresOptional setter raw req req'
  optional_iff [] = (λ h. sym (ok-injective h), λ e. ap ok (sym e))
  optional_iff (c ∷ s) = parsed_iff (c ∷ s)

  -- A parameter binder leaves the request as it was.
  keeps_iff :
      (x : Result (Err H) Req)
      → (◌≡◌ {A = Result (Err H) (Req × Request H)} (x >>= λ m. ok (m, r)) (ok (req', r')))
        ↔ ((r' ≡ r) × (x ≡ ok req'))
  keeps_iff (ok m) = (
    λ h.
        let e : ◌≡◌ {A = Req × Request H} (m, r) (req', r') = ok-injective h in
        (ap (λ p. p.1) (sym e), ap (λ p. ok p.0) e),
    λ (same, h). ap₂ (λ n q. ok (n, q)) (ok-injective h) (sym same),
  )
  keeps_iff (err e) = (λ h. cc, λ (_, h). cc)

  -- The three binders of an `int32` field bind exactly if the text of the parameter denotes an
  -- integer of 32 bits, which they store; only a query or header parameter may also be missing or
  -- empty, and then the message stays as it is. The request stays as it is in every case.
  pub int32_binders_iff :
      (((path_int32 H name setter).bind g r req ≡ ok (req', r'))
        ↔ ((r' ≡ r) × Stores setter (path_param H g r name) req req'))
      × (((query_int32 H name setter).bind g r req ≡ ok (req', r'))
          ↔ ((r' ≡ r) × StoresOptional setter (query_get r name) req req'))
      × (((header_int32 H name setter).bind g r req ≡ ok (req', r'))
          ↔ ((r' ≡ r) × StoresOptional setter (header_get r.header name) req req'))
  unfolding path_int32 query_int32 header_int32
  int32_binders_iff = (
    through (keeps_iff _) (parsed_iff (path_param H g r name)),
    through (keeps_iff _) (optional_iff (query_get r name)),
    through (keeps_iff _) (optional_iff (header_get r.header name)),
  )
