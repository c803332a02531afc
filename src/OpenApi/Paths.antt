-- ===== src/OpenApi/Paths.antt =====
-- What `normalizePath` keeps of a pattern.
use grpc_composition.Common.{
  ℕ, ◌≡◌, refl, sym, ap, ◌∙◌, inl, inr, true, false, List, [], ◌∷◌, ◌++◌, append-nil, append_assoc,
  Option, none, some, arith, Text, codes, ◌==◌, text_eq, Option-cases, Bool-cases, gather,
  cons_some,
}
use grpc_composition.Common.{All}
use grpc_composition.Std.Strings.{split, join, cons_head}
use grpc_composition.OpenApi.{normalize_segment, normalize_from, normalize_path}

pub normalize_from_lem :
    (out segs : List Text) → normalize_from out segs ≡ out ++ gather normalize_segment segs
unfolding normalize_from
normalize_from_lem out [] = sym (append-nil out)
normalize_from_lem out (seg ∷ segs) =
    normalize_from_lem (out ++ cons_some (normalize_segment seg) []) segs
    ∙ append_some out (normalize_segment seg) (gather normalize_segment segs)
  where
    append_some :
        (xs : List Text) (o : Option Text) (ys : List Text)
        → (xs ++ cons_some o []) ++ ys ≡ xs ++ cons_some o ys
    append_some xs none ys = rw append-nil
    append_some xs (some x) ys = append_assoc xs (x ∷ []) ys

-- A text without the byte `sep`.
abbrev pub Lacks : ℕ → Text → Type 0
Lacks sep s = All (λ c. (c == sep) ≡ false) s

pub All-append :
    {A : Type 0} (P : A → Type 0) (xs ys : List A) → All P xs → All P ys → All P (xs ++ ys)
All-append P [] ys h k = k
All-append P (x ∷ xs) ys h k = (h.0, All-append P xs ys h.1 k)

pub All-append_left : {A : Type 0} (P : A → Type 0) (xs ys : List A) → All P (xs ++ ys) → All P xs
All-append_left P [] ys h = tt
All-append_left P (x ∷ xs) ys h = (h.0, All-append_left P xs ys h.1)

pub split-Lacks : (s : Text) (sep : ℕ) → All (Lacks sep) (split s sep)
unfolding split
split-Lacks [] sep = (tt, tt)
split-Lacks (c ∷ s) sep = elim (Bool-cases (c == sep)) [
  | inl e ↦ rw e (tt, split-Lacks s sep)
  | inr e ↦ rw e (grow c (split s sep) (split-Lacks s sep) e)
]
  where
    grow :
        (d : ℕ) (ps : List Text)
        → All (Lacks sep) ps
        → (d == sep) ≡ false
        → All (Lacks sep) (cons_head d ps)
    grow d [] h k = ((k, tt), tt)
    grow d (p ∷ ps) h k = ((k, h.0), h.1)

split_of_Lacks : (s : Text) (sep : ℕ) → Lacks sep s → split s sep ≡ s ∷ []
unfolding split
split_of_Lacks [] sep h = refl
split_of_Lacks (c ∷ s) sep h = rw (h.0, split_of_Lacks s sep h.1)

split-cons : (s : Text) (sep : ℕ) → (p : Text) × (ps : List Text) × (split s sep ≡ p ∷ ps)
unfolding split
split-cons [] sep = ([], [], refl)
split-cons (c ∷ s) sep = elim (Bool-cases (c == sep)) [
  | inl e ↦ ([], split s sep, rw e)
  | inr e ↦ let (p, ps, h) = split-cons s sep in (c ∷ p, ps, rw (e, h))
]

split-append :
    (s : Text) (sep : ℕ) (t : Text) → split (s ++ (sep ∷ t)) sep ≡ split s sep ++ split t sep
unfolding split
split-append [] sep t = rw same
  where
    same : (sep == sep) ≡ true
    same = ground arith
split-append (c ∷ s) sep t = elim (Bool-cases (c == sep)) [
  | inl e ↦ rw (e, split-append s sep t)
  | inr e ↦ let (p, ps, h) = split-cons s sep in rw (e, split-append s sep t, h)
]

pub split-join :
    (p : Text) (ps : List Text) (sep : ℕ)
    → All (Lacks sep) (p ∷ ps)
    → split (join (p ∷ ps) sep) sep ≡ p ∷ ps
unfolding join
split-join p [] sep h = split_of_Lacks p sep h.0
split-join p (q ∷ ps) sep h =
    split-append p sep (join (q ∷ ps) sep)
    ∙ (rw (split_of_Lacks p sep h.0, split-join q ps sep h.1))

gather-append :
    {A B : Type 0} (f : A → Option B) (xs ys : List A)
    → gather f (xs ++ ys) ≡ gather f xs ++ gather f ys
gather-append f [] ys = refl
gather-append f (x ∷ xs) ys = elim (Option-cases (f x)) [
  | inl e ↦ rw (e, gather-append f xs ys)
  | inr (b, e) ↦ rw (e, gather-append f xs ys)
]

segments-exact :
    (p : Text)
    → normalize_from [] (split (p ++ codes "/{$}") b'/') ≡ normalize_from [] (split p b'/')
unfolding normalize_segment split text_eq
segments-exact p =
    normalize_from_lem [] (split (p ++ codes "/{$}") b'/')
    ∙ (rw (split-append p b'/' (codes "{$}"), gather-append normalize_segment, append-nil)
        (sym (normalize_from_lem [] (split p b'/'))))

-- The exact-match marker at the end of a pattern leaves no trace: `p/{$}` is normalised as `p` is,
-- for every pattern `p`.
normalize_path-exact : (p : Text) → normalize_path (p ++ codes "/{$}") ≡ normalize_path p
unfolding normalize_path
normalize_path-exact p = ap (λ segs. join segs b'/') (segments-exact p)
