-- ===== src/Common/Lists.antt =====
-- Searches in lists for what a partial function gives.
use mathlib.Core.Option.{Option, none, some}
use mathlib.Core.Logic.{◌⊎◌}
use mathlib.Core.List.{List, [], ◌∷◌}

-- The last value that `f` finds in the list.
abbrev pub last_some {ℓ κ} : {A : Type ℓ} {B : Type κ} → (A → Option B) → List A → Option B
last_some f [] = none
last_some f (x ∷ xs) = elim (last_some f xs) [ some b ↦ some b | none ↦ f x ]

abbrev pub or_else {ℓ} : {A : Type ℓ} → Option A → A → A
or_else none a = a
or_else (some b) a = b

abbrev pub or_option {ℓ} : {A : Type ℓ} → Option A → Option A → Option A
or_option none b = b
or_option (some a) b = some a

abbrev pub cons_some {ℓ} : {A : Type ℓ} → Option A → List A → List A
cons_some none xs = xs
cons_some (some x) xs = x ∷ xs

-- All values that `f` finds in the list, in order.
abbrev pub gather {ℓ κ} : {A : Type ℓ} {B : Type κ} → (A → Option B) → List A → List B
gather f [] = []
gather f (x ∷ xs) = cons_some (f x) (gather f xs)

abbrev pub All {ℓ} : {A : Type ℓ} → (A → Type 0) → List A → Type 0
All P [] = Unit
All P (x ∷ xs) = P x × All P xs

abbrev pub Any {ℓ} : {A : Type ℓ} → (A → Type 0) → List A → Type 0
Any P [] = ⊥
Any P (x ∷ xs) = P x ⊎ Any P xs
