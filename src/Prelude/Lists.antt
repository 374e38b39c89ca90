-- ===== src/Prelude/Lists.antt =====
-- Lists with native lengths: membership, counting, distinctness.
use Prim.Native.Nat.{ℕ, zero, suc, ◌+◌, ◌<◌}
use mathlib.Core.Path.{◌≡◌, refl}
use mathlib.Core.Logic.{◌↔◌}
use mathlib.Core.Bool.{Bool, true, false, ◌||◌}
use mathlib.Core.Option.{Option, none, some}
use mathlib.Core.List.{List, [], ◌∷◌, ◌++◌}
use native.Mathlib.Omega.{arith}
use beetroot.Prelude.Tests.{if◌then◌else◌}
use beetroot.Prelude.Equality.{Eq, ◌==◌, beq_comm}

module _ {ℓ} {A : Type ℓ} where
  abbrev pub length : List A → ℕ
  length [] = 0
  length (x ∷ xs) = suc (length xs)

  abbrev pub get_elem? : List A → ℕ → Option A
  get_elem? [] i = none
  get_elem? (x ∷ xs) zero = some x
  get_elem? (x ∷ xs) (suc i) = get_elem? xs i

  -- Python's `any(test(x) for x in xs)`
  abbrev pub any : (A → Bool) → List A → Bool
  any test [] = false
  any test (x ∷ xs) = test x || any test xs

  abbrev pub filter : (A → Bool) → List A → List A
  filter test [] = []
  filter test (x ∷ xs) = let rest = filter test xs in if test x then x ∷ rest else rest

  abbrev pub All {κ} : (A → Type κ) → List A → Type κ
  All P [] = Unit
  All P (x ∷ xs) = P x × All P xs

  pub All-snoc {κ} : (P : A → Type κ) (x : A) (xs : List A) → All P xs → P x → All P (xs ++ x ∷ [])
  All-snoc P x [] h p = (p, tt)
  All-snoc P x (y ∷ ys) h p = (h.0, All-snoc P x ys h.1 p)

  pub All-map {κ ν} :
      (P : A → Type κ) (Q : A → Type ν) (xs : List A) → ((x : A) → P x → Q x) → All P xs → All Q xs
  All-map P Q [] f h = tt
  All-map P Q (x ∷ xs) f h = (f x h.0, All-map P Q xs f h.1)

module _ {ℓ} {A : Type ℓ} ⦃e : Eq A⦄ where
  -- Python's `x in xs`
  abbrev pub contains : A → List A → Bool
  contains a [] = false
  contains a (x ∷ xs) = a == x || contains a xs

  -- `xs.count(a)`
  abbrev pub count : A → List A → ℕ
  count a [] = 0
  count a (x ∷ xs) = (if a == x then 1 else 0) + count a xs

  abbrev pub Distinct : List A → Type 0
  Distinct [] = Unit
  Distinct (x ∷ xs) = (contains x xs ≡ false) × Distinct xs

  -- `len(xs) != len(set(xs))`, and the check of a `Counter` for a count above one
  abbrev pub has_duplicate : List A → Bool
  has_duplicate [] = false
  has_duplicate (x ∷ xs) = contains x xs || has_duplicate xs

  pub has_duplicate-false_iff : (xs : List A) → (has_duplicate xs ≡ false) ↔ Distinct xs
  has_duplicate-false_iff [] = (λ _. tt, λ _. refl)
  has_duplicate-false_iff (x ∷ xs) = ground (arith, has_duplicate-false_iff xs)

  pub contains-append :
      (a : A) (xs ys : List A) → contains a (xs ++ ys) ≡ (contains a xs || contains a ys)
  contains-append a [] ys = refl
  contains-append a (x ∷ xs) ys = ground (arith, contains-append a xs ys)

  pub Distinct-snoc :
      (a : A) (xs : List A) → contains a xs ≡ false → Distinct xs → Distinct (xs ++ a ∷ [])
  Distinct-snoc a [] h d = (refl, tt)
  Distinct-snoc a (x ∷ xs) h d =
      ground (arith, contains-append x xs (a ∷ []), beq_comm a x, Distinct-snoc a xs)

  pub count-pos_iff : (a : A) (xs : List A) → (0 < count a xs) ↔ (contains a xs ≡ true)
  count-pos_iff a [] = ground arith
  count-pos_iff a (x ∷ xs) = ground (arith, count-pos_iff a xs)
