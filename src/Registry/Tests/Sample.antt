-- ===== src/Registry/Tests/Sample.antt =====
-- A platform on which the tests run: a text is the document itself.
use beetroot.Prelude.{
  String, ◌≡◌, ◌↔◌, refl, sym, ap, Bool, true, not, ◌&&◌, Option, none, some, arith, ℤ, Distinct,
  has_duplicate, has_duplicate-false_iff, string_eq, Bool-cases, inl, inr, subst, if◌then◌else◌,
}
use mathlib.Core.Option.{some-injective}
use beetroot.Json.{
  Json, Items, Fields, null, bool, num, decimal, str, arr, obj, nil, cons, end, field, field_keys,
  field_get, IsKeyed, AreKeyed, FieldsKeyed,
}
use beetroot.Registry.{Platform}

abbrev mutual
  is_keyed : Json → Bool
  is_keyed (arr xs) = are_keyed xs
  is_keyed (obj fs) = not (has_duplicate (field_keys fs)) && fields_keyed fs
  is_keyed null = true
  is_keyed (bool b) = true
  is_keyed (num n) = true
  is_keyed (decimal m k) = true
  is_keyed (str s) = true

  are_keyed : Items → Bool
  are_keyed nil = true
  are_keyed (cons x xs) = is_keyed x && are_keyed xs

  fields_keyed : Fields → Bool
  fields_keyed end = true
  fields_keyed (field k v fs) = is_keyed v && fields_keyed fs

mutual
  is_keyed_iff : (j : Json) → (is_keyed j ≡ true) ↔ IsKeyed j
  is_keyed_iff (arr xs) = are_keyed_iff xs
  is_keyed_iff (obj fs) =
      ground (arith, has_duplicate-false_iff (field_keys fs), fields_keyed_iff fs)
  is_keyed_iff null = (λ _. tt, λ _. refl)
  is_keyed_iff (bool b) = (λ _. tt, λ _. refl)
  is_keyed_iff (num n) = (λ _. tt, λ _. refl)
  is_keyed_iff (decimal m k) = (λ _. tt, λ _. refl)
  is_keyed_iff (str s) = (λ _. tt, λ _. refl)

  are_keyed_iff : (xs : Items) → (are_keyed xs ≡ true) ↔ AreKeyed xs
  are_keyed_iff nil = (λ _. tt, λ _. refl)
  are_keyed_iff (cons x xs) = ground (arith, is_keyed_iff x, are_keyed_iff xs)

  fields_keyed_iff : (fs : Fields) → (fields_keyed fs ≡ true) ↔ FieldsKeyed fs
  fields_keyed_iff end = (λ _. tt, λ _. refl)
  fields_keyed_iff (field k v fs) = ground (arith, is_keyed_iff v, fields_keyed_iff fs)

abbrev pub parse : Json → Option Json
parse j = if is_keyed j then some j else none

abbrev text_of : Json → Option String
text_of (str s) = some s
text_of _ = none

abbrev integer_of : Json → Option ℤ
integer_of (num n) = some n
integer_of _ = none

-- A class of another package that takes any payload.
abbrev pub accept : String → Fields → Option Fields
accept name payload = if is_keyed (obj payload) then some payload else none

accept-eq-some :
    (c : String) (fs d : Fields) → accept c fs ≡ some d → (fs ≡ d) × (is_keyed (obj fs) ≡ true)
accept-eq-some c fs d h = elim (Bool-cases (is_keyed (obj fs))) [
  | inl e ↦ (some-injective _ _ (rw e at h), e)
  | inr e ↦ absurd (ground arith)
]

pub accept_again : (c : String) (fs d : Fields) → accept c fs ≡ some d → accept c d ≡ some d
accept_again c fs d h =
    let (same, keyed) = accept-eq-some c fs d h in subst (λ x. accept c x ≡ some d) same h

pub accept-kind :
    (c : String) (fs d : Fields) → accept c fs ≡ some d → field_get "kind" d ≡ field_get "kind" fs
accept-kind c fs d h = ap (field_get "kind") (sym (accept-eq-some c fs d h).0)

pub accept-IsKeyed :
    (c : String) (fs d : Fields) → accept c fs ≡ some d → Distinct (field_keys d) × FieldsKeyed d
accept-IsKeyed c fs d h =
    let (same, keyed) = accept-eq-some c fs d h in
    subst (λ x. IsKeyed (obj x)) same ((is_keyed_iff (obj fs)).0 keyed)

pub parse-keyed : (j : Json) → IsKeyed j → parse j ≡ some j
parse-keyed j h = rw ((is_keyed_iff j).1 h) refl

pub parse-IsKeyed : (t j : Json) → parse t ≡ some j → IsKeyed j
parse-IsKeyed t j h = elim (Bool-cases (is_keyed t)) [
  | inl e ↦ subst IsKeyed (some-injective _ _ (rw e at h)) ((is_keyed_iff t).0 e)
  | inr e ↦ absurd (ground arith)
]

abbrev pub sample : Platform String Json
sample = record {
  loads = parse;
  dumps = λ j. j;
  loads-dumps = parse-keyed;
  loads-IsKeyed = parse-IsKeyed;
  datetime_of = text_of;
  isoformat = λ s. s;
  datetime_of-isoformat = λ s. refl;
  int_of = integer_of;
  int_of-num = λ n. refl;
  external_of = accept;
  external_of_again = accept_again;
  external_of-kind = accept-kind;
  external_of-IsKeyed = accept-IsKeyed;
}
