-- ===== src/Json.antt =====
-- Python values as `json.loads` gives them, and how the registry reads them: `dict.get`, `in`, and
-- the checks of a `str` and of a `dict[str, str]` field.
use beetroot.Prelude.{
  ℕ, ◌*◌, ◌^◌, String, ◌≡◌, refl, ap, Bool, true, false, ◌&&◌, Option, none, some, List, [], ◌∷◌,
  arith, ℤ, pos, int_beq, ◌==◌, string_eq, contains, if◌then◌else◌, Distinct, Bool-cases,
  Option-cases, subst, inl, inr,
}
use mathlib.Core.Option
use mathlib.Core.Option.{some-injective}
use beetroot.Dict.{Dict, keys}

-- `decimal m k` is the float m / 10^k.
mutual
  pub data Json : Type 0 where
    null : Json
    bool : Bool → Json
    num : ℤ → Json
    decimal : ℤ → ℕ → Json
    str : String → Json
    arr : Items → Json
    obj : Fields → Json

  pub data Items : Type 0 where
    nil : Items
    cons : Json → Items → Items

  pub data Fields : Type 0 where
    end : Fields
    field : String → Json → Fields → Fields

abbrev pub field_keys : Fields → List String
field_keys end = []
field_keys (field k v fs) = k ∷ field_keys fs

-- d.get(k)
unfoldable pub field_get : String → Fields → Option Json
field_get k end = none
field_get k (field j v fs) = if k == j then some v else field_get k fs

-- `v == n`, for an `int` n of zero or more
abbrev pub equals_nat : Json → ℕ → Bool
equals_nat (num m) n = int_beq m (pos n)
equals_nat (decimal m k) n = int_beq m (pos (n * 10 ^ k))
equals_nat _ n = false

-- Whether no key of a model stands outside the list: `extra="forbid"`.
abbrev pub only : List String → Fields → Bool
only ks end = true
only ks (field k v fs) = contains k ks && only ks fs

-- a field of type `str`
abbrev pub string_of : Json → Option String
string_of (str s) = some s
string_of _ = none

-- a field of type `dict[str, str]`
unfoldable pub strings_of : Fields → Option (Dict String)
strings_of end = some []
strings_of (field k v fs) =
    let rest = strings_of fs in
    elim (string_of v) [ none ↦ none | some s ↦ Option.map (λ d. (k, s) ∷ d) rest ]

unfoldable pub dict_of : Json → Option (Dict String)
unfolding strings_of
dict_of (obj fs) = strings_of fs
dict_of _ = none

unfoldable pub of_strings : Dict String → Fields
of_strings [] = end
of_strings ((k, s) ∷ d) = field k (str s) (of_strings d)

-- A Python dict holds a key once. `IsKeyed` says so of each object of a document.
abbrev mutual
  pub IsKeyed : Json → Type 0
  IsKeyed (arr xs) = AreKeyed xs
  IsKeyed (obj fs) = Distinct (field_keys fs) × FieldsKeyed fs
  IsKeyed null = Unit
  IsKeyed (bool b) = Unit
  IsKeyed (num n) = Unit
  IsKeyed (decimal m k) = Unit
  IsKeyed (str s) = Unit

  pub AreKeyed : Items → Type 0
  AreKeyed nil = Unit
  AreKeyed (cons x xs) = IsKeyed x × AreKeyed xs

  pub FieldsKeyed : Fields → Type 0
  FieldsKeyed end = Unit
  FieldsKeyed (field k v fs) = IsKeyed v × FieldsKeyed fs

pub strings_of-of_strings : (d : Dict String) → strings_of (of_strings d) ≡ some d
unfolding strings_of of_strings
strings_of-of_strings [] = refl
strings_of-of_strings ((k, s) ∷ d) = rw (strings_of-of_strings d)

pub keys-strings_of :
    (fs : Fields) {d : Dict String} → strings_of fs ≡ some d → keys d ≡ field_keys fs
unfolding strings_of
keys-strings_of end h = ground arith
keys-strings_of (field k v fs) {d} h = elim (Option-cases (string_of v)) [
  | inl e ↦ ground arith
  | inr (s, e) ↦ elim (Option-cases (strings_of fs)) [
    | inl f ↦ ground arith
    | inr (r, f) ↦ ground (arith, keys-strings_of fs {d = r} f)
  ]
]

pub keys-of_strings : (d : Dict String) → field_keys (of_strings d) ≡ keys d
unfolding of_strings
keys-of_strings [] = refl
keys-of_strings ((k, s) ∷ d) = ap (◌∷◌ k) (keys-of_strings d)

pub of_strings-FieldsKeyed : (d : Dict String) → FieldsKeyed (of_strings d)
unfolding of_strings
of_strings-FieldsKeyed [] = tt
of_strings-FieldsKeyed ((k, s) ∷ d) = (tt, of_strings-FieldsKeyed d)

pub field_get-FieldsKeyed :
    (k : String) (fs : Fields) {v : Json} → FieldsKeyed fs → field_get k fs ≡ some v → IsKeyed v
unfolding field_get
field_get-FieldsKeyed k end h e = cc
field_get-FieldsKeyed k (field j w fs) h e = elim (Bool-cases (k == j)) [
  | inl same ↦ subst IsKeyed (some-injective _ _ (rw same at e)) h.0
  | inr other ↦ field_get-FieldsKeyed k fs h.1 (rw other at e)
]
