-- ===== src/Dict.antt =====
-- Python's `dict` with text keys, in insertion order: `d[k] = v` keeps the place of a present key
-- and puts a new key last.
use beetroot.Prelude.{
  String, ◌≡◌, refl, ◌≢◌, Bool, true, false, Option, none, some, List, [], ◌∷◌, ◌++◌, arith, ◌==◌,
  string_eq, eq_iff, if◌then◌else◌, contains, Distinct,
}

abbrev pub Dict {ℓ} : Type ℓ → Type ℓ
Dict V = List (String × V)

module _ {ℓ} {V : Type ℓ} where
  abbrev pub keys : Dict V → List String
  keys [] = []
  keys ((k, v) ∷ d) = k ∷ keys d

  abbrev pub values : Dict V → List V
  values [] = []
  values ((k, v) ∷ d) = v ∷ values d

  -- d.get(k)
  unfoldable pub lookup : String → Dict V → Option V
  lookup k [] = none
  lookup k ((j, v) ∷ d) = if k == j then some v else lookup k d

  -- `k in d`
  abbrev pub member : String → Dict V → Bool
  member k d = contains k (keys d)

  -- d[k] = v
  unfoldable pub insert : String → V → Dict V → Dict V
  insert k v [] = (k, v) ∷ []
  insert k v ((j, w) ∷ d) = if k == j then (j, v) ∷ d else (j, w) ∷ insert k v d

  -- d.pop(k, None), del d[k]
  unfoldable pub erase : String → Dict V → Dict V
  erase k [] = []
  erase k ((j, w) ∷ d) = if k == j then d else (j, w) ∷ erase k d

  pub lookup-nil : (k : String) → lookup k [] ≡ none
  unfolding lookup
  lookup-nil k = refl

  pub lookup-insert :
      (j k : String) (v : V) (d : Dict V)
      → lookup j (insert k v d) ≡ (if j == k then some v else lookup j d)
  unfolding lookup insert
  lookup-insert j k v [] = refl
  lookup-insert j k v ((i, w) ∷ d) =
      ground (arith, eq_iff j k, eq_iff k i, eq_iff j i, lookup-insert j k v d)

  pub member-lookup : (k : String) (d : Dict V) → member k d ≡ false → lookup k d ≡ none
  unfolding lookup
  member-lookup k [] h = refl
  member-lookup k ((j, w) ∷ d) h = ground (arith, member-lookup k d)

  pub lookup-member : (k : String) (d : Dict V) {v : V} → lookup k d ≡ some v → member k d ≡ true
  unfolding lookup
  lookup-member k [] h = cc
  lookup-member k ((j, w) ∷ d) {v} h = ground (arith, lookup-member k d {v = v})

  pub lookup-erase_ne : (j k : String) (d : Dict V) → j ≢ k → lookup j (erase k d) ≡ lookup j d
  unfolding lookup erase
  lookup-erase_ne j k [] h = refl
  lookup-erase_ne j k ((i, w) ∷ d) h =
      ground (arith, eq_iff j i, eq_iff k i, lookup-erase_ne j k d h)

  -- A new key goes last.
  pub insert_fresh :
      (k : String) (v : V) (d : Dict V) → member k d ≡ false → insert k v d ≡ d ++ (k, v) ∷ []
  unfolding insert
  insert_fresh k v [] h = refl
  insert_fresh k v ((j, w) ∷ d) h = ground (arith, insert_fresh k v d)

  pub keys-append : (d e : Dict V) → keys (d ++ e) ≡ keys d ++ keys e
  keys-append [] e = refl
  keys-append ((k, v) ∷ d) e = ground (arith, keys-append d e)

  pub erase_absent : (k : String) (d : Dict V) → member k d ≡ false → erase k d ≡ d
  unfolding erase
  erase_absent k [] h = refl
  erase_absent k ((j, w) ∷ d) h = ground (arith, erase_absent k d)

  pub member-erase_ne :
      (j k : String) (d : Dict V) → member j d ≡ false → member j (erase k d) ≡ false
  unfolding erase
  member-erase_ne j k [] h = refl
  member-erase_ne j k ((i, w) ∷ d) h = ground (arith, member-erase_ne j k d)

  pub member-erase_self :
      (k : String) (d : Dict V) → Distinct (keys d) → member k (erase k d) ≡ false
  unfolding erase
  member-erase_self k [] h = refl
  member-erase_self k ((j, w) ∷ d) h = ground (arith, eq_iff k j, member-erase_self k d)

  pub erase-Distinct : (k : String) (d : Dict V) → Distinct (keys d) → Distinct (keys (erase k d))
  unfolding erase
  erase-Distinct k [] h = tt
  erase-Distinct k ((j, w) ∷ d) h = ground (arith, erase-Distinct k d, member-erase_ne j k d)

  -- A write to a present key keeps the keys.
  pub keys-insert_present :
      (k : String) (v : V) (d : Dict V) → member k d ≡ true → keys (insert k v d) ≡ keys d
  unfolding insert
  keys-insert_present k v [] h = cc
  keys-insert_present k v ((j, w) ∷ d) h = ground (arith, keys-insert_present k v d)
