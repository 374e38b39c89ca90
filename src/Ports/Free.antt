-- ===== src/Ports/Free.antt =====
-- The `while` loop of `lowest_free_index` (src/beetroot/ports.py), and the index that it gives.
use beetroot.Prelude.{
  ℕ, zero, suc, ◌+◌, ◌≤◌, ◌<◌, ◌≡◌, ◌⊎◌, sym, ◌∙◌, Bool, true, false, List, [], ◌∷◌, arith, leb, ℤ,
  pos, negsuc, int_eq, contains, length, inl, inr, Bool-cases, if◌then◌else◌,
}
use beetroot.Ports.{free_from, lowest_free_index}

-- How many members of `used` are `i` or more: the rounds that are left.
count_from : ℕ → List ℤ → ℕ
count_from i [] = 0
count_from i (pos n ∷ used) = (if leb i n then 1 else 0) + count_from i used
count_from i (negsuc n ∷ used) = count_from i used

count_from-suc-le : (i : ℕ) (used : List ℤ) → count_from (i + 1) used ≤ count_from i used
unfolding count_from
count_from-suc-le i [] = omega arith
count_from-suc-le i (pos n ∷ used) = ground (arith, count_from-suc-le i used)
count_from-suc-le i (negsuc n ∷ used) = count_from-suc-le i used

count_from-lt :
    (i : ℕ) (used : List ℤ)
    → contains (pos i) used ≡ true
    → count_from (i + 1) used < count_from i used
unfolding count_from
count_from-lt i [] h = cc
count_from-lt i (pos n ∷ used) h = ground (arith, count_from-lt i used, count_from-suc-le i used)
count_from-lt i (negsuc n ∷ used) h = count_from-lt i used h

count_from-le-length : (i : ℕ) (used : List ℤ) → count_from i used ≤ length used
unfolding count_from
count_from-le-length i [] = omega arith
count_from-le-length i (pos n ∷ used) = ground (arith, count_from-le-length i used)
count_from-le-length i (negsuc n ∷ used) = ground (arith, count_from-le-length i used)

free_from-fresh :
    (fuel i : ℕ) (used : List ℤ)
    → count_from i used < fuel
    → contains (pos (free_from fuel i used)) used ≡ false
unfolding free_from
free_from-fresh zero i used h = elim h [ ]
free_from-fresh (suc fuel) i used h = elim (Bool-cases (contains (pos i) used)) [
  | inl taken ↦
      rw taken (free_from-fresh fuel (i + 1) used (omega (arith, count_from-lt i used taken)))
  | inr free ↦ rw free free
]

free_from-le :
    (fuel i : ℕ) (used : List ℤ)
    → count_from i used < fuel
    → free_from fuel i used ≤ i + count_from i used
unfolding free_from
free_from-le zero i used h = elim h [ ]
free_from-le (suc fuel) i used h =
    ground (arith, free_from-le fuel (i + 1) used, count_from-lt i used)

free_from-minimal :
    (fuel i : ℕ) (used : List ℤ) (j : ℕ)
    → i ≤ j
    → j < free_from fuel i used
    → contains (pos j) used ≡ true
unfolding free_from
free_from-minimal zero i used j h k = absurd (omega arith)
free_from-minimal (suc fuel) i used j h k = ground (arith, free_from-minimal fuel (i + 1) used j)

pub lowest_free_index_fresh : (used : List ℤ) → contains (pos (lowest_free_index used)) used ≡ false
unfolding lowest_free_index
lowest_free_index_fresh used =
    free_from-fresh (length used + 1) 0 used (omega (arith, count_from-le-length 0 used))

lowest_free_index_minimal :
    (used : List ℤ) (j : ℕ) → j < lowest_free_index used → contains (pos j) used ≡ true
unfolding lowest_free_index
lowest_free_index_minimal used j h = free_from-minimal (length used + 1) 0 used j (omega arith) h

lowest_free_index-le-length : (used : List ℤ) → lowest_free_index used ≤ length used
unfolding lowest_free_index
lowest_free_index-le-length used = omega (
  arith,
  free_from-le (length used + 1) 0 used (omega (arith, count_from-le-length 0 used)),
  count_from-le-length 0 used,
)

lt-or-le : (a b : ℕ) → (a < b) ⊎ (b ≤ a)
lt-or-le a b = grind arith

true-ne-false : ◌≡◌ {A = Bool} true false → ⊥
true-ne-false h = cc

-- The loop ends, for every list of used indices: the index that `lowest_free_index` returns is not
-- in use, it is at most any index that is not in use, and at most the number of indices in use.
pub lowest_free_index_lem :
    (used : List ℤ) (j : ℕ)
    → contains (pos j) used ≡ false
    → (contains (pos (lowest_free_index used)) used ≡ false)
      × (lowest_free_index used ≤ j)
      × (lowest_free_index used ≤ length used)
lowest_free_index_lem used j h = (
  lowest_free_index_fresh used,
  elim (lt-or-le j (lowest_free_index used)) [
    | inl lt ↦ absurd (true-ne-false (sym (lowest_free_index_minimal used j lt) ∙ h))
    | inr le ↦ le
  ],
  lowest_free_index-le-length used,
)
