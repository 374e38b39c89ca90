-- ===== src/Disk/Paths.antt =====
-- Directories that contain one another: the tests of `pathlib`, and when two trees overlap.
use beetroot.Prelude.{
  String, ◌≡◌, refl, Bool, true, [], ◌∷◌, ◌||◌, string_eq, arith, eq_iff, beq_refl, beq_comm,
}
use beetroot.Disk.{FilePath, is_parent, under, same_path, child, parent}

-- reg_dir == target or target in reg_dir.parents or reg_dir in target.parents
abbrev pub overlaps : FilePath → FilePath → Bool
overlaps p q = same_path p q || is_parent q p || is_parent p q

pub overlaps-under : (p q : FilePath) → overlaps p q ≡ (under p q || under q p)
overlaps-under [] [] = refl
overlaps-under [] (b ∷ q) = refl
overlaps-under (a ∷ p) [] = refl
overlaps-under (a ∷ p) (b ∷ q) = ground (arith, beq_comm a b, overlaps-under p q)

pub under_refl : (p : FilePath) → under p p ≡ true
under_refl [] = refl
under_refl (a ∷ p) = ground (arith, beq_refl a, under_refl p)

pub same_path_sound : (p q : FilePath) → same_path p q ≡ true → p ≡ q
same_path_sound [] [] h = refl
same_path_sound [] (b ∷ q) h = cc
same_path_sound (a ∷ p) [] h = cc
same_path_sound (a ∷ p) (b ∷ q) h = ground (arith, eq_iff a b, same_path_sound p q)

pub overlaps_comm : (p q : FilePath) → overlaps p q ≡ overlaps q p
overlaps_comm p q = ground (arith, overlaps-under p q, overlaps-under q p)

-- Two directories that both hold a path overlap.
pub under_both :
    (p q r : FilePath) → under p r ≡ true → under q r ≡ true → (under p q || under q p) ≡ true
under_both [] q r h k = refl
under_both (a ∷ p) [] r h k = refl
under_both (a ∷ p) (b ∷ q) [] h k = cc
under_both (a ∷ p) (b ∷ q) (c ∷ r) h k =
    ground (arith, eq_iff a c, eq_iff b c, eq_iff a b, eq_iff b a, under_both p q r)

pub under_trans : (p q r : FilePath) → under p q ≡ true → under q r ≡ true → under p r ≡ true
under_trans [] q r h k = refl
under_trans (a ∷ p) [] r h k = cc
under_trans (a ∷ p) (b ∷ q) [] h k = cc
under_trans (a ∷ p) (b ∷ q) (c ∷ r) h k =
    ground (arith, eq_iff a b, eq_iff b c, eq_iff a c, under_trans p q r)

pub under-child : (p : FilePath) (name : String) → under p (child p name) ≡ true
under-child [] name = refl
under-child (a ∷ p) name = ground (arith, beq_refl a, under-child p name)

pub parent-child : (p : FilePath) (name : String) → parent (child p name) ≡ p
parent-child [] name = refl
parent-child (a ∷ []) name = refl
parent-child (a ∷ b ∷ p) name = ground (arith, parent-child (b ∷ p) name)

-- A path above a directory's child is the directory or above it.
pub is_parent-child :
    (q p : FilePath) (name : String) → is_parent q (child p name) ≡ (same_path q p || is_parent q p)
is_parent-child [] [] name = refl
is_parent-child [] (b ∷ p) name = refl
is_parent-child (a ∷ []) [] name = ground arith
is_parent-child (a ∷ b ∷ q) [] name = ground arith
is_parent-child (a ∷ q) (b ∷ p) name = ground (arith, is_parent-child q p name)

pub same_path-under : (q p : FilePath) → same_path q p ≡ true → under p q ≡ true
same_path-under [] [] h = refl
same_path-under [] (b ∷ p) h = cc
same_path-under (a ∷ q) [] h = cc
same_path-under (a ∷ q) (b ∷ p) h = ground (arith, beq_comm a b, same_path-under q p)
