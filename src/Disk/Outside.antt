-- ===== src/Disk/Outside.antt =====
-- Changes of the file system inside one directory: outside it everything stays, but for missing
-- directories above it, which `mkdir` makes.
use beetroot.Prelude.{
  String, ◌≡◌, refl, ◌∙◌, ◌⊎◌, inl, inr, Bool, true, false, none, some, [], ◌∷◌, string_eq, arith,
  eq_iff, Bool-cases, ◌||◌, not,
}
use beetroot.Prelude.Triples.{Keeps}
use beetroot.Disk.{
  FilePath, Disk, directory, is_parent, under, same_path, with_directory, mkdir, write_text, touch,
  rmtree, blocked_from, is_dir_entry, parent,
}
use beetroot.Disk.Paths.{same_path-under, under_trans}

abbrev pub Outside : FilePath → Disk → Disk → Type 0
Outside root before after =
    (q : FilePath)
    → under root q ≡ false
    → (after q ≡ before q)
      ⊎ ((before q ≡ none) × (after q ≡ some directory) × (is_parent q root ≡ true))

pub Outside-refl : (root : FilePath) (d : Disk) → Outside root d d
Outside-refl root d q h = inl refl

pub Outside-trans :
    (root : FilePath) (a b c : Disk) → Outside root a b → Outside root b c → Outside root a c
Outside-trans root a b c h k q n = ground (arith, h q n, k q n)

is_parent-under :
    (q root path : FilePath)
    → under root path ≡ true
    → is_parent q path ≡ true
    → under root q ≡ false
    → is_parent q root ≡ true
is_parent-under q [] path h k n = cc
is_parent-under q (a ∷ root) [] h k n = cc
is_parent-under [] (a ∷ root) (b ∷ path) h k n = refl
is_parent-under (c ∷ q) (a ∷ root) (b ∷ path) h k n =
    ground (arith, eq_iff a b, eq_iff c b, eq_iff a c, eq_iff c a, is_parent-under q root path)

-- A change that leaves what is outside the directory goes on from an earlier one.
module _ (root : FilePath) (start : Disk) where
  pub Outside-same :
      (d e : Disk)
      → ((q : FilePath) → under root q ≡ false → e q ≡ d q)
      → Outside root start d
      → Outside root start e
  Outside-same d e same h q n = elim (h q n) [
    | inl k ↦ inl (same q n ∙ k)
    | inr (a, b, c) ↦ inr (a, same q n ∙ b, c)
  ]

  Outside-mkdir_state :
      (path : FilePath) (d : Disk)
      → under root path ≡ true
      → Outside root start d
      → Outside root start (λ q. with_directory (same_path q path || is_parent q path) (d q))
  Outside-mkdir_state path d u h q n = ground (
    arith,
    h q n,
    same_path-under q path,
    under_trans root path q u,
    is_parent-under q root path u,
  )

module _ (refused : FilePath → Bool) (root : FilePath) (start : Disk) where
  pub mkdir-Outside :
      (path : FilePath) → under root path ≡ true → Keeps (Outside root start) (mkdir refused path)
  unfolding mkdir
  mkdir-Outside path u = record {
    run = λ d h. elim (Bool-cases (refused path || blocked_from [] path d)) [
      | inl e ↦ rw (e, mkdir) h
      | inr e ↦ rw (e, mkdir) (Outside-mkdir_state root start path d u h)
    ];
  }

  pub write_text-Outside :
      (path : FilePath) (text : String)
      → under root path ≡ true
      → Keeps (Outside root start) (write_text refused path text)
  unfolding write_text
  write_text-Outside path text u = record {
    run = λ d h.
        elim (Bool-cases
          (refused path || is_dir_entry (d path) || not (is_dir_entry (d (parent path))))) [
            | inl e ↦ rw (e, write_text) h
            | inr e ↦
                rw (e, write_text)
                  (Outside-same root start d _
                    (λ q n. ground (arith, same_path-under q path, under_trans root path q u)) h)
          ];
  }

  pub touch-Outside :
      (path : FilePath) → under root path ≡ true → Keeps (Outside root start) (touch refused path)
  unfolding touch
  touch-Outside path u = record {
    run = λ d h.
        elim (Bool-cases
          (refused path || is_dir_entry (d path) || not (is_dir_entry (d (parent path))))) [
            | inl e ↦ rw (e, touch) h
            | inr e ↦
                rw (e, touch)
                  (Outside-same root start d _
                    (λ q n. ground (arith, same_path-under q path, under_trans root path q u)) h)
          ];
  }

  pub rmtree-Outside :
      (path : FilePath) → under root path ≡ true → Keeps (Outside root start) (rmtree refused path)
  unfolding rmtree
  rmtree-Outside path u = record {
    run = λ d h. elim (Bool-cases (refused path || not (is_dir_entry (d path)))) [
      | inl e ↦ rw (e, rmtree) h
      | inr e ↦
          rw (e, rmtree)
            (Outside-same root start d _ (λ q n. ground (arith, under_trans root path q u)) h)
    ];
  }
