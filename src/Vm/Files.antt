-- ===== src/Vm/Files.antt =====
-- The changes that the micro-VM backend makes to single files, path by path.
use beetroot.Prelude.{
  String, ◌≡◌, refl, ap, ◌⊎◌, inl, inr, Bool, true, false, ◌==◌, string_eq, beq_refl, arith, Option,
  none, some, [], ◌∷◌, ok, err, Bool-cases, Result, Bool-cases, ◌||◌, not,
}
use beetroot.Prelude.Triples.{Ends}
use beetroot.Disk.{
  FilePath, Disk, Entry, file, directory, child, same_path, under, is_file_entry, is_there,
  is_dir_entry, blocked_from, write_text, mkdir, with_directory, parent, is_parent,
}
use beetroot.Disk.Paths.{same_path_sound, under-child}
use beetroot.Vm.{unlink, replace}

pub same_path_refl : (p : FilePath) → same_path p p ≡ true
same_path_refl [] = refl
same_path_refl (a ∷ p) = ground (arith, beq_refl a, same_path_refl p)

pub same_path-child :
    (root : FilePath) (a b : String) → same_path (child root a) (child root b) ≡ (a == b)
same_path-child [] a b = ground arith
same_path-child (c ∷ root) a b = ground (arith, beq_refl c, same_path-child root a b)

-- a path that is not in a directory is no entry of it
pub same_path-outside :
    (q root : FilePath) (name : String)
    → under root q ≡ false
    → same_path q (child root name) ≡ false
same_path-outside q root name h = elim (Bool-cases (same_path q (child root name))) [
  | inl e ↦ cc (ap (under root) (same_path_sound q (child root name) e), under-child root name, h)
  | inr e ↦ e
]

module _ (refused : FilePath → Bool) where
  unlink-entry :
      (path : FilePath) (disk : Disk) (entry : Option Entry)
      → disk path ≡ entry
      → (is_file_entry ((unlink refused path disk).1 path) ≡ false) ⊎ (refused path ≡ true)
  unfolding unlink
  unlink-entry path disk none e = inl (ground (arith, e))
  unlink-entry path disk (some directory) e = inl (ground (arith, e))
  unlink-entry path disk (some (file text)) e = elim (Bool-cases (refused path)) [
    | inl r ↦ inr r
    | inr r ↦ inl (rw (e, is_there) (rw (r, e, is_dir_entry) (rw (same_path_refl path) refl)))
  ]

  pub unlink_lem :
      (path : FilePath) (disk : Disk)
      → (is_file_entry ((unlink refused path disk).1 path) ≡ false) ⊎ (refused path ≡ true)
  unlink_lem path disk = unlink-entry path disk (disk path) refl

  pub unlink-none :
      (path q : FilePath) (disk : Disk) → disk q ≡ none → (unlink refused path disk).1 q ≡ none
  unfolding unlink
  unlink-none path q disk e = elim (Bool-cases (is_there (disk path))) [
    | inl t ↦ rw t (elim (Bool-cases (refused path)) [
      | inl r ↦ rw r e
      | inr r ↦ rw r (elim (Bool-cases (is_dir_entry (disk path))) [
        | inl d ↦ rw d e
        | inr d ↦ rw d (ground (arith, e))
      ])
    ])
    | inr t ↦ rw t e
  ]

  -- A file that was removed without an error is not there.
  pub unlink-Ends :
      (path : FilePath) (disk : Disk)
      → Ends (λ _ d. d path ≡ none) (λ e d. d ≡ disk) (unlink refused path disk)
  unfolding unlink
  unlink-Ends path disk = elim (Bool-cases (is_there (disk path))) [
    | inl t ↦ rw t (elim (Bool-cases (refused path)) [
      | inl r ↦ rw r refl
      | inr r ↦ rw r (elim (Bool-cases (is_dir_entry (disk path))) [
        | inl d ↦ rw d refl
        | inr d ↦ rw d (rw (same_path_refl path) refl)
      ])
    ])
    | inr t ↦ rw t (ground (arith, t))
  ]

  unlink-after :
      (Q I : Disk → Type 0) (disk : Disk) (r : Result (Unit {0}) × Disk)
      → I r.1
      → Ends (λ _ d. Q d) (λ e d. d ≡ disk) r
      → Ends (λ _ d. I d) (λ e d. d ≡ disk) r
  unlink-after Q I disk (ok a, d) i k = i
  unlink-after Q I disk (err e, d) i k = k

  -- Removing a file brings no file back.
  pub unlink-Ends_none :
      (path q : FilePath) (disk : Disk)
      → disk q ≡ none
      → Ends (λ _ d. d q ≡ none) (λ e d. d ≡ disk) (unlink refused path disk)
  unlink-Ends_none path q disk e =
      unlink-after (λ d. d path ≡ none) (λ d. d q ≡ none) disk (unlink refused path disk)
        (unlink-none path q disk e) (unlink-Ends path disk)

  pub write_text-Ends :
      (path : FilePath) (text : String) (disk : Disk)
      → Ends
          (λ _ d.
            (d path ≡ some (file text))
            × ((q : FilePath) → same_path q path ≡ false → d q ≡ disk q))
          (λ e d. d ≡ disk)
          (write_text refused path text disk)
  unfolding write_text
  write_text-Ends path text disk =
      elim (Bool-cases
        (refused path || is_dir_entry (disk path) || not (is_dir_entry (disk (parent path))))) [
          | inl r ↦ rw r refl
          | inr r ↦ rw r (rw (same_path_refl path) refl, λ q e. rw e refl)
        ]

  pub replace-Ends :
      (path target : FilePath) (disk : Disk)
      → Ends
          (λ _ d.
            (d target ≡ disk path)
            × ((q : FilePath)
                → same_path q target ≡ false
                → same_path q path ≡ false
                → d q ≡ disk q))
          (λ e d. d ≡ disk)
          (replace refused path target disk)
  unfolding replace
  replace-Ends path target disk = elim (Bool-cases (refused target)) [
    | inl r ↦ rw r refl
    | inr r ↦ rw r (elim (Bool-cases (is_dir_entry (disk target))) [
      | inl d ↦ rw d refl
      | inr d ↦ rw d (elim (Bool-cases (is_there (disk path))) [
        | inl t ↦ rw t (rw (same_path_refl target) refl, λ q e f. rw (e, f) refl)
        | inr t ↦ rw t refl
      ])
    ])
  ]

  with_directory-some :
      (above : Bool) (old : Option Entry) (entry : Entry)
      → old ≡ some entry
      → with_directory above old ≡ some entry
  with_directory-some true old entry e = rw e refl
  with_directory-some false old entry e = e

  -- Making a directory leaves what is there.
  pub mkdir-Ends :
      (path : FilePath) (disk : Disk)
      → Ends
          (λ _ d. (q : FilePath) (entry : Entry) → disk q ≡ some entry → d q ≡ some entry)
          (λ e d. d ≡ disk)
          (mkdir refused path disk)
  unfolding mkdir
  mkdir-Ends path disk = elim (Bool-cases (refused path || blocked_from [] path disk)) [
    | inl r ↦ rw r refl
    | inr r ↦
        rw r (λ q entry. with_directory-some (same_path q path || is_parent q path) (disk q) entry)
  ]
