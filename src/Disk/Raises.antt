-- ===== src/Disk/Raises.antt =====
-- The exceptions of the calls on the file system, and what a removal leaves.
use beetroot.Prelude.{◌≡◌, refl, Bool, false, ◌||◌, not, [], os_error, inl, inr, Bool-cases}
use beetroot.Prelude.Actions.{Action}
use beetroot.Prelude.Triples.{Runs}
use beetroot.Disk.{FilePath, Disk, mkdir, touch, rmtree, blocked_from, is_dir_entry, parent, exists}
use beetroot.Disk.Paths.{under_refl}

-- Every exception of the call is an OSError.
abbrev pub OnlyOsError : Action Disk (Unit {0}) → Type 0
OnlyOsError act = Runs (λ d. Unit {0}) act (λ _ d. Unit {0}) (λ e d. e ≡ os_error)

module _ (refused : FilePath → Bool) where
  pub mkdir-OnlyOsError : (path : FilePath) → OnlyOsError (mkdir refused path)
  unfolding mkdir
  mkdir-OnlyOsError path = record {
    run = λ d h. elim (Bool-cases (refused path || blocked_from [] path d)) [
      | inl e ↦ rw (e, mkdir) refl
      | inr e ↦ rw (e, mkdir) tt
    ];
  }

  pub touch-OnlyOsError : (path : FilePath) → OnlyOsError (touch refused path)
  unfolding touch
  touch-OnlyOsError path = record {
    run = λ d h.
        elim (Bool-cases
          (refused path || is_dir_entry (d path) || not (is_dir_entry (d (parent path))))) [
            | inl e ↦ rw (e, touch) refl
            | inr e ↦ rw (e, touch) tt
          ];
  }

  -- After a removal nothing is at the path.
  pub rmtree-Runs :
      (path : FilePath)
      → Runs
          (λ d. Unit {0})
          (rmtree refused path)
          (λ _ d. exists path d ≡ false)
          (λ e d. e ≡ os_error)
  unfolding rmtree exists
  rmtree-Runs path = record {
    run = λ d h. elim (Bool-cases (refused path || not (is_dir_entry (d path)))) [
      | inl e ↦ rw (e, rmtree) refl
      | inr e ↦ rw (e, rmtree) (rw (under_refl path))
    ];
  }
