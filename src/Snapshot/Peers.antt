-- ===== src/Snapshot/Peers.antt =====
-- What `restore` of src/beetroot/snapshot.py returns and leaves, and the directories of the listed
-- instances.
use beetroot.Prelude.{String, ◌≡◌, refl, ap, ◌∙◌, inl, inr, Bool, true, false, some}
use beetroot.Prelude.Triples.{Ends, Ends-mono, Ends-always}
use beetroot.Dict.{Dict, lookup}
use beetroot.Registry.Backend.{ConfigClass}
use beetroot.Registry.Rows.{InstanceMeta}
use beetroot.Registry.Operations.{directory}
use beetroot.Registry.Reread.{HasInTree}
use beetroot.Registry.Transactions.{listed}
use beetroot.Disk.{FilePath, under}
use beetroot.Disk.Paths.{overlaps, overlaps_comm}
use beetroot.Api.{Machine, World}
use beetroot.Api.Enroll.{Lists}
use beetroot.Api.Separate.{clear-All}
use beetroot.Api.Peers.{All-roots, Outside-apart}
use beetroot.Snapshot.{Archive, Archiver}
use beetroot.Snapshot.Restore.{restore}
use beetroot.Snapshot.Outcome.{Back, Safe, restore-Runs}

module _ {T Text : Type 0} (m : Machine T Text) (classes : Dict ConfigClass) (archiver : Archiver)
    (known : HasInTree classes) (archive : Archive) (name place : String) (force : Bool) (now : T)
    (w : World Text) where
  -- With the in-tree config classes registered, a call of restore either returns the resolved
  -- target, where the name was not listed and the target overlaps no listed directory, and lists
  -- the instance last, on the target and the lowest free index; or it raises, and lists what it
  -- listed before. If it raises, the disk is as it was, or the target overlaps no listed directory
  -- and the disk changed only inside it, but for missing directories above it, which may be made.
  pub restore_lem :
      let rows = listed m.platform classes w.files in
      Ends
        (Back m classes archiver known rows name place now w)
        (λ e w'. Lists m classes rows w' × Safe m classes archiver known rows name place now w w')
        (restore m classes archiver archive name place force now w)
  restore_lem =
      (restore-Runs m classes archiver known (listed m.platform classes w.files) name place now w
          archive force).run
        w (refl, refl)

  -- With the in-tree config classes registered, a call of restore, forced or not, leaves every
  -- path in the directory of a listed instance as it was, whether it returns or raises.
  pub restore-peer :
      (other path : String) (meta : InstanceMeta T) (q : FilePath)
      → lookup other (listed m.platform classes w.files) ≡ some meta
      → directory meta.backend ≡ some path
      → under (m.resolve path) q ≡ true
      → (restore m classes archiver archive name place force now w).1.disk q ≡ w.disk q
  restore-peer other path meta q found dir u =
      let rows = listed m.platform classes w.files in
      let ran = restore m classes archiver archive name place force now w in
      let safe : Safe m classes archiver known rows name place now w ran.1 =
        Ends-always (Safe m classes archiver known rows name place now w) ran (
          Ends-mono (Back m classes archiver known rows name place now w) _
            (λ e w'.
              Lists m classes rows w' × Safe m classes archiver known rows name place now w w')
            _ ran (λ out w' b. inr (b.2, b.4)) (λ e w' s. s.1) restore_lem) in
      elim safe [
        | inl same ↦ ap (λ d. d q) same
        | inr (clear, outside) ↦
            Outside-apart (m.resolve place) (m.resolve path) w.disk ran.1.disk
              (overlaps_comm (m.resolve place) (m.resolve path)
                ∙ All-roots m (λ d. overlaps d (m.resolve place) ≡ false) rows other path meta found
                    dir (clear-All m classes (m.resolve place) rows clear))
              outside q u
      ]
