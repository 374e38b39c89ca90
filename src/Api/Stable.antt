-- ===== src/Api/Stable.antt =====
-- Conditions on the state that survive changes inside one instance's directory and reads of the
-- registry, and the steps of src/beetroot/api.py that make no other change.
use beetroot.Prelude.{◌≡◌, Bool, true, false, Result}
use beetroot.Prelude.Actions.{Action}
use beetroot.Prelude.Triples.{Keeps, always-Ends, Ends-always}
use beetroot.Dict.{Dict}
use beetroot.Registry.{Platform}
use beetroot.Registry.Backend.{ConfigClass}
use beetroot.Registry.Storage.{Files}
use beetroot.Registry.Transactions.{listed}
use beetroot.Disk.{FilePath, Disk}
use beetroot.Disk.Outside.{Outside, Outside-refl}
use beetroot.Api.{World, on_files, on_disk, look, when, when_disk}

-- What a change inside `root`, and a change of the registry's files that keeps what is listed,
-- leave in place.
pub record IsStable {T Text : Type 0} (p : Platform T Text) (classes : Dict ConfigClass)
    (root : FilePath) (I : World Text → Type 0) : Type 0 where
  pub inside : (w : World Text) (d : Disk) → Outside root w.disk d → I w → I (record w { disk = d })
  pub reread :
      (w : World Text) (f : Files Text)
      → listed p classes f ≡ listed p classes w.files
      → I w
      → I (record w { files = f })

module _ {T Text : Type 0} {p : Platform T Text} {classes : Dict ConfigClass} {root : FilePath}
    {I : World Text → Type 0} (stable : IsStable p classes root I) where
  pub Keeps-on_disk {ℓ} :
      {A : Type ℓ} (act : Action Disk A)
      → ((start : Disk) → Keeps (Outside root start) act)
      → Keeps I (on_disk act)
  Keeps-on_disk act k = record {
    run = λ w h. always-Ends I (on_disk act w) (
        stable.inside w (act w.disk).1
          (Ends-always (Outside root w.disk) (act w.disk)
            ((k w.disk).run w.disk (Outside-refl root w.disk)))
          h);
  }

  pub Keeps-on_files {ℓ} :
      {A : Type ℓ} (act : Files Text → Result A × Files Text)
      → ((f : Files Text) → listed p classes (act f).1 ≡ listed p classes f)
      → Keeps I (on_files act)
  Keeps-on_files act k = record {
    run = λ w h. always-Ends I (on_files act w) (stable.reread w (act w.files).1 (k w.files) h);
  }

module _ {Text : Type 0} (I : World Text → Type 0) where
  pub Keeps-look {ℓ} : {A : Type ℓ} (test : Disk → A) → Keeps I (look test)
  Keeps-look test = record { run = λ w h. h }

  Keeps-when :
      (test : Bool) (m : Action (World Text) (Unit {0})) → Keeps I m → Keeps I (when test m)
  Keeps-when true m k = record { run = λ w h. k.run w h }
  Keeps-when false m k = record { run = λ w h. h }

  pub Keeps-when_disk :
      (test : Disk → Bool) (m : Action (World Text) (Unit {0}))
      → Keeps I m
      → Keeps I (when_disk test m)
  Keeps-when_disk test m k = record { run = λ w h. (Keeps-when (test w.disk) m k).run w h }
