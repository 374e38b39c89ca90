-- ===== src/Registry/Classes.antt =====
-- `register_backend_config` of src/beetroot/registry.py: the kinds that have a class after it.
use mathlib.Core.Option.{some-injective}
use beetroot.Prelude.{
  ◌≡◌, refl, sym, ap, ◌∙◌, String, true, some, arith, ◌==◌, string_eq, option_eq, option_beq_iff,
  eq_iff, inl, inr, Option-cases, Bool-cases, ok,
}
use beetroot.Dict.{Dict, lookup, insert, lookup-insert}
use beetroot.Registry.Backend.{
  ConfigClass, redroid_class, adb_class, vm_class, external_class, kind_default, same_class,
  register_backend_config,
}
use beetroot.Registry.Reread.{HasInTree}

same_class_sound : (a b : ConfigClass) → same_class a b ≡ true → a ≡ b
same_class_sound (external_class a k) (external_class b l) h =
    ground (arith, eq_iff a b, option_beq_iff k l)
same_class_sound redroid_class redroid_class h = refl
same_class_sound adb_class adb_class h = refl
same_class_sound vm_class vm_class h = refl
same_class_sound _ _ h = absurd (ground arith)

register-eq-ok :
    (cls : ConfigClass) (classes : Dict ConfigClass) {out : Dict ConfigClass}
    → register_backend_config cls classes ≡ ok out
    → (kind : String) × (kind_default cls ≡ some kind)
      × (out ≡ insert kind cls classes)
      × ((old : ConfigClass) → lookup kind classes ≡ some old → old ≡ cls)
unfolding register_backend_config
register-eq-ok cls classes {out} h = elim (Option-cases (kind_default cls)) [
  | inl e ↦ absurd (ground arith)
  | inr (kind, e) ↦ elim (Option-cases (lookup kind classes)) [
    | inl f ↦ (kind, e, ground arith, λ old g. absurd (ground arith))
    | inr (old, f) ↦ elim (Bool-cases (same_class old cls)) [
      | inl same ↦ (
        kind,
        e,
        ground arith,
        λ other g. some-injective _ _ (sym g ∙ f) ∙ same_class_sound old cls same,
      )
      | inr differ ↦ absurd (ground arith)
    ]
  ]
]

register_own :
    (cls : ConfigClass) (classes out : Dict ConfigClass) (k : String)
    → register_backend_config cls classes ≡ ok out
    → kind_default cls ≡ some k
    → lookup k out ≡ some cls
register_own cls classes out k h d =
    let (kind, e, same, owner) = register-eq-ok cls classes h in
    rw same (
      lookup-insert k kind cls classes
      ∙ ground (arith, eq_iff k kind, some-injective _ _ (sym e ∙ d)))

register_others :
    (cls : ConfigClass) (classes out : Dict ConfigClass) (k : String) (old : ConfigClass)
    → register_backend_config cls classes ≡ ok out
    → lookup k classes ≡ some old
    → lookup k out ≡ some old
register_others cls classes out k old h f =
    let (kind, e, same, owner) = register-eq-ok cls classes h in
    rw same (
      lookup-insert k kind cls classes ∙ elim (Bool-cases (k == kind)) [
        | inl here ↦ rw here (ap some (sym (owner old (rw ((eq_iff k kind).0 here) at f))))
        | inr there ↦ rw there f
      ])

-- A registration that succeeds puts the class under its kind, and every kind that had a class
-- still has that class.
pub register_keeps :
    (cls : ConfigClass) (classes out : Dict ConfigClass) (kind other : String) (old : ConfigClass)
    → register_backend_config cls classes ≡ ok out
    → kind_default cls ≡ some kind
    → lookup other classes ≡ some old
    → (lookup kind out ≡ some cls) × (lookup other out ≡ some old)
register_keeps cls classes out kind other old h d f =
    (register_own cls classes out kind h d, register_others cls classes out other old h f)

-- The in-tree classes stay where they are.
pub register-HasInTree :
    (cls : ConfigClass) (classes out : Dict ConfigClass)
    → register_backend_config cls classes ≡ ok out
    → HasInTree classes
    → HasInTree out
register-HasInTree cls classes out h known = record {
  redroid_there = register_others cls classes out "redroid" redroid_class h known.redroid_there;
  adb_there = register_others cls classes out "adb" adb_class h known.adb_there;
  vm_there = register_others cls classes out "vm" vm_class h known.vm_there;
}
