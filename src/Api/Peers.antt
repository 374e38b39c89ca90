-- ===== src/Api/Peers.antt =====
-- The directories of the other instances, when src/beetroot/api.py destroys, resets or applies one.
use beetroot.Prelude.{
  subst, String, ◌≡◌, ◌≢◌, refl, ap, ◌∙◌, Bool, true, false, Option, none, some, List, [], ◌∷◌,
  Result, arith, ◌==◌, string_eq, eq_iff, inl, inr, Bool-cases, All,
}
use mathlib.Core.Option.{some-injective}
use beetroot.Prelude.Triples.{Ends-always}
use beetroot.Dict.{Dict, lookup}
use beetroot.Registry.Backend.{ConfigClass}
use beetroot.Registry.Rows.{InstanceMeta}
use beetroot.Registry.Operations.{directory}
use beetroot.Registry.Transactions.{listed}
use beetroot.Disk.{FilePath, Disk, under, is_parent}
use beetroot.Disk.Paths.{overlaps, overlaps-under, overlaps_comm, under_both, under_trans}
use beetroot.Disk.Outside.{Outside, Outside-refl}
use beetroot.Api.{Machine, World, Instance}
use beetroot.Api.Lifecycle.{destroy, reset, apply}
use beetroot.Api.Enroll.{Elsewhere-IsStable, Elsewhere}
use beetroot.Api.Isolation.{destroy-Kept, reset-Keeps, apply-Kept}
use beetroot.Api.Separate.{Separate, roots, with_root}
use beetroot.Api.Apart.{Apart}

is_parent-under : (q p : FilePath) → is_parent q p ≡ true → under q p ≡ true
is_parent-under [] [] h = refl
is_parent-under [] (b ∷ p) h = refl
is_parent-under (a ∷ q) [] h = cc
is_parent-under (a ∷ q) (b ∷ p) h = ground (arith, is_parent-under q p)

-- A change inside one tree leaves a tree apart from it as it was.
pub Outside-apart :
    (root other : FilePath) (d e : Disk)
    → overlaps root other ≡ false
    → Outside root d e
    → (q : FilePath) → under other q ≡ true
    → e q ≡ d q
Outside-apart root other d e free h q u = elim (Bool-cases (under root q)) [
  | inl r ↦ absurd (ground (arith, under_both root other q r u, overlaps-under root other))
  | inr r ↦ elim (h q r) [
    | inl same ↦ same
    | inr (a, b, c) ↦ absurd (
        ground
          (arith, overlaps-under root other, under_trans other q root u (is_parent-under q root c)))
  ]
]

module _ {T Text : Type 0} (m : Machine T Text) where
  All-with_root-head :
      (P : FilePath → Type 0) (o : Option String) (ds : List FilePath) {path : String}
      → o ≡ some path
      → All P (with_root m o ds)
      → P (m.resolve path)
  All-with_root-head P none ds e h = cc
  All-with_root-head P (some p) ds {path} e h =
      subst (λ x. P (m.resolve x)) (some-injective _ _ e) h.0

  All-with_root-rest :
      (P : FilePath → Type 0) (o : Option String) (ds : List FilePath)
      → All P (with_root m o ds)
      → All P ds
  All-with_root-rest P none ds h = h
  All-with_root-rest P (some p) ds h = h.1

  pub All-roots :
      (P : FilePath → Type 0) (rows : Dict (InstanceMeta T)) (name path : String)
      (meta : InstanceMeta T)
      → lookup name rows ≡ some meta
      → directory meta.backend ≡ some path
      → All P (roots m rows)
      → P (m.resolve path)
  unfolding roots lookup
  All-roots P [] name path meta found dir h = cc
  All-roots P ((k, x) ∷ rows) name path meta found dir h = elim (Bool-cases (name == k)) [
    | inl same ↦
        All-with_root-head P (directory x.backend) (roots m rows) {path = path}
          (ap (λ y. directory y.backend) (some-injective _ _ (rw same at found)) ∙ dir) h
    | inr other ↦
        All-roots P rows name path meta (rw other at found) dir
          (All-with_root-rest P (directory x.backend) (roots m rows) h)
  ]

  -- the head row against a later one
  Separate-head :
      (o : Option String) (ds : List FilePath) (P : FilePath → Type 0) {path : String}
      → o ≡ some path
      → ((All (λ e. overlaps (m.resolve path) e ≡ false) ds) → P (m.resolve path))
      → Separate (with_root m o ds)
      → P (m.resolve path)
  Separate-head none ds P e f h = cc
  Separate-head (some p) ds P {path} e f h =
      f (subst (λ x. All (λ e. overlaps (m.resolve x) e ≡ false) ds) (some-injective _ _ e) h.0)

  Separate-rest :
      (o : Option String) (ds : List FilePath) → Separate (with_root m o ds) → Separate ds
  Separate-rest none ds h = h
  Separate-rest (some p) ds h = h.1

  -- Two names whose directories are separate.
  Separate-lookup :
      (rows : Dict (InstanceMeta T)) (name other path path' : String) (meta meta' : InstanceMeta T)
      → Separate (roots m rows)
      → lookup name rows ≡ some meta
      → directory meta.backend ≡ some path
      → lookup other rows ≡ some meta'
      → directory meta'.backend ≡ some path'
      → name ≢ other
      → overlaps (m.resolve path) (m.resolve path') ≡ false
  unfolding roots lookup
  Separate-lookup [] name other path path' meta meta' h f d f' d' ne = cc
  Separate-lookup ((k, x) ∷ rows) name other path path' meta meta' h f d f' d' ne =
      elim (Bool-cases (name == k)) [
        | inl here ↦
            Separate-head (directory x.backend) (roots m rows)
              (λ r. overlaps r (m.resolve path') ≡ false) {path = path}
              (ap (λ y. directory y.backend) (some-injective _ _ (rw here at f)) ∙ d)
              (λ all.
                All-roots (λ e. overlaps (m.resolve path) e ≡ false) rows other path' meta'
                  (ground (arith, eq_iff name k, eq_iff other k)) d' all)
              h
        | inr later ↦ elim (Bool-cases (other == k)) [
          | inl here ↦
              overlaps_comm (m.resolve path) (m.resolve path')
              ∙ Separate-head (directory x.backend) (roots m rows)
                  (λ r. overlaps r (m.resolve path) ≡ false) {path = path'}
                  (ap (λ y. directory y.backend) (some-injective _ _ (rw here at f')) ∙ d')
                  (λ all.
                    All-roots (λ e. overlaps (m.resolve path') e ≡ false) rows name path meta
                      (rw later at f) d all)
                  h
          | inr last ↦
              Separate-lookup rows name other path path' meta meta'
                (Separate-rest (directory x.backend) (roots m rows) h) (rw later at f) d
                (rw last at f') d' ne
        ]
      ]

  -- With no overlap between the directories of the listed instances: destroying, resetting or
  -- applying a listed instance on its directory leaves every path in the directory of another
  -- listed instance as it was, whether the call returns or raises.
  pub destroy-reset-apply-peer :
      (classes : Dict ConfigClass) (w : World Text) (inst : Instance) (other path path' : String)
      (meta meta' : InstanceMeta T) (confirmed : Bool) (down : Result (Unit {0})) (q : FilePath)
      → Apart m classes w
      → lookup inst.name (listed m.platform classes w.files) ≡ some meta
      → directory meta.backend ≡ some path
      → inst.root ≡ m.resolve path
      → lookup other (listed m.platform classes w.files) ≡ some meta'
      → directory meta'.backend ≡ some path'
      → inst.name ≢ other
      → under (m.resolve path') q ≡ true
      → ((destroy m classes inst confirmed down w).1.disk q ≡ w.disk q)
        × ((reset m classes inst confirmed down w).1.disk q ≡ w.disk q)
        × ((apply m classes inst w).1.disk q ≡ w.disk q)
  destroy-reset-apply-peer classes w inst other path path' meta meta' confirmed down q h f d at f'
        d' ne u =
      let K : World Text → Type 0 = Elsewhere m classes inst.root w in
      let start = Outside-refl inst.root w.disk in
      let free =
        ap (λ r. overlaps r (m.resolve path')) at
        ∙ Separate-lookup (listed m.platform classes w.files) inst.name other path path' meta meta'
            h f d f' d' ne in
      let same : (w' : World Text) → K w' → w'.disk q ≡ w.disk q =
        λ w' k. Outside-apart inst.root (m.resolve path') w.disk w'.disk free k q u in
      (
        same (destroy m classes inst confirmed down w).1
            (Ends-always K _ ((destroy-Kept m classes inst w confirmed down).run w start)),
        same (reset m classes inst confirmed down w).1 (
            Ends-always K _ (
              (reset-Keeps m classes inst (Elsewhere-IsStable m classes inst.root w) confirmed
                  down).run
                w start)),
        same (apply m classes inst w).1
            (Ends-always K _ ((apply-Kept m classes inst w).run w start)),
      )
