-- ===== src/Api/Separate.antt =====
-- The directories of the listed instances do not overlap, whatever the calls of
-- src/beetroot/api.py do.
use beetroot.Prelude.{
  String, ◌≡◌, refl, sym, ap, ◌∙◌, subst, false, Option, none, some, List, [], ◌∷◌, ◌++◌, arith,
  string_eq, inl, inr, Bool-cases, All, All-snoc, any, ◌==◌,
}
use mathlib.Core.Option.{some-injective}
use beetroot.Dict.{Dict, values, erase, insert, lookup}
use beetroot.Registry.Backend.{ConfigClass}
use beetroot.Registry.Rows.{InstanceMeta}
use beetroot.Registry.Operations.{directory}
use beetroot.Disk.{FilePath}
use beetroot.Disk.Paths.{overlaps}
use beetroot.Api.{Machine}
use beetroot.Api.Staging.{overlapping}

-- Pairwise, no directory contains another or is it.
abbrev pub Separate : List FilePath → Type 0
Separate [] = Unit
Separate (d ∷ ds) = All (λ e. overlaps d e ≡ false) ds × Separate ds

Separate-snoc :
    (ds : List FilePath) (e : FilePath)
    → All (λ d. overlaps d e ≡ false) ds
    → Separate ds
    → Separate (ds ++ e ∷ [])
Separate-snoc [] e h k = (tt, tt)
Separate-snoc (d ∷ ds) e h k =
    (All-snoc (λ x. overlaps d x ≡ false) e ds k.0 h.0, Separate-snoc ds e h.1 k.1)

module _ {T Text : Type 0} (m : Machine T Text) where
  abbrev pub with_root : Option String → List FilePath → List FilePath
  with_root none ds = ds
  with_root (some path) ds = m.resolve path ∷ ds

  -- the resolved directories of the directory-backed rows
  unfoldable pub roots : Dict (InstanceMeta T) → List FilePath
  roots [] = []
  roots ((name, meta) ∷ rows) = with_root (directory meta.backend) (roots rows)

  with_root-append :
      (o : Option String) (ds es : List FilePath) → with_root o (ds ++ es) ≡ with_root o ds ++ es
  with_root-append none ds es = refl
  with_root-append (some path) ds es = refl

  All-with_root_tail :
      (P : FilePath → Type 0) (o : Option String) (ds : List FilePath)
      → All P (with_root o ds)
      → All P ds
  All-with_root_tail P none ds h = h
  All-with_root_tail P (some path) ds h = h.1

  All-with_root :
      (P : FilePath → Type 0) (o : Option String) (ds es : List FilePath)
      → (All P ds → All P es)
      → All P (with_root o ds)
      → All P (with_root o es)
  All-with_root P none ds es f h = f h
  All-with_root P (some path) ds es f h = (h.0, f h.1)

  Separate-with_root_tail :
      (o : Option String) (ds : List FilePath) → Separate (with_root o ds) → Separate ds
  Separate-with_root_tail none ds h = h
  Separate-with_root_tail (some path) ds h = h.1

  Separate-with_root :
      (o : Option String) (ds es : List FilePath)
      → ((P : FilePath → Type 0) → All P ds → All P es)
      → (Separate ds → Separate es)
      → Separate (with_root o ds)
      → Separate (with_root o es)
  Separate-with_root none ds es f g h = g h
  Separate-with_root (some path) ds es f g h =
      (f (λ e. overlaps (m.resolve path) e ≡ false) h.0, g h.1)

  roots-snoc :
      (rows : Dict (InstanceMeta T)) (name : String) (meta : InstanceMeta T)
      → roots (rows ++ (name, meta) ∷ []) ≡ roots rows ++ with_root (directory meta.backend) []
  unfolding roots
  roots-snoc [] name meta = refl
  roots-snoc ((k, x) ∷ rows) name meta =
      ap (with_root (directory x.backend)) (roots-snoc rows name meta)
      ∙ with_root-append (directory x.backend) (roots rows) _

  pub roots-insert :
      (rows : Dict (InstanceMeta T)) (name : String) (meta new : InstanceMeta T)
      → lookup name rows ≡ some meta
      → directory new.backend ≡ directory meta.backend
      → roots (insert name new rows) ≡ roots rows
  unfolding roots lookup insert
  roots-insert [] name meta new h e = cc
  roots-insert ((k, x) ∷ rows) name meta new h e = elim (Bool-cases (name == k)) [
    | inl same ↦ rw same (
        ap (λ o. with_root o (roots rows))
          (e ∙ ap (λ y. directory y.backend) (sym (some-injective _ _ (rw same at h)))))
    | inr other ↦
        rw other
          (ap (with_root (directory x.backend)) (roots-insert rows name meta new (rw other at h) e))
  ]

  All-roots-erase :
      (name : String) (rows : Dict (InstanceMeta T)) (P : FilePath → Type 0)
      → All P (roots rows)
      → All P (roots (erase name rows))
  unfolding roots erase
  All-roots-erase name [] P h = tt
  All-roots-erase name ((k, x) ∷ rows) P h = elim (Bool-cases (name == k)) [
    | inl same ↦ rw same (All-with_root_tail P (directory x.backend) (roots rows) h)
    | inr other ↦ rw other (
        All-with_root P (directory x.backend) (roots rows) (roots (erase name rows))
          (All-roots-erase name rows P) h)
  ]

  pub Separate-erase :
      (name : String) (rows : Dict (InstanceMeta T))
      → Separate (roots rows)
      → Separate (roots (erase name rows))
  unfolding roots erase
  Separate-erase name [] h = tt
  Separate-erase name ((k, x) ∷ rows) h = elim (Bool-cases (name == k)) [
    | inl same ↦ rw same (Separate-with_root_tail (directory x.backend) (roots rows) h)
    | inr other ↦ rw other (
        Separate-with_root (directory x.backend) (roots rows) (roots (erase name rows))
          (All-roots-erase name rows) (Separate-erase name rows) h)
  ]

  clear-with_root :
      (target : FilePath) (o : Option String) (ds : List FilePath)
      → (elim o [ none ↦ false | some path ↦ overlaps (m.resolve path) target ]) ≡ false
      → All (λ d. overlaps d target ≡ false) ds
      → All (λ d. overlaps d target ≡ false) (with_root o ds)
  clear-with_root target none ds e h = h
  clear-with_root target (some path) ds e h = (e, h)

  -- no listed directory overlaps the target
  pub clear-All :
      (classes : Dict ConfigClass) (target : FilePath) (rows : Dict (InstanceMeta T))
      → any (overlapping m classes target) (values rows) ≡ false
      → All (λ d. overlaps d target ≡ false) (roots rows)
  unfolding roots
  clear-All classes target [] h = tt
  clear-All classes target ((k, x) ∷ rows) h =
      clear-with_root target (directory x.backend) (roots rows) (ground arith)
        (clear-All classes target rows (ground arith))

  -- a new row whose directory overlaps no listed one
  pub Separate-new :
      (classes : Dict ConfigClass) (target : FilePath) (rows : Dict (InstanceMeta T))
      (name path : String) (meta : InstanceMeta T)
      → directory meta.backend ≡ some path
      → m.resolve path ≡ target
      → any (overlapping m classes target) (values rows) ≡ false
      → Separate (roots rows)
      → Separate (roots (rows ++ (name, meta) ∷ []))
  Separate-new classes target rows name path meta dir at clear h =
      subst Separate
        (sym (
          roots-snoc rows name meta
          ∙ ap (λ o. roots rows ++ with_root o []) dir
          ∙ ap (λ d. roots rows ++ d ∷ []) at))
        (Separate-snoc (roots rows) target (clear-All classes target rows clear) h)
