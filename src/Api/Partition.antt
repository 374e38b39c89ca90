-- ===== src/Api/Partition.antt =====
-- One row in the walks of `Manager.list_instances` and `Manager.list_orphans` of
-- src/beetroot/api.py.
use beetroot.Prelude.{
  String, ◌≡◌, refl, sym, ap, ◌∙◌, subst, Bool, true, false, ◌&&◌, ◌||◌, not, Option, none, some,
  List, [], ◌∷◌, Result, ok, err, arith, ◌==◌, string_eq, eq_iff, inl, inr, Bool-cases, contains,
  if◌then◌else◌,
}
use mathlib.Core.Option.{some-injective}
use beetroot.Prelude.Maybe.{is_some}
use beetroot.Prelude.Triples.{Runs, Ends, Runs->>=, Runs-fact, Runs-return}
use beetroot.Dict.{Dict, member, lookup}
use beetroot.Registry.Backend.{BackendConfig, ConfigClass, redroid, adb, vm, external, unresolved}
use beetroot.Registry.Rows.{InstanceMeta}
use beetroot.Config.Schema.{InstanceConfig}
use beetroot.Disk.{FilePath, Disk, is_file}
use beetroot.Disk.Layout.{instance_yaml}
use beetroot.Api.{Machine, World, Instance, load_yaml}
use beetroot.Api.Enroll.{Lists}
use beetroot.Api.Manager.{
  redroid_path, prepend, is_error, load_listed, load_all, is_orphan, orphan_names,
}
use beetroot.Api.Orphans.{Found, entry, loaded_option, loadable, At, Never, load-Ends}

abbrev pub names : List Instance → List String
names [] = []
names (inst ∷ insts) = inst.name ∷ names insts

module _ {T Text : Type 0} (m : Machine T Text) (classes : Dict ConfigClass)
    (rows : Dict (InstanceMeta T)) where
  load_listed-Ends :
      (name : String) (x : InstanceMeta T) (b : BackendConfig) (w : World Text)
      → lookup name rows ≡ some x
      → x.backend ≡ b
      → Lists m classes rows w
      → Ends
          (λ o v. (o ≡ entry m classes w.disk name (redroid_path b)) × At m classes rows w.disk v)
          (Never m classes rows)
          (load_listed m classes name (redroid_path b) w)
  unfolding load_listed
  load_listed-Ends name x (redroid path layout) w found shape h =
      elim (Bool-cases (is_file (instance_yaml (m.resolve path)) w.disk)) [
        | inl there ↦
            rw (there, load_listed) (load-Ends m classes rows name path layout x w found shape h)
        | inr missing ↦ rw (missing, load_listed) (refl, (h, refl))
      ]
  load_listed-Ends name x (adb serial) w found shape h = (refl, (h, refl))
  load_listed-Ends name x (vm path) w found shape h = (refl, (h, refl))
  load_listed-Ends name x (external k d) w found shape h = (refl, (h, refl))
  load_listed-Ends name x (unresolved k d) w found shape h = (refl, (h, refl))

  load_listed-Runs :
      (disk : Disk) (name : String) (x : InstanceMeta T)
      → lookup name rows ≡ some x
      → Runs
          (At m classes rows disk)
          (load_listed m classes name (redroid_path x.backend))
          (λ o v.
            (o ≡ entry m classes disk name (redroid_path x.backend)) × At m classes rows disk v)
          (Never m classes rows)
  load_listed-Runs disk name x found = record {
    run = λ w h.
        subst
          (λ d.
            Ends
              (λ o v. (o ≡ entry m classes d name (redroid_path x.backend)) × At m classes rows d v)
              (Never m classes rows) (load_listed m classes name (redroid_path x.backend) w))
          h.1 (load_listed-Ends name x x.backend w found refl h.0);
  }

  pub load_all-Runs :
      (disk : Disk) (s : Dict (InstanceMeta T))
      → Found rows s
      → Runs
          (At m classes rows disk)
          (load_all m classes s)
          (λ out v. (out ≡ loadable m classes disk s) × At m classes rows disk v)
          (Never m classes rows)
  unfolding load_all loadable
  load_all-Runs disk [] f = record { run = λ w h. (refl, h) }
  load_all-Runs disk ((k, x) ∷ s) f = Runs->>= _ _ (load_listed-Runs disk k x f.0) (λ found.
      Runs-fact _ (λ e. Runs->>= _ _ (load_all-Runs disk s f.1) (λ out. Runs-fact _ (λ e'.
        Runs-return (prepend found out) (λ w h. (
          ap (λ o. prepend o out) e
              ∙ ap (prepend (entry m classes disk k (redroid_path x.backend))) e',
          h,
        ))))))

  names-loaded :
      (n k : String) (root : FilePath) (r : Result InstanceConfig) (insts : List Instance)
      → contains n (names (prepend (loaded_option m classes k root r) insts))
        ≡ ((n == k && is_some (loaded_option m classes k root r)) || contains n (names insts))
  names-loaded n k root (ok cfg) insts = ground arith
  names-loaded n k root (err e) insts = ground arith

  names-entry :
      (n k : String) (o : Option String) (disk : Disk) (insts : List Instance)
      → contains n (names (prepend (entry m classes disk k o) insts))
        ≡ ((n == k && is_some (entry m classes disk k o)) || contains n (names insts))
  names-entry n k none disk insts = ground arith
  names-entry n k (some path) disk insts =
      elim (Bool-cases (is_file (instance_yaml (m.resolve path)) disk)) [
        | inl e ↦ rw e (
            names-loaded n k (m.resolve path) (load_yaml m (instance_yaml (m.resolve path)) disk)
              insts)
        | inr e ↦ rw e (ground arith)
      ]

  same-row :
      (n k : String) (x y : InstanceMeta T)
      → (n == k) ≡ true
      → lookup n rows ≡ some x
      → lookup k rows ≡ some y
      → (k ≡ n) × (y ≡ x)
  same-row n k x y e h f =
      let same = (eq_iff n k).0 e in
      (sym same, some-injective y x (sym f ∙ ap (λ j. lookup j rows) (sym same) ∙ h))

  -- A step of a listing that keeps the names of the rows with a property.
  kept-step :
      (same kept own inside : Bool)
      → (same ≡ true → kept ≡ own)
      → ((same && kept) || (inside && own)) ≡ ((same || inside) && own)
  kept-step true true true inside h = refl
  kept-step true true false inside h = ground (arith, h refl)
  kept-step true false true inside h = ground (arith, h refl)
  kept-step true false false inside h = ground arith
  kept-step false kept own inside h = refl

  pub contains-loadable :
      (n : String) (x : InstanceMeta T) (disk : Disk) (s : Dict (InstanceMeta T))
      → lookup n rows ≡ some x
      → Found rows s
      → contains n (names (loadable m classes disk s))
        ≡ (member n s && is_some (entry m classes disk n (redroid_path x.backend)))
  unfolding loadable
  contains-loadable n x disk [] h f = refl
  contains-loadable n x disk ((k, y) ∷ s) h f =
      let step = entry m classes disk in
      names-entry n k (redroid_path y.backend) disk (loadable m classes disk s)
      ∙ ap (λ b. (n == k && is_some (step k (redroid_path y.backend))) || b)
          (contains-loadable n x disk s h f.1)
      ∙ kept-step (n == k) (is_some (step k (redroid_path y.backend)))
          (is_some (step n (redroid_path x.backend))) (member n s)
          (λ e.
            let (j, z) = same-row n k x y e h f.0 in
            ap (λ i. is_some (step i (redroid_path y.backend))) j
            ∙ ap (λ r. is_some (step n (redroid_path r.backend))) z)

  kept-name :
      (n k : String) (kept : Bool) (rest : List String)
      → contains n (if kept then k ∷ rest else rest) ≡ ((n == k && kept) || contains n rest)
  kept-name n k true rest = ground arith
  kept-name n k false rest = ground arith

  pub contains-orphan_names :
      (n : String) (x : InstanceMeta T) (disk : Disk) (s : Dict (InstanceMeta T))
      → lookup n rows ≡ some x
      → Found rows s
      → contains n (orphan_names m classes disk s)
        ≡ (member n s && is_orphan m classes disk (redroid_path x.backend))
  unfolding orphan_names
  contains-orphan_names n x disk [] h f = refl
  contains-orphan_names n x disk ((k, y) ∷ s) h f =
      let step = is_orphan m classes disk in
      kept-name n k (step (redroid_path y.backend)) (orphan_names m classes disk s)
      ∙ ap (λ b. (n == k && step (redroid_path y.backend)) || b)
          (contains-orphan_names n x disk s h f.1)
      ∙ kept-step (n == k) (step (redroid_path y.backend)) (step (redroid_path x.backend))
          (member n s) (λ e. ap (λ r. step (redroid_path r.backend)) (same-row n k x y e h f.0).1)

  loaded-or-error :
      (k : String) (root : FilePath) (r : Result InstanceConfig)
      → is_some (loaded_option m classes k root r) ≡ not (is_error r)
  loaded-or-error k root (ok cfg) = refl
  loaded-or-error k root (err e) = refl

  pub entry-orphan :
      (n path : String) (disk : Disk)
      → is_some (entry m classes disk n (some path)) ≡ not (is_orphan m classes disk (some path))
  unfolding is_orphan
  entry-orphan n path disk = elim (Bool-cases (is_file (instance_yaml (m.resolve path)) disk)) [
    | inl e ↦
        rw e
          (loaded-or-error n (m.resolve path) (load_yaml m (instance_yaml (m.resolve path)) disk))
    | inr e ↦ rw e refl
  ]
