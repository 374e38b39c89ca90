-- ===== src/Api/Manager.antt =====
-- `Manager.list_instances` and `Manager.list_orphans` of src/beetroot/api.py.
use beetroot.Prelude.{
  String, Bool, true, false, ◌||◌, not, Option, none, some, List, [], ◌∷◌, Result, ok, err,
  if◌then◌else◌,
}
use beetroot.Prelude.Text.{text_before}
use beetroot.Prelude.Actions.{Action, ◌>>=◌, return}
use beetroot.Dict.{Dict}
use beetroot.Registry.Backend.{BackendConfig, ConfigClass, redroid}
use beetroot.Registry.Rows.{InstanceMeta}
use beetroot.Disk.{Disk, is_file}
use beetroot.Disk.Layout.{instance_yaml}
use beetroot.Api.{Machine, World, Instance, look, load_yaml}
use beetroot.Api.Staging.{all_rows}
use beetroot.Api.Create.{load}

-- sorted(d.items()), where no key occurs twice
unfoldable pub insert_item {ℓ} : {V : Type ℓ} → String → V → Dict V → Dict V
insert_item k v [] = (k, v) ∷ []
insert_item k v ((j, x) ∷ d) =
    let rest = insert_item k v d in if text_before k j then (k, v) ∷ (j, x) ∷ d else (j, x) ∷ rest

unfoldable pub sorted_items {ℓ} : {V : Type ℓ} → Dict V → Dict V
unfolding insert_item
sorted_items [] = []
sorted_items ((k, v) ∷ d) = insert_item k v (sorted_items d)

-- sorted(texts)
unfoldable pub insert_text : String → List String → List String
insert_text s [] = s ∷ []
insert_text s (t ∷ ts) =
    let rest = insert_text s ts in if text_before s t then s ∷ t ∷ ts else t ∷ rest

unfoldable pub sorted_texts : List String → List String
unfolding insert_text
sorted_texts [] = []
sorted_texts (s ∷ ts) = insert_text s (sorted_texts ts)

abbrev pub redroid_path : BackendConfig → Option String
redroid_path (redroid path stealth_paths) = some path
redroid_path _ = none

abbrev pub prepend {ℓ} : {A : Type ℓ} → Option A → List A → List A
prepend none xs = xs
prepend (some x) xs = x ∷ xs

abbrev pub is_error {ℓ} : {A : Type ℓ} → Result A → Bool
is_error (err e) = true
is_error (ok a) = false

abbrev pub swallowed {ℓ} : {A : Type ℓ} {W : Type 0} → Result A × W → Result (Option A) × W
swallowed (ok a, w) = (ok (some a), w)
swallowed (err e, w) = (ok none, w)

module _ {T Text : Type 0} (m : Machine T Text) (classes : Dict ConfigClass) where
  -- `try: out.append(Instance.load(name))` for a redroid row whose config file is there
  unfoldable pub load_listed : String → Option String → Action (World Text) (Option Instance)
  unfolding is_file load
  load_listed name none w = (ok none, w)
  load_listed name (some path) w =
      if is_file (instance_yaml (m.resolve path)) w.disk
      then swallowed (load m classes name w)
      else (ok none, w)

  unfoldable pub load_all : Dict (InstanceMeta T) → Action (World Text) (List Instance)
  unfolding load_listed
  load_all [] = return []
  load_all ((name, meta) ∷ rows) = do
    found ← load_listed name (redroid_path meta.backend)
    out ← load_all rows
    return (prepend found out)

  -- Manager.list_instances
  unfoldable pub list_loadable : Action (World Text) (List Instance)
  unfolding all_rows load_all sorted_items
  list_loadable = do rows ← all_rows m classes; load_all (sorted_items rows)

  unfoldable pub is_orphan : Disk → Option String → Bool
  unfolding is_file load_yaml
  is_orphan disk none = false
  is_orphan disk (some path) =
      not (is_file (instance_yaml (m.resolve path)) disk)
      || is_error (load_yaml m (instance_yaml (m.resolve path)) disk)

  unfoldable pub orphan_names : Disk → Dict (InstanceMeta T) → List String
  unfolding is_orphan
  orphan_names disk [] = []
  orphan_names disk ((name, meta) ∷ rows) =
      let rest = orphan_names disk rows in
      if is_orphan disk (redroid_path meta.backend) then name ∷ rest else rest

  -- Manager.list_orphans
  unfoldable pub list_orphans : Action (World Text) (List String)
  unfolding all_rows orphan_names sorted_texts
  list_orphans = do
    rows ← all_rows m classes
    orphans ← look (λ disk. orphan_names disk rows)
    return (sorted_texts orphans)
