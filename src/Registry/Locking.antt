-- ===== src/Registry/Locking.antt =====
-- The lock of the registry (`_locked` of src/beetroot/registry.py) as steps of processes: readers
-- that go through `list_instances`, and operations that read, change and write. A process is at one
-- of the points between which another may move. flock gives a shared lock while no process has an
-- exclusive one, and an exclusive lock while no process has any.
use beetroot.Prelude.{
  ℕ, ◌≡◌, Bool, true, false, Option, none, some, Result, ok, err, nat_beq, if◌then◌else◌,
}
use beetroot.Dict.{Dict}
use beetroot.Registry.{Platform}
use beetroot.Registry.Backend.{ConfigClass}
use beetroot.Registry.Rows.{InstanceMeta}
use beetroot.Registry.Storage.{
  Files, parse_registry, needs_legacy_migration, backup_and_warn, read, write, initialise,
}

-- Where a process is: a reader before its check of the version, before its read, between a read of
-- a file that it cannot use and the rename of it, before it lets its lock go, without a lock before
-- it takes the exclusive one, and with that one; an operation before its read, before its write, and
-- before it lets its lock go.
pub data Phase (T Op : Type 0) : Type 0 where
  idle checking looking renaming leaving escalating relisting : Phase T Op
  held : Op → Phase T Op
  loaded : Op → Dict (InstanceMeta T) → Phase T Op
  settled : Phase T Op

-- has the exclusive lock
abbrev pub excludes : {T Op : Type 0} → Phase T Op → Bool
excludes relisting = true
excludes (held op) = true
excludes (loaded op rows) = true
excludes settled = true
excludes idle = false
excludes checking = false
excludes looking = false
excludes renaming = false
excludes leaving = false
excludes escalating = false

-- has a lock
abbrev pub locks : {T Op : Type 0} → Phase T Op → Bool
locks idle = false
locks escalating = false
locks checking = true
locks looking = true
locks renaming = true
locks leaving = true
locks relisting = true
locks (held op) = true
locks (loaded op rows) = true
locks settled = true

abbrev pub is_loaded : {T Op : Type 0} → Phase T Op → Bool
is_loaded (loaded op rows) = true
is_loaded idle = false
is_loaded checking = false
is_loaded looking = false
is_loaded renaming = false
is_loaded leaving = false
is_loaded escalating = false
is_loaded relisting = false
is_loaded (held op) = false
is_loaded settled = false

-- process `i` is at `q`, the others are where they were
unfoldable pub update : {T Op : Type 0} → (ℕ → Phase T Op) → ℕ → Phase T Op → ℕ → Phase T Op
update at i q j = if nat_beq i j then q else at j

pub record System (T Text Op : Type 0) : Type 0 where
  pub files : Files Text
  pub phase : ℕ → Phase T Op

module _ {Text : Type 0} where
  abbrev rename_found : Option Text → Files Text → Files Text
  rename_found none files = files
  rename_found (some text) files = backup_and_warn files

  -- `path.rename(backup)`, where a FileNotFoundError is passed over
  abbrev pub rename : Files Text → Files Text
  rename files = rename_found files.registry files

module _ {T Text Op : Type 0} (p : Platform T Text) (classes : Dict ConfigClass)
    (body : Op → Dict (InstanceMeta T) → Result (Unit {0} × Option (Dict (InstanceMeta T)))) where
  -- what the body leaves in the files, from the rows that it was given
  abbrev pub settle : Result (Unit {0} × Option (Dict (InstanceMeta T))) → Files Text → Files Text
  settle (err e) files = files
  settle (ok (_, none)) files = files
  settle (ok (_, some rows)) files = write p classes rows files

  -- A move of one process, from one phase to the next, and the files after it.
  pub data Move (phase : ℕ → Phase T Op) (files : Files Text)
      : Phase T Op → Phase T Op → Files Text → Type 0 where
    enter_shared : ((j : ℕ) → excludes (phase j) ≡ false) → Move phase files idle checking files
    pass : needs_legacy_migration p classes files ≡ false → Move phase files checking looking files
    escalate :
        needs_legacy_migration p classes files ≡ true → Move phase files checking escalating files
    find_nothing : files.registry ≡ none → Move phase files looking leaving files
    find_rows :
        (text : Text) (rows : Dict (InstanceMeta T))
        → files.registry ≡ some text
        → parse_registry p classes text ≡ some rows
        → Move phase files looking leaving files
    find_unusable :
        (text : Text)
        → files.registry ≡ some text
        → parse_registry p classes text ≡ none
        → Move phase files looking renaming files
    back_up : Move phase files renaming leaving (rename files)
    leave_shared : Move phase files leaving idle files
    enter_again : ((j : ℕ) → locks (phase j) ≡ false) → Move phase files escalating relisting files
    relist : Move phase files relisting settled (read p classes (initialise p classes files)).1
    enter_exclusive :
        (op : Op) → ((j : ℕ) → locks (phase j) ≡ false) → Move phase files idle (held op) files
    load :
        (op : Op)
        → Move phase files
            (held op)
            (loaded op (read p classes (initialise p classes files)).0)
            (read p classes (initialise p classes files)).1
    work :
        (op : Op) (rows : Dict (InstanceMeta T))
        → Move phase files (loaded op rows) settled (settle (body op rows) files)
    leave_exclusive : Move phase files settled idle files

  pub data Step (s : System T Text Op) : System T Text Op → Type 0 where
    pick :
        (i : ℕ) {at to : Phase T Op} {files : Files Text}
        → s.phase i ≡ at
        → Move s.phase s.files at to files
        → Step s (record { files = files; phase = update s.phase i to })

  -- The states that the processes reach, from files that none of them has locked.
  pub data Reached (files : Files Text) : System T Text Op → Type 0 where
    start : Reached files (record { files = files; phase = λ _. idle })
    next : {s t : System T Text Op} → Reached files s → Step s t → Reached files t
