-- ===== src/Disk.antt =====
-- The file system as `pathlib` and `shutil` show it to the program: resolved paths, and what is
-- at each.
pub mod Paths
pub mod Layout
pub mod Outside
pub mod Raises
use beetroot.Prelude.{
  String, Bool, true, false, Option, none, some, List, [], ◌∷◌, ◌++◌, ◌&&◌, ◌||◌, not, ◌==◌,
  string_eq, ok, err, if◌then◌else◌, os_error,
}
use beetroot.Prelude.Actions.{Action}

-- The segments of an absolute path, the first below the root of the file system.
abbrev pub FilePath : Type 0
FilePath = List String

pub data Entry : Type 0 where
  directory : Entry
  file : String → Entry

abbrev pub Disk : Type 0
Disk = FilePath → Option Entry

-- root / name
abbrev pub child : FilePath → String → FilePath
child root name = root ++ name ∷ []

-- `p in q.parents`
abbrev pub is_parent : FilePath → FilePath → Bool
is_parent [] [] = false
is_parent [] (b ∷ q) = true
is_parent (a ∷ p) [] = false
is_parent (a ∷ p) (b ∷ q) = a == b && is_parent p q

-- The path is the directory or lies in it.
abbrev pub under : FilePath → FilePath → Bool
under [] q = true
under (a ∷ p) [] = false
under (a ∷ p) (b ∷ q) = a == b && under p q

-- `p == q`
abbrev pub same_path : FilePath → FilePath → Bool
same_path [] [] = true
same_path [] (b ∷ q) = false
same_path (a ∷ p) [] = false
same_path (a ∷ p) (b ∷ q) = a == b && same_path p q

abbrev pub is_file_entry : Option Entry → Bool
is_file_entry (some (file text)) = true
is_file_entry _ = false

abbrev pub is_dir_entry : Option Entry → Bool
is_dir_entry (some directory) = true
is_dir_entry _ = false

abbrev pub is_there : Option Entry → Bool
is_there none = false
is_there (some entry) = true

-- path.exists(), path.is_file()
unfoldable pub exists : FilePath → Disk → Bool
exists path disk = is_there (disk path)

unfoldable pub is_file : FilePath → Disk → Bool
is_file path disk = is_file_entry (disk path)

-- path.parent, of a path below the root
abbrev pub parent : FilePath → FilePath
parent [] = []
parent (a ∷ []) = []
parent (a ∷ b ∷ p) = a ∷ parent (b ∷ p)

-- A file stands at the path, or at a directory above it.
unfoldable pub blocked_from : FilePath → FilePath → Disk → Bool
blocked_from above [] disk = is_file_entry (disk above)
blocked_from above (a ∷ rest) disk =
    is_file_entry (disk above) || blocked_from (child above a) rest disk

abbrev pub with_directory : Bool → Option Entry → Option Entry
with_directory true none = some directory
with_directory _ old = old

-- The system refuses to change what is at some paths, for want of permission or of space.
module _ (refused : FilePath → Bool) where
  -- path.mkdir(parents=True, exist_ok=True)
  unfoldable pub mkdir : FilePath → Action Disk (Unit {0})
  unfolding blocked_from
  mkdir path disk =
      if refused path || blocked_from [] path disk
      then (err os_error, disk)
      else (ok tt, λ q. with_directory (same_path q path || is_parent q path) (disk q))

  -- path.write_text(text)
  unfoldable pub write_text : FilePath → String → Action Disk (Unit {0})
  write_text path text disk =
      if refused path || is_dir_entry (disk path) || not (is_dir_entry (disk (parent path)))
      then (err os_error, disk)
      else (ok tt, λ q. if same_path q path then some (file text) else disk q)

  -- open(path, "a"): creates the file if it is missing
  unfoldable pub touch : FilePath → Action Disk (Unit {0})
  touch path disk =
      if refused path || is_dir_entry (disk path) || not (is_dir_entry (disk (parent path)))
      then (err os_error, disk)
      else (
        ok tt,
        λ q. if same_path q path && not (is_there (disk q)) then some (file "") else disk q,
      )

  -- shutil.rmtree(path)
  unfoldable pub rmtree : FilePath → Action Disk (Unit {0})
  rmtree path disk =
      if refused path || not (is_dir_entry (disk path))
      then (err os_error, disk)
      else (ok tt, λ q. if under path q then none else disk q)
