-- ===== src/Snapshot.antt =====
-- Snapshots of instances (src/beetroot/snapshot.py): the manifest of an archive, the bound on what
-- is unpacked, and `restore`.
mod Tests
pub mod Capped
pub mod Restore
pub mod Unpacking
pub mod Restored
pub mod Outcome
pub mod Peers
use beetroot.Prelude.{
  ℕ, String, Bool, true, false, ◌||◌, Option, none, some, List, [], ◌∷◌, ◌+◌, ◌==◌, string_eq, ltb,
  Result, ok, err, Distinct, ◌≡◌, if◌then◌else◌, bad_manifest, no_manifest, bad_archive, too_large,
  ◌>>=◌,
}
use beetroot.Prelude.Actions.{Action, continue}
use beetroot.Dict.{Dict, keys}
use beetroot.Disk.{FilePath, Disk, under}

-- class Manifest, without the fields that nothing reads
pub record Manifest : Type 0 where
  pub name : String
  pub path_layout : Dict String

-- A member of the tar stream. `content` is none if it is not a regular file; `reads` are the lengths
-- of the chunks that tarfile reads to get it.
pub record Member : Type 0 where
  pub name : String
  pub content : Option String
  pub reads : List ℕ

-- The members in order; the stream may be damaged after the last.
pub record Archive : Type 0 where
  pub members : List Member
  pub damaged : Bool

-- The libraries that work on archives: pydantic's reading of a manifest, `tar.extract` of a member
-- into a directory with the filter "data", and `any(path.iterdir())`.
pub record Archiver : Type 0 where
  pub parse_manifest : String → Option Manifest
  pub parse_manifest-Distinct :
      (text : String) (manifest : Manifest)
      → parse_manifest text ≡ some manifest
      → Distinct (keys manifest.path_layout)
  pub extract : FilePath → Member → Action Disk (Unit {0})
  pub extract-outside :
      (target : FilePath) (member : Member) (disk : Disk) (q : FilePath)
      → under target q ≡ false
      → (extract target member disk).1 q ≡ disk q
  pub has_entries : FilePath → Disk → Bool

abbrev pub max_extract_bytes : ℕ
max_extract_bytes = 68719476736

-- _is_manifest_member
unfoldable pub is_manifest_member : Member → Bool
is_manifest_member member =
    member.name == "./.beetroot-snapshot.json" || member.name == ".beetroot-snapshot.json"

abbrev pub manifest_content : Option String → Result String
manifest_content none = err bad_manifest
manifest_content (some text) = ok text

-- `_extract_manifest_bytes`: the first member that is a manifest
unfoldable pub manifest_bytes : List Member → Bool → Result String
unfolding is_manifest_member
manifest_bytes [] damaged = if damaged then err bad_archive else err no_manifest
manifest_bytes (member ∷ members) damaged =
    let rest = manifest_bytes members damaged in
    if is_manifest_member member then manifest_content member.content else rest

abbrev pub validated : Option Manifest → Result Manifest
validated none = err bad_manifest
validated (some manifest) = ok manifest

unfoldable pub read_manifest : Archiver → Archive → Result Manifest
unfolding manifest_bytes
read_manifest archiver archive = do
  text ← manifest_bytes archive.members archive.damaged
  validated (archiver.parse_manifest text)

-- `_CappedReader.read`: the total after a chunk of this length
unfoldable pub capped_read : ℕ → ℕ → ℕ → Result ℕ
capped_read cap_bytes total chunk =
    if ltb cap_bytes (total + chunk) then err too_large else ok (total + chunk)

unfoldable pub capped_reads : ℕ → ℕ → List ℕ → Result ℕ
unfolding capped_read
capped_reads cap_bytes total [] = ok total
capped_reads cap_bytes total (chunk ∷ chunks) = do
  total' ← capped_read cap_bytes total chunk
  capped_reads cap_bytes total' chunks

-- The loop of `_extract_archive_into`; its value is the number of bytes read.
unfoldable pub extract_members : Archiver → ℕ → FilePath → ℕ → List Member → Bool → Action Disk ℕ
unfolding capped_reads
extract_members archiver cap_bytes target total [] damaged disk =
    (if damaged then err bad_archive else ok total, disk)
extract_members archiver cap_bytes target total (member ∷ members) damaged disk =
    elim (capped_reads cap_bytes total member.reads) [
      | err e ↦ (err e, disk)
      | ok total' ↦
          continue (archiver.extract target member disk)
            (λ done. extract_members archiver cap_bytes target total' members damaged)
    ]
