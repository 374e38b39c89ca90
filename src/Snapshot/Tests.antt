-- ===== src/Snapshot/Tests.antt =====
-- Archives that are restored on a small machine.
use beetroot.Prelude.{
  Distinct, subst, String, ◌≡◌, ◌≤◌, ◌+◌, refl, ap, true, false, Option, none, some, [], ◌∷◌, ok,
  err, arith, string_eq, if◌then◌else◌, Bool-cases, inl, inr, no_manifest,
}
use mathlib.Core.Option.{some-injective}
use beetroot.Prelude.Actions.{Action}
use beetroot.Prelude.Triples.{Ends}
use beetroot.Dict.{keys}
use beetroot.Registry.Transactions.{listed}
use beetroot.Registry.Tests.Sample.{sample}
use beetroot.Registry.Tests.Document.{classes, known}
use beetroot.Disk.{FilePath, Disk, Entry, file, under, child, same_path}
use beetroot.Disk.Paths.{same_path_sound, under-child}
use beetroot.Api.Enroll.{Lists}
use beetroot.Api.Tests.{machine, world, web, place, listed-web}
use beetroot.Snapshot.{
  Manifest, Member, Archive, Archiver, manifest_bytes, is_manifest_member, extract_members,
  capped_reads, capped_read,
}
use beetroot.Snapshot.Capped.{bytes, extract_members_bounds}
use beetroot.Snapshot.Restore.{restore}
use beetroot.Snapshot.Outcome.{Back, Safe}
use beetroot.Snapshot.Peers.{restore_lem, restore-peer}

abbrev entry_of : Option String → Entry
entry_of none = file ""
entry_of (some text) = file text

abbrev put : FilePath → Member → Action Disk (Unit {0})
put target member disk = (
  ok tt,
  λ q. if same_path q (child target member.name) then some (entry_of member.content) else disk q,
)

put-outside :
    (target : FilePath) (member : Member) (disk : Disk) (q : FilePath)
    → under target q ≡ false
    → (put target member disk).1 q ≡ disk q
put-outside target member disk q h = elim (Bool-cases (same_path q (child target member.name))) [
  | inl same ↦ absurd (
      ground (
        arith,
        ap (under target) (same_path_sound q (child target member.name) same),
        under-child target member.name,
      ))
  | inr differ ↦ rw differ
]

abbrev blank : String → Manifest
blank text = record { name = text; path_layout = [] }

layout-Distinct :
    (text : String) (manifest : Manifest)
    → ◌≡◌ {A = Option Manifest} (some (blank text)) (some manifest)
    → Distinct (keys manifest.path_layout)
layout-Distinct text manifest h =
    subst (λ y. Distinct (keys y.path_layout)) (some-injective (blank text) manifest h) tt

abbrev archiver : Archiver
archiver = record {
  parse_manifest = λ text. some (blank text);
  parse_manifest-Distinct = λ text manifest h. layout-Distinct text manifest h;
  extract = put;
  extract-outside = put-outside;
  has_entries = λ path disk. false;
}

abbrev archive : Archive
archive = record {
  members =
      record { name = "./.beetroot-snapshot.json"; content = some "web"; reads = 512 ∷ 3 ∷ [] }
      ∷ record { name = "beetroot.yaml"; content = some "api_version: 8\n"; reads = 512 ∷ 15 ∷ [] }
      ∷ [];
  damaged = false;
}

manifest_read : manifest_bytes archive.members false ≡ ok "web"
unfolding manifest_bytes is_manifest_member
manifest_read = refl

no_manifest_read : manifest_bytes [] false ≡ err no_manifest
unfolding manifest_bytes
no_manifest_read = refl

restore_lem_example :
    let rows = listed sample classes world.files in
    Ends
      (Back machine classes archiver known rows "copy" "copy" "today" world)
      (λ e w'.
        Lists machine classes rows w'
        × Safe machine classes archiver known rows "copy" "copy" "today" world w')
      (restore machine classes archiver archive "copy" "copy" true "today" world)
restore_lem_example =
    restore_lem machine classes archiver known archive "copy" "copy" true "today" world

restore-peer_example :
    (restore machine classes archiver archive "copy" "web" true "today" world).1.disk (place "web")
    ≡ world.disk (place "web")
restore-peer_example =
    restore-peer machine classes archiver known archive "copy" "web" true "today" world "web" "web"
      web (place "web") listed-web refl refl

extracted :
    (extract_members archiver 2000 (place "copy") 0 archive.members false world.disk).0 ≡ ok 1042
unfolding extract_members capped_reads capped_read
extracted = refl

extract_members_bounds_example : (1042 ≡ 0 + bytes archive.members) × (1042 ≤ 2000)
extract_members_bounds_example =
    extract_members_bounds archiver 2000 (place "copy") 0 archive.members false world.disk 1042
      (ground arith) extracted
