-- ===== src/Vm/BootCache.antt =====
-- The boot checkpoint of an instance (src/beetroot/vm/boot_cache.py): the overlay image, the record
-- of what it was built from, and its snapshot.
use Prim.Native.String.{String}
use beetroot.Prelude.{
  ℕ, Bool, true, false, ◌&&◌, ◌||◌, not, Option, none, some, List, [], ◌∷◌, any, ◌==◌, string_eq,
  Result, ok, err, launch_failed, os_error, if◌then◌else◌,
}
use beetroot.Prelude.Actions.{Action, ◌>>=◌, ◌>>◌, return, given}
use beetroot.Prelude.Text.{◌+++◌, decimal, text_before}
use beetroot.Prelude.Words.{
  first_chars, strip, lowered, occurs, ends_with, rstrip, split_lines, split_words,
}
use beetroot.Disk.{FilePath, Disk, Entry, file, child, same_path, write_text}
use beetroot.Vm.{Host, Sys, Stamp, same_stamp, on_disk, unlink, replace}
use beetroot.Vm.Qemu.{ResolvedAccel, accel_text}

abbrev pub snapshot_tag : String
snapshot_tag = "beetroot-boot"

abbrev pub overlay_path : FilePath → FilePath
overlay_path instance_dir = child instance_dir "vm-overlay.qcow2"

abbrev pub monitor_path : FilePath → FilePath
monitor_path instance_dir = child instance_dir "qemu-monitor.sock"

abbrev pub overlay_key_path : FilePath → FilePath
overlay_key_path instance_dir = child instance_dir "vm-overlay.cache-key"

-- The file that record_identity writes first.
abbrev pub key_tmp_path : FilePath → FilePath
key_tmp_path instance_dir = child instance_dir "vm-overlay.cache-key.tmp"

-- path.name
abbrev pub name_of : FilePath → String
name_of [] = ""
name_of (a ∷ []) = a
name_of (a ∷ b ∷ p) = name_of (b ∷ p)

-- _HASH_CACHE.get(key)
abbrev pub cached : Stamp → List (Stamp × String) → Option String
cached key [] = none
cached key ((stamp, hash) ∷ hashes) =
    let rest = cached key hashes in if same_stamp key stamp then some hash else rest

-- What an overlay is built from.
pub record Base : Type 0 where
  pub kernel : FilePath
  pub rootfs : FilePath
  pub smp : ℕ
  pub memory_mib : ℕ
  pub accel : ResolvedAccel

-- a path with the digest of its file
abbrev pub Digest : Type 0
Digest = FilePath × String

-- the order of `sorted(digests, key=lambda p: (p.name, digests[p]))`
abbrev comes_before : Digest → Digest → Bool
comes_before a b =
    text_before (name_of a.0) (name_of b.0) || name_of a.0 == name_of b.0 && text_before a.1 b.1

-- the digests of the kernel and the root file system, once where these are one path
abbrev sorted_digests : Digest → Digest → List Digest
sorted_digests kernel rootfs =
    if same_path kernel.0 rootfs.0
    then rootfs ∷ []
    else if comes_before rootfs kernel
    then rootfs ∷ kernel ∷ []
    else kernel ∷ rootfs ∷ []

abbrev digest_text : List Digest → String
digest_text [] = ""
digest_text ((path, digest) ∷ rest) = name_of path +++ "\0" +++ digest +++ "\0" +++ digest_text rest

module _ (h : Host) where
  -- what base_identity hashes, given the digests of the two files
  unfoldable pub identity_text : Base → String → String → String
  unfolding decimal
  identity_text base kernel rootfs =
      digest_text (sorted_digests (base.kernel, kernel) (base.rootfs, rootfs))
      +++ decimal base.smp
      +++ "\0"
      +++ decimal base.memory_mib
      +++ "\0"
      +++ accel_text base.accel
      +++ "\0"

  unfoldable pub identity_of : Base → String → String → String
  unfolding identity_text first_chars
  identity_of base kernel rootfs = first_chars 16 (h.sha256 (identity_text base kernel rootfs))

  abbrev read_text : Option Entry → Result String
  read_text (some (file text)) = ok text
  read_text _ = err os_error

  -- _stream_sha256
  unfoldable pub stream_sha256 : FilePath → Action Sys String
  stream_sha256 path s = (given (read_text (s.live.disk path)) >>= λ text. return (h.sha256 text)) s

  abbrev pub store : Stamp → Result String × Sys → Result String × Sys
  store key (err e, s) = (err e, s)
  store key (ok hash, s) = (ok hash, record s { hashes = (key, hash) ∷ s.hashes })

  abbrev pub hash_stamped : Stamp → Option String → Action Sys String
  hash_stamped key none s = store key (stream_sha256 key.path s)
  hash_stamped key (some hash) s = (ok hash, s)

  abbrev pub hash_stat : FilePath → Option (ℕ × ℕ) → Action Sys String
  hash_stat path none s = (err os_error, s)
  hash_stat path (some (size, changed)) s =
      let key : Stamp = record { path = path; size = size; changed = changed } in
      hash_stamped key (cached key s.hashes) s

  -- _hash_file
  unfoldable pub hash_file : FilePath → Action Sys String
  unfolding stream_sha256
  hash_file path s = hash_stat path (h.stat path s.live) s

  unfoldable pub base_identity : Base → Action Sys String
  unfolding hash_file identity_of
  base_identity base = do
    kernel ← hash_file base.kernel
    rootfs ← hash_file base.rootfs
    return (identity_of base kernel rootfs)

  unfoldable pub record_identity : FilePath → Base → Action Sys (Unit {0})
  unfolding base_identity write_text replace
  record_identity instance_dir base = do
    identity ← base_identity base
    on_disk (write_text h.denied (key_tmp_path instance_dir) identity)
    on_disk (replace h.denied (key_tmp_path instance_dir) (overlay_key_path instance_dir))

  -- `text.strip() or None`
  abbrev pub given_key : String → Option String
  given_key text = if text == "" then none else some text

  abbrev pub key_entry : Option Entry → Option String
  key_entry (some (file text)) = given_key (strip text)
  key_entry _ = none

  unfoldable pub read_identity : FilePath → Disk → Option String
  unfolding strip
  read_identity instance_dir disk = key_entry (disk (overlay_key_path instance_dir))

  abbrev pub differs : Option String → String → Bool
  differs none identity = true
  differs (some key) identity = not (key == identity)

  unfoldable pub overlay_is_stale : FilePath → Base → Action Sys Bool
  unfolding read_identity base_identity
  overlay_is_stale instance_dir base s =
      (base_identity base >>= λ identity.
      return (differs (read_identity instance_dir s.live.disk) identity))
        s

  unfoldable pub discard_overlay : FilePath → Action Sys (Unit {0})
  unfolding unlink
  discard_overlay instance_dir = do
    on_disk (unlink h.denied (overlay_path instance_dir))
    on_disk (unlink h.denied (overlay_key_path instance_dir))

  -- Both of its exceptions become a QemuLaunchError.
  abbrev pub created_image : FilePath → Bool × Option Entry → Action Sys (Unit {0})
  created_image overlay (created, entry) s = (
    if created then ok tt else err launch_failed,
    record s {
      live = record s.live { disk = λ q. if same_path q overlay then entry else s.live.disk q };
    },
  )

  unfoldable pub create_overlay : FilePath → FilePath → Action Sys (Unit {0})
  create_overlay base_rootfs overlay s =
      created_image overlay (h.create_image base_rootfs overlay s.live.disk) s

  abbrev lists_tag : Option String → Bool
  lists_tag none = false
  lists_tag (some output) =
      any (λ line. any (λ word. word == snapshot_tag) (split_words line)) (split_lines output)

  abbrev pub image_has_tag : Option Entry → Bool
  image_has_tag (some (file image)) = lists_tag (h.list_images image)
  image_has_tag _ = false

  unfoldable pub snapshot_present : FilePath → Disk → Bool
  unfolding split_words split_lines
  snapshot_present overlay disk = image_has_tag (disk overlay)

  -- _read_to_prompt: the chunks up to the prompt or the end of the stream
  unfoldable pub read_to_prompt : String → List String → String
  unfolding ends_with rstrip
  read_to_prompt buf [] = buf
  read_to_prompt buf (chunk ∷ chunks) =
      let rest = read_to_prompt (buf +++ chunk) chunks in
      if ends_with (rstrip buf) "(qemu)" then buf else if chunk == "" then buf else rest

  abbrev saved : Option (List String) → Bool
  saved none = false
  saved (some chunks) = not (occurs "error" (lowered (read_to_prompt "" chunks)))

  abbrev pub order_savevm : FilePath → Option (List String) → Action Sys Bool
  order_savevm monitor none s = (ok false, s)
  order_savevm monitor (some chunks) s =
      let (answer, live) = h.order monitor ("savevm " +++ snapshot_tag +++ "\n") s.live in
      (ok (saved answer), record s { live = live })

  unfoldable pub save_snapshot : FilePath → Action Sys Bool
  unfolding read_to_prompt occurs lowered
  save_snapshot monitor s = order_savevm monitor (h.banner monitor s.live) s
