-- ===== src/Vm/Identity.antt =====
-- The identity of an overlay's base (`base_identity` of src/beetroot/vm/boot_cache.py): what it is
-- computed from, with the cache of digests.
use Prim.Native.String.{String}
use beetroot.Prelude.{
  ℕ, ◌≡◌, refl, sym, ◌∙◌, ap, subst, true, inl, inr, Bool-cases, Option, none, some, List, [], ◌∷◌,
  All, arith, ok, nat_eq, nat_beq_iff,
}
use beetroot.Prelude.Triples.{Runs, Ends, Runs->>=, Runs-return, Runs-fact}
use beetroot.Disk.{FilePath, Disk, file}
use beetroot.Disk.Paths.{same_path_sound}
use beetroot.Vm.{Host, Sys, Stamp, same_stamp}
use beetroot.Vm.BootCache.{
  Base, cached, store, stream_sha256, hash_stamped, hash_stat, hash_file, identity_of,
  base_identity,
}

same_stamp_sound : (a b : Stamp) → same_stamp a b ≡ true → a ≡ b
same_stamp_sound a b h =
    let p : a.path ≡ b.path = same_path_sound a.path b.path (ground (arith, h)) in
    let s : a.size ≡ b.size = (nat_beq_iff a.size b.size).0 (ground (arith, h)) in
    let c : a.changed ≡ b.changed = (nat_beq_iff a.changed b.changed).0 (ground (arith, h)) in
    λ i. record { path = p i; size = s i; changed = c i }

module _ (h : Host) where
  -- Every digest in the cache is that of the file with its stamp.
  abbrev pub Coherent : List (Stamp × String) → Type 0
  Coherent hashes = All (λ entry. entry.1 ≡ h.sha256 (h.content_of entry.0)) hashes

  cached_sound :
      (key : Stamp) (hashes : List (Stamp × String)) (hash : String)
      → Coherent hashes
      → cached key hashes ≡ some hash
      → hash ≡ h.sha256 (h.content_of key)
  cached_sound key [] hash c e = cc
  cached_sound key ((stamp, x) ∷ hashes) hash c e = elim (Bool-cases (same_stamp key stamp)) [
    | inl s ↦
        let same = ap (λ k. h.sha256 (h.content_of k)) (same_stamp_sound key stamp s) in
        ground (arith, e, s, c.0, same)
    | inr s ↦ cached_sound key hashes hash c.1 (ground (arith, e, s))
  ]

  -- the digest of the file at the path
  abbrev pub DigestOf : Disk → FilePath → String → Type 0
  DigestOf disk path hash =
      (text : String) × (disk path ≡ some (file text)) × (hash ≡ h.sha256 text)

  -- Nothing but the cache has changed.
  abbrev pub Same : Sys → Sys → Type 0
  Same s t = Coherent t.hashes × (t.live ≡ s.live) × (t.events ≡ s.events)

  stream_sha256-at :
      (path : FilePath) (text : String) (t : Sys)
      → t.live.disk path ≡ some (file text)
      → stream_sha256 h path t ≡ (ok (h.sha256 text), t)
  unfolding stream_sha256
  stream_sha256-at path text t e = rw e refl

  hash_stamped-Ends :
      (key : Stamp) (found : Option String) (s t : Sys)
      → cached key t.hashes ≡ found
      → s.live.disk key.path ≡ some (file (h.content_of key))
      → Same s t
      → Ends
          (λ hash u. DigestOf s.live.disk key.path hash × Same s u)
          (λ e. Same s)
          (hash_stamped h key found t)
  hash_stamped-Ends key none s t f at c =
      subst
        (λ r.
          Ends (λ hash u. DigestOf s.live.disk key.path hash × Same s u) (λ e. Same s)
            (store h key r))
        (sym (stream_sha256-at key.path (h.content_of key) t (ap (λ l. l.disk key.path) c.1 ∙ at)))
        ((h.content_of key, at, refl), ((refl, c.0), c.1, c.2))
  hash_stamped-Ends key (some hash) s t f at c =
      ((h.content_of key, at, cached_sound key t.hashes hash c.0 f), c)

  hash_stat-Ends :
      (path : FilePath) (found : Option (ℕ × ℕ)) (s t : Sys)
      → h.stat path s.live ≡ found
      → Same s t
      → Ends
          (λ hash u. DigestOf s.live.disk path hash × Same s u)
          (λ e. Same s)
          (hash_stat h path found t)
  hash_stat-Ends path none s t f c = c
  hash_stat-Ends path (some (size, changed)) s t f c =
      let key : Stamp = record { path = path; size = size; changed = changed } in
      hash_stamped-Ends key (cached key t.hashes) s t refl
        (h.stat-content path s.live size changed f) c

  -- Through the cache, the digest is that of what the file holds.
  pub hash_file-Runs :
      (s : Sys) (path : FilePath)
      → Runs
          (Same s)
          (hash_file h path)
          (λ hash u. DigestOf s.live.disk path hash × Same s u)
          (λ e. Same s)
  unfolding hash_file
  hash_file-Runs s path = record {
    run = λ t c. hash_stat-Ends path (h.stat path t.live) s t (ap (h.stat path) (sym c.1)) c;
  }

  -- `id` is the identity of what the two files hold.
  abbrev pub IdentityOf : Base → Disk → String → Type 0
  IdentityOf base disk id =
      (kernel rootfs : String) × (disk base.kernel ≡ some (file kernel))
      × (disk base.rootfs ≡ some (file rootfs))
      × (id ≡ identity_of h base (h.sha256 kernel) (h.sha256 rootfs))

  pub base_identity-Runs :
      (s : Sys) (base : Base)
      → Runs
          (Same s)
          (base_identity h base)
          (λ id u. IdentityOf base s.live.disk id × Same s u)
          (λ e. Same s)
  unfolding base_identity
  base_identity-Runs s base = Runs->>= _ _ (hash_file-Runs s base.kernel) (λ kernel.
      Runs-fact _ (λ (k : DigestOf s.live.disk base.kernel kernel).
        Runs->>= _ _ (hash_file-Runs s base.rootfs) (λ rootfs.
          Runs-fact _ (λ (r : DigestOf s.live.disk base.rootfs rootfs). Runs-return _ (λ t c. (
            (
              k.0,
              r.0,
              k.1,
              r.1,
              ap (λ d. identity_of h base d rootfs) k.2
                  ∙ ap (identity_of h base (h.sha256 k.0)) r.2,
            ),
            c,
          ))))))
