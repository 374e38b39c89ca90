-- ===== src/Vm/Overlay.antt =====
-- The steps on the overlay of an instance (src/beetroot/vm/boot_cache.py): the digests that they
-- compare and what they leave on the disk.
use Prim.Native.String.{String}
use beetroot.Prelude.{
  ◌≡◌, refl, sym, ◌∙◌, ap, subst, inl, inr, Bool, true, false, Option-cases, Option, none, some,
  List, arith, ok, err, eq_iff, string_eq, Error, Result,
}
use beetroot.Prelude.Actions.{Action, return}
use beetroot.Prelude.Triples.{Runs, Ends, Runs->>=, Runs->>, Runs-return, Runs-mono}
use beetroot.Prelude.Words.{strip, first_chars, strip-hex, first_chars-hex, first_chars-given}
use beetroot.Disk.{FilePath, Disk, Entry, file}
use beetroot.Vm.{Host, Live, Sys, Event, on_disk, with_disk, unlink}
use beetroot.Vm.Files.{unlink-Ends, unlink-Ends_none}
use beetroot.Vm.Identity.{Coherent, Same, IdentityOf, base_identity-Runs}
use beetroot.Vm.BootCache.{
  Base, overlay_path, overlay_key_path, read_identity, base_identity, overlay_is_stale,
  discard_overlay, create_overlay, identity_of, identity_text, given_key, differs, created_image,
}
use beetroot.Vm.Backend.{VmDeviceBackend}

-- What record_identity writes is read back as it is.
pub identity_of-given :
    (h : Host) (base : Base) (kernel rootfs : String)
    → let id = identity_of h base kernel rootfs in given_key h (strip id) ≡ some id
unfolding identity_of
identity_of-given h base kernel rootfs =
    let digest = h.sha256 (identity_text h base kernel rootfs) in
    let hex = first_chars-hex 16 digest (h.sha256-hex _) in
    rw (strip-hex (first_chars 16 digest) hex, first_chars-given 15 digest (h.sha256-given _)) refl

differs-false :
    (h : Host) (found : Option String) (id : String) → differs h found id ≡ false → found ≡ some id
differs-false h none id e = cc
differs-false h (some key) id e = ground (arith, eq_iff key id, e)

read_identity-kept :
    (h : Host) (root : FilePath) (before after : Disk) (id : String)
    → ((x : Entry)
        → before (overlay_key_path root) ≡ some x
        → after (overlay_key_path root) ≡ some x)
    → read_identity h root before ≡ some id
    → read_identity h root after ≡ some id
unfolding read_identity
read_identity-kept h root before after id o found =
    elim (Option-cases (before (overlay_key_path root))) [
      | inl e ↦ ground (arith, e, found)
      | inr (x, e) ↦ ground (arith, e, o x e, found)
    ]

module _ (h : Host) (b : VmDeviceBackend) (base : Base) where
  -- The record beside the overlay is the identity of the base as it is on the disk.
  abbrev pub Ready : Disk → Type 0
  Ready disk = (id : String) × IdentityOf h base disk id × (read_identity h b.root disk ≡ some id)

  -- Files that stay where they are keep the record true.
  pub Ready-kept :
      (before after : Disk)
      → ((x : Entry) → before base.kernel ≡ some x → after base.kernel ≡ some x)
      → ((x : Entry) → before base.rootfs ≡ some x → after base.rootfs ≡ some x)
      → ((x : Entry)
          → before (overlay_key_path b.root) ≡ some x
          → after (overlay_key_path b.root) ≡ some x)
      → Ready before
      → Ready after
  Ready-kept before after k r o (id, (kt, rt, ke, re, e), found) = (
    id,
    (kt, rt, k (file kt) ke, r (file rt) re, e),
    read_identity-kept h b.root before after id o found,
  )

  module _ (P : List Event → Type 0) where
    -- The digests in the cache are right, and what was done so far satisfies the condition.
    abbrev pub Calm : Sys → Type 0
    Calm s = Coherent h s.hashes × P s.events

    pub identity-Runs :
        (s : Sys)
        → Calm s
        → Runs
            (Same h s)
            (base_identity h base)
            (λ id t. (IdentityOf h base t.live.disk id × (t.live ≡ s.live)) × Calm t)
            (λ e. Calm)
    identity-Runs s c =
        Runs-mono _ (λ t k. k)
          (λ id t (k : IdentityOf h base s.live.disk id × Same h s t). (
            (subst (λ l. IdentityOf h base l.disk id) (sym k.1.1) k.0, k.1.1),
            (k.1.0, subst P (sym k.1.2) c.1),
          ))
          (λ e t (k : Same h s t). (k.0, subst P (sym k.2) c.1)) (base_identity-Runs h s base)

    pub overlay_is_stale-Runs :
        (l : Live)
        → Runs
            (λ t. (t.live ≡ l) × Calm t)
            (overlay_is_stale h b.root base)
            (λ stale t. ((stale ≡ false → Ready l.disk) × (t.live ≡ l)) × Calm t)
            (λ e. Calm)
    unfolding overlay_is_stale
    overlay_is_stale-Runs l = record {
      run = λ s c.
          (Runs->>= (base_identity h base)
              (λ id. return (differs h (read_identity h b.root s.live.disk) id))
              (identity-Runs s c.1)
              (λ id.
                Runs-return _
                  (λ t (k : (IdentityOf h base t.live.disk id × (t.live ≡ s.live)) × Calm t).
                    let at = k.0.1 ∙ c.0 in
                    (
                      (
                        λ fresh. (
                          id,
                          subst (λ l. IdentityOf h base l.disk id) at k.0.0,
                          ap (λ l. read_identity h b.root l.disk) (sym c.0)
                              ∙ differs-false h (read_identity h b.root s.live.disk) id fresh,
                        ),
                        at,
                      ),
                      k.1,
                    )))).run
            s (c.1.0, refl, refl);
    }

    Ends-with_disk :
        {A : Type 0} (s : Sys) (G : A → Disk → Type 0) (F : Error → Disk → Type 0)
        (r : Result A × Disk)
        → Calm s
        → Ends G F r
        → Ends (λ a t. G a t.live.disk × Calm t) (λ e. Calm) (with_disk s r)
    Ends-with_disk s G F (ok a, d) c g = (g, c)
    Ends-with_disk s G F (err e, d) c g = c

    -- a change of files that changes nothing where it raises
    pub on_disk-Runs :
        {A : Type 0} (F : Disk → Type 0) (G : A → Disk → Type 0) (act : Action Disk A)
        → ((d : Disk) → F d → Ends G (λ e d'. d' ≡ d) (act d))
        → Runs
            (λ s. F s.live.disk × Calm s)
            (on_disk act)
            (λ a t. G a t.live.disk × Calm t)
            (λ e. Calm)
    on_disk-Runs F G act k = record {
      run = λ s c.
          Ends-with_disk s G (λ e d. d ≡ s.live.disk) (act s.live.disk) c.1 (k s.live.disk c.0);
    }

    pub discard_overlay-Runs :
        Runs Calm
          (discard_overlay h b.root)
          (λ _ t. (t.live.disk (overlay_path b.root) ≡ none) × Calm t)
          (λ e. Calm)
    unfolding discard_overlay
    discard_overlay-Runs =
        let gone : Disk → Type 0 = λ d. d (overlay_path b.root) ≡ none in
        Runs->> {P = Calm} _ _
          (Runs-mono {P' = Calm} _ (λ s c. (tt {0}, c)) (λ a t k. k) (λ e t k. k)
            (on_disk-Runs (λ d. Unit {0}) (λ _. gone) (unlink h.denied (overlay_path b.root))
              (λ d _. unlink-Ends h.denied (overlay_path b.root) d)))
          (on_disk-Runs gone (λ _. gone) (unlink h.denied (overlay_key_path b.root))
            (λ d g. unlink-Ends_none h.denied (overlay_key_path b.root) (overlay_path b.root) d g))

    created-Ends :
        (overlay : FilePath) (created : Bool) (entry : Option Entry) (s : Sys)
        → Calm s
        → Ends (λ _. Calm) (λ e. Calm) (created_image h overlay (created, entry) s)
    created-Ends overlay true entry s c = c
    created-Ends overlay false entry s c = c

    pub create_overlay-Runs :
        (overlay : FilePath)
        → Runs Calm (create_overlay h base.rootfs overlay) (λ _. Calm) (λ e. Calm)
    unfolding create_overlay
    create_overlay-Runs overlay = record {
      run = λ s c.
          created-Ends overlay (h.create_image base.rootfs overlay s.live.disk).0
            (h.create_image base.rootfs overlay s.live.disk).1 s c;
    }
