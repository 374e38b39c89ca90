-- ===== src/Vm/Prepared.antt =====
-- The overlay that `_up_cached` (src/beetroot/backends/vm.py) starts QEMU on: whatever it finds, it
-- goes on with one whose record is the identity of its base.
use Prim.Native.String.{String}
use beetroot.Prelude.{
  ◌≡◌, refl, sym, ◌∙◌, ap, subst, ◌⊎◌, inl, inr, Bool, true, false, not, ◌&&◌, ◌||◌, none, some,
  List, string_eq, if◌then◌else◌,
}
use beetroot.Prelude.Actions.{◌>>=◌, return}
use beetroot.Prelude.Triples.{Runs, Ends, Ends-mono, Runs->>=, Runs->>, Runs-return, Runs-mono}
use beetroot.Prelude.Words.{strip}
use beetroot.Disk.{FilePath, Disk, file, same_path, under, exists, is_there, write_text}
use beetroot.Vm.{Host, Live, Sys, Event, look, when, replace}
use beetroot.Vm.Files.{write_text-Ends, replace-Ends, same_path-outside}
use beetroot.Vm.Identity.{IdentityOf}
use beetroot.Vm.BootCache.{
  Base, overlay_path, overlay_key_path, key_tmp_path, read_identity, record_identity,
  overlay_is_stale, snapshot_present, discard_overlay, given_key, key_entry,
}
use beetroot.Vm.Backend.{VmDeviceBackend}
use beetroot.Vm.Up.{prune_overlay, prepare_overlay, fresh_overlay}
use beetroot.Vm.Overlay.{
  Ready, Calm, identity_of-given, identity-Runs, overlay_is_stale-Runs, on_disk-Runs,
  discard_overlay-Runs, create_overlay-Runs,
}

module _ (h : Host) (b : VmDeviceBackend) (base : Base) (P : List Event → Type 0) where
  -- what is on the disk once the identity is in the file that is renamed
  abbrev Written : String → Disk → Type 0
  Written id d = IdentityOf h base d id × (d (key_tmp_path b.root) ≡ some (file id))

  module _ (out_kernel : under b.root base.kernel ≡ false)
      (out_rootfs : under b.root base.rootfs ≡ false) where
    IdentityOf-kept :
        (id : String) (before after : Disk)
        → ((q : FilePath) → under b.root q ≡ false → after q ≡ before q)
        → IdentityOf h base before id
        → IdentityOf h base after id
    IdentityOf-kept id before after same (kt, rt, ke, re, e) =
        (kt, rt, same base.kernel out_kernel ∙ ke, same base.rootfs out_rootfs ∙ re, e)

    read-back :
        (id : String) (d : Disk)
        → IdentityOf h base d id
        → d (overlay_key_path b.root) ≡ some (file id)
        → Ready h b base d
    unfolding read_identity
    read-back id d k e = (
      id,
      k,
      ap (key_entry h) e
          ∙ subst (λ i. given_key h (strip i) ≡ some i) (sym k.4)
              (identity_of-given h base (h.sha256 k.0) (h.sha256 k.1)),
    )

    write-identity :
        (id : String) (d : Disk)
        → IdentityOf h base d id
        → Ends (λ _. Written id) (λ e d'. d' ≡ d) (write_text h.denied (key_tmp_path b.root) id d)
    write-identity id d k =
        let tmp = key_tmp_path b.root in
        Ends-mono
          (λ _ d'.
            (d' tmp ≡ some (file id)) × ((q : FilePath) → same_path q tmp ≡ false → d' q ≡ d q))
          (λ _. Written id) (λ e d'. d' ≡ d) (λ e d'. d' ≡ d) (write_text h.denied tmp id d)
          (λ _ d' w. (
            IdentityOf-kept id d d'
                (λ q out. w.1 q (same_path-outside q b.root "vm-overlay.cache-key.tmp" out)) k,
            w.0,
          ))
          (λ e d' w. w) (write_text-Ends h.denied tmp id d)

    replace-identity :
        (id : String) (d : Disk)
        → Written id d
        → Ends
            (λ _. Ready h b base)
            (λ e d'. d' ≡ d)
            (replace h.denied (key_tmp_path b.root) (overlay_key_path b.root) d)
    replace-identity id d k =
        let tmp = key_tmp_path b.root in
        let key = overlay_key_path b.root in
        Ends-mono
          (λ _ d'.
            (d' key ≡ d tmp)
            × ((q : FilePath) → same_path q key ≡ false → same_path q tmp ≡ false → d' q ≡ d q))
          (λ _. Ready h b base) (λ e d'. d' ≡ d) (λ e d'. d' ≡ d) (replace h.denied tmp key d)
          (λ _ d' w.
            read-back id d'
              (IdentityOf-kept id d d'
                (λ q out.
                  w.1 q (same_path-outside q b.root "vm-overlay.cache-key" out)
                    (same_path-outside q b.root "vm-overlay.cache-key.tmp" out))
                k.0)
              (w.0 ∙ k.1))
          (λ e d' w. w) (replace-Ends h.denied tmp key d)

    record_identity-Runs :
        Runs
          (Calm h b base P)
          (record_identity h b.root base)
          (λ _ t. Ready h b base t.live.disk × Calm h b base P t)
          (λ e. Calm h b base P)
    unfolding record_identity
    record_identity-Runs = record {
      run = λ s c.
          (Runs->>= _ _ (identity-Runs h b base P s c) (λ id.
              Runs->> _ _
                (Runs-mono _
                  (λ t
                      (k : (IdentityOf h base t.live.disk id × (t.live ≡ s.live))
                        × Calm h b base P t).
                    (k.0.0, k.1))
                  (λ a t k. k) (λ e t k. k)
                  (on_disk-Runs h b base P (λ d. IdentityOf h base d id) (λ _. Written id)
                    (write_text h.denied (key_tmp_path b.root) id) (λ d k. write-identity id d k)))
                (on_disk-Runs h b base P (Written id) (λ _. Ready h b base)
                  (replace h.denied (key_tmp_path b.root) (overlay_key_path b.root))
                  (λ d k. replace-identity id d k)))).run
            s (c.0, refl, refl);
    }

    pub fresh_overlay-Runs :
        Runs
          (Calm h b base P)
          (fresh_overlay h b base)
          (λ _ t. Ready h b base t.live.disk × Calm h b base P t)
          (λ e. Calm h b base P)
    unfolding fresh_overlay
    fresh_overlay-Runs =
        Runs->> _ _ (create_overlay-Runs h b base P (overlay_path b.root)) record_identity-Runs

    -- no overlay, or one whose record is right
    abbrev AbsentOrReady : Disk → Type 0
    AbsentOrReady d = (exists (overlay_path b.root) d ≡ false) ⊎ Ready h b base d

    prune-Ends :
        (there stale present : Bool) (s : Sys)
        → exists (overlay_path b.root) s.live.disk ≡ there
        → (there ≡ true → stale ≡ false → Ready h b base s.live.disk)
        → Calm h b base P s
        → Ends
            (λ _ t. AbsentOrReady t.live.disk × Calm h b base P t)
            (λ e. Calm h b base P)
            (when (stale || there && not present) (discard_overlay h b.root) s)
    unfolding exists
    prune-Ends there true present s e k c =
        Ends-mono (λ _ t. (t.live.disk (overlay_path b.root) ≡ none) × Calm h b base P t)
          (λ _ t. AbsentOrReady t.live.disk × Calm h b base P t) (λ e. Calm h b base P)
          (λ e. Calm h b base P) _ (λ a t g. (inl (ap is_there g.0), g.1)) (λ e t g. g)
          ((discard_overlay-Runs h b base P).run s c)
    prune-Ends true false false s e k c =
        Ends-mono (λ _ t. (t.live.disk (overlay_path b.root) ≡ none) × Calm h b base P t)
          (λ _ t. AbsentOrReady t.live.disk × Calm h b base P t) (λ e. Calm h b base P)
          (λ e. Calm h b base P) _ (λ a t g. (inl (ap is_there g.0), g.1)) (λ e t g. g)
          ((discard_overlay-Runs h b base P).run s c)
    prune-Ends true false true s e k c = (inr (k refl refl), c)
    prune-Ends false false present s e k c = (inl e, c)

    stale-Runs :
        (l : Live) (there : Bool)
        → Runs
            (λ t. (t.live ≡ l) × Calm h b base P t)
            (if there then overlay_is_stale h b.root base else return false)
            (λ stale t.
              ((there ≡ true → stale ≡ false → Ready h b base l.disk) × (t.live ≡ l))
              × Calm h b base P t)
            (λ e. Calm h b base P)
    stale-Runs l true =
        Runs-mono _ (λ t k. k)
          (λ stale t
              (k : ((stale ≡ false → Ready h b base l.disk) × (t.live ≡ l)) × Calm h b base P t).
            ((λ _. k.0.0, k.0.1), k.1))
          (λ e t k. k) (overlay_is_stale-Runs h b base P l)
    stale-Runs l false = Runs-return _ (λ t k. ((λ e f. cc (e), k.0), k.1))

    prune_overlay-Runs :
        Runs
          (Calm h b base P)
          (prune_overlay h b base)
          (λ _ t. AbsentOrReady t.live.disk × Calm h b base P t)
          (λ e. Calm h b base P)
    unfolding prune_overlay
    prune_overlay-Runs = record {
      run = λ s c.
          let overlay = overlay_path b.root in
          let there = exists overlay s.live.disk in
          (Runs->>= (if there then overlay_is_stale h b.root base else return false)
              (λ stale. look (snapshot_present h overlay) >>= λ present.
                when (stale || there && not present) (discard_overlay h b.root))
              (stale-Runs s.live there)
              (λ stale. record {
                run = λ t k.
                    prune-Ends there stale (snapshot_present h overlay t.live.disk) t
                      (ap (λ l. exists overlay l.disk) k.0.1)
                      (λ a e. subst (λ l. Ready h b base l.disk) (sym k.0.1) (k.0.0 a e)) k.1;
              })).run
            s (refl, c);
    }

    prepare-Ends :
        (there : Bool) (s : Sys)
        → exists (overlay_path b.root) s.live.disk ≡ there
        → AbsentOrReady s.live.disk
        → Calm h b base P s
        → Ends
            (λ _ t. Ready h b base t.live.disk × Calm h b base P t)
            (λ e. Calm h b base P)
            (when (not there) (fresh_overlay h b base) s)
    prepare-Ends true s e (inl absent) c = cc (e, absent)
    prepare-Ends true s e (inr ready) c = (ready, c)
    prepare-Ends false s e k c = fresh_overlay-Runs.run s c

    -- Whatever overlay there was, the one that stands there now has the right record.
    pub prepare_overlay-Runs :
        Runs
          (Calm h b base P)
          (prepare_overlay h b base)
          (λ _ t. Ready h b base t.live.disk × Calm h b base P t)
          (λ e. Calm h b base P)
    unfolding prepare_overlay
    prepare_overlay-Runs = Runs->> _ _ prune_overlay-Runs (record {
      run = λ s k. prepare-Ends (exists (overlay_path b.root) s.live.disk) s refl k.0 k.1;
    })
