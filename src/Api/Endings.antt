-- ===== src/Api/Endings.antt =====
-- How a confirmed `Instance.destroy` of src/beetroot/api.py ends, and what `reset` leaves.
use beetroot.Prelude.{
  Error, ◌≡◌, refl, sym, ap, ◌∙◌, ◌⊎◌, inl, inr, Bool, Bool-cases, true, false, Option, none, some,
  ok, err, Result, os_error,
}
use beetroot.Prelude.Actions.{Action, given}
use beetroot.Prelude.Triples.{
  Runs, Ends, Ends-mono, Ends-with, Runs->>, Runs->>=, Runs-fact, Runs-mono,
}
use beetroot.Dict.{Dict, erase}
use beetroot.Registry.Backend.{ConfigClass}
use beetroot.Registry.Rows.{InstanceMeta}
use beetroot.Registry.Reread.{HasInTree}
use beetroot.Registry.Transactions.{listed}
use beetroot.Disk.{FilePath, Disk, exists, rmtree}
use beetroot.Disk.Outside.{Outside-refl}
use beetroot.Disk.Raises.{OnlyOsError, mkdir-OnlyOsError, touch-OnlyOsError, rmtree-Runs}
use beetroot.Disk.Layout.{lock_file}
use beetroot.Api.{Machine, World, Instance, on_disk, when, when_disk, with_disk}
use beetroot.Api.Lifecycle.{
  destroy, teardown_under_lock, instance_lock, is_caught, caught, raise_kept,
}
use beetroot.Api.Enroll.{Lists, Elsewhere, remove-Runs}
use beetroot.Api.Isolation.{destroy-Kept}

caught-eq-none : (down : Result (Unit {0})) → caught down ≡ ok none → down ≡ ok tt
caught-eq-none (ok tt) h = refl
caught-eq-none (err e) h = elim (Bool-cases (is_caught e)) [
  | inl b ↦ absurd (cc (rw b at h))
  | inr b ↦ absurd (cc (rw b at h))
]

caught-eq-some :
    (down : Result (Unit {0})) {e : Error}
    → caught down ≡ ok (some e)
    → (down ≡ err e) × (is_caught e ≡ true)
caught-eq-some (ok done) h = absurd (cc (h))
caught-eq-some (err x) {e} h = elim (Bool-cases (is_caught x)) [
  | inl b ↦ let same : x ≡ e = cc (rw b at h) in (ap err same, ap is_caught (sym same) ∙ b)
  | inr b ↦ absurd (cc (rw b at h))
]

caught-eq-err :
    (down : Result (Unit {0})) {e : Error}
    → caught down ≡ err e
    → (down ≡ err e) × (is_caught e ≡ false)
caught-eq-err (ok done) h = absurd (cc (h))
caught-eq-err (err x) {e} h = elim (Bool-cases (is_caught x)) [
  | inl b ↦ absurd (cc (rw b at h))
  | inr b ↦ let same : x ≡ e = cc (rw b at h) in (ap err same, ap is_caught (sym same) ∙ b)
]

module _ {Text : Type 0} where
  Ends-with_disk {ℓ} :
      {A : Type ℓ} (w : World Text) (Q : A → World Text → Type 0) (E : Error → World Text → Type 0)
      (step : Result A × Disk)
      → Ends (λ a d. Q a (record w { disk = d })) (λ e d. E e (record w { disk = d })) step
      → Ends Q E (with_disk w step)
  Ends-with_disk w Q E (ok a, d) h = h
  Ends-with_disk w Q E (err e, d) h = h

  Ends-when :
      (b : Bool) (act : Action (World Text) (Unit {0})) (w : World Text)
      (Q : Unit {0} → World Text → Type 0) (E : Error → World Text → Type 0)
      → Ends Q E (act w)
      → (b ≡ false → Q tt w)
      → Ends Q E (when b act w)
  Ends-when true act w Q E h k = h
  Ends-when false act w Q E h k = k refl

  Runs-when_disk :
      {P : World Text → Type 0} {Q : Unit {0} → World Text → Type 0}
      {E : Error → World Text → Type 0} (test : Disk → Bool) (act : Action (World Text) (Unit {0}))
      → Runs P act Q E
      → ((w : World Text) → test w.disk ≡ false → P w → Q tt w)
      → Runs P (when_disk test act) Q E
  Runs-when_disk {Q = Q} {E = E} test act h k = record {
    run = λ w p. Ends-when (test w.disk) act w Q E (h.run w p) (λ e. k w e p);
  }

module _ {T Text : Type 0} (m : Machine T Text) (classes : Dict ConfigClass) where
  on_disk-Lists :
      (rows : Dict (InstanceMeta T)) (C : Disk → Type 0) (act : Action Disk (Unit {0}))
      → Runs (λ d. Unit {0}) act (λ _. C) (λ e d. e ≡ os_error)
      → Runs
          (Lists m classes rows)
          (on_disk act)
          (λ _ w. C w.disk × Lists m classes rows w)
          (λ e w. (e ≡ os_error) × Lists m classes rows w)
  on_disk-Lists rows C act k = record {
    run = λ w h.
        Ends-with_disk w (λ _ w'. C w'.disk × Lists m classes rows w')
          (λ e w'. (e ≡ os_error) × Lists m classes rows w') (act w.disk)
          (Ends-mono (λ _. C) _ (λ e d. e ≡ os_error) _ (act w.disk) (λ a d c. (c, h))
            (λ e d o. (o, h)) (k.run w.disk tt));
  }

  lock-OnlyOsError : (root : FilePath) → OnlyOsError (instance_lock m classes root)
  unfolding instance_lock
  lock-OnlyOsError root =
      Runs->> {Q = λ d. Unit {0}} _ _ (mkdir-OnlyOsError m.denied root)
        (touch-OnlyOsError m.denied (lock_file root))

  module _ (known : HasInTree classes) (inst : Instance) (down : Result (Unit {0}))
      (rows : Dict (InstanceMeta T)) where
    abbrev Left : World Text → Type 0
    Left = Lists m classes (erase inst.name rows)

    -- the directory is gone, and the row
    abbrev pub Gone : World Text → Type 0
    Gone w = (exists inst.root w.disk ≡ false) × Left w

    -- How a destruction fails: an OSError of its own stops it; or `docker compose down` raised
    -- something else than a ComposeError, before anything was removed; or it raised a ComposeError.
    abbrev pub Failed : Error → World Text → Type 0
    Failed e w =
        ((e ≡ os_error) × (Lists m classes rows w ⊎ Left w))
        ⊎ (((down ≡ err e) × (is_caught e ≡ false) × Lists m classes rows w)
            ⊎ ((down ≡ err e) × (is_caught e ≡ true) × Gone w))

    lock-step :
        Runs
          (Lists m classes rows)
          (when_disk (exists inst.root) (on_disk (instance_lock m classes inst.root)))
          (λ _. Lists m classes rows)
          Failed
    lock-step =
        Runs-when_disk (exists inst.root) (on_disk (instance_lock m classes inst.root))
          (Runs-mono (on_disk (instance_lock m classes inst.root)) (λ w h. h) (λ a w h. h.1)
            (λ e w h. inl (h.0, inl h.1))
            (on_disk-Lists rows (λ d. Unit {0}) (instance_lock m classes inst.root)
              (lock-OnlyOsError inst.root)))
          (λ w e h. h)

    rmtree-step :
        Runs Left
          (when_disk (exists inst.root) (on_disk (rmtree m.denied inst.root)))
          (λ _. Gone)
          Failed
    rmtree-step =
        Runs-when_disk (exists inst.root) (on_disk (rmtree m.denied inst.root))
          (Runs-mono (on_disk (rmtree m.denied inst.root)) (λ w h. h) (λ a w h. h)
            (λ e w h. inl (h.0, inr h.1))
            (on_disk-Lists (erase inst.name rows) (λ d. exists inst.root d ≡ false)
              (rmtree m.denied inst.root) (rmtree-Runs m.denied inst.root)))
          (λ w e h. (e, h))

    caught-ends :
        (result : Result (Option Error)) (w : World Text)
        → caught down ≡ result
        → Lists m classes rows w
        → Ends (λ f w'. (caught down ≡ ok f) × Lists m classes rows w') Failed (given result w)
    caught-ends (ok f) w same h = (same, h)
    caught-ends (err e) w same h =
        let (raised, other) = caught-eq-err down same in inr (inl (raised, other, h))

    caught-step :
        Runs
          (Lists m classes rows)
          (given (caught down))
          (λ f w. (caught down ≡ ok f) × Lists m classes rows w)
          Failed
    caught-step = record { run = λ w h. caught-ends (caught down) w refl h }

    raise-step :
        (f : Option Error)
        → caught down ≡ ok f
        → Runs Gone (given (raise_kept f)) (λ _ w. (down ≡ ok tt) × Gone w) Failed
    raise-step none same = record { run = λ w h. (caught-eq-none down same, h) }
    raise-step (some e) same =
        let (raised, compose) = caught-eq-some down same in
        record { run = λ w h. inr (inr (raised, compose, h)) }

    pub destroy-Runs :
        Runs
          (Lists m classes rows)
          (destroy m classes inst true down)
          (λ _ w. (down ≡ ok tt) × Gone w)
          Failed
    unfolding destroy teardown_under_lock
    destroy-Runs =
        Runs->> {Q = Lists m classes rows}
          (when_disk (exists inst.root) (on_disk (instance_lock m classes inst.root)))
          (teardown_under_lock m classes inst down) lock-step
          (Runs->>= _ _ caught-step (λ compose_error. Runs-fact _ (λ same.
            Runs->> {Q = Left} _ _
              (remove-Runs m classes known inst.name rows (erase inst.name rows) refl Failed)
              (Runs->> {Q = Gone} _ _ rmtree-step (raise-step compose_error same)))))

  -- With the in-tree config classes registered, a confirmed destroy ends in one of four ways. It
  -- returns: `docker compose down` had succeeded, the instance's row is gone and so is its
  -- directory. It raises a ComposeError of `docker compose down`, with the row and the directory
  -- gone all the same. It raises another error of `docker compose down`, and the row is there. Or an
  -- OSError of its own stops it, with the row there or gone. In each case nothing outside the
  -- directory changes, but for missing directories above it, which may be made.
  pub destroy_lem :
      (known : HasInTree classes) (inst : Instance) (down : Result (Unit {0})) (w : World Text)
      → let rows = listed m.platform classes w.files in
        Ends
          (λ _ w'.
            ((down ≡ ok tt) × Gone known inst down rows w') × Elsewhere m classes inst.root w w')
          (λ e w'. Failed known inst down rows e w' × Elsewhere m classes inst.root w w')
          (destroy m classes inst true down w)
  destroy_lem known inst down w =
      let rows = listed m.platform classes w.files in
      Ends-with (λ _ w'. (down ≡ ok tt) × Gone known inst down rows w')
        (Failed known inst down rows) (Elsewhere m classes inst.root w)
        (destroy m classes inst true down w) ((destroy-Runs known inst down rows).run w refl)
        ((destroy-Kept m classes inst w true down).run w (Outside-refl inst.root w.disk))
