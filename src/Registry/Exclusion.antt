-- ===== src/Registry/Exclusion.antt =====
-- Mutual exclusion under the registry's lock (`_locked` of src/beetroot/registry.py): how the phases
-- of the processes keep it when one of them moves.
use beetroot.Prelude.{
  ℕ, ◌≡◌, refl, sym, ap, ◌∙◌, true, ◌⊎◌, inl, inr, Bool-cases, nat_beq, nat_beq_iff,
}
use beetroot.Registry.Locking.{
  Phase, idle, checking, looking, renaming, leaving, escalating, relisting, held, loaded, settled,
  excludes, locks, is_loaded, update,
}

module _ {T Op : Type 0} where
  pub update-cases :
      (phase : ℕ → Phase T Op) (i : ℕ) (q : Phase T Op) (j : ℕ)
      → ((i ≡ j) × (update phase i q j ≡ q)) ⊎ ((i ≡ j → ⊥) × (update phase i q j ≡ phase j))
  unfolding update
  update-cases phase i q j = elim (Bool-cases (nat_beq i j)) [
    | inl e ↦ inl ((nat_beq_iff i j).0 e, rw e refl)
    | inr e ↦ inr (λ same. cc (sym e ∙ (nat_beq_iff i j).1 same), rw e refl)
  ]

  -- A process with the exclusive lock is the only one with a lock.
  abbrev pub Exclusive : (ℕ → Phase T Op) → Type 0
  Exclusive phase = (i j : ℕ) → excludes (phase i) ≡ true → locks (phase j) ≡ true → i ≡ j

  pub excludes-locks : (q : Phase T Op) → excludes q ≡ true → locks q ≡ true
  excludes-locks idle h = cc
  excludes-locks checking h = cc
  excludes-locks looking h = cc
  excludes-locks renaming h = cc
  excludes-locks leaving h = cc
  excludes-locks escalating h = cc
  excludes-locks relisting h = refl
  excludes-locks (held op) h = refl
  excludes-locks (loaded op rows) h = refl
  excludes-locks settled h = refl

  pub loaded-excludes : (q : Phase T Op) → is_loaded q ≡ true → excludes q ≡ true
  loaded-excludes idle h = cc
  loaded-excludes checking h = cc
  loaded-excludes looking h = cc
  loaded-excludes renaming h = cc
  loaded-excludes leaving h = cc
  loaded-excludes escalating h = cc
  loaded-excludes relisting h = cc
  loaded-excludes (held op) h = cc
  loaded-excludes (loaded op rows) h = refl
  loaded-excludes settled h = cc

  pub Exclusive-update :
      (phase : ℕ → Phase T Op) (i : ℕ) (q : Phase T Op)
      → Exclusive phase
      → (excludes q ≡ true → (j : ℕ) → (i ≡ j → ⊥) → locks (phase j) ≡ true → ⊥)
      → (locks q ≡ true → (j : ℕ) → (i ≡ j → ⊥) → excludes (phase j) ≡ true → ⊥)
      → Exclusive (update phase i q)
  Exclusive-update phase i q alone free open_to a b ex lk = elim (update-cases phase i q a) [
    | inl (ia, ua) ↦ elim (update-cases phase i q b) [
      | inl (ib, ub) ↦ sym ia ∙ ib
      | inr (ib, ub) ↦ absurd (free (ap excludes (sym ua) ∙ ex) b ib (ap locks (sym ub) ∙ lk))
    ]
    | inr (ia, ua) ↦ elim (update-cases phase i q b) [
      | inl (ib, ub) ↦ absurd (open_to (ap locks (sym ub) ∙ lk) a ia (ap excludes (sym ua) ∙ ex))
      | inr (ib, ub) ↦ alone a b (ap excludes (sym ua) ∙ ex) (ap locks (sym ub) ∙ lk)
    ]
  ]

  -- a move that gains no lock
  pub Exclusive-keeps :
      (phase : ℕ → Phase T Op) (i : ℕ) (at q : Phase T Op)
      → Exclusive phase
      → phase i ≡ at
      → (excludes q ≡ true → excludes at ≡ true)
      → (locks q ≡ true → locks at ≡ true)
      → Exclusive (update phase i q)
  Exclusive-keeps phase i at q alone here ex lk =
      Exclusive-update phase i q alone
        (λ e j other l. other (alone i j (ap excludes here ∙ ex e) l))
        (λ l j other e. other (sym (alone j i e (ap locks here ∙ lk l))))
