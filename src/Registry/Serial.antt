-- ===== src/Registry/Serial.antt =====
-- Serial runs on the registry file, and how a state that comes from one moves on when a process
-- under the lock (`_locked` of src/beetroot/registry.py) moves.
use beetroot.Prelude.{
  ℕ, ◌≡◌, refl, sym, ap, ◌∙◌, true, false, inl, inr, Option, none, some, List, [], ◌∷◌, arith,
  Result, Result-cases, Option-cases, Bool-cases,
}
use beetroot.Dict.{Dict}
use beetroot.Registry.{Platform}
use beetroot.Registry.Backend.{ConfigClass}
use beetroot.Registry.Rows.{InstanceMeta}
use beetroot.Registry.Storage.{Files, parse_registry, backup_and_warn, read, initialise, transact}
use beetroot.Registry.Locking.{
  Phase, renaming, leaving, loaded, excludes, locks, is_loaded, update, System, rename, settle,
}
use beetroot.Registry.Exclusion.{Exclusive, update-cases, loaded-excludes}

-- What a serial run does: a read under the shared lock, one under the exclusive lock, an operation.
pub data Event (Op : Type 0) : Type 0 where
  looked relisted : Event Op
  ran : Op → Event Op

module _ {T Text Op : Type 0} (p : Platform T Text) (classes : Dict ConfigClass)
    (body : Op → Dict (InstanceMeta T) → Result (Unit {0} × Option (Dict (InstanceMeta T)))) where
  -- what a critical section reads
  abbrev pub current : Files Text → Dict (InstanceMeta T) × Files Text
  current files = read p classes (initialise p classes files)

  abbrev pub effect : Event Op → Files Text → Files Text
  effect looked files = (read p classes files).1
  effect relisted files = (current files).1
  effect (ran op) files = (transact p classes (body op) files).1

  -- the last event first
  abbrev pub replay : List (Event Op) → Files Text → Files Text
  replay [] files = files
  replay (event ∷ log) files = effect event (replay log files)

  pub transact-settle :
      (op : Op) (files : Files Text)
      → (transact p classes (body op) files).1
        ≡ settle p classes body (body op (current files).0) (current files).1
  unfolding transact
  transact-settle op files = elim (Result-cases (body op (current files).0)) [
    | inl (x, e) ↦ rw (e, transact) refl
    | inr ((_, none), e) ↦ rw (e, transact) refl
    | inr ((_, some rows), e) ↦ rw (e, transact) refl
  ]

  -- A rename of a file that cannot be used does what the read does, and so does one of a file that
  -- is no longer there.
  pub unusable-rename :
      (files : Files Text) (text : Text)
      → files.registry ≡ some text
      → parse_registry p classes text ≡ none
      → rename files ≡ (read p classes files).1
  unfolding read
  unusable-rename files text there bad = ground (arith, there, bad)

  missing-rename :
      (files : Files Text) → files.registry ≡ none → rename files ≡ (read p classes files).1
  unfolding read
  missing-rename files gone = ground (arith, gone)

  rename-missing : (files : Files Text) → (rename files).registry ≡ none
  unfolding backup_and_warn
  rename-missing files = elim (Option-cases files.registry) [
    | inl e ↦ ground (arith, e)
    | inr (text, e) ↦ ground (arith, e)
  ]

  -- How the files of a state come from those at the start.
  pub record IsSerial (files : Files Text) (s : System T Text Op) : Type 0 where
    pub alone : Exclusive s.phase
    pub log : List (Event Op)
    pub whole : ((j : ℕ) → is_loaded (s.phase j) ≡ false) → replay log files ≡ s.files
    pub partial :
        (j : ℕ) (op : Op) (rows : Dict (InstanceMeta T))
        → s.phase j ≡ loaded op rows
        → ((current (replay log files)).0 ≡ rows) × ((current (replay log files)).1 ≡ s.files)
    pub raced : (j : ℕ) → s.phase j ≡ renaming → rename s.files ≡ (read p classes s.files).1

  module _ (files : Files Text) (s : System T Text Op) (h : IsSerial files s) (i : ℕ)
      (at q : Phase T Op) (here : s.phase i ≡ at) where
    open h use {alone, log, whole, partial, raced}

    -- a move that leaves the files
    pub quiet :
        Exclusive (update s.phase i q)
        → is_loaded at ≡ false
        → is_loaded q ≡ false
        → (q ≡ renaming → rename s.files ≡ (read p classes s.files).1)
        → IsSerial files (record { files = s.files; phase = update s.phase i q })
    quiet exclusive at_not q_not race = record {
      alone = exclusive;
      log = log;
      whole = λ none_loaded. whole (λ j. elim (update-cases s.phase i q j) [
        | inl (same, u) ↦ ap is_loaded (ap s.phase (sym same) ∙ here) ∙ at_not
        | inr (other, u) ↦ ap is_loaded (sym u) ∙ none_loaded j
      ]);
      partial = λ j op rows e. elim (update-cases s.phase i q j) [
        | inl (same, u) ↦ absurd (cc (sym q_not ∙ ap is_loaded (sym u ∙ e)))
        | inr (other, u) ↦ partial j op rows (sym u ∙ e)
      ];
      raced = λ j e. elim (update-cases s.phase i q j) [
        | inl (same, u) ↦ race (sym u ∙ e)
        | inr (other, u) ↦ raced j (sym u ∙ e)
      ];
    }

    -- while a process has a lock, only it can have read for an operation
    pub not-loaded :
        locks at ≡ true → is_loaded at ≡ false → (j : ℕ) → is_loaded (s.phase j) ≡ false
    not-loaded locked at_not j = elim (Bool-cases (is_loaded (s.phase j))) [
      | inr e ↦ e
      | inl e ↦
          let same = alone j i (loaded-excludes (s.phase j) e) (ap locks here ∙ locked) in
          ap is_loaded (ap s.phase same ∙ here) ∙ at_not
    ]

    -- a move of the process that has the exclusive lock
    pub exclusively :
        (now : Files Text) (log' : List (Event Op))
        → Exclusive (update s.phase i q)
        → excludes at ≡ true
        → locks q ≡ true
        → (q ≡ renaming → ⊥)
        → (is_loaded q ≡ false → replay log' files ≡ now)
        → ((op : Op) (rows : Dict (InstanceMeta T))
            → q ≡ loaded op rows
            → ((current (replay log' files)).0 ≡ rows) × ((current (replay log' files)).1 ≡ now))
        → IsSerial files (record { files = now; phase = update s.phase i q })
    exclusively now log' exclusive ex lk no_race whole' partial' = record {
      alone = exclusive;
      log = log';
      whole = λ none_loaded. elim (update-cases s.phase i q i) [
        | inl (same, u) ↦ whole' (ap is_loaded (sym u) ∙ none_loaded i)
        | inr (other, u) ↦ absurd (other refl)
      ];
      partial = λ j op rows e. elim (update-cases s.phase i q j) [
        | inl (same, u) ↦ partial' op rows (sym u ∙ e)
        | inr (other, u) ↦ absurd (other (alone i j (ap excludes here ∙ ex) (ap locks (sym u ∙ e))))
      ];
      raced = λ j e. elim (update-cases s.phase i q j) [
        | inl (same, u) ↦ absurd (no_race (sym u ∙ e))
        | inr (other, u) ↦ absurd (other (alone i j (ap excludes here ∙ ex) (ap locks (sym u ∙ e))))
      ];
    }

    -- the rename of a reader, while others may be about to rename too
    pub backed_up :
        Exclusive (update s.phase i q)
        → at ≡ renaming
        → q ≡ leaving
        → IsSerial files (record { files = rename s.files; phase = update s.phase i q })
    backed_up exclusive is_at is_q = record {
      alone = exclusive;
      log = looked ∷ log;
      whole = λ _.
          ap (λ f. (read p classes f).1) (whole (not-loaded (ap locks is_at) (ap is_loaded is_at)))
          ∙ sym (raced i (here ∙ is_at));
      partial = λ j op rows e. elim (update-cases s.phase i q j) [
        | inl (same, u) ↦ absurd (cc (sym is_q ∙ sym u ∙ e))
        | inr (other, u) ↦ absurd (
            cc
              (sym (not-loaded (ap locks is_at) (ap is_loaded is_at) j) ∙ ap is_loaded (sym u ∙ e)))
      ];
      raced = λ j e. missing-rename (rename s.files) (rename-missing s.files);
    }
