-- ===== src/Registry/Interleaved.antt =====
-- Processes that interleave under the registry's lock (`_locked` of src/beetroot/registry.py) leave
-- what whole reads and whole operations leave, one after another.
use beetroot.Prelude.{ℕ, ◌≡◌, refl, sym, ap, ◌∙◌, false, Option, List, [], ◌∷◌, Result}
use beetroot.Dict.{Dict}
use beetroot.Registry.{Platform}
use beetroot.Registry.Backend.{ConfigClass}
use beetroot.Registry.Rows.{InstanceMeta}
use beetroot.Registry.Storage.{Files}
use beetroot.Registry.Locking.{
  Phase, idle, checking, looking, renaming, leaving, escalating, relisting, held, loaded, settled,
  is_loaded, update, System, settle, Move, enter_shared, pass, escalate, find_nothing, find_rows,
  find_unusable, back_up, leave_shared, enter_again, relist, enter_exclusive, load, work,
  leave_exclusive, pick, Reached, start, next,
}
use beetroot.Registry.Exclusion.{Exclusive, excludes-locks, Exclusive-update, Exclusive-keeps}
use beetroot.Registry.Serial.{
  Event, relisted, ran, current, replay, transact-settle, unusable-rename, IsSerial, quiet,
  exclusively, backed_up, not-loaded,
}

module _ {T Text Op : Type 0} (p : Platform T Text) (classes : Dict ConfigClass)
    (body : Op → Dict (InstanceMeta T) → Result (Unit {0} × Option (Dict (InstanceMeta T)))) where
  Move-IsSerial :
      (files : Files Text) (s : System T Text Op) (i : ℕ) {at q : Phase T Op} {now : Files Text}
      → IsSerial p classes body files s
      → s.phase i ≡ at
      → Move p classes body s.phase s.files at q now
      → IsSerial p classes body files (record { files = now; phase = update s.phase i q })
  Move-IsSerial files s i h here (enter_shared free) =
      quiet p classes body files s h i idle checking here
        (Exclusive-update s.phase i checking h.alone (λ e. cc)
          (λ l j other e. cc (sym (free j) ∙ e)))
        refl refl (λ e. cc (e))
  Move-IsSerial files s i h here (pass current_version) =
      quiet p classes body files s h i checking looking here
        (Exclusive-keeps s.phase i checking looking h.alone here (λ e. e) (λ e. e)) refl refl
        (λ e. cc (e))
  Move-IsSerial files s i h here (escalate old_version) =
      quiet p classes body files s h i checking escalating here
        (Exclusive-keeps s.phase i checking escalating h.alone here (λ e. e) (λ e. refl)) refl refl
        (λ e. cc (e))
  Move-IsSerial files s i h here (find_nothing gone) =
      quiet p classes body files s h i looking leaving here
        (Exclusive-keeps s.phase i looking leaving h.alone here (λ e. e) (λ e. e)) refl refl
        (λ e. cc (e))
  Move-IsSerial files s i h here (find_rows text rows there good) =
      quiet p classes body files s h i looking leaving here
        (Exclusive-keeps s.phase i looking leaving h.alone here (λ e. e) (λ e. e)) refl refl
        (λ e. cc (e))
  Move-IsSerial files s i h here (find_unusable text there bad) =
      quiet p classes body files s h i looking renaming here
        (Exclusive-keeps s.phase i looking renaming h.alone here (λ e. e) (λ e. e)) refl refl
        (λ _. unusable-rename p classes body s.files text there bad)
  Move-IsSerial files s i h here back_up =
      backed_up p classes body files s h i renaming leaving here
        (Exclusive-keeps s.phase i renaming leaving h.alone here (λ e. e) (λ e. e)) refl refl
  Move-IsSerial files s i h here leave_shared =
      quiet p classes body files s h i leaving idle here
        (Exclusive-keeps s.phase i leaving idle h.alone here (λ e. e) (λ e. refl)) refl refl
        (λ e. cc (e))
  Move-IsSerial files s i h here (enter_again free) =
      quiet p classes body files s h i escalating relisting here
        (Exclusive-update s.phase i relisting h.alone (λ e j other l. cc (sym (free j) ∙ l))
          (λ l j other e. cc (sym (free j) ∙ excludes-locks (s.phase j) e)))
        refl refl (λ e. cc (e))
  Move-IsSerial files s i h here relist =
      exclusively p classes body files s h i relisting settled here
        (current p classes body s.files).1 (relisted ∷ h.log)
        (Exclusive-keeps s.phase i relisting settled h.alone here (λ e. e) (λ e. e)) refl refl
        (λ e. cc (e))
        (λ _.
          ap (λ f. (current p classes body f).1)
            (h.whole (not-loaded p classes body files s h i relisting settled here refl refl)))
        (λ op rows e. cc (e))
  Move-IsSerial files s i h here (enter_exclusive op free) =
      quiet p classes body files s h i idle (held op) here
        (Exclusive-update s.phase i (held op) h.alone (λ e j other l. cc (sym (free j) ∙ l))
          (λ l j other e. cc (sym (free j) ∙ excludes-locks (s.phase j) e)))
        refl refl (λ e. cc (e))
  Move-IsSerial files s i h here (load op) =
      let whole =
        h.whole (not-loaded p classes body files s h i (held op) (held op) here refl refl) in
      exclusively p classes body files s h i (held op)
        (loaded op (current p classes body s.files).0) here (current p classes body s.files).1 h.log
        (Exclusive-keeps s.phase i (held op) (loaded op (current p classes body s.files).0) h.alone
          here (λ e. e) (λ e. e))
        refl refl (λ e. cc (e)) (λ e. cc (e))
        (λ op' rows e.
          let same : (current p classes body s.files).0 ≡ rows = cc (e) in
          (
            ap (λ f. (current p classes body f).0) whole ∙ same,
            ap (λ f. (current p classes body f).1) whole,
          ))
  Move-IsSerial files s i h here (work op rows) =
      let (read_rows, read_files) = h.partial i op rows here in
      exclusively p classes body files s h i (loaded op rows) settled here
        (settle p classes body (body op rows) s.files) (ran op ∷ h.log)
        (Exclusive-keeps s.phase i (loaded op rows) settled h.alone here (λ e. e) (λ e. e)) refl
        refl (λ e. cc (e))
        (λ _.
          transact-settle p classes body op (replay p classes body h.log files)
          ∙ ap
              (λ x.
                settle p classes body (body op x)
                  (current p classes body (replay p classes body h.log files)).1)
              read_rows
          ∙ ap (settle p classes body (body op rows)) read_files)
        (λ op' rows' e. cc (e))
  Move-IsSerial files s i h here leave_exclusive =
      quiet p classes body files s h i settled idle here
        (Exclusive-keeps s.phase i settled idle h.alone here (λ e. cc) (λ e. refl)) refl refl
        (λ e. cc (e))

  Reached-IsSerial :
      (files : Files Text) {s : System T Text Op}
      → Reached p classes body files s
      → IsSerial p classes body files s
  Reached-IsSerial files start = record {
    alone = λ i j e. cc (e);
    log = [];
    whole = λ _. refl;
    partial = λ j op rows e. cc (e);
    raced = λ j e. cc (e);
  }
  Reached-IsSerial files (next {s = s} r (pick i here move)) =
      Move-IsSerial files s i (Reached-IsSerial files r) here move

  -- However the processes interleave, no process has a lock beside one that has the exclusive lock.
  -- Whenever no operation stands between its read and its write, the files are those that some
  -- sequence of whole reads and whole operations leaves, one after another, from the files at the
  -- start; this also where readers race to rename a file that they cannot use. And an operation that
  -- stands there has read the rows that such a sequence leaves.
  pub Reached-serial :
      (files : Files Text) (s : System T Text Op)
      → Reached p classes body files s
      → Exclusive s.phase
        × (((j : ℕ) → is_loaded (s.phase j) ≡ false)
            → (log : List (Event Op)) × (replay p classes body log files ≡ s.files))
        × ((j : ℕ) (op : Op) (rows : Dict (InstanceMeta T))
            → s.phase j ≡ loaded op rows
            → (log : List (Event Op)) × ((current p classes body
                  (replay p classes body log files)).0
                ≡ rows))
  Reached-serial files s r =
      let h = Reached-IsSerial files r in
      (h.alone, λ none. (h.log, h.whole none), λ j op rows e. (h.log, (h.partial j op rows e).0))
