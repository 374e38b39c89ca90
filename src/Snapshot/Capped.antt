-- ===== src/Snapshot/Capped.antt =====
-- The bound on the bytes that `_extract_archive_into` of src/beetroot/snapshot.py reads.
use beetroot.Prelude.{
  ℕ, ◌⊎◌, ◌≡◌, ◌≤◌, ◌<◌, ◌+◌, List, [], ◌∷◌, ok, err, arith, ltb, inl, inr, Bool-cases, too_large,
  Result, ap, ◌∙◌, Bool, true, false, err-ne-ok, ok_injective, bad_archive,
}
use beetroot.Disk.{FilePath, Disk}
use beetroot.Prelude.Actions.{Action, continue}
use beetroot.Snapshot.{Member, Archiver, capped_read, capped_reads, extract_members}

abbrev pub sum : List ℕ → ℕ
sum [] = 0
sum (n ∷ ns) = n + sum ns

-- Reading chunks returns the total exactly where that is within the cap, and otherwise raises.
pub capped_reads_lem :
    (cap_bytes total : ℕ) (chunks : List ℕ)
    → total ≤ cap_bytes
    → ((total + sum chunks ≤ cap_bytes)
        × (capped_reads cap_bytes total chunks ≡ ok (total + sum chunks)))
      ⊎ ((cap_bytes < total + sum chunks) × (capped_reads cap_bytes total chunks ≡ err too_large))
unfolding capped_reads capped_read
capped_reads_lem cap_bytes total [] h = inl (ground arith, ground arith)
capped_reads_lem cap_bytes total (chunk ∷ chunks) h =
    elim (Bool-cases (ltb cap_bytes (total + chunk))) [
      | inl over ↦ inr (ground arith, rw over)
      | inr within ↦ elim (capped_reads_lem cap_bytes (total + chunk) chunks (ground arith)) [
        | inl (a, b) ↦ inl (
          ground arith,
          rw (within, capped_reads, capped_read) (b ∙ ap (λ n. ok n) (omega arith)),
        )
        | inr (a, b) ↦ inr (ground arith, rw (within, capped_reads, capped_read) b)
      ]
    ]

continue-eq-ok {ℓ κ} :
    {W : Type 0} {A : Type ℓ} {B : Type κ} (step : Result A × W) (next : A → Action W B) {b : B}
    → (continue step next).0 ≡ ok b
    → (a : A) × (w : W) × ((next a w).0 ≡ ok b)
continue-eq-ok (ok a, w) next h = (a, w, h)
continue-eq-ok (err e, w) next {b} h = absurd (err-ne-ok e {a = b} h)

-- the bytes that the members of an archive take
abbrev pub bytes : List Member → ℕ
bytes [] = 0
bytes (member ∷ members) = sum member.reads + bytes members

-- Unpacking that starts within the cap and returns has read every byte of the members, which are
-- within the cap.
pub extract_members_bounds :
    (archiver : Archiver) (cap_bytes : ℕ) (target : FilePath) (total : ℕ) (members : List Member)
    (damaged : Bool) (disk : Disk) (n : ℕ)
    → total ≤ cap_bytes
    → (extract_members archiver cap_bytes target total members damaged disk).0 ≡ ok n
    → (n ≡ total + bytes members) × (n ≤ cap_bytes)
unfolding extract_members
extract_members_bounds archiver cap_bytes target total [] true disk n within done =
    absurd (err-ne-ok bad_archive done)
extract_members_bounds archiver cap_bytes target total [] false disk n within done =
    let same = ok_injective total n done in (ground arith, ground arith)
extract_members_bounds archiver cap_bytes target total (member ∷ members) damaged disk n within
      done =
    elim (capped_reads_lem cap_bytes total member.reads within) [
      | inr (over, e) ↦ absurd (ground arith)
      | inl (low, e) ↦
          let (go_on, disk', rest) =
            continue-eq-ok (archiver.extract target member disk)
              (λ go_on.
                extract_members archiver cap_bytes target (total + sum member.reads) members
                  damaged)
              (rw (e, extract_members) at done) in
          let (same, low') =
            extract_members_bounds archiver cap_bytes target (total + sum member.reads) members
              damaged disk' n low rest in
          (ground arith, low')
    ]
