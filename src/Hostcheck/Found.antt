-- ===== src/Hostcheck/Found.antt =====
-- `binder_status` (src/beetroot/hostcheck.py), by the files of the host.
use Prim.Native.String.{String}
use text.Mathlib.Text.{starts_with}
use beetroot.Prelude.{
  ◌≡◌, ◌≢◌, ◌↔◌, ◌⊎◌, inl, inr, refl, Bool, true, false, ◌||◌, Option, none, some, List, [], ◌∷◌,
  ◌++◌, All, Option-cases, Bool-cases, arith, Option-cases, Bool-cases, eq_iff, ap, sym, subst, ◌∙◌,
  string_eq,
}
use beetroot.Prelude.Words.{strip}
use beetroot.Hostcheck.{
  KernelBinderConfig, built_in, as_module, not_set, BinderState, ready, loadable, unsupported,
  unknown, classify, by_config,
}
use beetroot.Hostcheck.Probes.{
  HostFiles, dev_binder_present, binderfs_supported, kernel_config_lines, value_of, key_equals,
  not_set_comment, line_config, scan_config, binder_status,
}

-- A line that gives the key the value y or m.
abbrev pub Enables : String → Type 0
Enables raw =
    (starts_with (strip raw) key_equals ≡ true)
    × ((value_of (strip raw) ≡ "y") ⊎ (value_of (strip raw) ≡ "m"))

-- The comment that the key is not set.
abbrev pub Disables : String → Type 0
Disables raw = strip raw ≡ not_set_comment

-- The first of the lines that enables or disables binder does `P`.
abbrev pub First : (String → Type 0) → List String → Type 0
First P lines =
    (before : List String) × (raw : String) × (after : List String) × (lines
      ≡ before ++ raw ∷ after)
    × P raw
    × All (λ r. (Enables r → ⊥) × (Disables r → ⊥)) before

-- A device node or binderfs is there.
abbrev pub has_binder : HostFiles → Bool
has_binder host = dev_binder_present host || binderfs_supported host

-- what a config makes of a host that lacks binder
abbrev kind : Option KernelBinderConfig → BinderState
kind none = unknown
kind (some built_in) = loadable
kind (some as_module) = loadable
kind (some not_set) = unsupported

kind-eq-unknown : (found : Option KernelBinderConfig) → kind found ≡ unknown → found ≡ none
kind-eq-unknown none e = refl
kind-eq-unknown (some built_in) e = cc (e)
kind-eq-unknown (some as_module) e = cc (e)
kind-eq-unknown (some not_set) e = cc (e)

kind-apart :
    (found : Option KernelBinderConfig)
    → (kind found ≡ loadable → ⊥)
    → (kind found ≡ unsupported → ⊥)
    → found ≡ none
kind-apart none l u = refl
kind-apart (some built_in) l u = absurd (l refl)
kind-apart (some as_module) l u = absurd (l refl)
kind-apart (some not_set) l u = absurd (u refl)

line-Enables : (raw : String) → (kind (line_config (strip raw)) ≡ loadable) ↔ Enables raw
line-Enables raw =
    ground (arith, eq_iff (value_of (strip raw)) "y", eq_iff (value_of (strip raw)) "m")

not_set-starts : (line : String) → line ≡ not_set_comment → starts_with line key_equals ≡ false
not_set-starts line e = rw e refl

line-Disables : (raw : String) → (kind (line_config (strip raw)) ≡ unsupported) ↔ Disables raw
line-Disables raw = ground (arith, eq_iff (strip raw) not_set_comment, not_set-starts (strip raw))

line-undecided :
    (raw : String) → (line_config (strip raw) ≡ none) ↔ ((Enables raw → ⊥) × (Disables raw → ⊥))
line-undecided raw =
    let enables = line-Enables raw in
    let disables = line-Disables raw in
    (
      λ e. (
        λ h. absurd (cc (sym (ap kind e) ∙ enables.1 h)),
        λ h. absurd (cc (sym (ap kind e) ∙ disables.1 h)),
      ),
      λ (l, u). kind-apart (line_config (strip raw)) (λ e. l (enables.0 e)) (λ e. u (disables.0 e)),
    )

abbrev head_or : String → List String → String
head_or raw [] = raw
head_or raw (first ∷ rest) = first

abbrev tail : List String → List String
tail [] = []
tail (first ∷ rest) = rest

module _ (P : String → Type 0) (st : BinderState) (decided : unknown ≢ st)
    (meaning : (raw : String) → (kind (line_config (strip raw)) ≡ st) ↔ P raw) where
  First-nil : First P [] → ⊥
  First-nil ([], raw, after, split, p, h) = cc (split)
  First-nil (r ∷ before, raw, after, split, p, h) = cc (split)

  First-cons :
      (raw : String) (lines : List String)
      → First P (raw ∷ lines)
      → P raw ⊎ (((Enables raw → ⊥) × (Disables raw → ⊥)) × First P lines)
  First-cons raw lines ([], first, after, split, p, h) =
      inl (subst P (sym (ap (head_or raw) split)) p)
  First-cons raw lines (r ∷ before, first, after, split, p, h) = inr (
    subst (λ x. (Enables x → ⊥) × (Disables x → ⊥)) (sym (ap (head_or raw) split)) h.0,
    (before, first, after, ap tail split, p, h.1),
  )

  scan-First : (lines : List String) → (kind (scan_config lines) ≡ st) ↔ First P lines
  unfolding scan_config
  scan-First [] = (λ e. absurd (decided e), λ h. absurd (First-nil h))
  scan-First (raw ∷ lines) = elim (Option-cases (line_config (strip raw))) [
    | inl e ↦ (
      λ h.
          let (before, first, after, split, p, undecided) = (scan-First lines).0 (rw e at h) in
          (
            raw ∷ before,
            first,
            after,
            ap (λ rest. raw ∷ rest) split,
            p,
            ((line-undecided raw).0 e, undecided),
          ),
      λ h. elim (First-cons raw lines h) [
        | inl p ↦ absurd (decided (sym (ap kind e) ∙ (meaning raw).1 p))
        | inr (u, later) ↦ rw e ((scan-First lines).1 later)
      ],
    )
    | inr (k, e) ↦ (
      λ h. ([], raw, lines, refl, (meaning raw).0 (ap kind e ∙ (rw e at h)), tt),
      λ h. elim (First-cons raw lines h) [
        | inl p ↦ rw e (sym (ap kind e) ∙ (meaning raw).1 p)
        | inr (u, later) ↦ absurd (cc (sym e ∙ (line-undecided raw).1 u))
      ],
    )
  ]

by_config-kind : (found : Option KernelBinderConfig) → (by_config found).state ≡ kind found
by_config-kind none = refl
by_config-kind (some built_in) = refl
by_config-kind (some as_module) = refl
by_config-kind (some not_set) = refl

kind-ne-ready : (found : Option KernelBinderConfig) → kind found ≡ ready → ⊥
kind-ne-ready none e = cc (e)
kind-ne-ready (some built_in) e = cc (e)
kind-ne-ready (some as_module) e = cc (e)
kind-ne-ready (some not_set) e = cc (e)

-- The host is `ready` exactly if a device node or binderfs is there. Otherwise it is `loadable`
-- exactly if, of the lines of the kernel config that give CONFIG_ANDROID_BINDER_IPC the value y or m
-- or are the comment that it is not set, the first gives it y or m; and `unsupported` exactly if the
-- first is that comment.
pub binder_status_lem :
    (host : HostFiles)
    → let found = (binder_status host).state in
      let lines = kernel_config_lines host in
      ((found ≡ ready) ↔ (has_binder host ≡ true))
      × ((found ≡ loadable) ↔ ((has_binder host ≡ false) × First Enables lines))
      × ((found ≡ unsupported) ↔ ((has_binder host ≡ false) × First Disables lines))
unfolding classify
binder_status_lem host =
    let lines = kernel_config_lines host in
    let loadable_iff = scan-First Enables loadable (λ e. cc (e)) line-Enables lines in
    let unsupported_iff = scan-First Disables unsupported (λ e. cc (e)) line-Disables lines in
    elim (Bool-cases (has_binder host)) [
      | inl e ↦ rw e (
        (λ _. refl, λ _. refl),
        (λ h. absurd (cc (h)), λ h. absurd (cc (h.0))),
        (λ h. absurd (cc (h)), λ h. absurd (cc (h.0))),
      )
      | inr e ↦ rw e (
          rw (by_config-kind (scan_config lines)) (
            (λ h. absurd (kind-ne-ready (scan_config lines) h), λ h. absurd (cc (h))),
            (λ h. (refl, loadable_iff.0 h), λ h. loadable_iff.1 h.1),
            (λ h. (refl, unsupported_iff.0 h), λ h. unsupported_iff.1 h.1),
          ))
    ]
