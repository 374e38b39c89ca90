-- ===== src/Prelude/Occurs.antt =====
-- Python's `t in s`: a text that occurs in a part occurs in the whole.
use Prim.Native.String.{String, ◌++◌}
use mathlib.Core.Path.{◌≡◌, refl, sym, ap, ◌∙◌}
use mathlib.Core.Bool.{true}
use text.Mathlib.Text.{starts_with}
use text.Mathlib.TextEquality.{starts_with_iff, eq_iff}
use text.Mathlib.TextPositions.{starts_with-append}
use text.Mathlib.TextLemmas.{nil-append, cons-append, append_assoc, append-eq-nil_iff}
use native.Mathlib.Omega.{arith}
use mathlib.Core.Logic.{inl, inr}
use beetroot.Prelude.Tests.{Bool-cases}
use beetroot.Prelude.Words.{occurs}

pub occurs-append_left : (t a s : String) → occurs t s ≡ true → occurs t (a ++ s) ≡ true
unfolding occurs
occurs-append_left t String.[] s h = rw nil-append h
occurs-append_left t (String.◌∷◌ c a) s h =
    rw cons-append (ground (arith, occurs-append_left t a s h))

starts_with-longer : (s t a : String) → starts_with s t ≡ true → starts_with (s ++ a) t ≡ true
starts_with-longer s t a h =
    let (u, e) = (starts_with_iff s t).0 h in
    (starts_with_iff (s ++ a) t).1 (u ++ a, sym (append_assoc t u a) ∙ ap (λ x. x ++ a) e)

occurs-starts_with : (s t : String) → starts_with s t ≡ true → occurs t s ≡ true
unfolding occurs
occurs-starts_with String.[] t h =
    let (u, e) = (starts_with_iff "" t).0 h in (eq_iff t "").1 ((append-eq-nil_iff.0 e).0)
occurs-starts_with (String.◌∷◌ c s) t h = ground (arith, h)

pub occurs-append_self : (t a : String) → occurs t (t ++ a) ≡ true
occurs-append_self t a = occurs-starts_with (t ++ a) t (starts_with-append t a)

pub occurs-append_right : (t s a : String) → occurs t s ≡ true → occurs t (s ++ a) ≡ true
unfolding occurs
occurs-append_right t String.[] a h =
    rw ((eq_iff t "").0 h)
      (occurs-starts_with ("" ++ a) "" ((starts_with_iff ("" ++ a) "").1 (a, refl)))
occurs-append_right t (String.◌∷◌ c s) a h = elim (Bool-cases (starts_with (String.◌∷◌ c s) t)) [
  | inl e ↦ occurs-starts_with (String.◌∷◌ c s ++ a) t (starts_with-longer (String.◌∷◌ c s) t a e)
  | inr e ↦ rw cons-append (ground (arith, occurs-append_right t s a, e, h))
]
