-- ===== src/Prelude/Text.antt =====
-- Texts: decimal numerals, lines, and Python's order of texts.
use Prim.Native.Nat.{ℕ, zero, suc, ◌/◌, ◌%◌}
use Prim.Native.String.{String, ◌++◌ as append, compare}
use text.Mathlib.Text.{is_lt}
use mathlib.Core.Bool.{Bool}
use mathlib.Core.List.{List, [], ◌∷◌}
use beetroot.Prelude.Tests.{ltb, if◌then◌else◌}

infixr 45 ◌+++◌
abbrev pub ◌+++◌ : String → String → String
s +++ t = append s t

abbrev pub pick : List String → ℕ → String
pick [] n = ""
pick (s ∷ ss) zero = s
pick (s ∷ ss) (suc n) = pick ss n

abbrev pub digit : ℕ → String
digit = pick ("0" ∷ "1" ∷ "2" ∷ "3" ∷ "4" ∷ "5" ∷ "6" ∷ "7" ∷ "8" ∷ "9" ∷ [])

-- the numeral of a number of at most `fuel` digits
unfoldable pub decimal_from : ℕ → ℕ → String
decimal_from zero n = ""
decimal_from (suc fuel) n =
    let front = decimal_from fuel (n / 10) in if ltb n 10 then digit n else front +++ digit (n % 10)

-- `str(n)` for a number; `n` has fewer digits than `n + 1`
unfoldable pub decimal : ℕ → String
unfolding decimal_from
decimal n = decimal_from (suc n) n

-- `sep.join(texts)`
abbrev pub join : String → List String → String
join sep [] = ""
join sep (s ∷ []) = s
join sep (s ∷ t ∷ ts) = s +++ sep +++ join sep (t ∷ ts)

-- `s < t`
abbrev pub text_before : String → String → Bool
text_before s t = is_lt (compare s t)
