-- ===== src/Prelude/Words.antt =====
-- Python's methods of `str` that the program uses on the output of commands and on files under
-- /proc: `lower`, `strip`, `splitlines`, `split`, `partition`, `in` and `endswith`.
use Prim.Native.Char.{Char, code}
use Prim.Native.Nat.{ℕ, zero, suc, ◌-◌}
use Prim.Native.String.{String}
use text.Mathlib.Text.{starts_with, ◌==◌}
use mathlib.Core.Bool.{Bool, true, false, ◌&&◌, ◌||◌}
use mathlib.Core.Option.{Option, none, some}
use mathlib.Core.List.{List, [], ◌∷◌}
use mathlib.Core.Logic.{inl, inr}
use text.Mathlib.TextEquality.{eq_iff}
use text.Mathlib.TextLemmas.{cons-ne-nil}
use beetroot.Prelude.Tests.{Bool-cases, leb, nat_beq, if◌then◌else◌}
use mathlib.Core.Path.{◌≡◌, refl, ap, ◌∙◌}
use native.Mathlib.Omega.{arith}
use beetroot.Prelude.Text.{◌+++◌, pick}

-- `t in s`
unfoldable pub occurs : String → String → Bool
occurs t String.[] = t == ""
occurs t (String.◌∷◌ c s) = starts_with (String.◌∷◌ c s) t || occurs t s

-- `s.endswith(t)`
unfoldable pub ends_with : String → String → Bool
ends_with String.[] t = t == ""
ends_with (String.◌∷◌ c s) t = (String.◌∷◌ c s) == t || ends_with s t

abbrev letters : List String
letters =
    "a" ∷ "b" ∷ "c" ∷ "d" ∷ "e" ∷ "f" ∷ "g" ∷ "h" ∷ "i" ∷ "j" ∷ "k" ∷ "l" ∷ "m" ∷ "n" ∷ "o" ∷ "p"
    ∷ "q" ∷ "r" ∷ "s" ∷ "t" ∷ "u" ∷ "v" ∷ "w" ∷ "x" ∷ "y" ∷ "z" ∷ []

abbrev one_char : Char → String
one_char c = String.◌∷◌ c String.[]

abbrev lower_char : Char → String
lower_char c =
    if leb b'A' (code c) && leb (code c) b'Z' then pick letters (code c - b'A') else one_char c

-- `s.lower()`, on the ASCII letters
unfoldable pub lowered : String → String
lowered String.[] = ""
lowered (String.◌∷◌ c s) = lower_char c +++ lowered s

-- white space below U+0080
abbrev pub is_space : Char → Bool
is_space c = leb 9 (code c) && leb (code c) 13 || leb 28 (code c) && leb (code c) 32

unfoldable pub rstrip : String → String
rstrip String.[] = ""
rstrip (String.◌∷◌ c s) =
    let rest = rstrip s in if is_space c && rest == "" then "" else String.◌∷◌ c rest

unfoldable pub lstrip : String → String
lstrip String.[] = ""
lstrip (String.◌∷◌ c s) = let rest = lstrip s in if is_space c then rest else String.◌∷◌ c s

-- `s.strip()`
unfoldable pub strip : String → String
unfolding rstrip lstrip
strip s = lstrip (rstrip s)

abbrev is_quote : Char → Bool
is_quote c = nat_beq (code c) 34

unfoldable rstrip_quotes : String → String
rstrip_quotes String.[] = ""
rstrip_quotes (String.◌∷◌ c s) =
    let rest = rstrip_quotes s in if is_quote c && rest == "" then "" else String.◌∷◌ c rest

unfoldable lstrip_quotes : String → String
lstrip_quotes String.[] = ""
lstrip_quotes (String.◌∷◌ c s) =
    let rest = lstrip_quotes s in if is_quote c then rest else String.◌∷◌ c s

-- `s.strip('"')`
unfoldable pub strip_quotes : String → String
unfolding rstrip_quotes lstrip_quotes
strip_quotes s = lstrip_quotes (rstrip_quotes s)

-- `s.split("=", 1)[1]`, of a text that has an equals sign
unfoldable pub after_equals : String → String
after_equals String.[] = ""
after_equals (String.◌∷◌ c s) =
    let rest = after_equals s in if nat_beq (code c) b'=' then s else rest

abbrev is_break : Char → Bool
is_break c = nat_beq (code c) 10

abbrev onto_first : Char → List String → List String
onto_first c [] = one_char c ∷ []
onto_first c (line ∷ rest) = (String.◌∷◌ c line) ∷ rest

-- `s.splitlines()`, where lines end in "\n"
unfoldable pub split_lines : String → List String
split_lines String.[] = []
split_lines (String.◌∷◌ c s) =
    let rest = split_lines s in if is_break c then "" ∷ rest else onto_first c rest

abbrev grow : Char → List String → List String
grow c [] = one_char c ∷ []
grow c (word ∷ rest) = (String.◌∷◌ c word) ∷ rest

abbrev close : List String → List String
close [] = []
close (word ∷ rest) = if word == "" then rest else word ∷ rest

unfoldable split_words_from : String → List String
split_words_from String.[] = "" ∷ []
split_words_from (String.◌∷◌ c s) =
    let rest = split_words_from s in if is_space c then "" ∷ close rest else grow c rest

-- `s.split()`
unfoldable pub split_words : String → List String
unfolding split_words_from
split_words s = close (split_words_from s)

abbrev shift_key : Char → Option (String × String) → Option (String × String)
shift_key c none = none
shift_key c (some (key, value)) = some (String.◌∷◌ c key, value)

-- `key, sep, value = s.partition(":")`, none where `sep` is empty
unfoldable pub split_colon : String → Option (String × String)
split_colon String.[] = none
split_colon (String.◌∷◌ c s) =
    let rest = split_colon s in if nat_beq (code c) b':' then some ("", s) else shift_key c rest

abbrev pub is_hex_digit : Char → Bool
is_hex_digit c = leb b'0' (code c) && leb (code c) b'9' || leb b'a' (code c) && leb (code c) b'f'

-- hexadecimal digits only
unfoldable pub is_hex : String → Bool
is_hex String.[] = true
is_hex (String.◌∷◌ c s) = is_hex_digit c && is_hex s

-- text[:n]
unfoldable pub first_chars : ℕ → String → String
first_chars zero s = ""
first_chars (suc n) String.[] = ""
first_chars (suc n) (String.◌∷◌ c s) = String.◌∷◌ c (first_chars n s)

hex-ne-space : (c : Char) → is_hex_digit c ≡ true → is_space c ≡ false
hex-ne-space c h = ground (arith, h)

rstrip-hex : (s : String) → is_hex s ≡ true → rstrip s ≡ s
unfolding rstrip is_hex
rstrip-hex String.[] h = refl
rstrip-hex (String.◌∷◌ c s) h =
    let e = hex-ne-space c (ground (arith, h)) in rw (e, rstrip-hex s (ground (arith, h))) refl

lstrip-hex : (s : String) → is_hex s ≡ true → lstrip s ≡ s
unfolding lstrip is_hex
lstrip-hex String.[] h = refl
lstrip-hex (String.◌∷◌ c s) h = let e = hex-ne-space c (ground (arith, h)) in rw e refl

-- Such a text has nothing to strip.
pub strip-hex : (s : String) → is_hex s ≡ true → strip s ≡ s
unfolding strip
strip-hex s h = ap lstrip (rstrip-hex s h) ∙ lstrip-hex s h

pub first_chars-hex : (n : ℕ) (s : String) → is_hex s ≡ true → is_hex (first_chars n s) ≡ true
unfolding first_chars is_hex
first_chars-hex zero s h = refl
first_chars-hex (suc n) String.[] h = refl
first_chars-hex (suc n) (String.◌∷◌ c s) h = ground (arith, first_chars-hex n s, h)

cons-given : (c : Char) (s : String) → (String.◌∷◌ c s == "") ≡ false
cons-given c s = elim (Bool-cases (String.◌∷◌ c s == "")) [
  | inl e ↦ absurd (cons-ne-nil c s ((eq_iff (String.◌∷◌ c s) "").0 e))
  | inr e ↦ e
]

pub first_chars-given :
    (n : ℕ) (s : String) → (s == "") ≡ false → (first_chars (suc n) s == "") ≡ false
unfolding first_chars
first_chars-given n String.[] h = h
first_chars-given n (String.◌∷◌ c s) h = cons-given c (first_chars n s)
