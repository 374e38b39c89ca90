-- ===== src/Api/Names.antt =====
-- The names of instances (`_validate_instance_name` of src/beetroot/api.py).
use Prim.Native.Char.{code}
use Prim.Native.String.{[], ◌∷◌}
use beetroot.Prelude.{
  ℕ, String, Bool, true, false, ◌&&◌, ◌||◌, leb, ◌==◌, nat_eq, not, Result, raise_if, bad_name,
}

abbrev between : ℕ → ℕ → ℕ → Bool
between low high n = leb low n && leb n high

-- a lower-case ASCII letter, a digit, `_` or `-`
abbrev pub is_name_char : ℕ → Bool
is_name_char n = between 97 122 n || between 48 57 n || n == 95 || n == 45

unfoldable pub all_name_chars : String → Bool
all_name_chars [] = true
all_name_chars (c ∷ s) = is_name_char (code c) && all_name_chars s

-- _INSTANCE_NAME_RE.fullmatch(name)
unfoldable pub is_instance_name : String → Bool
unfolding all_name_chars
is_instance_name [] = false
is_instance_name (c ∷ s) = all_name_chars (c ∷ s)

unfoldable pub validate_instance_name : String → Result (Unit {0})
unfolding is_instance_name
validate_instance_name name = raise_if (not (is_instance_name name)) bad_name
