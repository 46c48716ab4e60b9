-- ===== src/Str.antt =====
-- The string helpers of src/fs/vfs.c (src/shell/shell.c has copies of the same four).
-- A C string is the list of its characters before the terminator; the end of the list is where
-- the code reads '\0'. A `char` array that holds a string is that string.
pub mod Laws
use wnu.Prelude.{
  ℕ, zero, suc, ◌-◌, Bool, true, false, List, [], ◌∷◌, ◌==◌, if◌then◌else◌, take, get_or,
}
use Prim.Native.Char.{code}
use Prim.Native.String.{String}
use Prim.Native.String

abbrev pub Str : Type 0
Str = List ℕ

-- The characters of a text literal.
abbrev pub codes : String → Str
codes String.[] = []
codes (String.◌∷◌ c s) = code c ∷ codes s

-- s[i], with the terminator behind the last character.
abbrev pub at : Str → ℕ → ℕ
at s i = get_or s i 0

unfoldable pub string_len : Str → ℕ
string_len [] = 0
string_len (c ∷ s) = suc (string_len s)

unfoldable pub string_equal : Str → Str → Bool
string_equal [] [] = true
string_equal [] (y ∷ b) = false
string_equal (x ∷ a) [] = false
string_equal (x ∷ a) (y ∷ b) = let rest = string_equal a b in if x == y then rest else false

unfoldable pub string_starts_with : Str → Str → Bool
string_starts_with s [] = true
string_starts_with [] (p ∷ prefix) = false
string_starts_with (c ∷ s) (p ∷ prefix) =
    let rest = string_starts_with s prefix in if c == p then rest else false

-- The new content of `dst`, an array of `max` characters.
unfoldable pub string_copy : Str → Str → ℕ → Str
string_copy dst src zero = dst
string_copy dst src (suc m) = take m src
