-- ===== src/Keyboard.antt =====
-- src/drivers/keyboard.c: scancodes to characters of the input line.
pub mod Laws
mod Tests
use Prim.Native.Nat.{bit_and}
use wnu.Prelude.{ℕ, ◌++◌, [], ◌∷◌, ◌==◌, not, leb, if◌then◌else◌, replicate}
use wnu.Str.{Str, codes, at}
use wnu.Console.{Console, push_input}

-- 128 entries; what the initialiser leaves out is 0.
abbrev pub keymap : Str
keymap =
    (0 ∷ 27 ∷ codes "1234567890-=")
    ++ ((8 ∷ b'\t' ∷ codes "qwertyuiop[]\n")
        ++ ((0 ∷ codes "asdfghjkl;'`")
            ++ ((0 ∷ codes "\\zxcvbnm,./") ++ ((0 ∷ b'*' ∷ 0 ∷ b' ' ∷ []) ++ replicate 70 0))))

-- keymap[sc]
unfoldable pub key_of : ℕ → ℕ
key_of sc = at keymap sc

unfoldable pub handle_scancode : Console → ℕ → Console
handle_scancode s sc =
    if not (bit_and sc 0x80 == 0)
    then s
    else if leb 128 sc
    then s
    else if key_of sc == 0
    then s
    else push_input s (key_of sc)
