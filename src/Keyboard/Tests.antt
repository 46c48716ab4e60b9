-- ===== src/Keyboard/Tests.antt =====
-- Keys of the keymap, and the witness of the keyboard's theorem.
use wnu.Prelude.{◌≡◌, ◌==◌, ◌||◌, leb, if◌then◌else◌, refl, arith}
use wnu.Console.Line.{typed, edit, HasLine}
use wnu.Console.Tests.{bound, bound-HasLine}
use wnu.Keyboard.{key_of, handle_scancode}
use wnu.Keyboard.Laws.{handle_scancode_refines}

key_a : key_of 0x1e ≡ b'a'
unfolding key_of
key_a = refl

key_space : key_of 0x39 ≡ b' '
unfolding key_of
key_space = refl

handle_scancode_refines_example :
    (typed (handle_scancode bound 0x1e) ≡ (
      if leb 128 0x1e || key_of 0x1e == 0 then typed bound else edit (typed bound) (key_of 0x1e)))
    × HasLine (handle_scancode bound 0x1e)
handle_scancode_refines_example = handle_scancode_refines bound 0x1e (omega arith) bound-HasLine
