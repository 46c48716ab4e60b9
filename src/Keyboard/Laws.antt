-- ===== src/Keyboard/Laws.antt =====
-- What a scancode does to the input line.
use Prim.Native.Nat.{bit_and}
use wnu.Prelude.{
  ℕ, ◌<◌, ◌≡◌, refl, true, ◌==◌, ◌||◌, ltb, if◌then◌else◌, arith, Bool-cases, inl, inr, leb, length,
}
use wnu.Bits.{every_below, holds_below}
use wnu.Console.{Console, push_input}
use wnu.Console.Line.{typed, edit, HasLine, push_input_refines}
use wnu.Keyboard.{key_of, keymap, handle_scancode}

keymap_size : length keymap ≡ 128
keymap_size = refl

-- The release bit is set exactly in the codes from 128 on.
release_table :
    every_below 256 (λ x. (if ltb x 128 then bit_and x 0x80 == 0 else bit_and x 0x80 == 128)) ≡ true
unfolding every_below
release_table = refl

released : (sc : ℕ) → sc < 256 → (bit_and sc 0x80 == 0) ≡ ltb sc 128
released sc h = ground (arith, holds_below 256 _ sc release_table h)

handle_scancode_lem :
    (s : Console) (sc : ℕ)
    → sc < 256
    → handle_scancode s sc ≡ (if leb 128 sc || key_of sc == 0 then s else push_input s (key_of sc))
unfolding handle_scancode
handle_scancode_lem s sc h = ground (arith, released sc h)

-- On a ready console within its bounds, a key press edits the line with the key's character; a
-- release, and a key without a character, does nothing to the line; the bounds of the input buffer
-- and of the cursor stay.
pub handle_scancode_refines :
    (s : Console) (sc : ℕ)
    → sc < 256
    → HasLine s
    → (typed (handle_scancode s sc)
        ≡ (if leb 128 sc || key_of sc == 0 then typed s else edit (typed s) (key_of sc)))
      × HasLine (handle_scancode s sc)
handle_scancode_refines s sc h line = elim (Bool-cases (leb 128 sc || key_of sc == 0)) [
  | inl e ↦ rw (handle_scancode_lem s sc h, e) (refl, line)
  | inr e ↦ rw (handle_scancode_lem s sc h, e) (push_input_refines s (key_of sc) line)
]
