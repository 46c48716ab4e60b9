-- ===== src/Console/Tests.antt =====
-- A console of two by two characters, and the witnesses of the console's theorems.
use wnu.Prelude.{ℕ, ◌<◌, ◌≡◌, refl, true, false, some, List, [], ◌∷◌, ◌++◌, arith}
use wnu.Mem.{Bytes}
use wnu.Str.{Str, codes}
use wnu.Console.{Console, bind, write}
use wnu.Console.Draw.{Framebuffer, Font}
use wnu.Console.Draw.Bounds.{IsSound}
use wnu.Console.Cursor.{bind-IsOnScreen, bind_then_write}
use wnu.Console.Line.{typed, HasLine}
use wnu.Console.Reading.{Reads, feed, edits, readline_after_keys}

abbrev pub zeros : Bytes
zeros k = 0

abbrev frame : Framebuffer
frame = record {
  width = 16;
  height = 16;
  pitch = 64;
  bytes_per_pixel = 4;
  red_shift = 16;
  green_shift = 8;
  blue_shift = 0;
}

abbrev font : Font
font = record { bytes = zeros; width = 8; height = 8; glyph_size = 8; glyph_count = 128 }

-- The static variables before the console is bound.
abbrev pub unbound : Console
unbound = record {
  screen = record { fb = frame; font = font; fg = 0; bg = 0; ready = false };
  memory = zeros;
  cursor_x = 0;
  cursor_y = 0;
  cols = 0;
  rows = 0;
  input_buffer = zeros;
  input_length = 0;
  line_ready = false;
}

abbrev pub bound : Console
bound = bind unbound (some frame) (some font)

bound-ready : bound.screen.ready ≡ true
unfolding bind
bound-ready = refl

bound-IsSound : IsSound bound.screen
unfolding bind
bound-IsSound = record { row_fits = omega arith; line_fits = omega arith; word = omega arith }

pub bound-HasLine : HasLine bound
bound-HasLine = record {
  ready = bound-ready;
  on_screen = bind-IsOnScreen unbound frame font bound-ready bound-IsSound;
  room = unfold bind in omega arith;
}

abbrev text : Str
text = codes "one\ttwo\nthree"

bind_then_write_example :
    ((write bound text).cursor_x < bound.cols)
    × ((write bound text).cursor_y < bound.rows)
    × ((write bound text).memory 1024 ≡ 0)
bind_then_write_example =
    bind_then_write unbound frame font text 1024 bound-ready bound-IsSound
      (unfold bind in omega arith)

-- "lx", backspace, "s", Enter, and a key too many.
abbrev keys : List ℕ
keys = codes "lx" ++ (8 ∷ codes "s\nq")

edited : edits (record { text = []; done = false }) keys ≡ record { text = codes "ls"; done = true }
edited = refl

readline_after_keys_example : Reads (feed bound keys) (edits (typed bound) keys)
readline_after_keys_example = readline_after_keys keys bound bound-HasLine
