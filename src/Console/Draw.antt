-- ===== src/Console/Draw.antt =====
-- The drawing half of src/console/console.c: pixels, rectangles, glyphs, scrolling.
-- The framebuffer is a byte array from `fb->base` on. Address sums are exact: within the bounds
-- that `put_pixel` tests they stay below `height * pitch`.
pub mod Bounds
use Prim.Native.Nat.{bit_and, bit_or}
use wnu.Prelude.{
  ℕ, ◌+◌, ◌-◌, ◌*◌, ◌/◌, ◌%◌, ◌^◌, Bool, true, false, not, ◌||◌, ◌==◌, ltb, leb, if◌then◌else◌,
  for_upto,
}
use wnu.Mem.{Bytes, store, store32}

-- struct wnu_framebuffer, less the base address.
pub record Framebuffer : Type 0 where
  pub width : ℕ
  pub height : ℕ
  pub pitch : ℕ
  pub bytes_per_pixel : ℕ
  pub red_shift : ℕ
  pub green_shift : ℕ
  pub blue_shift : ℕ

-- struct wnu_font
pub record Font : Type 0 where
  pub bytes : Bytes
  pub width : ℕ
  pub height : ℕ
  pub glyph_size : ℕ
  pub glyph_count : ℕ

-- What the drawing functions read besides the memory.
pub record Screen : Type 0 where
  pub fb : Framebuffer
  pub font : Font
  pub fg : ℕ
  pub bg : ℕ
  pub ready : Bool

abbrev pub u32 : ℕ
u32 = 2 ^ 32

unfoldable pub make_color : Framebuffer → ℕ → ℕ → ℕ → ℕ
make_color fb r g b =
    bit_or (bit_or (r * 2 ^ fb.red_shift % u32) (g * 2 ^ fb.green_shift % u32))
      (b * 2 ^ fb.blue_shift % u32)

unfoldable pub store24 : ℕ → ℕ → Bytes → Bytes
store24 a v mem =
    store (a + 2) (v / 2 ^ 16 % 256) (store (a + 1) (v / 2 ^ 8 % 256) (store a (v % 256) mem))

unfoldable pub put_pixel : Screen → ℕ → ℕ → ℕ → Bytes → Bytes
put_pixel s x y color mem =
    if not s.ready
    then mem
    else if leb s.fb.width x || leb s.fb.height y
    then mem
    else let pixel = y * s.fb.pitch + x * s.fb.bytes_per_pixel in
      if s.fb.bytes_per_pixel == 4
      then store32 pixel color mem
      else if s.fb.bytes_per_pixel == 3
      then store24 pixel color mem
      else mem

unfoldable pub draw_rect : Screen → ℕ → ℕ → ℕ → ℕ → ℕ → Bytes → Bytes
draw_rect s x y w h color =
    for_upto h 0 λ yy. for_upto w 0 λ xx. put_pixel s (x + xx) (y + yy) color

unfoldable pub clear_cell : Screen → ℕ → ℕ → Bytes → Bytes
clear_cell s cx cy =
    draw_rect s (cx * s.font.width) (cy * s.font.height) s.font.width s.font.height s.bg

-- One pixel of a glyph at (px, py), for the glyph's data at `glyph`.
unfoldable pub draw_dot : Screen → ℕ → ℕ → ℕ → ℕ → ℕ → Bytes → Bytes
draw_dot s glyph px py y x mem =
    let bytes_per_row = (s.font.width + 7) % u32 / 8 in
    let byte = s.font.bytes (glyph + (y * bytes_per_row + x / 8)) in
    let mask = 0x80 / 2 ^ (x % 8) in
    if bit_and byte mask == 0 then mem else put_pixel s (px + x) (py + y) s.fg mem

unfoldable pub draw_char : Screen → ℕ → ℕ → ℕ → Bytes → Bytes
draw_char s cx cy ch mem =
    let c = if leb s.font.glyph_count ch then b'?' else ch in
    for_upto s.font.height 0
      (λ y.
        for_upto s.font.width 0
          (draw_dot s (c * s.font.glyph_size % u32) (cx * s.font.width) (cy * s.font.height) y))
      (clear_cell s cx cy mem)

-- `size_t` subtraction.
abbrev pub copy_height : Screen → ℕ
copy_height s = (s.fb.height + 2 ^ 64 - s.font.height) % 2 ^ 64

-- One byte of a row that moves up by a line of text.
unfoldable pub move_up : Screen → ℕ → ℕ → Bytes → Bytes
move_up s y x mem = store (y * s.fb.pitch + x) (mem ((y + s.font.height) * s.fb.pitch + x)) mem

unfoldable pub scroll : Screen → Bytes → Bytes
scroll s mem =
    draw_rect s 0 (copy_height s) s.fb.width s.font.height s.bg
      (for_upto (copy_height s) 0 (λ y. for_upto s.fb.pitch 0 (move_up s y)) mem)
