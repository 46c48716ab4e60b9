-- ===== src/Console/Draw/Bounds.antt =====
-- The addresses that the drawing functions of src/console/console.c write.
use wnu.Prelude.{ℕ, ◌+◌, ◌*◌, ◌^◌, ◌<◌, ◌≤◌, ◌≡◌, refl, ◌∙◌, arith, for_upto_keeps}
use wnu.Mem.{Bytes, store32}
use wnu.Console.Draw.{
  Screen, store24, put_pixel, draw_rect, clear_cell, draw_dot, draw_char, scroll, move_up,
  copy_height,
}

-- The bytes of the framebuffer.
abbrev pub extent : Screen → ℕ
extent s = s.fb.height * s.fb.pitch

-- A row holds its pixels, and the text lines are no higher than the screen.
pub record IsSound (s : Screen) : Type 0 where
  pub row_fits : s.fb.width * s.fb.bytes_per_pixel ≤ s.fb.pitch
  pub line_fits : s.font.height ≤ s.fb.height
  pub word : s.fb.height < 2 ^ 64

-- `a` and `b` agree at the address `k`.
module _ (s : Screen) (sound : IsSound s) (k : ℕ) (outside : extent s ≤ k) where
  pixel_end :
      (x y : ℕ)
      → x < s.fb.width
      → y < s.fb.height
      → y * s.fb.pitch + x * s.fb.bytes_per_pixel + s.fb.bytes_per_pixel ≤ extent s
  pixel_end x y hx hy = grind (arith, sound.row_fits)

  pub put_pixel-outside : (x y color : ℕ) (mem : Bytes) → put_pixel s x y color mem k ≡ mem k
  unfolding put_pixel store32 store24
  put_pixel-outside x y color mem = ground (arith, pixel_end x y)

  pub draw_rect-outside :
      (x y w h color : ℕ) (mem : Bytes) → draw_rect s x y w h color mem k ≡ mem k
  unfolding draw_rect
  draw_rect-outside x y w h color mem =
      for_upto_keeps (λ (m : Bytes). m k ≡ mem k) _ h 0 mem
        (λ yy m _ _ eq.
          for_upto_keeps (λ (n : Bytes). n k ≡ mem k) _ w 0 m
            (λ xx n _ _ eq'. put_pixel-outside (x + xx) (y + yy) color n ∙ eq') eq)
        refl

  draw_dot-outside : (glyph px py y x : ℕ) (mem : Bytes) → draw_dot s glyph px py y x mem k ≡ mem k
  unfolding draw_dot
  draw_dot-outside glyph px py y x mem =
      ground (arith, put_pixel-outside (px + x) (py + y) s.fg mem)

  pub clear_cell-outside : (cx cy : ℕ) (mem : Bytes) → clear_cell s cx cy mem k ≡ mem k
  unfolding clear_cell
  clear_cell-outside cx cy mem = draw_rect-outside _ _ _ _ _ mem

  pub draw_char-outside : (cx cy ch : ℕ) (mem : Bytes) → draw_char s cx cy ch mem k ≡ mem k
  unfolding draw_char
  draw_char-outside cx cy ch mem =
      for_upto_keeps (λ (m : Bytes). m k ≡ mem k) _ s.font.height 0 (clear_cell s cx cy mem)
        (λ y m _ _ eq.
          for_upto_keeps (λ (n : Bytes). n k ≡ mem k) _ s.font.width 0 m
            (λ x n _ _ eq'. draw_dot-outside _ _ _ y x n ∙ eq') eq)
        (clear_cell-outside cx cy mem)

  move_up-outside :
      (y x : ℕ) (mem : Bytes) → y < copy_height s → x < s.fb.pitch → move_up s y x mem k ≡ mem k
  unfolding move_up
  move_up-outside y x mem hy hx = ground (arith, row_end)
    where
      inside : y < s.fb.height
      inside = omega (arith, sound.line_fits, sound.word)

      row_end : y * s.fb.pitch + x < extent s
      row_end = grind arith

  pub scroll-outside : (mem : Bytes) → scroll s mem k ≡ mem k
  unfolding scroll
  scroll-outside mem =
      draw_rect-outside _ _ _ _ _ _
      ∙ for_upto_keeps (λ (m : Bytes). m k ≡ mem k) _ (copy_height s) 0 mem
          (λ y m _ hy eq.
            for_upto_keeps (λ (n : Bytes). n k ≡ mem k) _ s.fb.pitch 0 m
              (λ x n _ hx eq'. move_up-outside y x n (omega arith) (omega arith) ∙ eq') eq)
          refl
