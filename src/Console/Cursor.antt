-- ===== src/Console/Cursor.antt =====
-- The cursor and the framebuffer under the output functions of src/console/console.c.
use wnu.Prelude.{
  ℕ, ◌+◌, ◌<◌, ◌≤◌, ◌≡◌, refl, ◌∙◌, Bool, not, true, false, some, [], ◌∷◌, arith, Bool-cases, inl,
  inr, leb, ◌==◌, if◌then◌else◌,
}
use wnu.Str.{Str}
use wnu.Console.{Console, newline, backspace, bind, clear, print_char, putchar, write, space}
use wnu.Console.Draw.{draw_char, Framebuffer, Font}
use wnu.Console.Draw.Bounds.{
  extent, IsSound, draw_char-outside, clear_cell-outside, scroll-outside, draw_rect-outside,
}

-- The cursor stands on a cell of the screen.
pub record IsOnScreen (s : Console) : Type 0 where
  pub inside_x : s.cursor_x < s.cols
  pub inside_y : s.cursor_y < s.rows
  pub sound : IsSound s.screen

-- What output to a console changes: the cursor, which stays on the screen, and the framebuffer.
pub record Prints (s t : Console) : Type 0 where
  pub screen : t.screen ≡ s.screen
  pub cols : t.cols ≡ s.cols
  pub rows : t.rows ≡ s.rows
  pub inside_x : t.cursor_x < s.cols
  pub inside_y : t.cursor_y < s.rows
  pub input_buffer : t.input_buffer ≡ s.input_buffer
  pub input_length : t.input_length ≡ s.input_length
  pub line_ready : t.line_ready ≡ s.line_ready
  pub outside : (k : ℕ) → extent s.screen ≤ k → t.memory k ≡ s.memory k

pub Prints-refl : (s : Console) → IsOnScreen s → Prints s s
Prints-refl s h = record {
  screen = refl;
  cols = refl;
  rows = refl;
  inside_x = h.inside_x;
  inside_y = h.inside_y;
  input_buffer = refl;
  input_length = refl;
  line_ready = refl;
  outside = λ k _. refl;
}

pub Prints-IsOnScreen : {s t : Console} → IsOnScreen s → Prints s t → IsOnScreen t
Prints-IsOnScreen h p = record {
  inside_x = omega (arith, p.inside_x, p.cols);
  inside_y = omega (arith, p.inside_y, p.rows);
  sound = rw p.screen h.sound;
}

pub Prints-trans : {s t u : Console} → Prints s t → Prints t u → Prints s u
Prints-trans p q = record {
  screen = q.screen ∙ p.screen;
  cols = q.cols ∙ p.cols;
  rows = q.rows ∙ p.rows;
  inside_x = omega (arith, q.inside_x, p.cols);
  inside_y = omega (arith, q.inside_y, p.rows);
  input_buffer = q.input_buffer ∙ p.input_buffer;
  input_length = q.input_length ∙ p.input_length;
  line_ready = q.line_ready ∙ p.line_ready;
  outside = λ k h. q.outside k (rw p.screen h) ∙ p.outside k h;
}

-- A line feed needs no column: the cursor may stand behind the last one.
newline-Prints :
    (s : Console) → 0 < s.cols → s.cursor_y < s.rows → IsSound s.screen → Prints s (newline s)
unfolding newline
newline-Prints s hx hy sound = elim (Bool-cases (leb s.rows (s.cursor_y + 1))) [
  | inl e ↦ rw e (record {
    screen = refl;
    cols = refl;
    rows = refl;
    inside_x = hx;
    inside_y = omega arith;
    input_buffer = refl;
    input_length = refl;
    line_ready = refl;
    outside = λ k h. scroll-outside s.screen sound k h s.memory;
  })
  | inr e ↦ rw e (record {
    screen = refl;
    cols = refl;
    rows = refl;
    inside_x = hx;
    inside_y = ground arith;
    input_buffer = refl;
    input_length = refl;
    line_ready = refl;
    outside = λ k h. refl;
  })
]

backspace-Prints : (s : Console) → IsOnScreen s → Prints s (backspace s)
unfolding backspace
backspace-Prints s h = elim (Bool-cases (s.cursor_x == 0)) [
  | inl e ↦ rw e (Prints-refl s h)
  | inr e ↦ rw e (record {
    screen = refl;
    cols = refl;
    rows = refl;
    inside_x = omega (arith, h.inside_x);
    inside_y = h.inside_y;
    input_buffer = refl;
    input_length = refl;
    line_ready = refl;
    outside = λ k far. clear_cell-outside s.screen h.sound k far _ _ s.memory;
  })
]

print_char-Prints : (s : Console) (c : ℕ) → IsOnScreen s → Prints s (print_char s c)
unfolding print_char
print_char-Prints s c h =
    let drawn : Console = record s {
      memory = draw_char s.screen s.cursor_x s.cursor_y c s.memory;
      cursor_x = s.cursor_x + 1;
    } in
    elim (Bool-cases (leb s.cols (s.cursor_x + 1))) [
      | inl e ↦
          let p = newline-Prints drawn (omega (arith, h.inside_x)) h.inside_y h.sound in
          rw e (record {
            screen = p.screen;
            cols = p.cols;
            rows = p.rows;
            inside_x = p.inside_x;
            inside_y = p.inside_y;
            input_buffer = p.input_buffer;
            input_length = p.input_length;
            line_ready = p.line_ready;
            outside =
                λ k far. p.outside k far ∙ draw_char-outside s.screen h.sound k far _ _ c s.memory;
          })
      | inr e ↦ rw e (record {
        screen = refl;
        cols = refl;
        rows = refl;
        inside_x = ground arith;
        inside_y = h.inside_y;
        input_buffer = refl;
        input_length = refl;
        line_ready = refl;
        outside = λ k far. draw_char-outside s.screen h.sound k far _ _ c s.memory;
      })
    ]

four_spaces :
    (s : Console)
    → IsOnScreen s
    → Prints s (print_char (print_char (print_char (print_char s space) space) space) space)
four_spaces s h =
    let one = λ (t : Console) (p : Prints s t).
      Prints-trans p (print_char-Prints t space (Prints-IsOnScreen h p)) in
    one _ (one _ (one _ (one s (Prints-refl s h))))

Prints-if : (s t u : Console) (b : Bool) → Prints s t → Prints s u → Prints s (if b then t else u)
Prints-if s t u true p q = p
Prints-if s t u false p q = q

carriage_return : (s : Console) → IsOnScreen s → Prints s (record s { cursor_x = 0 })
carriage_return s h = record {
  screen = refl;
  cols = refl;
  rows = refl;
  inside_x = omega (arith, h.inside_x);
  inside_y = h.inside_y;
  input_buffer = refl;
  input_length = refl;
  line_ready = refl;
  outside = λ k far. refl;
}

pub putchar-Prints : (s : Console) (c : ℕ) → IsOnScreen s → Prints s (putchar s c)
unfolding putchar
putchar-Prints s c h = Prints-if s _ _ (not s.screen.ready) (Prints-refl s h) (
    Prints-if s _ _ (c == b'\n') (newline-Prints s (omega (arith, h.inside_x)) h.inside_y h.sound) (
      Prints-if s _ _ (c == b'\r') (carriage_return s h) (
        Prints-if s _ _ (c == 8) (backspace-Prints s h)
          (Prints-if s _ _ (c == b'\t') (four_spaces s h) (print_char-Prints s c h)))))

-- Whatever the text, line feeds, tabs and backspaces included.
pub write-Prints : (str : Str) (s : Console) → IsOnScreen s → Prints s (write s str)
unfolding write
write-Prints [] s h = Prints-refl s h
write-Prints (c ∷ str) s h =
    let p = putchar-Prints s c h in
    Prints-trans p (write-Prints str (putchar s c) (Prints-IsOnScreen h p))

pub clear-Prints : (s : Console) → IsOnScreen s → Prints s (clear s)
unfolding clear
clear-Prints s h = Prints-if s _ _ (not s.screen.ready) (Prints-refl s h) (record {
  screen = refl;
  cols = refl;
  rows = refl;
  inside_x = omega (arith, h.inside_x);
  inside_y = omega (arith, h.inside_y);
  input_buffer = refl;
  input_length = refl;
  line_ready = refl;
  outside = λ k far. draw_rect-outside s.screen h.sound k far _ _ _ _ _ s.memory;
})

-- Binding draws nothing.
bind-memory :
    (s : Console) (fb : Framebuffer) (font : Font) (k : ℕ)
    → (bind s (some fb) (some font)).memory k ≡ s.memory k
unfolding bind
bind-memory s fb font k = ground arith

-- A console that wnu_console_bind makes ready has its cursor on the screen.
pub bind-IsOnScreen :
    (s : Console) (fb : Framebuffer) (font : Font)
    → (bind s (some fb) (some font)).screen.ready ≡ true
    → IsSound (bind s (some fb) (some font)).screen
    → IsOnScreen (bind s (some fb) (some font))
unfolding bind
bind-IsOnScreen s fb font h sound = record {
  inside_x = ground arith;
  inside_y = ground arith;
  sound = sound;
}

-- From wnu_console_bind on, if the screen is ready and the framebuffer's rows hold their pixels,
-- the text written never moves the cursor off the screen nor changes a byte outside the
-- framebuffer.
pub bind_then_write :
    (s : Console) (fb : Framebuffer) (font : Font) (str : Str) (k : ℕ)
    → (bind s (some fb) (some font)).screen.ready ≡ true
    → IsSound (bind s (some fb) (some font)).screen
    → extent (bind s (some fb) (some font)).screen ≤ k
    → ((write (bind s (some fb) (some font)) str).cursor_x < (bind s (some fb) (some font)).cols)
      × ((write (bind s (some fb) (some font)) str).cursor_y < (bind s (some fb) (some font)).rows)
      × ((write (bind s (some fb) (some font)) str).memory k ≡ s.memory k)
bind_then_write s fb font str k h sound far =
    let p = write-Prints str (bind s (some fb) (some font)) (bind-IsOnScreen s fb font h sound) in
    (p.inside_x, p.inside_y, p.outside k far ∙ bind-memory s fb font k)
