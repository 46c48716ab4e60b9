-- ===== src/Console.antt =====
-- src/console/console.c: the cursor, the characters, and the input line.
pub mod Draw
pub mod Cursor
pub mod Line
pub mod Reading
pub mod Tests
use wnu.Prelude.{
  ℕ, zero, suc, ◌+◌, ◌-◌, ◌/◌, Bool, true, false, not, ◌||◌, Option, none, some, List, [], ◌∷◌,
  ◌==◌, leb, if◌then◌else◌,
}
use wnu.Mem.{Bytes, slice, store}
use wnu.Str.{Str}
use Draw.{Framebuffer, Font, Screen, make_color, draw_rect, clear_cell, draw_char, scroll}

-- INPUT_BUFFER_SIZE
abbrev pub input_buffer_size : ℕ
input_buffer_size = 256

-- The static variables of console.c, with the framebuffer's memory.
pub record Console : Type 0 where
  pub screen : Screen
  pub memory : Bytes
  pub cursor_x : ℕ
  pub cursor_y : ℕ
  pub cols : ℕ
  pub rows : ℕ
  pub input_buffer : Bytes
  pub input_length : ℕ
  pub line_ready : Bool

unfoldable pub newline : Console → Console
newline s =
    if leb s.rows (s.cursor_y + 1)
    then record s { memory = scroll s.screen s.memory; cursor_x = 0; cursor_y = s.rows - 1 }
    else record s { cursor_x = 0; cursor_y = s.cursor_y + 1 }

unfoldable pub backspace : Console → Console
backspace s = if s.cursor_x == 0 then s else record s {
  memory = clear_cell s.screen (s.cursor_x - 1) s.cursor_y s.memory;
  cursor_x = s.cursor_x - 1;
}

-- What wnu_console_bind leaves, over the input buffer and memory that were there; `none` is a null
-- pointer, after which `ready` is 0 and nothing reads the old framebuffer or font.
unfoldable pub bind : Console → Option Framebuffer → Option Font → Console
bind s none font = record s {
  screen = record s.screen { ready = false };
  cursor_x = 0;
  cursor_y = 0;
  input_buffer = store 0 0 s.input_buffer;
  input_length = 0;
  line_ready = false;
}
bind s (some fb) none = record s {
  screen = record s.screen { fb = fb; ready = false };
  cursor_x = 0;
  cursor_y = 0;
  input_buffer = store 0 0 s.input_buffer;
  input_length = 0;
  line_ready = false;
}
bind s (some fb) (some font) =
    let reset : Console = record s {
      screen = record s.screen { fb = fb; font = font; ready = false };
      cursor_x = 0;
      cursor_y = 0;
      input_buffer = store 0 0 s.input_buffer;
      input_length = 0;
      line_ready = false;
    } in
    if font.width == 0 || font.height == 0
    then reset
    else let sized : Console = record reset {
      cols = fb.width / font.width;
      rows = fb.height / font.height;
    } in
      if sized.cols == 0 || sized.rows == 0 then sized else record sized {
        screen = record reset.screen {
          fg = make_color fb 255 255 255;
          bg = make_color fb 0 0 0;
          ready = true;
        };
      }

unfoldable pub clear : Console → Console
clear s = if not s.screen.ready then s else record s {
  memory = draw_rect s.screen 0 0 s.screen.fb.width s.screen.fb.height s.screen.bg s.memory;
  cursor_x = 0;
  cursor_y = 0;
}

-- The end of wnu_console_putchar: a character that is drawn.
unfoldable pub print_char : Console → ℕ → Console
print_char s c =
    let drawn : Console = record s {
      memory = draw_char s.screen s.cursor_x s.cursor_y c s.memory;
      cursor_x = s.cursor_x + 1;
    } in
    if leb s.cols (s.cursor_x + 1) then newline drawn else drawn

abbrev pub space : ℕ
space = b' '

-- wnu_console_putchar; its four calls of itself on ' ' print a space each.
unfoldable pub putchar : Console → ℕ → Console
putchar s c =
    if not s.screen.ready
    then s
    else if c == b'\n'
    then newline s
    else if c == b'\r'
    then record s { cursor_x = 0 }
    else if c == 8
    then backspace s
    else if c == b'\t'
    then print_char (print_char (print_char (print_char s space) space) space) space
    else print_char s c

unfoldable pub write : Console → Str → Console
write s [] = s
write s (c ∷ str) = write (putchar s c) str

-- wnu_console_write_len, over the `len` bytes that it reads.
unfoldable pub write_len : Console → Bytes → ℕ → Console
unfolding write
write_len s str len = write s (slice str 0 len)

-- wnu_console_line_ready
unfoldable pub is_line_ready : Console → Bool
is_line_ready s = s.line_ready

unfoldable pub push_input : Console → ℕ → Console
push_input s c =
    if not s.screen.ready
    then s
    else if s.line_ready
    then s
    else if c == b'\n'
    then (let t = putchar s b'\n' in
        record t { input_buffer = store t.input_length 0 t.input_buffer; line_ready = true })
    else if c == 8
    then (if s.input_length == 0
        then s
        else putchar
            (record s {
              input_buffer = store (s.input_length - 1) 0 s.input_buffer;
              input_length = s.input_length - 1;
            })
            8)
    else if leb input_buffer_size (s.input_length + 1)
    then s
    else putchar
        (record s {
          input_buffer = store (s.input_length + 1) 0 (store s.input_length c s.input_buffer);
          input_length = s.input_length + 1;
        })
        c

-- The state, the returned length, and the text that `buffer` holds afterwards; `none` for a
-- buffer that is not written.
unfoldable pub readline : Console → Bool → ℕ → Console × ℕ × Option Str
readline s is_null size =
    if is_null || size == 0
    then (s, 0, none)
    else if not s.line_ready
    then (s, 0, some [])
    else let copy_len = if leb size s.input_length then size - 1 else s.input_length in
      (
        record s { input_buffer = store 0 0 s.input_buffer; input_length = 0; line_ready = false },
        copy_len,
        some (slice s.input_buffer 0 copy_len),
      )
