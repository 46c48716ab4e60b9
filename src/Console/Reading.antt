-- ===== src/Console/Reading.antt =====
-- The input line read: wnu_console_readline after keys, against a line editor.
use wnu.Prelude.{
  ℕ, ◌≡◌, refl, ◌∙◌, Bool, true, false, not, Option, some, List, [], ◌∷◌, length, arith, Bool-cases,
  inl, inr, leb, if◌then◌else◌, ap, subst,
}
use wnu.Mem.{slice, length-slice, store}
use wnu.Str.{Str}
use wnu.Console.{Console, push_input, readline}
use wnu.Console.Line.{Line, edit, typed, HasLine, push_input_refines}

unfoldable pub feed : Console → List ℕ → Console
feed s [] = s
feed s (c ∷ keys) = feed (push_input s c) keys

abbrev pub edits : Line → List ℕ → Line
edits l [] = l
edits l (c ∷ keys) = edits (edit l c) keys

feed_refines :
    (keys : List ℕ) (s : Console)
    → HasLine s
    → (typed (feed s keys) ≡ edits (typed s) keys) × HasLine (feed s keys)
unfolding feed
feed_refines [] s h = (refl, h)
feed_refines (c ∷ keys) s h =
    let (e, k) = push_input_refines s c h in
    let (e', k') = feed_refines keys (push_input s c) k in (e' ∙ ap (λ l. edits l keys) e, k')

-- What a reader with room for 256 characters gets from a console whose line is `l`.
abbrev pub Reads : Console → Line → Type 0
Reads t l =
    ((readline t false 256).2 ≡ some (if l.done then l.text else []))
    × ((readline t false 256).1 ≡ (if l.done then length l.text else 0))
    × (typed (readline t false 256).0 ≡ (if l.done then record { text = []; done = false } else l))

pub readline-Reads : (t : Console) → HasLine t → Reads t (typed t)
unfolding readline slice
readline-Reads t h =
    let fits : leb 256 t.input_length ≡ false = ground (arith, h.room) in
    elim (Bool-cases t.line_ready) [
      | inl e ↦ (
        ground (arith, fits),
        ground (arith, fits, length-slice t.input_buffer 0 t.input_length),
        ground (arith, fits),
      )
      | inr e ↦ (ground arith, ground arith, ground arith)
    ]

HasLine-if :
    (b : Bool) (x y : Console × ℕ × Option Str)
    → HasLine x.0
    → HasLine y.0
    → HasLine (if b then x else y).0
HasLine-if true x y h k = h
HasLine-if false x y h k = k

HasLine-emptied :
    (t : Console)
    → HasLine t
    → HasLine
        (record t { input_buffer = store 0 0 t.input_buffer; input_length = 0; line_ready = false })
HasLine-emptied t h = record {
  ready = h.ready;
  on_screen = record {
    inside_x = h.on_screen.inside_x;
    inside_y = h.on_screen.inside_y;
    sound = h.on_screen.sound;
  };
  room = omega arith;
}

-- Reading keeps the bounds.
pub readline-HasLine : (t : Console) → HasLine t → HasLine (readline t false 256).0
unfolding readline
readline-HasLine t h = HasLine-if (not t.line_ready) _ _ h (HasLine-emptied t h)

-- On a ready console within its bounds, after any keys, a reader with room for 256 characters gets
-- the text of the edited line if Enter ended it, and then the line is empty; it gets an empty string
-- and the line stays otherwise.
pub readline_after_keys :
    (keys : List ℕ) (s : Console) → HasLine s → Reads (feed s keys) (edits (typed s) keys)
readline_after_keys keys s h =
    let (e, k) = feed_refines keys s h in
    subst (Reads (feed s keys)) e (readline-Reads (feed s keys) k)
