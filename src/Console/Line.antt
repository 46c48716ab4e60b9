-- ===== src/Console/Line.antt =====
-- The input line: wnu_console_push_input against a line editor.
use wnu.Prelude.{
  ℕ, ◌+◌, ◌-◌, ◌<◌, ◌≡◌, refl, sym, ◌∙◌, Bool, true, false, [], ◌∷◌, ◌++◌, length, arith,
  Bool-cases, inl, inr, leb, ◌==◌, if◌then◌else◌, ap,
}
use wnu.Mem.{Bytes, slice, length-slice, slice-congr, slice-add, store}
use wnu.Str.{Str}
use wnu.Console.{Console, putchar, push_input, input_buffer_size}
use wnu.Console.Draw.{Screen}
use wnu.Console.Cursor.{IsOnScreen, Prints, Prints-IsOnScreen, putchar-Prints}

-- A line being typed, and whether Enter has ended it.
pub record Line : Type 0 where
  pub text : Str
  pub done : Bool

abbrev pub drop_last : Str → Str
drop_last [] = []
drop_last (c ∷ []) = []
drop_last (c ∷ d ∷ s) = c ∷ drop_last (d ∷ s)

-- One key: Enter ends the line, backspace takes the last character, any other is added while
-- there is room, and nothing happens to a line that is done.
abbrev pub edit : Line → ℕ → Line
edit l c =
    if l.done
    then l
    else if c == b'\n'
    then record l { done = true }
    else if c == 8
    then record l { text = drop_last l.text }
    else if leb input_buffer_size (length l.text + 1)
    then l
    else record l { text = l.text ++ c ∷ [] }

-- The line that a console holds.
abbrev pub typed : Console → Line
typed s = record { text = slice s.input_buffer 0 s.input_length; done = s.line_ready }

pub record HasLine (s : Console) : Type 0 where
  pub ready : s.screen.ready ≡ true
  pub on_screen : IsOnScreen s
  pub room : s.input_length < input_buffer_size

drop_last-append : (s : Str) (c : ℕ) → drop_last (s ++ c ∷ []) ≡ s
drop_last-append [] c = refl
drop_last-append (a ∷ []) c = refl
drop_last-append (a ∷ b ∷ s) c = ap (λ t. a ∷ t) (drop_last-append (b ∷ s) c)

slice_snoc : (b : Bytes) (n : ℕ) → slice b 0 (n + 1) ≡ slice b 0 n ++ b n ∷ []
unfolding slice
slice_snoc b n = slice-add b 0 n 1 ∙ ap (λ k. slice b 0 n ++ b k ∷ []) (omega arith)

slice_typed :
    (b : Bytes) (n c : ℕ) → slice (store (n + 1) 0 (store n c b)) 0 (n + 1) ≡ slice b 0 n ++ c ∷ []
slice_typed b n c =
    slice_snoc _ n ∙ (λ i. slice-congr (store (n + 1) 0 (store n c b)) b 0 n kept i ++ last i ∷ [])
  where
    kept : (j : ℕ) → j < 0 + n → store (n + 1) 0 (store n c b) j ≡ b j
    kept j h = ground arith

    last : store (n + 1) 0 (store n c b) n ≡ c
    last = ground arith

slice_erased :
    (b : Bytes) (n : ℕ) → 0 < n → slice (store (n - 1) 0 b) 0 (n - 1) ≡ drop_last (slice b 0 n)
slice_erased b n h =
    slice-congr (store (n - 1) 0 b) b 0 (n - 1) kept
    ∙ sym (drop_last-append (slice b 0 (n - 1)) (b (n - 1)))
    ∙ ap drop_last (sym (slice_snoc b (n - 1)))
    ∙ ap (λ k. drop_last (slice b 0 k)) (omega arith)
  where
    kept : (j : ℕ) → j < 0 + (n - 1) → store (n - 1) 0 b j ≡ b j
    kept j lt = ground arith

-- Output leaves the input line alone.
pub typed-Prints : {s t : Console} → Prints s t → typed t ≡ typed s
typed-Prints p =
    λ i. record { text = slice (p.input_buffer i) 0 (p.input_length i); done = p.line_ready i }

pub HasLine-Prints : {s t : Console} → HasLine s → Prints s t → HasLine t
HasLine-Prints h p = record {
  ready = ap (λ (x : Screen). x.ready) p.screen ∙ h.ready;
  on_screen = Prints-IsOnScreen h.on_screen p;
  room = omega (arith, h.room, p.input_length);
}

-- What each branch of wnu_console_push_input computes.
abbrev ended : Console → Console
ended t = record t { input_buffer = store t.input_length 0 t.input_buffer; line_ready = true }

abbrev erased : Console → Console
erased s = record s {
  input_buffer = store (s.input_length - 1) 0 s.input_buffer;
  input_length = s.input_length - 1;
}

abbrev added : Console → ℕ → Console
added s c = record s {
  input_buffer = store (s.input_length + 1) 0 (store s.input_length c s.input_buffer);
  input_length = s.input_length + 1;
}

push_input_lem :
    (s : Console) (c : ℕ)
    → s.screen.ready ≡ true
    → push_input s c ≡ (
        if s.line_ready
        then s
        else if c == b'\n'
        then ended (putchar s b'\n')
        else if c == 8
        then (if s.input_length == 0 then s else putchar (erased s) 8)
        else if leb input_buffer_size (s.input_length + 1)
        then s
        else putchar (added s c) c)
unfolding push_input
push_input_lem s c h = ground arith

-- A console whose line is `l`, with the bounds kept.
record Holds (l : Line) (t : Console) : Type 0 where
  text : slice t.input_buffer 0 t.input_length ≡ l.text
  done : t.line_ready ≡ l.done
  bounds : HasLine t

Holds-refl : (s : Console) → HasLine s → Holds (typed s) s
Holds-refl s h = record { text = refl; done = refl; bounds = h }

Holds-ended :
    (s : Console) → HasLine s → Holds (record (typed s) { done = true }) (ended (putchar s b'\n'))
Holds-ended s h =
    let t = putchar s b'\n' in
    let p = putchar-Prints s b'\n' h.on_screen in
    let l = HasLine-Prints h p in
    record {
      text =
          slice-congr (store t.input_length 0 t.input_buffer) t.input_buffer 0 t.input_length
            (λ j lt. ground arith)
          ∙ ap (λ (x : Line). x.text) (typed-Prints p);
      done = refl;
      bounds = record {
        ready = l.ready;
        on_screen = record {
          inside_x = l.on_screen.inside_x;
          inside_y = l.on_screen.inside_y;
          sound = l.on_screen.sound;
        };
        room = l.room;
      };
    }

-- A change of the input variables alone, then output.
Holds-put :
    (l : Line) (s : Console) (c : ℕ)
    → HasLine s
    → slice s.input_buffer 0 s.input_length ≡ l.text
    → s.line_ready ≡ l.done
    → Holds l (putchar s c)
Holds-put l s c h e d =
    let p = putchar-Prints s c h.on_screen in
    record {
      text = ap (λ (x : Line). x.text) (typed-Prints p) ∙ e;
      done = p.line_ready ∙ d;
      bounds = HasLine-Prints h p;
    }

HasLine-resized :
    (s : Console) (b : Bytes) (n : ℕ)
    → HasLine s
    → n < input_buffer_size
    → HasLine (record s { input_buffer = b; input_length = n })
HasLine-resized s b n h lt = record {
  ready = h.ready;
  on_screen = record {
    inside_x = h.on_screen.inside_x;
    inside_y = h.on_screen.inside_y;
    sound = h.on_screen.sound;
  };
  room = lt;
}

Holds-if :
    (b : Bool) (l m : Line) (s t : Console)
    → (b ≡ true → Holds l s)
    → (b ≡ false → Holds m t)
    → Holds (if b then l else m) (if b then s else t)
Holds-if true l m s t p q = p refl
Holds-if false l m s t p q = q refl

Holds-erased :
    (s : Console)
    → HasLine s
    → Holds
        (record (typed s) { text = drop_last (typed s).text })
        (if s.input_length == 0 then s else putchar (erased s) 8)
Holds-erased s h = elim (Bool-cases (s.input_length == 0)) [
  | inl e ↦ rw e (record { text = nothing (ground arith); done = refl; bounds = h })
  | inr e ↦ rw e (
      Holds-put _ (erased s) 8 (HasLine-resized s _ _ h (omega (arith, h.room)))
        (slice_erased s.input_buffer s.input_length (ground arith)) refl)
]
  where
    nothing :
        s.input_length ≡ 0
        → slice s.input_buffer 0 s.input_length ≡ drop_last (slice s.input_buffer 0 s.input_length)
    nothing e =
        unfold slice in
        ap (slice s.input_buffer 0) e ∙ sym (ap (λ n. drop_last (slice s.input_buffer 0 n)) e)

Holds-edit : (s : Console) (c : ℕ) → HasLine s → Holds (edit (typed s) c) (push_input s c)
Holds-edit s c h = rw (push_input_lem s c h.ready) (
    Holds-if s.line_ready _ _ _ _ (λ _. Holds-refl s h)
      λ _.
        Holds-if (c == b'\n') _ _ _ _ (λ _. Holds-ended s h)
          λ _.
            Holds-if (c == 8) _ _ _ _ (λ _. Holds-erased s h)
              λ _. rw length-slice (
                Holds-if (leb input_buffer_size (s.input_length + 1)) _ _ _ _ (λ _. Holds-refl s h)
                  λ fits.
                    Holds-put _ (added s c) c (HasLine-resized s _ _ h (ground arith))
                      (slice_typed s.input_buffer s.input_length c) refl))

-- One key does to the console's line what it does to the editor's, and the buffer's bound stays.
pub push_input_refines :
    (s : Console) (c : ℕ)
    → HasLine s
    → (typed (push_input s c) ≡ edit (typed s) c) × HasLine (push_input s c)
push_input_refines s c h =
    let k = Holds-edit s c h in ((λ i. record { text = k.text i; done = k.done i }), k.bounds)
