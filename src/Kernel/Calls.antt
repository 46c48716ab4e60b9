-- ===== src/Kernel/Calls.antt =====
-- src/kernel/main.c: the calls of the loop one after the other, whatever comes between them, for a
-- line that Enter has ended.
use wnu.Prelude.{
  ℕ, suc, ◌+◌, ◌%◌, ◌≡◌, refl, ap, ◌∙◌, Bool, true, false, ◌||◌, ◌==◌, leb, Option, List, [], ◌∷◌,
  ◌++◌, if◌then◌else◌, arith, Bool-cases, inl, inr,
}
use wnu.Mem.{Bytes}
use wnu.Str.{Str}
use wnu.Block.{Device}
use wnu.Console.Line.{Line}
use wnu.Keyboard.{key_of}
use wnu.Shell.{Shell, execute}
use wnu.Fat32.{mounted, up_to_zero}
use wnu.Kernel.{Phase, polling, testing, reading, executing, prompting}
use wnu.Kernel.Loop.{Turn, main, key, card}
use wnu.Kernel.Terminal.{Terminal, press, empty_line, advance, moves}

-- The loop's calls in a schedule.
abbrev pub calls : {D : Type 0} → List (Turn D) → ℕ
calls [] = 0
calls (main ∷ turns) = suc (calls turns)
calls (key scancode ∷ turns) = calls turns
calls (card change ∷ turns) = calls turns

-- The line after the keys of a schedule.
abbrev pub pressed : {D : Type 0} → List (Turn D) → Line → Line
pressed [] l = l
pressed (main ∷ turns) l = pressed turns l
pressed (key scancode ∷ turns) l = pressed turns (press (scancode % 256) l)
pressed (card change ∷ turns) l = pressed turns l

abbrev pub ended : Str → Line
ended text = record { text = text; done = true }

-- Keys do nothing to a line that is done.
press-kept : (scancode : ℕ) (l : Line) → l.done ≡ true → press scancode l ≡ l
press-kept scancode l e = either _ (leb 128 scancode || key_of scancode == 0) (first _ l.done e)
  where
    first : (z : Line) (b : Bool) → b ≡ true → (if b then l else z) ≡ l
    first z true h = refl
    first z false h = absurd cc

    either : (y : Line) (b : Bool) → y ≡ l → (if b then l else y) ≡ l
    either y true h = refl
    either y false h = h

pressed-kept : {D : Type 0} (turns : List (Turn D)) (l : Line) → l.done ≡ true → pressed turns l ≡ l
pressed-kept [] l e = refl
pressed-kept (main ∷ turns) l e = pressed-kept turns l e
pressed-kept (key scancode ∷ turns) l e =
    let same = press-kept (scancode % 256) l e in
    pressed-kept turns (press (scancode % 256) l) (ap (λ (x : Line). x.done) same ∙ e) ∙ same
pressed-kept (card change ∷ turns) l e = pressed-kept turns l e

pub open_before :
    {D : Type 0} (turns : List (Turn D)) (l : Line)
    → (pressed turns l).done ≡ false
    → l.done ≡ false
open_before turns l e = elim (Bool-cases l.done) [
  | inl d ↦ absurd (let f = ap (λ (x : Line). x.done) (pressed-kept turns l d) in cc)
  | inr d ↦ d
]

abbrev pub at_phase : Phase → Line → Shell → Str → Terminal
at_phase phase l shell command = record {
  typing = l;
  shell = shell;
  command = command;
  phase = phase;
}

-- The scancode of Enter.
abbrev pub enter : ℕ
enter = 28

-- The two places at which the loop waits for a line.
abbrev pub idle : Bool → Phase
idle true = polling
idle false = testing

module _ (fresh : Bytes) (devices : List (Option Device)) where
  abbrev pub executed : Shell → Str → Shell
  executed shell command = (execute (mounted fresh devices) shell command).0

  pub moves-append :
      {D : Type 0} (a b : List (Turn D)) (t : Terminal)
      → moves fresh devices (a ++ b) t ≡ moves fresh devices b (moves fresh devices a t)
  moves-append [] b t = refl
  moves-append (main ∷ a) b t = moves-append a b _
  moves-append (key scancode ∷ a) b t = moves-append a b _
  moves-append (card change ∷ a) b t = moves-append a b t

  -- The part of a schedule behind its first call, and the line at that call.
  record NextCall {D : Type 0} (turns : List (Turn D)) (t : Terminal) (n : ℕ) : Type 0 where
    rest : List (Turn D)
    line : Line
    counted : calls rest ≡ n
    moved :
        moves fresh devices turns t
        ≡ moves fresh devices rest (advance fresh devices t.phase (record t { typing = line }))
    kept : t.typing.done ≡ true → line ≡ t.typing

  next_call :
      {D : Type 0} (turns : List (Turn D)) (t : Terminal) (n : ℕ)
      → calls turns ≡ suc n
      → NextCall turns t n
  next_call [] t n e = absurd (omega (arith, e))
  next_call (main ∷ turns) t n e = record {
    rest = turns;
    line = t.typing;
    counted = omega (arith, e);
    moved = refl;
    kept = λ _. refl;
  }
  next_call (key scancode ∷ turns) t n e =
      let r = next_call turns (record t { typing = press (scancode % 256) t.typing }) n e in
      record {
        rest = r.rest;
        line = r.line;
        counted = r.counted;
        moved = r.moved;
        kept = λ d.
            let same = press-kept (scancode % 256) t.typing d in
            r.kept (ap (λ (x : Line). x.done) same ∙ d) ∙ same;
      }
  next_call (card change ∷ turns) t n e =
      let r = next_call turns t n e in
      record { rest = r.rest; line = r.line; counted = r.counted; moved = r.moved; kept = r.kept }

  -- The part of a schedule behind the prompt that follows a command, and where the loop stands then.
  record Served {D : Type 0} (turns : List (Turn D)) (t : Terminal) (shell : Shell) (n : ℕ)
      : Type 0 where
    rest : List (Turn D)
    line : Line
    command : Str
    counted : calls rest ≡ n
    moved :
        moves fresh devices turns t ≡ moves fresh devices rest (at_phase polling line shell command)

  Served-testing :
      {D : Type 0} (turns : List (Turn D)) (text : Str) (shell : Shell) (command : Str) (n : ℕ)
      → calls turns ≡ 4 + n
      → Served turns
          (at_phase testing (ended text) shell command)
          (executed shell (up_to_zero text))
          n
  Served-testing turns text shell command n e =
      let line = up_to_zero text in
      let a =
        next_call turns (at_phase testing (ended text) shell command) (3 + n) (omega (arith, e)) in
      let b =
        next_call a.rest (at_phase reading (ended text) shell command) (2 + n)
          (omega (arith, a.counted)) in
      let c =
        next_call b.rest (at_phase executing empty_line shell line) (1 + n)
          (omega (arith, b.counted)) in
      let d =
        next_call c.rest (at_phase prompting c.line (executed shell line) line) n
          (omega (arith, c.counted)) in
      record {
        rest = d.rest;
        line = d.line;
        command = line;
        counted = d.counted;
        moved =
            a.moved
            ∙ ap
                (λ l.
                  moves fresh devices a.rest
                    (advance fresh devices testing (at_phase testing l shell command)))
                (a.kept refl)
            ∙ b.moved
            ∙ ap
                (λ l.
                  moves fresh devices b.rest
                    (advance fresh devices reading (at_phase reading l shell command)))
                (b.kept refl)
            ∙ c.moved
            ∙ d.moved;
      }

  Served-polling :
      {D : Type 0} (turns : List (Turn D)) (text : Str) (shell : Shell) (command : Str) (n : ℕ)
      → calls turns ≡ 5 + n
      → Served turns
          (at_phase polling (ended text) shell command)
          (executed shell (up_to_zero text))
          n
  Served-polling turns text shell command n e =
      let a =
        next_call turns (at_phase polling (ended text) shell command) (4 + n) (omega (arith, e)) in
      let s = Served-testing a.rest text shell command n a.counted in
      record {
        rest = s.rest;
        line = s.line;
        command = s.command;
        counted = s.counted;
        moved =
            a.moved
            ∙ ap (λ l. moves fresh devices a.rest (at_phase testing l shell command)) (a.kept refl)
            ∙ s.moved;
      }

  -- Without a call the shell stays, and so it does in the call of rtl8139_poll.
  shell-kept :
      {D : Type 0} (turns : List (Turn D)) (t : Terminal)
      → calls turns ≡ 0
      → (moves fresh devices turns t).shell ≡ t.shell
  shell-kept [] t e = refl
  shell-kept (main ∷ turns) t e = absurd (omega (arith, e))
  shell-kept (key scancode ∷ turns) t e = shell-kept turns _ e
  shell-kept (card change ∷ turns) t e = shell-kept turns t e

  shell-polled :
      {D : Type 0} (turns : List (Turn D)) (l : Line) (shell : Shell) (command : Str)
      → calls turns ≡ 1
      → (moves fresh devices turns (at_phase polling l shell command)).shell ≡ shell
  shell-polled turns l shell command e =
      let a = next_call turns (at_phase polling l shell command) 0 e in
      ap (λ (t : Terminal). t.shell) a.moved
      ∙ shell-kept a.rest (at_phase testing a.line shell command) a.counted

  -- Five calls after Enter, from either place at which the loop waits.
  pub executed_after :
      {D : Type 0} (turns : List (Turn D)) (b : Bool) (text : Str) (shell : Shell) (command : Str)
      → calls turns ≡ 5
      → (moves fresh devices turns (at_phase (idle b) (ended text) shell command)).shell
        ≡ executed shell (up_to_zero text)
  executed_after turns true text shell command e =
      let s = Served-polling turns text shell command 0 e in
      ap (λ (t : Terminal). t.shell) s.moved ∙ shell-kept s.rest _ s.counted
  executed_after turns false text shell command e =
      let s = Served-testing turns text shell command 1 e in
      ap (λ (t : Terminal). t.shell) s.moved ∙ shell-polled s.rest _ _ _ s.counted
