-- ===== src/Kernel/Typing.antt =====
-- src/kernel/main.c: a line that is typed is executed, whatever keys and frames interrupt the loop.
use wnu.Prelude.{
  ℕ, ◌%◌, ◌<◌, ◌≡◌, ◌≢◌, refl, ap, ◌∙◌, Bool, true, false, Option, some, List, [], ◌∷◌, ◌++◌,
  if◌then◌else◌, length,
}
use wnu.Mem.{Bytes}
use wnu.Str.{Str}
use wnu.Block.{Device}
use wnu.Console.Line.{Line, typed}
use wnu.Keyboard.{key_of}
use wnu.Shell.{Shell, execute}
use wnu.Fat32.{mounted, up_to_zero}
use wnu.Rtl8139.Ring.{FollowsRing}
use wnu.Kernel.{Machine, Kernel, polling, reading}
use wnu.Kernel.Loop.{Turn, main, key, card, run}
use wnu.Kernel.Calls.{
  calls, pressed, ended, open_before, enter, at_phase, idle, executed, moves-append, executed_after,
}
use wnu.Kernel.Output.{IsHealthy}
use wnu.Kernel.Fed.{AreBrought, IsFed, run_refines_terminal}
use wnu.Kernel.Terminal.{Terminal, press, moves, terminal_of}

enter_ends : (text : Str) → press (enter % 256) (record { text = text; done = false }) ≡ ended text
unfolding key_of
enter_ends text = refl

module _ (fresh : Bytes) (devices : List (Option Device)) where
  -- A schedule in which the line is not ended yet: the keys edit the line, and the loop waits.
  record Types {D : Type 0} (turns : List (Turn D)) (t : Terminal) (l : Line) (shell : Shell)
      (command : Str) : Type 0 where
    place : Bool
    moved : moves fresh devices turns t ≡ at_phase (idle place) l shell command

  Types-pressed :
      {D : Type 0} (turns : List (Turn D)) (b : Bool) (l : Line) (shell : Shell) (command : Str)
      → (pressed turns l).done ≡ false
      → Types turns (at_phase (idle b) l shell command) (pressed turns l) shell command
  Types-pressed [] b l shell command e = record { place = b; moved = refl }
  Types-pressed (main ∷ turns) true l shell command e =
      let r = Types-pressed turns false l shell command e in
      record { place = r.place; moved = r.moved }
  Types-pressed (main ∷ turns) false l shell command e =
      let r = Types-pressed turns true l shell command e in
      let waits : (if l.done then reading else polling) ≡ polling =
        ap (λ b. if b then reading else polling) (open_before turns l e) in
      record {
        place = r.place;
        moved = ap (λ p. moves fresh devices turns (at_phase p l shell command)) waits ∙ r.moved;
      }
  Types-pressed (key scancode ∷ turns) b l shell command e =
      let r = Types-pressed turns b (press (scancode % 256) l) shell command e in
      record { place = r.place; moved = r.moved }
  Types-pressed (card change ∷ turns) b l shell command e =
      let r = Types-pressed turns b l shell command e in record { place = r.place; moved = r.moved }

  -- What is typed and ended with Enter is executed.
  typed_then_executed :
      {D : Type 0} (before after : List (Turn D)) (l : Line) (shell : Shell) (command text : Str)
      → pressed before l ≡ record { text = text; done = false }
      → calls after ≡ 5
      → (moves fresh devices (before ++ key enter ∷ after) (at_phase polling l shell command)).shell
        ≡ executed fresh devices shell (up_to_zero text)
  typed_then_executed before after l shell command text e five =
      let r = Types-pressed before true l shell command (ap (λ (x : Line). x.done) e) in
      ap (λ (t : Terminal). t.shell)
        (moves-append fresh devices before (key enter ∷ after) (at_phase polling l shell command)
          ∙ ap (moves fresh devices (key enter ∷ after)) r.moved
          ∙ ap
              (λ x.
                moves fresh devices (key enter ∷ after) (at_phase (idle r.place) x shell command))
              e
          ∙ ap (λ x. moves fresh devices after (at_phase (idle r.place) x shell command))
              (enter_ends text))
      ∙ executed_after fresh devices after r.place text shell command five

-- With a network card at ports that follows its data sheet, fuel for the frames that wait in it, a
-- driver that stands at the card's first frame, frames to come that the driver accepts and whose
-- places behind them are not in the ring's first 16 bytes, the parts' invariants, and the loop
-- before rtl8139_poll, a line is executed that is typed at any speed: when the keys of a schedule,
-- pressed at any places between the loop's calls and the frames that come, bring the line to a text
-- and Enter follows, then after five more calls, with any keys and frames between them, the shell
-- has executed this text once and nothing else.
pub typed_line_is_executed :
    {D : Type 0} (m : Machine D) (base : ℕ) (queue : D → List (List ℕ)) (place fuel : D → ℕ)
    → FollowsRing m.ops base queue place
    → ((d : D) → length (queue d) < fuel d)
    → base ≢ 0
    → (before after : List (Turn D)) (coming : List (List ℕ)) (k : Kernel D) (text : Str)
    → AreBrought queue place (before ++ key enter ∷ after) coming
    → IsHealthy k
    → IsFed base queue place coming k.driver
    → k.phase ≡ polling
    → pressed before (typed k.console) ≡ record { text = text; done = false }
    → calls after ≡ 5
    → (t : Kernel D) × (run m fuel (before ++ key enter ∷ after) k ≡ some t)
      × (t.shell ≡ (execute (mounted m.fresh k.devices) k.shell (up_to_zero text)).0)
typed_line_is_executed m base queue place fuel sheet enough there before after coming k text b h f
      waits line five =
    let turns = before ++ key enter ∷ after in
    let r = run_refines_terminal m base queue place fuel sheet enough there turns coming k b h f in
    let starts : terminal_of k ≡ at_phase polling (typed k.console) k.shell k.line =
      λ i. at_phase (waits i) (typed k.console) k.shell k.line in
    (
      r.0,
      r.1,
      ap (λ (t : Terminal). t.shell) (r.3 ∙ ap (moves m.fresh k.devices turns) starts)
          ∙ typed_then_executed m.fresh k.devices before after (typed k.console) k.shell k.line text
              line five,
    )
