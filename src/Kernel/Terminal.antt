-- ===== src/Kernel/Terminal.antt =====
-- The kernel as its user sees it: a line that is typed, a shell, and the loop that brings one to the
-- other. There is no screen, no network and no card.
use wnu.Prelude.{ℕ, ◌%◌, false, ◌||◌, Option, List, [], ◌∷◌, ◌==◌, leb, if◌then◌else◌}
use wnu.Mem.{Bytes}
use wnu.Str.{Str}
use wnu.Block.{Device}
use wnu.Console.Line.{Line, edit, typed}
use wnu.Keyboard.{key_of}
use wnu.Shell.{Shell, execute}
use wnu.Fat32.{mounted, up_to_zero}
use wnu.Kernel.{Kernel, Phase, polling, testing, reading, executing, prompting}
use wnu.Kernel.Loop.{Turn, main, key, card}

pub record Terminal : Type 0 where
  pub typing : Line
  pub shell : Shell
  pub command : Str
  pub phase : Phase

-- A press of a key that has a character edits the line.
abbrev pub press : ℕ → Line → Line
press scancode l = if leb 128 scancode || key_of scancode == 0 then l else edit l (key_of scancode)

abbrev pub empty_line : Line
empty_line = record { text = []; done = false }

-- A terminal that nothing was typed on yet.
abbrev pub fresh_terminal : Shell → Str → Terminal
fresh_terminal shell command = record {
  typing = empty_line;
  shell = shell;
  command = command;
  phase = polling;
}

module _ (fresh : Bytes) (devices : List (Option Device)) where
  abbrev pub advance : Phase → Terminal → Terminal
  advance polling t = record t { phase = testing }
  advance testing t = record t { phase = if t.typing.done then reading else polling }
  advance reading t = record t {
    typing = if t.typing.done then empty_line else t.typing;
    command = up_to_zero (if t.typing.done then t.typing.text else []);
    phase = executing;
  }
  advance executing t = record t {
    shell = (execute (mounted fresh devices) t.shell t.command).0;
    phase = prompting;
  }
  advance prompting t = record t { phase = polling }

  abbrev pub move : {D : Type 0} → Turn D → Terminal → Terminal
  move main t = advance t.phase t
  move (key scancode) t = record t { typing = press (scancode % 256) t.typing }
  move (card change) t = t

  abbrev pub moves : {D : Type 0} → List (Turn D) → Terminal → Terminal
  moves [] t = t
  moves (turn ∷ turns) t = moves turns (move turn t)

-- What the user sees of the kernel.
abbrev pub terminal_of : {D : Type 0} → Kernel D → Terminal
terminal_of k = record {
  typing = typed k.console;
  shell = k.shell;
  command = k.line;
  phase = k.phase;
}
