-- ===== src/Kernel/Loop.antt =====
-- src/kernel/main.c: the loop of _start, with the keyboard's interrupt and a network card that
-- changes by itself. A schedule is a list of turns: interrupts come between the calls of the loop,
-- not within one.
use wnu.Prelude.{ℕ, ◌%◌, false, Option, none, some, List, [], ◌∷◌, if◌then◌else◌}
use wnu.Str.{Str}
use wnu.Console.{is_line_ready, readline}
use wnu.Shell.{execute, prompt}
use wnu.Fat32.{mounted, up_to_zero}
use wnu.Rtl8139.{Driver}
use wnu.Rtl8139.Poll
use wnu.Arch.{irq1_c_handler}
use wnu.Kernel.{
  Machine, Kernel, Phase, polling, testing, reading, executing, prompting, places, settle,
  do_events,
}

-- A call of the loop, an interrupt of the keyboard at which port 0x60 gives a byte, or a change of
-- the card by itself. The processor takes the interrupt if it is on.
pub data Turn (D : Type 0) : Type 0 where
  main : Turn D
  key : ℕ → Turn D
  card : (D → D) → Turn D

-- The C string in `line`, where wnu_console_readline wrote it.
abbrev pub line_of : Option Str → Str → Str
line_of none old = old
line_of (some text) old = up_to_zero text

module _ {D : Type 0} (m : Machine D) (fuel : D → ℕ) where
  abbrev pub polled : Option (Driver D) → Kernel D → Option (Kernel D)
  polled none k = none
  polled (some driver) k = some (record (settle m driver k) { phase = testing })

  unfoldable pub read_line : Kernel D → Kernel D
  read_line k =
      let (console, copied, text) = readline k.console false 256 in
      record k { console = console; line = line_of text k.line; phase = executing }

  unfoldable pub execute_line : Kernel D → Kernel D
  execute_line k =
      let (shell, events) = execute (mounted m.fresh k.devices) k.shell k.line in
      do_events m events (record k { shell = shell; phase = prompting })

  unfoldable pub print_prompt : Kernel D → Kernel D
  print_prompt k = do_events m (prompt k.shell) (record k { phase = polling })

  -- The next call of the loop; `none` is rtl8139_poll out of fuel.
  abbrev pub call : Phase → Kernel D → Option (Kernel D)
  call polling k = polled (Poll.poll m.ops (places m k.bases) (fuel k.driver.card) k.driver) k
  call testing k = some (record k { phase = if is_line_ready k.console then reading else polling })
  call reading k = some (read_line k)
  call executing k = some (execute_line k)
  call prompting k = some (print_prompt k)

  unfoldable pub step : Turn D → Kernel D → Option (Kernel D)
  step main k = call k.phase k
  step (key scancode) k =
      if k.cpu.interrupts_on
      then some (record k { console = (irq1_c_handler (scancode % 256) k.console).0 })
      else some k
  step (card change) k =
      some (record k { driver = record k.driver { card = change k.driver.card } })

  abbrev pub then_run : Option (Kernel D) → (Kernel D → Option (Kernel D)) → Option (Kernel D)
  then_run none next = none
  then_run (some k) next = next k

  unfoldable pub run : List (Turn D) → Kernel D → Option (Kernel D)
  run [] k = some k
  run (t ∷ turns) k = then_run (step t k) (run turns)
