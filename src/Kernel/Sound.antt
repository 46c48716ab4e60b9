-- ===== src/Kernel/Sound.antt =====
-- src/kernel/main.c: a call of the loop leaves the parts in order and does what the user's terminal
-- does, or it is rtl8139_poll and does not return.
use wnu.Prelude.{
  Bool, true, false, if◌then◌else◌, ℕ, ◌%◌, ◌≡◌, ◌⊎◌, inl, inr, refl, Option, none, some, arith,
}
use wnu.Console.Reading.{readline-Reads, readline-HasLine}
use wnu.Shell.{execute, prompt}
use wnu.Shell.Laws.{execute-IsSane}
use wnu.Fat32.{mounted}
use wnu.Fat32.Commands.{mounted-IsWellFormed}
use wnu.Rtl8139.{Driver}
use wnu.Rtl8139.Poll
use wnu.Rtl8139.Laws.{AllInRing, AllInRing-poll}
use wnu.Keyboard.Laws.{handle_scancode_refines}
use wnu.Kernel.{
  Machine, Kernel, Phase, polling, testing, reading, executing, prompting, places, settle,
  do_events,
}
use wnu.Kernel.Loop.{key, card, line_of, read_line, execute_line, print_prompt, polled, call, step}
use wnu.Console.Line.{typed, typed-Prints, HasLine-Prints}
use wnu.Console.{is_line_ready}
use wnu.Arch.{irq1_c_handler}
use wnu.Kernel.Output.{write_texts-Prints, Shows-do_events, IsHealthy, Reaches, Reaches-Shows}
use wnu.Kernel.Terminal.{press, Terminal, advance, terminal_of}

module _ {D : Type 0} (m : Machine D) (fuel : D → ℕ) where
  abbrev pub Gets : Kernel D → Terminal → Option (Kernel D) → Type 0
  Gets k = Reaches k.devices

  -- rtl8139_poll, in the loop.
  abbrev pub poll_card : Kernel D → Option (Driver D)
  poll_card k = Poll.poll m.ops (places m k.bases) (fuel k.driver.card) k.driver

  Gets-polled :
      (o : Option (Driver D)) (k : Kernel D)
      → IsHealthy k
      → AllInRing o
      → Gets k (record (terminal_of k) { phase = testing }) (polled m fuel o k) ⊎ (o ≡ none)
  unfolding settle
  Gets-polled none k h ring = inr refl
  Gets-polled (some driver) k h ring =
      let shown = write_texts-Prints driver.texts k.console h.line.on_screen in
      inl (record {
        state = record (settle m driver k) { phase = testing };
        returns = refl;
        healthy = record {
          shell = h.shell;
          line = HasLine-Prints h.line shown;
          ring = record { slot = ring.slot; offset = ring.offset; aligned = ring.aligned };
          interrupts = h.interrupts;
        };
        seen = λ i. record {
          typing = typed-Prints shown i;
          shell = k.shell;
          command = k.line;
          phase = testing;
        };
        devices_kept = refl;
      })

  Gets-reading :
      (k : Kernel D)
      → IsHealthy k
      → Gets k (advance m.fresh k.devices reading (terminal_of k)) (call m fuel reading k)
  unfolding read_line
  Gets-reading k h =
      let r = readline-Reads k.console h.line in
      record {
        state = read_line m fuel k;
        returns = refl;
        healthy = record {
          shell = h.shell;
          line = readline-HasLine k.console h.line;
          ring = h.ring;
          interrupts = h.interrupts;
        };
        seen = λ i. record {
          typing = r.2 i;
          shell = k.shell;
          command = line_of (r.0 i) k.line;
          phase = executing;
        };
        devices_kept = refl;
      }

  Gets-executing :
      (k : Kernel D)
      → IsHealthy k
      → Gets k (advance m.fresh k.devices executing (terminal_of k)) (call m fuel executing k)
  unfolding execute_line
  Gets-executing k h =
      let outcome = execute (mounted m.fresh k.devices) k.shell k.line in
      let t : Kernel D = record k { shell = outcome.0; phase = prompting } in
      Reaches-Shows t (do_events m outcome.1 t)
        (execute-IsSane (mounted m.fresh k.devices) (mounted-IsWellFormed m.fresh k.devices) k.shell
          k.line h.shell)
        h.line h.ring h.interrupts (Shows-do_events m outcome.1 t h.line.on_screen)

  Gets-prompting :
      (k : Kernel D)
      → IsHealthy k
      → Gets k (record (terminal_of k) { phase = polling }) (call m fuel prompting k)
  unfolding print_prompt
  Gets-prompting k h =
      let t : Kernel D = record k { phase = polling } in
      Reaches-Shows t (do_events m (prompt k.shell) t) h.shell h.line h.ring h.interrupts
        (Shows-do_events m (prompt k.shell) t h.line.on_screen)

  -- A call that comes back, or rtl8139_poll that does not.
  pub Gets-call :
      (phase : Phase) (k : Kernel D)
      → IsHealthy k
      → Gets k (advance m.fresh k.devices phase (terminal_of k)) (call m fuel phase k)
        ⊎ ((phase ≡ polling) × (poll_card k ≡ none))
  Gets-call polling k h =
      elim (Gets-polled (poll_card k) k h
        (AllInRing-poll m.ops (places m k.bases) (fuel k.driver.card) k.driver h.ring)) [
          | inl s ↦ inl s
          | inr hangs ↦ inr (refl, hangs)
        ]
  Gets-call testing k h = inl (record {
    state = record k { phase = if is_line_ready k.console then reading else polling };
    returns = refl;
    healthy = record { shell = h.shell; line = h.line; ring = h.ring; interrupts = h.interrupts };
    seen = unfold is_line_ready in refl;
    devices_kept = refl;
  })
  Gets-call reading k h = inl (Gets-reading k h)
  Gets-call executing k h = inl (Gets-executing k h)
  Gets-call prompting k h = inl (Gets-prompting k h)

  -- The handler, once the processor takes the interrupt.
  Gets-key :
      (scancode : ℕ) (k : Kernel D)
      → IsHealthy k
      → Gets k
          (record (terminal_of k) { typing = press (scancode % 256) (typed k.console) })
          (some (record k { console = (irq1_c_handler (scancode % 256) k.console).0 }))
  unfolding irq1_c_handler
  Gets-key scancode k h =
      let r = handle_scancode_refines k.console (scancode % 256) (omega arith) h.line in
      record {
        state = _;
        returns = refl;
        healthy = record { shell = h.shell; line = r.1; ring = h.ring; interrupts = h.interrupts };
        seen = λ i. record { typing = r.0 i; shell = k.shell; command = k.line; phase = k.phase };
        devices_kept = refl;
      }

  Gets-if :
      (k : Kernel D) {t : Terminal} (b : Bool) (x y : Option (Kernel D))
      → b ≡ true
      → Gets k t x
      → Gets k t (if b then x else y)
  Gets-if k true x y e h = h
  Gets-if k false x y e h = absurd cc

  pub Gets-step_key :
      (scancode : ℕ) (k : Kernel D)
      → IsHealthy k
      → Gets k
          (record (terminal_of k) { typing = press (scancode % 256) (typed k.console) })
          (step m fuel (key scancode) k)
  unfolding step
  Gets-step_key scancode k h =
      Gets-if k k.cpu.interrupts_on _ _ h.interrupts (Gets-key scancode k h)

  pub Gets-step_card :
      (change : D → D) (k : Kernel D)
      → IsHealthy k
      → Gets k (terminal_of k) (step m fuel (card change) k)
  unfolding step
  Gets-step_card change k h = record {
    state = record k { driver = record k.driver { card = change k.driver.card } };
    returns = refl;
    healthy = record {
      shell = h.shell;
      line = h.line;
      ring = record { slot = h.ring.slot; offset = h.ring.offset; aligned = h.ring.aligned };
      interrupts = h.interrupts;
    };
    seen = refl;
    devices_kept = refl;
  }
