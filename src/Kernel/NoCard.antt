-- ===== src/Kernel/NoCard.antt =====
-- src/kernel/main.c without a network card: no turn of the loop is lost.
use wnu.Prelude.{
  ℕ, ◌≡◌, refl, subst, ◌∙◌, Bool, true, false, Option, none, some, List, [], ◌∷◌, if◌then◌else◌,
  inl, inr,
}
use wnu.Shell.{execute, prompt}
use wnu.Fat32.{mounted}
use wnu.Rtl8139.Poll
use wnu.Kernel.{Machine, Kernel, Phase, polling, testing, reading, executing, prompting, settle}
use wnu.Kernel.Loop.{Turn, main, key, card, read_line, execute_line, print_prompt, call, step, run}
use wnu.Kernel.Output.{IsHealthy, Shows-do_events}
use wnu.Kernel.Sound.{Gets, poll_card, Gets-call, Gets-step_key, Gets-step_card}
use wnu.Kernel.Runs.{Gets-then, Gets-nothing}
use wnu.Kernel.Terminal.{moves, terminal_of}

module _ {D : Type 0} (m : Machine D) (fuel : D → ℕ) where
  -- The driver found no card.
  abbrev IsAbsent : Option (Kernel D) → Type 0
  IsAbsent none = Unit
  IsAbsent (some k) = k.driver.io_base ≡ 0

  poll_card-absent : (k : Kernel D) → k.driver.io_base ≡ 0 → poll_card m fuel k ≡ some k.driver
  unfolding Poll.poll
  poll_card-absent k e = rw e refl

  IsAbsent-call :
      (phase : Phase) (k : Kernel D)
      → IsHealthy k
      → k.driver.io_base ≡ 0
      → IsAbsent (call m fuel phase k)
  unfolding settle read_line execute_line print_prompt
  IsAbsent-call polling k h e = rw (poll_card-absent k e) e
  IsAbsent-call testing k h e = e
  IsAbsent-call reading k h e = e
  IsAbsent-call executing k h e =
      let outcome = execute (mounted m.fresh k.devices) k.shell k.line in
      (Shows-do_events m outcome.1 (record k { shell = outcome.0; phase = prompting })
        h.line.on_screen).driver.base_kept
      ∙ e
  IsAbsent-call prompting k h e =
      (Shows-do_events m (prompt k.shell) (record k { phase = polling })
        h.line.on_screen).driver.base_kept
      ∙ e

  IsAbsent-if :
      (b : Bool) (x y : Option (Kernel D)) → IsAbsent x → IsAbsent y → IsAbsent (if b then x else y)
  IsAbsent-if true x y e f = e
  IsAbsent-if false x y e f = f

  Gets-run :
      (turns : List (Turn D)) (k : Kernel D)
      → IsHealthy k
      → k.driver.io_base ≡ 0
      → Gets m fuel k (moves m.fresh k.devices turns (terminal_of k)) (run m fuel turns k)
  unfolding step
  Gets-run [] k h e = Gets-nothing m fuel k h
  Gets-run (main ∷ turns) k h e = elim (Gets-call m fuel k.phase k h) [
    | inr (at, hung) ↦ let p = poll_card-absent k e in absurd cc
    | inl s ↦
        let f : s.state.driver.io_base ≡ 0 =
          subst IsAbsent s.returns (IsAbsent-call k.phase k h e) in
        Gets-then m fuel main turns k s (Gets-run turns s.state s.healthy f)
  ]
  Gets-run (key scancode ∷ turns) k h e =
      let s = Gets-step_key m fuel scancode k h in
      let f : s.state.driver.io_base ≡ 0 =
        subst IsAbsent s.returns (IsAbsent-if k.cpu.interrupts_on (some _) (some k) e e) in
      Gets-then m fuel (key scancode) turns k s (Gets-run turns s.state s.healthy f)
  Gets-run (card change ∷ turns) k h e =
      let s = Gets-step_card m fuel change k h in
      let f : s.state.driver.io_base ≡ 0 = subst IsAbsent s.returns e in
      Gets-then m fuel (card change) turns k s (Gets-run turns s.state s.healthy f)

  -- If io_base is 0, as rtl8139_init leaves it when it finds no card, then from a state with the
  -- parts' invariants the kernel returns from every call of its loop, with any fuel and whatever the
  -- schedule of calls, keys and changes of the card; the invariants stay; and the line being typed,
  -- the shell's state, the command and the place in the loop are those of a terminal without screen
  -- and network.
  pub run_without_card :
      (turns : List (Turn D)) (k : Kernel D)
      → IsHealthy k
      → k.driver.io_base ≡ 0
      → (t : Kernel D) × (run m fuel turns k ≡ some t)
        × IsHealthy t
        × (terminal_of t ≡ moves m.fresh k.devices turns (terminal_of k))
  run_without_card turns k h e =
      let r = Gets-run turns k h e in (r.state, r.returns, r.healthy, r.seen)
