-- ===== src/Kernel/Fed.antt =====
-- src/kernel/main.c with a network card that follows its data sheet in Rtl8139.Ring: rtl8139_poll
-- comes back at every turn of the loop, while the frames that come fit.
use wnu.Prelude.{
  ℕ, ◌<◌, ◌≡◌, ◌≢◌, sym, ap, subst, ◌∙◌, Bool, true, false, ◌&&◌, Option, none, some, List, [], ◌∷◌,
  ◌++◌, if◌then◌else◌, length, arith, inl, inr,
}
use mathlib.Core.List.{append_assoc}
use wnu.Net.Protocol.{Net}
use wnu.Shell.{char, clear_screen, ping, udp, lsblk, execute, prompt}
use wnu.Shell
use wnu.Fat32.{mounted}
use wnu.Rtl8139.{Driver, call_net}
use wnu.Rtl8139.Ring.{FollowsRing}
use wnu.Rtl8139.Receive.{fits_ring, behind_all, fits_ring-append, Same-perform}
use wnu.Rtl8139.Delivers.{Delivers-poll}
use wnu.Kernel.{
  Machine, Kernel, Phase, polling, testing, reading, executing, prompting, places, settle,
  call_network, do_event, do_events,
}
use wnu.Kernel.Loop.{Turn, main, key, card, read_line, execute_line, print_prompt, call, step, run}
use wnu.Kernel.Output.{IsHealthy}
use wnu.Kernel.Sound.{Gets, poll_card, Gets-call, Gets-step_key, Gets-step_card}
use wnu.Kernel.Runs.{Gets-then, Gets-nothing}
use wnu.Kernel.Terminal.{moves, terminal_of}

-- The card's own changes in a schedule bring these frames, in this order, each one behind those that
-- wait, and nothing else.
abbrev pub AreBrought :
    {D : Type 0} → (D → List (List ℕ)) → (D → ℕ) → List (Turn D) → List (List ℕ) → Type 0
AreBrought queue place [] frames = frames ≡ []
AreBrought queue place (main ∷ turns) frames = AreBrought queue place turns frames
AreBrought queue place (key scancode ∷ turns) frames = AreBrought queue place turns frames
AreBrought {D} queue place (card change ∷ turns) frames =
    (new : List (List ℕ)) × (later : List (List ℕ)) × (frames ≡ new ++ later)
    × ((d : D) → queue (change d) ≡ queue d ++ new)
    × ((d : D) → place (change d) ≡ place d)
    × AreBrought queue place turns later

-- The driver stands at the card's first frame, and accepts the frames that wait and those to come;
-- none of the places behind them is in the ring's first 16 bytes.
pub record IsFed {D : Type 0} (base : ℕ) (queue : D → List (List ℕ)) (place : D → ℕ)
    (coming : List (List ℕ)) (s : Driver D) : Type 0 where
  pub based : s.io_base ≡ base
  pub stands : place s.card ≡ s.rx_offset
  pub fits : fits_ring s.rx_offset (queue s.card ++ coming) ≡ true

module _ {D : Type 0} (m : Machine D) (base : ℕ) (queue : D → List (List ℕ)) (place : D → ℕ)
    (fuel : D → ℕ) (sheet : FollowsRing m.ops base queue place)
    (enough : (d : D) → length (queue d) < fuel d) (there : base ≢ 0) where
  abbrev Fed : List (List ℕ) → Kernel D → Type 0
  Fed coming k = IsFed base queue place coming k.driver

  abbrev AllFed : List (List ℕ) → Option (Kernel D) → Type 0
  AllFed coming none = Unit
  AllFed coming (some k) = Fed coming k

  Fed-call_network :
      (request : Net → Net) (coming : List (List ℕ)) (k : Kernel D)
      → Fed coming k
      → Fed coming (call_network m request k)
  unfolding call_network call_net settle
  Fed-call_network request coming k f =
      let net = request (record k.driver.net { events = [] }) in
      let s : Driver D = record k.driver { net = record net { events = [] } } in
      let e = Same-perform m.ops base queue place sheet (places m k.bases) net.events s in
      record {
        based = e.base_kept ∙ f.based;
        stands = e.at_place ∙ f.stands ∙ sym e.offset;
        fits = (λ i. fits_ring (e.offset i) (e.frames i ++ coming)) ∙ f.fits;
      }

  Fed-do_event :
      (e : Shell.Event) (coming : List (List ℕ)) (k : Kernel D)
      → Fed coming k
      → Fed coming (do_event m e k)
  unfolding do_event
  Fed-do_event (char c) coming k f = f
  Fed-do_event clear_screen coming k f = f
  Fed-do_event ping coming k f = Fed-call_network _ coming k f
  Fed-do_event udp coming k f = Fed-call_network _ coming k f
  Fed-do_event lsblk coming k f = f

  Fed-do_events :
      (events : List Shell.Event) (coming : List (List ℕ)) (k : Kernel D)
      → Fed coming k
      → Fed coming (do_events m events k)
  unfolding do_events
  Fed-do_events [] coming k f = f
  Fed-do_events (e ∷ events) coming k f =
      Fed-do_events events coming (do_event m e k) (Fed-do_event e coming k f)

  -- rtl8139_poll comes back, at the place behind the frames that waited.
  record Polls (coming : List (List ℕ)) (k : Kernel D) : Type 0 where
    driver : Driver D
    returns : poll_card m fuel k ≡ some driver
    fed : IsFed base queue place coming driver

  Polls-poll_card :
      (coming : List (List ℕ)) (k : Kernel D) → IsHealthy k → Fed coming k → Polls coming k
  Polls-poll_card coming k h f =
      let frames = queue k.driver.card in
      let both : (fits_ring k.driver.rx_offset frames
            && fits_ring (behind_all k.driver.rx_offset frames) coming)
          ≡ true =
        sym (fits_ring-append k.driver.rx_offset frames coming) ∙ f.fits in
      let d =
        Delivers-poll m.ops base queue place sheet (places m k.bases) (fuel k.driver.card) k.driver
          there f.based f.stands h.ring.offset (ground (arith, both)) (enough k.driver.card) in
      record {
        driver = d.state;
        returns = d.returns;
        fed = record {
          based = d.step.based;
          stands = d.step.stands;
          fits =
              (λ i. fits_ring (d.offset_now i) (d.step.waits i ++ coming)) ∙ ground (arith, both);
        };
      }

  AllFed-call :
      (phase : Phase) (coming : List (List ℕ)) (k : Kernel D)
      → IsHealthy k
      → Fed coming k
      → AllFed coming (call m fuel phase k)
  unfolding settle read_line execute_line print_prompt
  AllFed-call polling coming k h f =
      let p = Polls-poll_card coming k h f in
      rw p.returns (record { based = p.fed.based; stands = p.fed.stands; fits = p.fed.fits })
  AllFed-call testing coming k h f = f
  AllFed-call reading coming k h f = f
  AllFed-call executing coming k h f =
      let outcome = execute (mounted m.fresh k.devices) k.shell k.line in
      Fed-do_events outcome.1 coming (record k { shell = outcome.0; phase = prompting }) f
  AllFed-call prompting coming k h f =
      Fed-do_events (prompt k.shell) coming (record k { phase = polling }) f

  AllFed-if :
      (coming : List (List ℕ)) (b : Bool) (x y : Option (Kernel D))
      → AllFed coming x
      → AllFed coming y
      → AllFed coming (if b then x else y)
  AllFed-if coming true x y f g = f
  AllFed-if coming false x y f g = g

  Fed-state :
      (coming : List (List ℕ)) {o : Option (Kernel D)} {k : Kernel D}
      → o ≡ some k
      → AllFed coming o
      → Fed coming k
  Fed-state coming e f = subst (AllFed coming) e f

  Gets-run :
      (turns : List (Turn D)) (coming : List (List ℕ)) (k : Kernel D)
      → AreBrought queue place turns coming
      → IsHealthy k
      → Fed coming k
      → Gets m fuel k (moves m.fresh k.devices turns (terminal_of k)) (run m fuel turns k)
  unfolding step
  Gets-run [] coming k b h f = Gets-nothing m fuel k h
  Gets-run (main ∷ turns) coming k b h f = elim (Gets-call m fuel k.phase k h) [
    | inr (at, hung) ↦ let p = Polls-poll_card coming k h f in absurd cc
    | inl s ↦
        let g : Fed coming s.state =
          Fed-state coming s.returns (AllFed-call k.phase coming k h f) in
        Gets-then m fuel main turns k s (Gets-run turns coming s.state b s.healthy g)
  ]
  Gets-run (key scancode ∷ turns) coming k b h f =
      let s = Gets-step_key m fuel scancode k h in
      let g : Fed coming s.state =
        Fed-state coming s.returns (AllFed-if coming k.cpu.interrupts_on (some _) (some k) f f) in
      Gets-then m fuel (key scancode) turns k s (Gets-run turns coming s.state b s.healthy g)
  Gets-run (card change ∷ turns) coming k (new, later, all, waits, stays, b) h f =
      let s = Gets-step_card m fuel change k h in
      let changed : Kernel D = record k {
        driver = record k.driver { card = change k.driver.card };
      } in
      let fed : Fed later changed = record {
        based = f.based;
        stands = stays k.driver.card ∙ f.stands;
        fits =
            ap (fits_ring k.driver.rx_offset) (
              ap (λ q. q ++ later) (waits k.driver.card)
              ∙ append_assoc (queue k.driver.card) new later
              ∙ ap (λ l. queue k.driver.card ++ l) (sym all))
            ∙ f.fits;
      } in
      let g : Fed later s.state = Fed-state later s.returns fed in
      Gets-then m fuel (card change) turns k s (Gets-run turns later s.state b s.healthy g)

  -- With a network card at ports that follows its data sheet, with fuel for the frames that wait in
  -- it, and a driver that stands at the card's first frame: whatever the schedule of the loop's
  -- calls, keys and frames that come, if the driver accepts all frames and no place behind one is in
  -- the ring's first 16 bytes, then the kernel returns from every call; the parts' invariants stay;
  -- and the line being typed, the shell's state, the command and the place in the loop are those of a
  -- terminal without screen and network.
  pub run_refines_terminal :
      (turns : List (Turn D)) (coming : List (List ℕ)) (k : Kernel D)
      → AreBrought queue place turns coming
      → IsHealthy k
      → IsFed base queue place coming k.driver
      → (t : Kernel D) × (run m fuel turns k ≡ some t)
        × IsHealthy t
        × (terminal_of t ≡ moves m.fresh k.devices turns (terminal_of k))
  run_refines_terminal turns coming k b h f =
      let r = Gets-run turns coming k b h f in (r.state, r.returns, r.healthy, r.seen)
