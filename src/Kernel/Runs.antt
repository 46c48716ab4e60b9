-- ===== src/Kernel/Runs.antt =====
-- src/kernel/main.c: a schedule of the loop's turns runs to its end, or stops in rtl8139_poll.
use wnu.Prelude.{◌≡◌, ◌⊎◌, inl, inr, refl, ap, ◌∙◌, ℕ, none, some, List, [], ◌∷◌, ◌++◌}
use wnu.Kernel.{Machine, Kernel, polling}
use wnu.Kernel.Loop.{Turn, main, key, card, step, run}
use wnu.Kernel.Output.{IsHealthy}
use wnu.Kernel.Sound.{Gets, poll_card, Gets-call, Gets-step_key, Gets-step_card}
use wnu.Kernel.Terminal.{Terminal, move, moves, terminal_of}

module _ {D : Type 0} (m : Machine D) (fuel : D → ℕ) where
  -- A turn, then those behind it.
  pub Gets-then :
      (turn : Turn D) (turns : List (Turn D)) (k : Kernel D) {t : Terminal}
      (s : Gets m fuel k t (step m fuel turn k))
      → Gets m fuel s.state
          (moves m.fresh s.state.devices turns (terminal_of s.state))
          (run m fuel turns s.state)
      → Gets m fuel k (moves m.fresh k.devices turns t) (run m fuel (turn ∷ turns) k)
  unfolding run
  Gets-then turn turns k s r = rw s.returns (record {
    state = r.state;
    returns = r.returns;
    healthy = r.healthy;
    seen = r.seen ∙ (λ i. moves m.fresh (s.devices_kept i) turns (s.seen i));
    devices_kept = r.devices_kept ∙ s.devices_kept;
  })

  pub Gets-nothing : (k : Kernel D) → IsHealthy k → Gets m fuel k (terminal_of k) (run m fuel [] k)
  unfolding run
  Gets-nothing k h = record {
    state = k;
    returns = refl;
    healthy = h;
    seen = refl;
    devices_kept = refl;
  }

  -- A schedule that ends inside rtl8139_poll: the turns before that call, and the state at it.
  pub record StopsInPoll (turns : List (Turn D)) (k : Kernel D) : Type 0 where
    pub before : List (Turn D)
    pub after : List (Turn D)
    pub state : Kernel D
    pub split : turns ≡ before ++ main ∷ after
    pub arrives : run m fuel before k ≡ some state
    pub healthy : IsHealthy state
    pub seen : terminal_of state ≡ moves m.fresh k.devices before (terminal_of k)
    pub at_poll : state.phase ≡ polling
    pub hangs : poll_card m fuel state ≡ none

  StopsInPoll-now :
      (turns : List (Turn D)) (k : Kernel D)
      → IsHealthy k
      → k.phase ≡ polling
      → poll_card m fuel k ≡ none
      → StopsInPoll (main ∷ turns) k
  unfolding run
  StopsInPoll-now turns k h at hung = record {
    before = [];
    after = turns;
    state = k;
    split = refl;
    arrives = refl;
    healthy = h;
    seen = refl;
    at_poll = at;
    hangs = hung;
  }

  StopsInPoll-later :
      (turn : Turn D) (turns : List (Turn D)) (k : Kernel D)
      (s : Gets m fuel k (move m.fresh k.devices turn (terminal_of k)) (step m fuel turn k))
      → StopsInPoll turns s.state
      → StopsInPoll (turn ∷ turns) k
  unfolding run
  StopsInPoll-later turn turns k s u = record {
    before = turn ∷ u.before;
    after = u.after;
    state = u.state;
    split = ap (λ ts. turn ∷ ts) u.split;
    arrives = rw s.returns u.arrives;
    healthy = u.healthy;
    seen = u.seen ∙ (λ i. moves m.fresh (s.devices_kept i) u.before (s.seen i));
    at_poll = u.at_poll;
    hangs = u.hangs;
  }

  -- A run that comes back, or stops in rtl8139_poll.
  abbrev pub Runs : List (Turn D) → Kernel D → Type 0
  Runs turns k =
      Gets m fuel k (moves m.fresh k.devices turns (terminal_of k)) (run m fuel turns k)
      ⊎ StopsInPoll turns k

  Runs-then :
      (turn : Turn D) (turns : List (Turn D)) (k : Kernel D)
      (s : Gets m fuel k (move m.fresh k.devices turn (terminal_of k)) (step m fuel turn k))
      → Runs turns s.state
      → Runs (turn ∷ turns) k
  Runs-then turn turns k s (inl r) = inl (Gets-then turn turns k s r)
  Runs-then turn turns k s (inr u) = inr (StopsInPoll-later turn turns k s u)

  pub Runs-run : (turns : List (Turn D)) (k : Kernel D) → IsHealthy k → Runs turns k
  unfolding step
  Runs-run [] k h = inl (Gets-nothing k h)
  Runs-run (main ∷ turns) k h = elim (Gets-call m fuel k.phase k h) [
    | inr (at, hung) ↦ inr (StopsInPoll-now turns k h at hung)
    | inl s ↦ Runs-then main turns k s (Runs-run turns s.state s.healthy)
  ]
  Runs-run (key scancode ∷ turns) k h =
      let s = Gets-step_key m fuel scancode k h in
      Runs-then (key scancode) turns k s (Runs-run turns s.state s.healthy)
  Runs-run (card change ∷ turns) k h =
      let s = Gets-step_card m fuel change k h in
      Runs-then (card change) turns k s (Runs-run turns s.state s.healthy)
