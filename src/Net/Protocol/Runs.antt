-- ===== src/Net/Protocol/Runs.antt =====
-- Sequences of calls of src/network/net.c.
use wnu.Prelude.{ℕ, ◌+◌, ◌≤◌, ◌≡◌, refl, ap, true, false, List, [], ◌∷◌, arith}
use wnu.Mem.{Bytes}
use wnu.Net.Frames.{Mac}
use wnu.Net.Protocol.{Net, init, ping_qemu_gateway, udp_test, handle_packet}
use wnu.Net.Protocol.Requests.{
  count, icmp, udp, bit, IsQuiet, Steps, Steps-request_gateway_mac, Steps-handle_packet,
}

-- A call from outside: a ping, a UDP test, or a frame from the driver.
pub data Input : Type 0 where
  ping : Input
  test : Input
  receive : Bytes → ℕ → Input

abbrev pub of_icmp : Input → ℕ
of_icmp ping = 1
of_icmp test = 0
of_icmp (receive packet len) = 0

abbrev pub of_udp : Input → ℕ
of_udp ping = 0
of_udp test = 1
of_udp (receive packet len) = 0

abbrev pub pings : List Input → ℕ
pings [] = 0
pings (i ∷ inputs) = of_icmp i + pings inputs

abbrev pub tests : List Input → ℕ
tests [] = 0
tests (i ∷ inputs) = of_udp i + tests inputs

module _ (local_mac : Mac) where
  unfoldable pub step : Input → Net → Net
  step ping = ping_qemu_gateway local_mac
  step test = udp_test local_mac
  step (receive packet len) = handle_packet local_mac packet len

  unfoldable pub run : List Input → Net → Net
  run [] s = s
  run (i ∷ inputs) s = run inputs (step i s)

  pub Steps-step : (i : Input) (s : Net) → IsQuiet s → Steps (of_icmp i) (of_udp i) s (step i s)
  unfolding step ping_qemu_gateway udp_test
  Steps-step ping s q = Steps-request_gateway_mac local_mac true false s
  Steps-step test s q = Steps-request_gateway_mac local_mac false true s
  Steps-step (receive packet len) s q = Steps-handle_packet local_mac packet len s q

  -- The same of a sequence of calls, but for the frames that it asks for.
  pub Steps-run :
      (inputs : List Input) (s : Net)
      → IsQuiet s
      → IsQuiet (run inputs s)
        × (count icmp s.events + bit s.pending_icmp
            ≤ count icmp (run inputs s).events + bit (run inputs s).pending_icmp)
        × (count udp s.events + bit s.pending_udp
            ≤ count udp (run inputs s).events + bit (run inputs s).pending_udp)
        × (count icmp (run inputs s).events + bit (run inputs s).pending_icmp
            ≤ count icmp s.events + bit s.pending_icmp + pings inputs)
        × (count udp (run inputs s).events + bit (run inputs s).pending_udp
            ≤ count udp s.events + bit s.pending_udp + tests inputs)
  unfolding run
  Steps-run [] s q = (q, omega arith, omega arith, omega arith, omega arith)
  Steps-run (i ∷ inputs) s q =
      let first = Steps-step i s q in
      let (quiet, a, b, c, d) = Steps-run inputs (step i s) first.quiet in
      (
        quiet,
        omega (arith, first.kept_icmp),
        omega (arith, first.kept_udp),
        omega (arith, first.no_more_icmp),
        omega (arith, first.no_more_udp),
      )

  -- After net_init and any pings, UDP tests and received frames: with the gateway's address known
  -- nothing waits; and the echo requests sent, with the one that waits, are at most the pings, the
  -- UDP packets at most the tests.
  pub run-IsQuiet :
      (inputs : List Input) (s : Net)
      → s.events ≡ []
      → IsQuiet (run inputs (init s))
        × (count icmp (run inputs (init s)).events + bit (run inputs (init s)).pending_icmp
            ≤ pings inputs)
        × (count udp (run inputs (init s)).events + bit (run inputs (init s)).pending_udp
            ≤ tests inputs)
  unfolding init
  run-IsQuiet inputs s none_yet =
      let start : IsQuiet (init s) = record { quiet = λ known. (refl, refl) } in
      let (quiet, a, b, c, d) = Steps-run inputs (init s) start in
      (quiet, omega (arith, ap (count icmp) none_yet), omega (arith, ap (count udp) none_yet))
