-- ===== src/Net/Protocol/Answered.antt =====
-- A request of src/network/net.c made before the gateway's address is known.
use wnu.Prelude.{ℕ, ◌+◌, ◌<◌, ◌≡◌, true, List, if◌then◌else◌, arith}
use wnu.Mem.{Bytes}
use wnu.Net.Frames.{Mac}
use wnu.Net.Protocol.{Net, handle_packet, call, printed, mac_at, mac_text}
use wnu.Net.Protocol.Requests.{IsQuiet, count, icmp, udp, Sends-both}
use wnu.Net.Protocol.Runs.{Input, ping, test, step, run, Steps-step, Steps-run}
use wnu.Net.Protocol.Replies.{IsGatewayReply, handle_packet_on_reply}

module _ (local_mac : Mac) where
  -- Everything that waits is sent on a reply of the gateway.
  reply_sends :
      (packet : Bytes) (len : ℕ) (s : Net)
      → IsGatewayReply packet len
      → (count icmp (handle_packet local_mac packet len s).events
          ≡ count icmp s.events + (if s.pending_icmp then 1 else 0))
        × (count udp (handle_packet local_mac packet len s).events
            ≡ count udp s.events + (if s.pending_udp then 1 else 0))
  reply_sends packet len s reply =
      let h = Sends-both local_mac (
        call (record s { gateway_mac = mac_at packet 22; gateway_mac_ready = true })
          (printed (mac_text (mac_at packet 22)))) in
      rw (handle_packet_on_reply local_mac packet len s reply) (h.icmps, h.udps)

  -- If nothing waits with the address known, then after a ping, any further calls and received
  -- frames, and a reply of the gateway, an echo request has been sent since the ping; and a UDP
  -- packet since a UDP test.
  pub request_is_answered :
      (s : Net) (inputs : List Input) (packet : Bytes) (len : ℕ)
      → IsQuiet s
      → IsGatewayReply packet len
      → (count icmp s.events
          < count icmp
              (handle_packet local_mac packet len
                (run local_mac inputs (step local_mac ping s))).events)
        × (count udp s.events
            < count udp
                (handle_packet local_mac packet len
                  (run local_mac inputs (step local_mac test s))).events)
  request_is_answered s inputs packet len q reply =
      let pinged = Steps-step local_mac ping s q in
      let tested = Steps-step local_mac test s q in
      let (quiet, kept, _, _, _) =
        Steps-run local_mac inputs (step local_mac ping s) pinged.quiet in
      let (quiet', _, kept', _, _) =
        Steps-run local_mac inputs (step local_mac test s) tested.quiet in
      let sends = reply_sends packet len (run local_mac inputs (step local_mac ping s)) reply in
      let sends' = reply_sends packet len (run local_mac inputs (step local_mac test s)) reply in
      (
        omega (arith, pinged.asked_icmp, kept, sends.0),
        omega (arith, tested.asked_udp, kept', sends'.1),
      )
