-- ===== src/Net/Protocol.antt =====
-- The requests, and the dispatch of received frames, of src/network/net.c.
-- The driver's own address, which rtl8139_get_mac gives, is a parameter; a received frame is a
-- function from an index, and its length.
pub mod Requests
pub mod Runs
pub mod Replies
pub mod Answered
pub mod Bounds
use Prim.Native.Nat.{bit_and, bit_or}
use wnu.Prelude.{
  ℕ, ◌+◌, ◌%◌, ◌*◌, ◌^◌, Bool, true, false, not, ◌&&◌, ◌||◌, Option, none, some, List, [], ◌∷◌,
  ◌==◌, ltb, leb, if◌then◌else◌,
}
use wnu.Mem.{Bytes, slice}
use wnu.Str.{Str, codes}
use wnu.Libc.Printf.{printf, word}
use wnu.Net.Frames.{Mac, mac_bytes, local_ip, gateway_ip, echo_frame, udp_frame, arp_request_frame}

-- A call of rtl8139_send, a text on the console, and one on the serial port.
pub data Event : Type 0 where
  sent : List ℕ → Event
  printed : Str → Event
  serial : Str → Event

-- The static variables, and the calls so far, the last one first.
pub record Net : Type 0 where
  pub gateway_mac : Mac
  pub gateway_mac_ready : Bool
  pub pending_icmp : Bool
  pub pending_udp : Bool
  pub events : List Event

unfoldable pub init : Net → Net
init s = record s { gateway_mac_ready = false; pending_icmp = false; pending_udp = false }

abbrev pub call : Net → Event → Net
call s e = record s { events = e ∷ s.events }

-- A text on both outputs.
abbrev pub tell : Net → Str → Net
tell s text = call (call s (printed text)) (serial text)

-- The two loops over 4 bytes, of a field of the frame and an address.
unfoldable pub ip_equal : List ℕ → List ℕ → Bool
ip_equal [] [] = true
ip_equal [] (y ∷ b) = false
ip_equal (x ∷ a) [] = false
ip_equal (x ∷ a) (y ∷ b) = let rest = ip_equal a b in if x == y then rest else false

-- A text whose arguments are there.
abbrev pub text_or_empty : Option Str → Str
text_or_empty none = []
text_or_empty (some s) = s

abbrev pub mac_text : Mac → Str
mac_text m = text_or_empty (
    printf (codes "arp: gateway mac %x:%x:%x:%x:%x:%x\n") (
      word m.byte0 ∷ word m.byte1 ∷ word m.byte2 ∷ word m.byte3 ∷ word m.byte4 ∷ word m.byte5 ∷ []))

-- Six bytes of a frame.
abbrev pub mac_at : Bytes → ℕ → Mac
mac_at p k = record {
  byte0 = p k;
  byte1 = p (k + 1);
  byte2 = p (k + 2);
  byte3 = p (k + 3);
  byte4 = p (k + 4);
  byte5 = p (k + 5);
}

module _ (local_mac : Mac) where
  unfoldable pub send_icmp_echo : Net → Net
  send_icmp_echo s =
      tell (call s (sent (echo_frame local_mac s.gateway_mac))) (codes "ping: icmp echo sent\n")

  unfoldable pub send_udp_packet : Net → Net
  send_udp_packet s =
      tell (call s (sent (udp_frame local_mac s.gateway_mac)))
        (codes "udp: sent to 10.0.2.2:5555\n")

  unfoldable pub send_arp_request : Net → Net
  send_arp_request s = call s (sent (arp_request_frame local_mac))

  -- The tests of the two pending requests, which stand in two places.
  unfoldable pub send_pending_icmp : Net → Net
  send_pending_icmp s =
      if s.pending_icmp then send_icmp_echo (record s { pending_icmp = false }) else s

  unfoldable pub send_pending_udp : Net → Net
  send_pending_udp s =
      if s.pending_udp then send_udp_packet (record s { pending_udp = false }) else s

  unfoldable pub request_gateway_mac : Bool → Bool → Net → Net
  request_gateway_mac want_icmp want_udp s =
      let asked : Net = record s {
        pending_icmp = s.pending_icmp || want_icmp;
        pending_udp = s.pending_udp || want_udp;
      } in
      if s.gateway_mac_ready
      then send_pending_udp (send_pending_icmp asked)
      else send_arp_request (tell asked (codes "net: resolving gateway mac...\n"))

  unfoldable pub ping_qemu_gateway : Net → Net
  ping_qemu_gateway = request_gateway_mac true false

  unfoldable pub udp_test : Net → Net
  udp_test = request_gateway_mac false true

  -- The branch for a frame of the type ARP with 42 bytes.
  unfoldable pub handle_arp : Bytes → Net → Net
  handle_arp packet s =
      let opcode = bit_or (packet 20 * 2 ^ 8) (packet 21) in
      let sender_mac = mac_at packet 22 in
      let learned : Net = record s { gateway_mac = sender_mac; gateway_mac_ready = true } in
      if not (opcode == 2)
      then s
      else if ip_equal (slice packet 28 4) gateway_ip && ip_equal (slice packet 38 4) local_ip
      then send_pending_udp (send_pending_icmp (call learned (printed (mac_text sender_mac))))
      else s

  -- What follows the tests of the type.
  unfoldable pub handle_ipv4 : Bytes → ℕ → Net → Net
  handle_ipv4 packet len s =
      let ihl = bit_and (packet 14) 0x0f * 4 % 256 in
      if ltb len (14 + 20)
      then s
      else if not (ip_equal (slice packet 30 4) local_ip)
      then s
      else if ltb len (14 + ihl)
      then s
      else if packet 23 == 1
      then if ltb len (14 + ihl + 8)
        then s
        else if packet (14 + ihl) == 0
        then call s (printed (codes "ping: reply from 10.0.2.2\n"))
        else s
      else if packet 23 == 17
      then call s (printed (codes "net: udp packet received\n"))
      else s

  unfoldable pub handle_packet : Bytes → ℕ → Net → Net
  handle_packet packet len s =
      let eth_type = bit_or (packet 12 * 2 ^ 8) (packet 13) in
      if ltb len 14
      then s
      else if eth_type == 0x0806 && leb 42 len
      then handle_arp packet s
      else if not (eth_type == 0x0800)
      then s
      else handle_ipv4 packet len s
