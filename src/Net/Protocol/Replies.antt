-- ===== src/Net/Protocol/Replies.antt =====
-- Which received frames src/network/net.c takes the gateway's address from.
use Prim.Native.Nat.{bit_and, bit_or}
use wnu.Prelude.{
  ℕ, ◌+◌, ◌%◌, ◌*◌, ◌^◌, ◌<◌, ◌≤◌, ◌≡◌, refl, ap, get_or, Bool, true, false, not, ◌&&◌, List, [],
  ◌∷◌, ◌==◌, ltb, leb, if◌then◌else◌, arith, Bool-cases, inl, inr,
}
use wnu.Bits.{bit_or-shifted}
use wnu.Mem.{Bytes, slice}
use wnu.Net.Frames.{Mac, gateway_ip, local_ip}
use wnu.Net.Protocol.{
  Net, printed, call, mac_at, mac_text, ip_equal, send_icmp_echo, send_udp_packet,
  send_pending_icmp, send_pending_udp, handle_arp, handle_ipv4, handle_packet,
}

-- A whole ARP frame that is a reply of the gateway to this host.
pub record IsGatewayReply (packet : Bytes) (len : ℕ) : Type 0 where
  pub whole : 42 ≤ len
  pub ethernet_type : slice packet 12 2 ≡ 0x08 ∷ 0x06 ∷ []
  pub opcode : slice packet 20 2 ≡ 0x00 ∷ 0x02 ∷ []
  pub sender : slice packet 28 4 ≡ gateway_ip
  pub target : slice packet 38 4 ≡ local_ip

ip_equal_sound : (a b : List ℕ) → ip_equal a b ≡ true → a ≡ b
unfolding ip_equal
ip_equal_sound [] [] h = refl
ip_equal_sound [] (y ∷ b) h = absurd (cc)
ip_equal_sound (x ∷ a) [] h = absurd (cc)
ip_equal_sound (x ∷ a) (y ∷ b) h = elim (Bool-cases (x == y)) [
  | inl e ↦
      let same : x ≡ y = ground arith in
      let rest : ip_equal a b ≡ true = ground arith in λ i. same i ∷ ip_equal_sound a b rest i
  | inr e ↦ absurd (ground arith)
]

-- The state with the address, and what waited sent.
abbrev pub learned : Mac → Bytes → Net → Net
learned local_mac packet s = send_pending_udp local_mac (
    send_pending_icmp local_mac (
      call (record s { gateway_mac = mac_at packet 22; gateway_mac_ready = true })
        (printed (mac_text (mac_at packet 22)))))

two_bytes : (p : Bytes) (k a b : ℕ) → slice p k 2 ≡ a ∷ b ∷ [] → (p k ≡ a) × (p (k + 1) ≡ b)
unfolding slice
two_bytes p k a b h = (ap (λ l. get_or l 0 0) h, ap (λ l. get_or l 1 0) h)

from_two_bytes : (p : Bytes) (k a b : ℕ) → p k ≡ a → p (k + 1) ≡ b → slice p k 2 ≡ a ∷ b ∷ []
unfolding slice
from_two_bytes p k a b h l = rw (h, l) refl

-- A 16-bit number of a frame by its two bytes.
word_lem :
    (p : Bytes) (k a b : ℕ)
    → p (k + 1) < 256
    → b < 256
    → bit_or (p k * 2 ^ 8) (p (k + 1)) ≡ a * 256 + b
    → slice p k 2 ≡ a ∷ b ∷ []
word_lem p k a b lt lt' h =
    from_two_bytes p k a b (omega (arith, bit_or-shifted 8 (p k) (p (k + 1)) lt))
      (omega (arith, bit_or-shifted 8 (p k) (p (k + 1)) lt))

module _ (local_mac : Mac) where
  pub handle_packet_on_reply :
      (packet : Bytes) (len : ℕ) (s : Net)
      → IsGatewayReply packet len
      → handle_packet local_mac packet len s ≡ learned local_mac packet s
  unfolding handle_packet handle_arp ip_equal
  handle_packet_on_reply packet len s r =
      let (a, b) = two_bytes packet 12 8 6 r.ethernet_type in
      let (c, d) = two_bytes packet 20 0 2 r.opcode in
      let long : ltb len 14 ≡ false = ground (arith, r.whole) in
      let whole : leb 42 len ≡ true = ground (arith, r.whole) in
      rw (a, b, c, d, long, whole, r.sender, r.target) refl

  -- What a frame leaves alone: the address, and whether it is known.
  record Unlearned (s t : Net) : Type 0 where
    address : t.gateway_mac ≡ s.gateway_mac
    ready : t.gateway_mac_ready ≡ s.gateway_mac_ready

  Unlearned-if :
      {s : Net} (b : Bool) (x y : Net)
      → (b ≡ true → Unlearned s x)
      → (b ≡ false → Unlearned s y)
      → Unlearned s (if b then x else y)
  Unlearned-if true x y f g = f refl
  Unlearned-if false x y f g = g refl

  Unlearned-handle_ipv4 :
      (packet : Bytes) (len : ℕ) (s : Net) → Unlearned s (handle_ipv4 local_mac packet len s)
  unfolding handle_ipv4
  Unlearned-handle_ipv4 packet len s =
      let same : Unlearned s s = record { address = refl; ready = refl } in
      let ihl = bit_and (packet 14) 0x0f * 4 % 256 in
      Unlearned-if (ltb len (14 + 20)) _ _ (λ _. same)
        λ _.
          Unlearned-if (not (ip_equal (slice packet 30 4) local_ip)) _ _ (λ _. same)
            λ _.
              Unlearned-if (ltb len (14 + ihl)) _ _ (λ _. same)
                λ _.
                  Unlearned-if (packet 23 == 1) _ _
                    (λ _.
                      Unlearned-if (ltb len (14 + ihl + 8)) _ _ (λ _. same)
                        λ _.
                          Unlearned-if (packet (14 + ihl) == 0) _ _
                            (λ _. record { address = refl; ready = refl }) λ _. same)
                    λ _.
                      Unlearned-if (packet 23 == 17) _ _
                        (λ _. record { address = refl; ready = refl }) λ _. same

  Unlearned-handle_packet :
      (packet : Bytes) (len : ℕ) (s : Net)
      → ((k : ℕ) → packet k < 256)
      → ¬ IsGatewayReply packet len
      → Unlearned s (handle_packet local_mac packet len s)
  unfolding handle_packet handle_arp
  Unlearned-handle_packet packet len s bytes other =
      let same : Unlearned s s = record { address = refl; ready = refl } in
      let eth_type = bit_or (packet 12 * 2 ^ 8) (packet 13) in
      let opcode = bit_or (packet 20 * 2 ^ 8) (packet 21) in
      Unlearned-if (ltb len 14) _ _ (λ _. same)
        λ long.
          Unlearned-if (eth_type == 0x0806 && leb 42 len) _ _
            (λ is_arp.
              Unlearned-if (not (opcode == 2)) _ _ (λ _. same)
                λ is_reply.
                  Unlearned-if
                    (ip_equal (slice packet 28 4) gateway_ip
                      && ip_equal (slice packet 38 4) local_ip)
                    _ _
                    (λ addresses. absurd (
                      other (record {
                        whole = ground arith;
                        ethernet_type =
                            word_lem packet 12 8 6 (bytes 13) (omega arith) ground arith;
                        opcode = word_lem packet 20 0 2 (bytes 21) (omega arith) ground arith;
                        sender = ip_equal_sound _ _ (ground arith);
                        target = ip_equal_sound _ _ (ground arith);
                      })))
                    λ _. same)
            λ _.
              Unlearned-if (not (eth_type == 0x0800)) _ _ (λ _. same)
                λ _. Unlearned-handle_ipv4 packet len s

  Unlearned-send_pending :
      (s : Net) → Unlearned s (send_pending_udp local_mac (send_pending_icmp local_mac s))
  unfolding send_pending_udp send_pending_icmp send_icmp_echo send_udp_packet
  Unlearned-send_pending s = elim (Bool-cases s.pending_icmp) [
    | inl i ↦ elim (Bool-cases s.pending_udp) [
      | inl u ↦ rw (i, u) (record { address = refl; ready = refl })
      | inr u ↦ rw (i, u) (record { address = refl; ready = refl })
    ]
    | inr i ↦ elim (Bool-cases s.pending_udp) [
      | inl u ↦ rw (i, u) (record { address = refl; ready = refl })
      | inr u ↦ rw (i, u) (record { address = refl; ready = refl })
    ]
  ]

  -- A received frame makes the gateway's address known exactly if it is a whole ARP frame with a
  -- reply of the gateway to this host: then the address is the sender's, and after any other frame
  -- it is known or not as before, and the same.
  pub handle_packet_learns :
      (packet : Bytes) (len : ℕ) (s : Net)
      → ((k : ℕ) → packet k < 256)
      → (IsGatewayReply packet len
          → ((handle_packet local_mac packet len s).gateway_mac_ready ≡ true)
            × ((handle_packet local_mac packet len s).gateway_mac ≡ mac_at packet 22))
        × (¬ IsGatewayReply packet len
            → ((handle_packet local_mac packet len s).gateway_mac_ready ≡ s.gateway_mac_ready)
              × ((handle_packet local_mac packet len s).gateway_mac ≡ s.gateway_mac))
  handle_packet_learns packet len s bytes = (
    λ reply.
        let u = Unlearned-send_pending (
          call (record s { gateway_mac = mac_at packet 22; gateway_mac_ready = true })
            (printed (mac_text (mac_at packet 22)))) in
        rw (handle_packet_on_reply packet len s reply) (u.ready, u.address),
    λ other. let u = Unlearned-handle_packet packet len s bytes other in (u.ready, u.address),
  )
