-- ===== src/Net/Protocol/Requests.antt =====
-- The requests of src/network/net.c: what becomes of a ping and of a UDP test.
use Prim.Native.Nat.{bit_and, bit_or}
use wnu.Prelude.{
  ℕ, ◌+◌, ◌*◌, ◌^◌, ◌%◌, ◌≤◌, ◌≡◌, refl, ◌∙◌, Bool, true, false, not, ◌&&◌, ◌||◌, List, [], ◌∷◌,
  ◌==◌, ltb, leb, if◌then◌else◌, get_or, arith, Bool-cases, inl, inr,
}
use wnu.Mem.{Bytes, slice}
use wnu.Str.{Str}
use wnu.Net.Frames.{Mac, echo_frame, udp_frame, arp_request_frame, ip_header, gateway_ip, local_ip}
use wnu.Net.Protocol.{
  Event, sent, printed, serial, Net, call, send_icmp_echo, send_udp_packet, send_arp_request,
  send_pending_icmp, send_pending_udp, request_gateway_mac, handle_arp, handle_ipv4, handle_packet,
  ip_equal, mac_at, mac_text,
}

-- The frames of an IP protocol, by the bytes that name it.
abbrev pub is_of_protocol : ℕ → List ℕ → Bool
is_of_protocol protocol frame =
    (get_or frame 12 0 == 0x08) && (get_or frame 13 0 == 0x00) && (get_or frame 23 0 == protocol)

abbrev pub bit : Bool → ℕ
bit b = if b then 1 else 0

-- How many frames of a protocol have been sent.
abbrev pub count : ℕ → List Event → ℕ
count protocol [] = 0
count protocol (sent frame ∷ events) = bit (is_of_protocol protocol frame) + count protocol events
count protocol (printed text ∷ events) = count protocol events
count protocol (serial text ∷ events) = count protocol events

abbrev pub icmp : ℕ
icmp = 1

abbrev pub udp : ℕ
udp = 17

-- With the address known nothing waits.
pub record IsQuiet (s : Net) : Type 0 where
  pub quiet : s.gateway_mac_ready ≡ true → (s.pending_icmp ≡ false) × (s.pending_udp ≡ false)

-- What a step does that asks for `more_icmp` echo requests and `more_udp` packets: each is sent or
-- waits afterwards, what waited does so too, and nothing else is sent.
pub record Steps (more_icmp more_udp : ℕ) (s t : Net) : Type 0 where
  pub quiet : IsQuiet t
  pub asked_icmp : count icmp s.events + more_icmp ≤ count icmp t.events + bit t.pending_icmp
  pub kept_icmp :
      count icmp s.events + bit s.pending_icmp ≤ count icmp t.events + bit t.pending_icmp
  pub no_more_icmp :
      count icmp t.events + bit t.pending_icmp
      ≤ count icmp s.events + bit s.pending_icmp + more_icmp
  pub asked_udp : count udp s.events + more_udp ≤ count udp t.events + bit t.pending_udp
  pub kept_udp : count udp s.events + bit s.pending_udp ≤ count udp t.events + bit t.pending_udp
  pub no_more_udp :
      count udp t.events + bit t.pending_udp ≤ count udp s.events + bit s.pending_udp + more_udp

-- The frames of the two kinds that were sent and that wait.
pub record Sends (s t : Net) (icmp_sent icmp_waits udp_sent udp_waits : ℕ) : Type 0 where
  pub ready : t.gateway_mac_ready ≡ s.gateway_mac_ready
  pub icmps : count icmp t.events ≡ count icmp s.events + icmp_sent
  pub icmp_left : bit t.pending_icmp ≡ icmp_waits
  pub udps : count udp t.events ≡ count udp s.events + udp_sent
  pub udp_left : bit t.pending_udp ≡ udp_waits

bit_zero : (b : Bool) → bit b ≡ 0 → b ≡ false
bit_zero b h = ground arith

Steps-if :
    {m n : ℕ} {s : Net} (b : Bool) (x y : Net)
    → (b ≡ true → Steps m n s x)
    → (b ≡ false → Steps m n s y)
    → Steps m n s (if b then x else y)
Steps-if true x y f g = f refl
Steps-if false x y f g = g refl

module _ (local_mac : Mac) where
  Sends-send_pending_icmp :
      (s : Net)
      → Sends s (send_pending_icmp local_mac s) (bit s.pending_icmp) 0 0 (bit s.pending_udp)
  unfolding send_pending_icmp send_icmp_echo echo_frame ip_header
  Sends-send_pending_icmp s = elim (Bool-cases s.pending_icmp) [
    | inl e ↦ rw e (record {
      ready = refl;
      icmps = omega arith;
      icmp_left = refl;
      udps = omega arith;
      udp_left = refl;
    })
    | inr e ↦ rw e (record {
      ready = refl;
      icmps = omega arith;
      icmp_left = refl;
      udps = omega arith;
      udp_left = refl;
    })
  ]

  Sends-send_pending_udp :
      (s : Net)
      → Sends s (send_pending_udp local_mac s) 0 (bit s.pending_icmp) (bit s.pending_udp) 0
  unfolding send_pending_udp send_udp_packet udp_frame ip_header
  Sends-send_pending_udp s = elim (Bool-cases s.pending_udp) [
    | inl e ↦ rw e (record {
      ready = refl;
      icmps = omega arith;
      icmp_left = refl;
      udps = omega arith;
      udp_left = refl;
    })
    | inr e ↦ rw e (record {
      ready = refl;
      icmps = omega arith;
      icmp_left = refl;
      udps = omega arith;
      udp_left = refl;
    })
  ]

  pub Sends-both :
      (s : Net)
      → Sends s
          (send_pending_udp local_mac (send_pending_icmp local_mac s))
          (bit s.pending_icmp)
          0
          (bit s.pending_udp)
          0
  Sends-both s =
      let first = Sends-send_pending_icmp s in
      let second = Sends-send_pending_udp (send_pending_icmp local_mac s) in
      record {
        ready = second.ready ∙ first.ready;
        icmps = omega (arith, first.icmps, second.icmps);
        icmp_left = second.icmp_left ∙ first.icmp_left;
        udps = omega (arith, first.udps, first.udp_left, second.udps);
        udp_left = second.udp_left;
      }

  -- What waits is sent, with the address known.
  Steps-both :
      (s t : Net) (more_icmp more_udp : ℕ)
      → count icmp t.events ≡ count icmp s.events
      → count udp t.events ≡ count udp s.events
      → more_icmp ≤ bit t.pending_icmp
      → more_udp ≤ bit t.pending_udp
      → bit s.pending_icmp ≤ bit t.pending_icmp
      → bit s.pending_udp ≤ bit t.pending_udp
      → bit t.pending_icmp ≤ bit s.pending_icmp + more_icmp
      → bit t.pending_udp ≤ bit s.pending_udp + more_udp
      → Steps more_icmp more_udp s (send_pending_udp local_mac (send_pending_icmp local_mac t))
  Steps-both s t more_icmp more_udp icmps udps a b c d e f =
      let h = Sends-both t in
      record {
        quiet = record { quiet = λ _. (bit_zero _ h.icmp_left, bit_zero _ h.udp_left) };
        asked_icmp = omega (arith, h.icmps, h.icmp_left);
        kept_icmp = omega (arith, h.icmps, h.icmp_left);
        no_more_icmp = omega (arith, h.icmps, h.icmp_left);
        asked_udp = omega (arith, h.udps, h.udp_left);
        kept_udp = omega (arith, h.udps, h.udp_left);
        no_more_udp = omega (arith, h.udps, h.udp_left);
      }

  pub Steps-request_gateway_mac :
      (want_icmp want_udp : Bool) (s : Net)
      → Steps (bit want_icmp) (bit want_udp) s (request_gateway_mac local_mac want_icmp want_udp s)
  unfolding request_gateway_mac send_arp_request arp_request_frame
  Steps-request_gateway_mac want_icmp want_udp s =
      Steps-if s.gateway_mac_ready _ _
        (λ _.
          Steps-both s
            (record s {
              pending_icmp = s.pending_icmp || want_icmp;
              pending_udp = s.pending_udp || want_udp;
            })
            (bit want_icmp) (bit want_udp) refl refl (ground arith) (ground arith) (ground arith)
            (ground arith) (ground arith) (ground arith))
        λ unknown. record {
          quiet = record { quiet = λ known. absurd (cc) };
          asked_icmp = ground arith;
          kept_icmp = ground arith;
          no_more_icmp = ground arith;
          asked_udp = ground arith;
          kept_udp = ground arith;
          no_more_udp = ground arith;
        }

  Steps-same : (s : Net) (e : Str) → IsQuiet s → Steps 0 0 s s × Steps 0 0 s (call s (printed e))
  Steps-same s e q = (
    record {
      quiet = q;
      asked_icmp = omega arith;
      kept_icmp = omega arith;
      no_more_icmp = omega arith;
      asked_udp = omega arith;
      kept_udp = omega arith;
      no_more_udp = omega arith;
    },
    record {
      quiet = record { quiet = q.quiet };
      asked_icmp = omega arith;
      kept_icmp = omega arith;
      no_more_icmp = omega arith;
      asked_udp = omega arith;
      kept_udp = omega arith;
      no_more_udp = omega arith;
    },
  )

  Steps-handle_arp :
      (packet : Bytes) (s : Net) → IsQuiet s → Steps 0 0 s (handle_arp local_mac packet s)
  unfolding handle_arp
  Steps-handle_arp packet s q =
      let stays = (Steps-same s [] q).0 in
      let mac = mac_at packet 22 in
      let opcode = bit_or (packet 20 * 2 ^ 8) (packet 21) in
      Steps-if (not (opcode == 2)) _ _ (λ _. stays)
        λ _.
          Steps-if
            (ip_equal (slice packet 28 4) gateway_ip && ip_equal (slice packet 38 4) local_ip) _ _
            (λ _.
              Steps-both s
                (call (record s { gateway_mac = mac; gateway_mac_ready = true })
                  (printed (mac_text mac)))
                0 0 refl refl (omega arith) (omega arith) (omega arith) (omega arith) (omega arith)
                (omega arith))
            λ _. stays

  Steps-handle_ipv4 :
      (packet : Bytes) (len : ℕ) (s : Net)
      → IsQuiet s
      → Steps 0 0 s (handle_ipv4 local_mac packet len s)
  unfolding handle_ipv4
  Steps-handle_ipv4 packet len s q =
      let stays = (Steps-same s [] q).0 in
      let told : (text : Str) → Steps 0 0 s (call s (printed text)) =
        λ text. (Steps-same s text q).1 in
      let ihl = bit_and (packet 14) 0x0f * 4 % 256 in
      Steps-if (ltb len (14 + 20)) _ _ (λ _. stays)
        λ _.
          Steps-if (not (ip_equal (slice packet 30 4) local_ip)) _ _ (λ _. stays)
            λ _.
              Steps-if (ltb len (14 + ihl)) _ _ (λ _. stays)
                λ _.
                  Steps-if (packet 23 == 1) _ _
                    (λ _.
                      Steps-if (ltb len (14 + ihl + 8)) _ _ (λ _. stays)
                        λ _. Steps-if (packet (14 + ihl) == 0) _ _ (λ _. told _) λ _. stays)
                    λ _. Steps-if (packet 23 == 17) _ _ (λ _. told _) λ _. stays

  pub Steps-handle_packet :
      (packet : Bytes) (len : ℕ) (s : Net)
      → IsQuiet s
      → Steps 0 0 s (handle_packet local_mac packet len s)
  unfolding handle_packet
  Steps-handle_packet packet len s q =
      let stays = (Steps-same s [] q).0 in
      let eth_type = bit_or (packet 12 * 2 ^ 8) (packet 13) in
      Steps-if (ltb len 14) _ _ (λ _. stays)
        λ _.
          Steps-if (eth_type == 0x0806 && leb 42 len) _ _ (λ _. Steps-handle_arp packet s q)
            λ _.
              Steps-if (not (eth_type == 0x0800)) _ _ (λ _. stays)
                λ _. Steps-handle_ipv4 packet len s q
