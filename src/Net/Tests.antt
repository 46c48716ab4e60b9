-- ===== src/Net/Tests.antt =====
-- An IP header, a reply of the gateway, and the witnesses of the network's theorems.
use wnu.Prelude.{
  false, true, get_or, length, take, zero, suc, drop, ◌<◌, ◌≤◌, ◌+◌, ℕ, ◌/◌, ◌%◌, ◌^◌, ◌≡◌, refl,
  some, List, [], ◌∷◌, ◌++◌, arith, ltb, if◌then◌else◌,
}
use wnu.Net.{checksum, sum_words, fold_carries}
use wnu.Mem.{Bytes, slice}
use wnu.Net.Frames.{Mac, zero_mac, mac_bytes, local_ip, gateway_ip, echo_frame, udp_frame, word16}
use wnu.Net.Frames.Sums.{IsIpFrame, ip_part, frames_verify}
use wnu.Net.Protocol.{Net, init, handle_packet, mac_at}
use wnu.Net.Protocol.Requests.{IsQuiet, count, icmp, udp, bit}
use wnu.Net.Protocol.Runs.{ping, test, receive, step, run, run-IsQuiet, pings, tests}
use wnu.Net.Protocol.Replies.{IsGatewayReply, handle_packet_learns}
use wnu.Net.Protocol.Bounds.{handle_packet-congr}
use wnu.Net.Protocol.Answered.{request_is_answered}
use wnu.Net.Checksum.{AreBytes, flat, checksum_verifies}

-- The ten bytes before the field, and the eight behind it.
abbrev before : List (ℕ × ℕ)
before = (0x45, 0) ∷ (0, 0x73) ∷ (0, 0) ∷ (0x40, 0) ∷ (0x40, 0x11) ∷ []

abbrev after : List ℕ
after = 0xC0 ∷ 0xA8 ∷ 0 ∷ 0x01 ∷ 0xC0 ∷ 0xA8 ∷ 0 ∷ 0xC7 ∷ []

abbrev header_sum : ℕ
header_sum = 0xB861

sums : checksum (flat before ++ 0 ∷ 0 ∷ after) ≡ some header_sum
unfolding checksum sum_words fold_carries
sums = refl

header_bytes : AreBytes (flat before ++ 0 ∷ 0 ∷ after)
header_bytes = ground arith

checksum_verifies_example :
    checksum (flat before ++ header_sum / 2 ^ 8 ∷ header_sum % 2 ^ 8 ∷ after) ≡ some 0
checksum_verifies_example =
    checksum_verifies before after header_sum header_bytes (omega arith) sums

abbrev own_mac : Mac
own_mac = record { byte0 = 0x52; byte1 = 0x54; byte2 = 0; byte3 = 0x12; byte4 = 0x34; byte5 = 0x56 }

frames_verify_example :
    IsIpFrame zero_mac own_mac (echo_frame own_mac zero_mac)
    × IsIpFrame zero_mac own_mac (udp_frame own_mac zero_mac)
    × (checksum (drop 20 (ip_part (echo_frame own_mac zero_mac))) ≡ some 0)
    × (take 2 (drop 24 (ip_part (udp_frame own_mac zero_mac)))
        ≡ word16 (length (drop 20 (ip_part (udp_frame own_mac zero_mac)))))
frames_verify_example = frames_verify own_mac zero_mac

-- What the variables hold when the kernel starts.
abbrev cold : Net
cold = record {
  gateway_mac = zero_mac;
  gateway_mac_ready = false;
  pending_icmp = false;
  pending_udp = false;
  events = [];
}

abbrev reply_bytes : List ℕ
reply_bytes =
    mac_bytes own_mac
    ++ 0x52 ∷ 0x55 ∷ 10 ∷ 0 ∷ 2 ∷ 2 ∷ 0x08 ∷ 0x06 ∷ 0 ∷ 1 ∷ 0x08 ∷ 0 ∷ 6 ∷ 4 ∷ 0 ∷ 2 ∷ 0x52 ∷ 0x55
      ∷ 10 ∷ 0 ∷ 2 ∷ 2 ∷ gateway_ip
    ++ mac_bytes own_mac
    ++ local_ip

abbrev reply : Bytes
reply k = get_or reply_bytes k 0

reply-IsGatewayReply : IsGatewayReply reply 42
unfolding slice
reply-IsGatewayReply = record {
  whole = omega arith;
  ethernet_type = refl;
  opcode = refl;
  sender = refl;
  target = refl;
}

get_or-lt : (s : List ℕ) (k : ℕ) → AreBytes s → get_or s k 0 < 256
get_or-lt [] k h = omega arith
get_or-lt (a ∷ s) zero h = h.0
get_or-lt (a ∷ s) (suc k) h = get_or-lt s k h.1

run-IsQuiet_example :
    IsQuiet (run own_mac (ping ∷ receive reply 42 ∷ ping ∷ []) (init cold))
    × (count icmp (run own_mac (ping ∷ receive reply 42 ∷ ping ∷ []) (init cold)).events
          + bit (run own_mac (ping ∷ receive reply 42 ∷ ping ∷ []) (init cold)).pending_icmp
        ≤ pings (ping ∷ receive reply 42 ∷ ping ∷ []))
    × (count udp (run own_mac (ping ∷ receive reply 42 ∷ ping ∷ []) (init cold)).events
          + bit (run own_mac (ping ∷ receive reply 42 ∷ ping ∷ []) (init cold)).pending_udp
        ≤ tests (ping ∷ receive reply 42 ∷ ping ∷ []))
run-IsQuiet_example = run-IsQuiet own_mac (ping ∷ receive reply 42 ∷ ping ∷ []) cold refl

cold-IsQuiet : IsQuiet cold
cold-IsQuiet = record { quiet = λ known. (refl, refl) }

request_is_answered_example :
    (count icmp cold.events
      < count icmp
          (handle_packet own_mac reply 42
            (run own_mac (test ∷ []) (step own_mac ping cold))).events)
    × (count udp cold.events
        < count udp
            (handle_packet own_mac reply 42
              (run own_mac (test ∷ []) (step own_mac test cold))).events)
request_is_answered_example =
    request_is_answered own_mac cold (test ∷ []) reply 42 cold-IsQuiet reply-IsGatewayReply

handle_packet_learns_example :
    (IsGatewayReply reply 42
      → ((handle_packet own_mac reply 42 cold).gateway_mac_ready ≡ true)
        × ((handle_packet own_mac reply 42 cold).gateway_mac ≡ mac_at reply 22))
    × (¬ IsGatewayReply reply 42
        → ((handle_packet own_mac reply 42 cold).gateway_mac_ready ≡ cold.gateway_mac_ready)
          × ((handle_packet own_mac reply 42 cold).gateway_mac ≡ cold.gateway_mac))
handle_packet_learns_example =
    handle_packet_learns own_mac reply 42 cold (λ k. get_or-lt reply_bytes k (ground arith))

-- The reply with other bytes behind it.
abbrev followed : Bytes
followed k = if ltb k 42 then reply k else 0xAA

handle_packet-congr_example :
    handle_packet own_mac reply 42 cold ≡ handle_packet own_mac followed 42 cold
handle_packet-congr_example =
    handle_packet-congr own_mac reply followed 42 (λ k lt. ground arith) cold
