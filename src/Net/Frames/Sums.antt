-- ===== src/Net/Frames/Sums.antt =====
-- The checksums and lengths in the frames of src/network/net.c.
use wnu.Prelude.{ℕ, ◌≡◌, refl, some, List, [], ◌∷◌, ◌++◌, length, take, drop}
use wnu.Net.{checksum, sum_words, fold_carries}
use wnu.Net.Frames.{Mac, mac_bytes, echo_frame, udp_frame, ip_header, icmp_echo, word16}

abbrev pub ip_part : List ℕ → List ℕ
ip_part frame = drop 14 frame

-- An IPv4 frame between two stations: its total length is what follows the Ethernet header, and its
-- header's checksum is right.
pub record IsIpFrame (dst src : Mac) (frame : List ℕ) : Type 0 where
  addressed : take 12 frame ≡ mac_bytes dst ++ mac_bytes src
  ethernet_type : take 2 (drop 12 frame) ≡ 0x08 ∷ 0x00 ∷ []
  total_length : take 2 (drop 2 (ip_part frame)) ≡ word16 (length (ip_part frame))
  header_sum : checksum (take 20 (ip_part frame)) ≡ some 0

-- Whatever the two addresses are, the echo request and the UDP packet are sent between them, with
-- their lengths and checksums right: the checksums of the two IP headers and of the ICMP message
-- are 0, and the lengths in the IP headers and the UDP header are those of what the frame holds.
pub frames_verify :
    (local_mac gateway_mac : Mac)
    → IsIpFrame gateway_mac local_mac (echo_frame local_mac gateway_mac)
      × IsIpFrame gateway_mac local_mac (udp_frame local_mac gateway_mac)
      × (checksum (drop 20 (ip_part (echo_frame local_mac gateway_mac))) ≡ some 0)
      × (take 2 (drop 24 (ip_part (udp_frame local_mac gateway_mac)))
          ≡ word16 (length (drop 20 (ip_part (udp_frame local_mac gateway_mac)))))
unfolding echo_frame udp_frame ip_header icmp_echo checksum sum_words fold_carries
frames_verify local_mac gateway_mac = (
  record { addressed = refl; ethernet_type = refl; total_length = refl; header_sum = refl },
  record { addressed = refl; ethernet_type = refl; total_length = refl; header_sum = refl },
  refl,
  refl,
)
