-- ===== src/Net/Frames.antt =====
-- The frames that src/network/net.c builds, as the bytes in their order.
pub mod Sums
use wnu.Prelude.{
  ℕ, zero, suc, ◌+◌, ◌/◌, ◌%◌, ◌*◌, ◌^◌, Option, none, some, List, [], ◌∷◌, ◌++◌, length,
}
use wnu.Str.{codes}
use wnu.Net.{checksum}

-- An Ethernet address.
pub record Mac : Type 0 where
  pub byte0 : ℕ
  pub byte1 : ℕ
  pub byte2 : ℕ
  pub byte3 : ℕ
  pub byte4 : ℕ
  pub byte5 : ℕ

abbrev pub mac_bytes : Mac → List ℕ
mac_bytes m = m.byte0 ∷ m.byte1 ∷ m.byte2 ∷ m.byte3 ∷ m.byte4 ∷ m.byte5 ∷ []

abbrev pub local_ip : List ℕ
local_ip = 10 ∷ 0 ∷ 2 ∷ 15 ∷ []

abbrev pub gateway_ip : List ℕ
gateway_ip = 10 ∷ 0 ∷ 2 ∷ 2 ∷ []

-- A 16-bit number, its high byte first.
abbrev pub word16 : ℕ → List ℕ
word16 n = n / 2 ^ 8 % 256 ∷ n % 256 ∷ []

abbrev pub eth_header : Mac → Mac → ℕ → List ℕ
eth_header dst src eth_type = mac_bytes dst ++ mac_bytes src ++ word16 eth_type

-- The first case does not arise: Net.Checksum.
abbrev pub sum_or_zero : Option ℕ → ℕ
sum_or_zero none = 0
sum_or_zero (some sum) = sum

-- The checksum put between two parts, computed with zeros in its place.
abbrev pub with_checksum : List ℕ → List ℕ → List ℕ
with_checksum before after =
    before ++ word16 (sum_or_zero (checksum (before ++ 0 ∷ 0 ∷ after))) ++ after

unfoldable pub ip_header : ℕ → ℕ → ℕ → List ℕ
ip_header total_len identification protocol =
    with_checksum
      (0x45 ∷ 0x00 ∷ word16 total_len ++ word16 identification ++ 0x00 ∷ 0x00 ∷ 64 ∷ protocol ∷ [])
      (local_ip ++ gateway_ip)

-- The bytes k, k + 1, and so on.
abbrev pub numbers : ℕ → ℕ → List ℕ
numbers k zero = []
numbers k (suc n) = k % 256 ∷ numbers (k + 1) n

unfoldable pub icmp_echo : List ℕ
icmp_echo = with_checksum (8 ∷ 0 ∷ []) (0x00 ∷ 0x01 ∷ 0x00 ∷ 0x01 ∷ numbers 0 32)

unfoldable pub echo_frame : Mac → Mac → List ℕ
echo_frame local_mac gateway_mac =
    eth_header gateway_mac local_mac 0x0800 ++ ip_header (20 + 8 + 32) 0x1234 1 ++ icmp_echo

abbrev pub message : List ℕ
message = codes "hello from WNU\n"

unfoldable pub udp_frame : Mac → Mac → List ℕ
udp_frame local_mac gateway_mac =
    let udp_len = 8 + length message in
    eth_header gateway_mac local_mac 0x0800
    ++ ip_header (20 + udp_len) 0xabcd 17
    ++ word16 4444
    ++ word16 5555
    ++ word16 udp_len
    ++ 0 ∷ 0 ∷ message

abbrev pub broadcast : Mac
broadcast = record {
  byte0 = 0xff;
  byte1 = 0xff;
  byte2 = 0xff;
  byte3 = 0xff;
  byte4 = 0xff;
  byte5 = 0xff;
}

abbrev pub zero_mac : Mac
zero_mac = record { byte0 = 0; byte1 = 0; byte2 = 0; byte3 = 0; byte4 = 0; byte5 = 0 }

unfoldable pub arp_request_frame : Mac → List ℕ
arp_request_frame local_mac =
    eth_header broadcast local_mac 0x0806
    ++ word16 1
    ++ word16 0x0800
    ++ 6 ∷ 4 ∷ word16 1
    ++ mac_bytes local_mac
    ++ local_ip
    ++ mac_bytes zero_mac
    ++ gateway_ip
