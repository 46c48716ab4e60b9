-- ===== src/Net/Protocol/Bounds.antt =====
-- net_handle_packet of src/network/net.c reads no byte behind the frame.
use Prim.Native.Nat.{bit_and, bit_or}
use wnu.Prelude.{
  ℕ, ◌+◌, ◌*◌, ◌%◌, ◌^◌, ◌<◌, ◌≤◌, ◌≡◌, refl, Bool, true, false, not, ◌&&◌, ◌==◌, ltb, leb,
  if◌then◌else◌, arith,
}
use wnu.Mem.{Bytes, slice, slice-congr}
use wnu.Net.Frames.{Mac, local_ip}
use wnu.Net.Protocol.{Net, handle_arp, handle_ipv4, handle_packet, ip_equal}

if-congr :
    {A : Type 0} (b : Bool) {x y z w : A}
    → (b ≡ true → x ≡ z)
    → (b ≡ false → y ≡ w)
    → (if b then x else y) ≡ (if b then z else w)
if-congr true f g = f refl
if-congr false f g = g refl

module _ (mac : Mac) (p q : Bytes) (len : ℕ) (same : (k : ℕ) → k < len → p k ≡ q k) where
  fields : (k n : ℕ) → k + n ≤ len → slice p k n ≡ slice q k n
  fields k n le = slice-congr p q k n (λ j lt. same j (omega arith))

  handle_arp-congr : (s : Net) → 42 ≤ len → handle_arp mac p s ≡ handle_arp mac q s
  unfolding handle_arp
  handle_arp-congr s le =
      rw
        (
          same 20 (omega arith),
          same 21 (omega arith),
          same 22 (omega arith),
          same 23 (omega arith),
          same 24 (omega arith),
          same 25 (omega arith),
          same 26 (omega arith),
          same 27 (omega arith),
          fields 28 4 (omega arith),
          fields 38 4 (omega arith),
        )
        refl

  handle_ipv4-congr : (s : Net) → handle_ipv4 mac p len s ≡ handle_ipv4 mac q len s
  unfolding handle_ipv4
  handle_ipv4-congr s =
      if-congr (ltb len (14 + 20)) (λ _. refl)
        λ long.
          rw (fields 30 4 (ground arith), same 14 (ground arith), same 23 (ground arith))
            (if-congr (not (ip_equal (slice q 30 4) local_ip)) (λ _. refl)
              λ _.
                if-congr (ltb len (14 + bit_and (q 14) 0x0f * 4 % 256)) (λ _. refl)
                  λ _.
                    if-congr (q 23 == 1)
                      (λ _.
                        if-congr (ltb len (14 + bit_and (q 14) 0x0f * 4 % 256 + 8)) (λ _. refl)
                          λ there.
                            rw (same (14 + bit_and (q 14) 0x0f * 4 % 256) (ground arith)) refl)
                      (λ _. refl))

  -- Two frames of the same length with the same bytes have the same effect, whatever stands behind
  -- them in memory.
  pub handle_packet-congr : (s : Net) → handle_packet mac p len s ≡ handle_packet mac q len s
  unfolding handle_packet
  handle_packet-congr s =
      if-congr (ltb len 14) (λ _. refl)
        λ long.
          rw (same 12 (ground arith), same 13 (ground arith))
            (if-congr (bit_or (q 12 * 2 ^ 8) (q 13) == 0x0806 && leb 42 len)
              (λ arp. handle_arp-congr s (ground arith))
              λ _.
                if-congr (not (bit_or (q 12 * 2 ^ 8) (q 13) == 0x0800)) (λ _. refl)
                  (λ _. handle_ipv4-congr s))
