-- ===== src/Rtl8139/Tests.antt =====
-- A card with a few frames, and the witnesses of the driver's theorems.
use Prim.Native.Nat.{bit_and}
use wnu.Prelude.{
  ℕ, ◌+◌, ◌-◌, ◌*◌, ◌/◌, ◌%◌, ◌^◌, ◌≡◌, refl, ap, ◌∙◌, Bool, true, false, List, [], ◌∷◌, ◌==◌,
  if◌then◌else◌, arith, length, get_or, replicate,
}
use wnu.Bits.{bit_or-shifted_right}
use wnu.Mem.{Bytes}
use wnu.Rtl8139.Ring.{behind, has_frames, IsAt, SameRing, FollowsRing}
use wnu.Net.Frames.{zero_mac}
use wnu.Net.Protocol.{Net}
use wnu.Rtl8139.{Card, Places, Driver, send}
use wnu.Rtl8139.Poll.{init}
use wnu.Rtl8139.Laws.{IsInRing}
use wnu.Rtl8139.Sends.{framed, send_fills, init-IsInRing}

abbrev pub base : ℕ
base = 0xC000

-- A card that counts.
abbrev card : Card ℕ
card = record {
  inb = λ p d. (if p == 0xC037 then if d == 0 then 1 else 0 else 0, d);
  inl = λ p d. (0, d);
  outb = λ p v d. if p == 0xC039 then d - 1 else d;
  outl = λ p v d. d;
  rx_buffer = λ d k. if k % 68 == 0 then 1 else if k % 68 == 2 then 64 else 0;
}

abbrev places : Places
places = record { tx = λ slot. 0x100000; rx_virt = 0x200000; rx = 0x200000 }

abbrev pub idle : Net
idle = record {
  gateway_mac = zero_mac;
  gateway_mac_ready = false;
  pending_icmp = false;
  pending_udp = false;
  events = [];
}

abbrev driver : Driver ℕ
driver = record {
  io_base = base;
  tx_buffers = λ slot k. 0;
  mac = zero_mac;
  tx_index = 3;
  rx_offset = 8188;
  net = idle;
  card = 3;
  texts = [];
}

driver-IsInRing : IsInRing driver
driver-IsInRing = record { slot = omega arith; offset = omega arith; aligned = refl }

send_fills_example :
    ((slot k : ℕ)
      → (send card places (1 ∷ 2 ∷ []) driver).tx_buffers slot k
        ≡ (if slot == 3 then framed (1 ∷ 2 ∷ []) (λ j. 0) k else 0))
    × ((send card places (1 ∷ 2 ∷ []) driver).tx_index ≡ 0)
send_fills_example = send_fills card places (1 ∷ 2 ∷ []) driver (omega arith) (omega arith)

-- No PCI function answers.
init-IsInRing_example : IsInRing (init card places (λ a. 2 ^ 32 - 1) driver)
init-IsInRing_example = init-IsInRing card places (λ a. 2 ^ 32 - 1) driver driver-IsInRing

-- A card with a ring: the frames that wait, the place of the first one, and CAPR's low byte.
pub record RingCard : Type 0 where
  pub frames : List (List ℕ)
  pub start : ℕ
  pub low : ℕ

-- The first frame with its header.
abbrev pub laid_out : List (List ℕ) → ℕ → Bytes
laid_out [] start k = 0
laid_out (frame ∷ frames) start k =
    if k == start
    then 1
    else if k == start + 1
    then 0
    else if k == start + 2
    then (length frame + 4) % 256
    else if k == start + 3
    then (length frame + 4) / 256
    else get_or frame (k - (start + 4)) 0

abbrev pub advance : ℕ → List (List ℕ) → RingCard → RingCard
advance next [] d = d
advance next (frame ∷ frames) d =
    if next == behind d.start frame then record d { frames = frames; start = next } else d

abbrev pub ring_card : Card RingCard
ring_card = record {
  inb = λ p d. (if has_frames d.frames then 0 else 1, d);
  inl = λ p d. (0, d);
  outb = λ p v d.
      if p == 0xC038
      then record d { low = v }
      else if p == 0xC039
      then advance (d.low + v * 2 ^ 8 + 16) d.frames d
      else d;
  outl = λ p v d. d;
  rx_buffer = λ d. laid_out d.frames d.start;
}

laid_out-IsAt :
    (frame : List ℕ) (frames : List (List ℕ)) (start : ℕ)
    → IsAt (laid_out (frame ∷ frames) start) start frame
laid_out-IsAt frame frames start =
    let ring = laid_out (frame ∷ frames) start in
    let n = length frame + 4 in
    let e0 : ring (start + 0) ≡ 1 = ground arith in
    let e1 : ring (start + 1) ≡ 0 = ground arith in
    let e2 : ring (start + 2) ≡ n % 256 = ground arith in
    let e3 : ring (start + 3) ≡ n / 256 = ground arith in
    record {
      status = rw (e0, e1) refl;
      size = rw (e2, e3) (bit_or-shifted_right 8 (n / 256) (n % 256) (omega arith) ∙ omega arith);
      bytes = λ k lt.
          let i : start + (4 + k) - (start + 4) ≡ k = omega arith in
          ground (arith, ap (λ j. get_or frame j 0) i);
    }

same_ring : (d : RingCard) → SameRing (λ (e : RingCard). e.frames) (λ (e : RingCard). e.start) d d
same_ring d = record { frames = refl; at_place = refl }

pub ring_card-FollowsRing :
    FollowsRing ring_card base (λ (d : RingCard). d.frames) (λ (d : RingCard). d.start)
ring_card-FollowsRing = record {
  inb = λ p d. same_ring d;
  inl = λ p d. same_ring d;
  outl = λ p v d. same_ring d;
  isr_low = λ v d. same_ring d;
  isr_high = λ v d. same_ring d;
  empty = λ d. shown (has_frames d.frames);
  first = λ d frame frames e. rw e (laid_out-IsAt frame frames d.start);
  capr = λ v d frame frames e next. freed v d frame frames e next;
}
  where
    shown : (b : Bool) → (bit_and (if b then 0 else 1) 0x01 == 0) ≡ b
    shown true = refl
    shown false = refl

    freed :
        (v : ℕ) (d : RingCard) (frame : List ℕ) (frames : List (List ℕ))
        → d.frames ≡ frame ∷ frames
        → v + 16 ≡ behind d.start frame
        → ((advance
              (v % 256 + v / 2 ^ 8 % 256 * 2 ^ 8 + 16)
              d.frames
              (record d { low = v % 256 })).frames
            ≡ frames)
          × ((advance
                (v % 256 + v / 2 ^ 8 % 256 * 2 ^ 8 + 16)
                d.frames
                (record d { low = v % 256 })).start
              ≡ v + 16)
    freed v d frame frames e next =
        let whole : v % 256 + v / 2 ^ 8 % 256 * 2 ^ 8 + 16 ≡ v + 16 = omega (arith, next) in
        let test : (v + 16 == behind d.start frame) ≡ true = ground (arith, next) in
        rw (e, whole, test) (refl, refl)

-- Two frames wait, the first one too short for the network.
abbrev pub ringing : Driver RingCard
ringing = record {
  io_base = base;
  tx_buffers = λ slot k. 0;
  mac = zero_mac;
  tx_index = 0;
  rx_offset = 64;
  net = idle;
  card = record { frames = (1 ∷ 2 ∷ 3 ∷ []) ∷ replicate 60 0 ∷ []; start = 64; low = 0 };
  texts = [];
}
