-- ===== src/Rtl8139/Receive.antt =====
-- src/drivers/rtl8139.c and src/network/net.c: what the network makes of a frame of the ring, and
-- what its calls of the driver leave alone.
use wnu.Prelude.{
  ℕ, ◌+◌, ◌*◌, ◌^◌, ◌<◌, ◌≤◌, ◌≡◌, refl, sym, ◌∙◌, Bool, true, ◌&&◌, List, [], ◌∷◌, ◌++◌, ◌==◌, leb,
  if◌then◌else◌, length, get_or, arith,
}
use wnu.Mem.{Bytes}
use wnu.Net.Frames.{Mac}
use wnu.Net.Protocol.{Net, Event, sent, printed, serial, handle_packet}
use wnu.Net.Protocol.Bounds.{handle_packet-congr}
use wnu.Rtl8139.{
  Card, Places, Driver, rtl_read32, rtl_write32, send, start_send, perform, call_net, hand_over,
  fill_buffer, rounded_up, clipped,
}
use wnu.Rtl8139.Poll.{next_offset, ring_size}
use wnu.Rtl8139.Ring.{
  behind, FollowsRing, Same, Same-trans, Same-read32, Same-write32, Same-if, Same-still,
}

-- The network after a frame; what it sends and prints has been done.
abbrev pub receive : Mac → List ℕ → Net → Net
receive mac frame net =
    record (handle_packet mac (λ k. get_or frame k 0) (length frame) (record net { events = [] })) {
      events = [];
    }

abbrev pub receive_all : Mac → List (List ℕ) → Net → Net
receive_all mac [] net = net
receive_all mac (frame ∷ frames) net = receive_all mac frames (receive mac frame net)

-- Frames that the driver accepts, and whose places behind them are not in the ring's first 16
-- bytes.
abbrev pub fits_ring : ℕ → List (List ℕ) → Bool
fits_ring offset [] = true
fits_ring offset (frame ∷ frames) =
    let rest = fits_ring (behind offset frame) frames in
    leb (length frame + 4) 1600 && leb 16 (behind offset frame) && rest

-- The place behind frames, one after the other.
abbrev pub behind_all : ℕ → List (List ℕ) → ℕ
behind_all offset [] = offset
behind_all offset (frame ∷ frames) = behind_all (behind offset frame) frames

pub fits_ring-append :
    (offset : ℕ) (frames more : List (List ℕ))
    → fits_ring offset (frames ++ more)
      ≡ (fits_ring offset frames && fits_ring (behind_all offset frames) more)
fits_ring-append offset [] more = refl
fits_ring-append offset (frame ∷ frames) more =
    let rest = fits_ring-append (behind offset frame) frames more in ground (arith, rest)

pub next_offset-eq-behind :
    (offset : ℕ) (frame : List ℕ)
    → offset < ring_size
    → length frame + 4 ≤ 1600
    → next_offset offset (length frame + 4) ≡ behind offset frame
unfolding next_offset
next_offset-eq-behind offset frame lt le = ground arith

module _ {D : Type 0} (ops : Card D) (base : ℕ) (queue : D → List (List ℕ)) (place : D → ℕ)
    (sheet : FollowsRing ops base queue place) (places : Places) where
  abbrev Leaves : Driver D → Driver D → Type 0
  Leaves = Same queue place

  Same-start_send : (slot len : ℕ) (s : Driver D) → Leaves s (start_send ops places slot len s)
  unfolding start_send
  Same-start_send slot len s =
      let s1 = rtl_write32 ops (0x20 + slot * 4) (places.tx slot) s in
      let s2 = rtl_write32 ops (0x10 + slot * 4) len s1 in
      let k : Leaves s (rtl_read32 ops (0x10 + slot * 4) s2).1 =
        Same-trans (Same-write32 ops base queue place sheet (0x20 + slot * 4) (places.tx slot) s) (
          Same-trans (Same-write32 ops base queue place sheet (0x10 + slot * 4) len s1)
            (Same-read32 ops base queue place sheet (0x10 + slot * 4) s2)) in
      record {
        base_kept = k.base_kept;
        offset = k.offset;
        mac = k.mac;
        net = k.net;
        frames = k.frames;
        at_place = k.at_place;
      }

  Same-send : (frame : List ℕ) (s : Driver D) → Leaves s (send ops places frame s)
  unfolding send
  Same-send frame s =
      let filled : Driver D = record s {
        tx_buffers = λ k.
            if k == s.tx_index then fill_buffer frame (s.tx_buffers s.tx_index) else s.tx_buffers k;
      } in
      let still = Same-still s in
      Same-if (s.io_base == 0) _ _ (still s refl refl refl refl refl) (
        Same-if (leb (2 ^ 32) (places.tx s.tx_index)) _ _ (still _ refl refl refl refl refl) (
          Same-trans (still filled refl refl refl refl refl)
            (Same-start_send s.tx_index (rounded_up (clipped (length frame))) filled)))

  pub Same-perform : (events : List Event) (s : Driver D) → Leaves s (perform ops places events s)
  unfolding perform
  Same-perform [] s = Same-still s s refl refl refl refl refl
  Same-perform (sent frame ∷ events) s =
      Same-trans (Same-perform events s) (Same-send frame (perform ops places events s))
  Same-perform (printed text ∷ events) s =
      Same-trans (Same-perform events s)
        (Same-still (perform ops places events s) _ refl refl refl refl refl)
  Same-perform (serial text ∷ events) s =
      Same-trans (Same-perform events s)
        (Same-still (perform ops places events s) _ refl refl refl refl refl)

  -- A driver that stands where the card's first frame is.
  pub record IsInStep (frames : List (List ℕ)) (mac : Mac) (net : Net) (s : Driver D) : Type 0 where
    pub based : s.io_base ≡ base
    pub waits : queue s.card ≡ frames
    pub stands : place s.card ≡ s.rx_offset
    pub inside : s.rx_offset < ring_size
    pub mac_is : s.mac ≡ mac
    pub net_is : s.net ≡ net

  pub IsInStep-Same :
      {frames : List (List ℕ)} {mac : Mac} {net : Net} {s t : Driver D}
      → Leaves s t
      → IsInStep frames mac net s
      → IsInStep frames mac net t
  IsInStep-Same k h = record {
    based = k.base_kept ∙ h.based;
    waits = k.frames ∙ h.waits;
    stands = k.at_place ∙ h.stands ∙ sym k.offset;
    inside = omega (arith, k.offset, h.inside);
    mac_is = k.mac ∙ h.mac_is;
    net_is = k.net ∙ h.net_is;
  }

  -- The network gets the frame's bytes, and its calls leave the ring alone.
  pub Same-hand_over :
      (packet : Bytes) (frame : List ℕ) (s : Driver D)
      → ((k : ℕ) → k < length frame → packet k ≡ get_or frame k 0)
      → Leaves
          (record s { net = receive s.mac frame s.net })
          (hand_over ops places packet (length frame) s)
  unfolding hand_over call_net
  Same-hand_over packet frame s bytes =
      let net = handle_packet s.mac packet (length frame) (record s.net { events = [] }) in
      let k = Same-perform net.events (record s { net = record net { events = [] } }) in
      let same =
        handle_packet-congr s.mac packet (λ j. get_or frame j 0) (length frame) bytes
          (record s.net { events = [] }) in
      record {
        base_kept = k.base_kept;
        offset = k.offset;
        mac = k.mac;
        net = k.net ∙ λ i. record (same i) { events = [] };
        frames = k.frames;
        at_place = k.at_place;
      }
