-- ===== src/Rtl8139.antt =====
-- src/drivers/rtl8139.c: the network card's driver, with net_handle_packet of src/network/net.c
-- called for each frame.
-- The card is a parameter: what its ports answer, how it changes, and the receive ring that it
-- writes in memory. A frame is read from the ring when net_handle_packet is called.
pub mod Poll
pub mod Kept
pub mod Laws
pub mod Sends
pub mod Ring
pub mod Receive
pub mod Rounds
pub mod Delivers
pub mod Tests
use Prim.Native.Nat.{bit_or}
use wnu.Prelude.{
  ℕ, zero, suc, ◌+◌, ◌*◌, ◌/◌, ◌%◌, ◌^◌, Bool, true, false, not, ◌&&◌, Option, none, some, List, [],
  ◌∷◌, ◌==◌, ltb, leb, if◌then◌else◌, length, get_or, for_upto,
}
use wnu.Mem.{Bytes, store}
use wnu.Str.{Str, codes}
use wnu.Libc.Printf.{Arg, printf, word}
use wnu.Net.Frames.{Mac}
use wnu.Net.Protocol.{Net, Event, sent, printed, serial, handle_packet, text_or_empty}
use wnu.Pci.{Device, find_device, config_read32}

-- A card whose state is a `D`: its ports, by number, and the receive ring.
pub record Card (D : Type 0) : Type 0 where
  pub inb : ℕ → D → ℕ × D
  pub inl : ℕ → D → ℕ × D
  pub outb : ℕ → ℕ → D → D
  pub outl : ℕ → ℕ → D → D
  pub rx_buffer : D → Bytes

-- The physical addresses of the buffers, which wnu_virt_to_phys gives.
pub record Places : Type 0 where
  pub tx : ℕ → ℕ
  pub rx_virt : ℕ
  pub rx : ℕ

-- The static variables, those of the network and the card; and the texts written, the last first.
pub record Driver (D : Type 0) : Type 0 where
  pub io_base : ℕ
  pub tx_buffers : ℕ → Bytes
  pub mac : Mac
  pub tx_index : ℕ
  pub rx_offset : ℕ
  pub net : Net
  pub card : D
  pub texts : List Event

abbrev pub tx_buffer_size : ℕ
tx_buffer_size = 2048

module _ {D : Type 0} (ops : Card D) where
  abbrev pub port : Driver D → ℕ → ℕ
  port s reg = (s.io_base + reg) % 2 ^ 16

  unfoldable pub rtl_read8 : ℕ → Driver D → ℕ × Driver D
  rtl_read8 reg s = let (v, card) = ops.inb (port s reg) s.card in (v, record s { card = card })

  unfoldable pub rtl_read16 : ℕ → Driver D → ℕ × Driver D
  rtl_read16 reg s =
      let (low, s1) = rtl_read8 reg s in
      let (high, s2) = rtl_read8 (reg + 1) s1 in (bit_or low (high * 2 ^ 8), s2)

  unfoldable pub rtl_read32 : ℕ → Driver D → ℕ × Driver D
  rtl_read32 reg s = let (v, card) = ops.inl (port s reg) s.card in (v, record s { card = card })

  unfoldable pub rtl_write8 : ℕ → ℕ → Driver D → Driver D
  rtl_write8 reg value s = record s { card = ops.outb (port s reg) value s.card }

  unfoldable pub rtl_write16 : ℕ → ℕ → Driver D → Driver D
  rtl_write16 reg value s =
      rtl_write8 (reg + 1) (value / 2 ^ 8 % 256) (rtl_write8 reg (value % 256) s)

  unfoldable pub rtl_write32 : ℕ → ℕ → Driver D → Driver D
  rtl_write32 reg value s = record s { card = ops.outl (port s reg) value s.card }

-- A text of printf.
abbrev pub say : {D : Type 0} → Driver D → Str → List Arg → Driver D
say s format args = record s { texts = printed (text_or_empty (printf format args)) ∷ s.texts }

abbrev pub rounded_up : ℕ → ℕ
rounded_up len = if ltb len 60 then 60 else len

abbrev pub clipped : ℕ → ℕ
clipped len = if ltb tx_buffer_size len then tx_buffer_size else len

-- The slot's buffer with the frame in it.
unfoldable pub fill_buffer : List ℕ → Bytes → Bytes
fill_buffer frame buf =
    let len = clipped (length frame) in
    for_upto len 0 (λ i. store i (get_or frame i 0))
      (for_upto (rounded_up len) 0 (λ i. store i 0) buf)

module _ {D : Type 0} (ops : Card D) (places : Places) where
  -- The registers written for a slot, and the status read.
  unfoldable pub start_send : ℕ → ℕ → Driver D → Driver D
  start_send slot tx_len s =
      let s1 = rtl_write32 ops (0x20 + slot * 4) (places.tx slot) s in
      let s2 = rtl_write32 ops (0x10 + slot * 4) tx_len s1 in
      let (status, s3) = rtl_read32 ops (0x10 + slot * 4) s2 in
      let s4 =
        say s3 (codes "rtl8139: send len=%u tx=%u phys=0x%x status=0x%x\n")
          (word tx_len ∷ word slot ∷ word (places.tx slot) ∷ word status ∷ []) in
      record s4 {
        texts = serial (codes "rtl8139: send\n") ∷ s4.texts;
        tx_index = (s4.tx_index + 1) % 4;
      }

  unfoldable pub send : List ℕ → Driver D → Driver D
  send frame s =
      let slot = s.tx_index in
      let filled : Driver D = record s {
        tx_buffers =
            λ k. if k == slot then fill_buffer frame (s.tx_buffers slot) else s.tx_buffers k;
      } in
      if s.io_base == 0
      then s
      else if leb (2 ^ 32) (places.tx slot)
      then say filled (codes "rtl8139: tx buffer above 4GiB\n") []
      else start_send slot (rounded_up (clipped (length frame))) filled

  -- The calls that the network makes, the first one last in the list.
  unfoldable pub perform : List Event → Driver D → Driver D
  perform [] s = s
  perform (sent frame ∷ events) s = send frame (perform events s)
  perform (printed text ∷ events) s =
      let t = perform events s in record t { texts = printed text ∷ t.texts }
  perform (serial text ∷ events) s =
      let t = perform events s in record t { texts = serial text ∷ t.texts }

  -- A call of the network, with the frames that it sends.
  unfoldable pub call_net : (Net → Net) → Driver D → Driver D
  call_net call s =
      let net = call (record s.net { events = [] }) in
      perform net.events (record s { net = record net { events = [] } })

  -- net_handle_packet
  unfoldable pub hand_over : Bytes → ℕ → Driver D → Driver D
  hand_over packet len s = call_net (handle_packet s.mac packet len) s
