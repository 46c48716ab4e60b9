-- ===== src/Rtl8139/Kept.antt =====
-- What the functions of src/drivers/rtl8139.c that send and reach the ports leave alone.
use wnu.Prelude.{
  ℕ, ◌+◌, ◌*◌, ◌/◌, ◌%◌, ◌^◌, ◌<◌, ◌≡◌, refl, ◌∙◌, Bool, true, false, List, [], ◌∷◌, ◌==◌, leb,
  if◌then◌else◌, arith, length,
}
use wnu.Mem.{Bytes}
use wnu.Net.Protocol.{Net, Event, sent, printed, serial, handle_packet}
use wnu.Rtl8139.{
  Card, Places, Driver, rtl_read8, rtl_read16, rtl_read32, rtl_write8, rtl_write16, rtl_write32,
  send, start_send, perform, call_net, hand_over, fill_buffer, rounded_up, clipped,
}

-- What every access keeps.
pub record Kept {D : Type 0} (s t : Driver D) : Type 0 where
  pub base_kept : t.io_base ≡ s.io_base
  pub offset : t.rx_offset ≡ s.rx_offset
  pub slot : s.tx_index < 4 → t.tx_index < 4

module _ {D : Type 0} where
  pub Kept-trans : {s t u : Driver D} → Kept s t → Kept t u → Kept s u
  Kept-trans a b = record {
    base_kept = b.base_kept ∙ a.base_kept;
    offset = b.offset ∙ a.offset;
    slot = λ lt. b.slot (a.slot lt);
  }

  -- A step that leaves the card and the places alone.
  pub Kept-still :
      (s t : Driver D)
      → t.io_base ≡ s.io_base
      → t.rx_offset ≡ s.rx_offset
      → t.tx_index ≡ s.tx_index
      → Kept s t
  Kept-still s t b o i = record { base_kept = b; offset = o; slot = λ lt. omega (arith, i) }

  pub Kept-if :
      {s : Driver D} (b : Bool) (x y : Driver D) → Kept s x → Kept s y → Kept s (if b then x else y)
  Kept-if true x y h k = h
  Kept-if false x y h k = k

module _ {D : Type 0} (ops : Card D) where
  pub Kept-read8 : (reg : ℕ) (s : Driver D) → Kept s (rtl_read8 ops reg s).1
  unfolding rtl_read8
  Kept-read8 reg s = record { base_kept = refl; offset = refl; slot = λ lt. lt }

  pub Kept-read16 : (reg : ℕ) (s : Driver D) → Kept s (rtl_read16 ops reg s).1
  unfolding rtl_read16
  Kept-read16 reg s = Kept-trans (Kept-read8 reg s) (Kept-read8 (reg + 1) (rtl_read8 ops reg s).1)

  pub Kept-read32 : (reg : ℕ) (s : Driver D) → Kept s (rtl_read32 ops reg s).1
  unfolding rtl_read32
  Kept-read32 reg s = record { base_kept = refl; offset = refl; slot = λ lt. lt }

  pub Kept-write8 : (reg v : ℕ) (s : Driver D) → Kept s (rtl_write8 ops reg v s)
  unfolding rtl_write8
  Kept-write8 reg v s = record { base_kept = refl; offset = refl; slot = λ lt. lt }

  pub Kept-write16 : (reg v : ℕ) (s : Driver D) → Kept s (rtl_write16 ops reg v s)
  unfolding rtl_write16
  Kept-write16 reg v s =
      Kept-trans (Kept-write8 reg (v % 256) s)
        (Kept-write8 (reg + 1) (v / 2 ^ 8 % 256) (rtl_write8 ops reg (v % 256) s))

  pub Kept-write32 : (reg v : ℕ) (s : Driver D) → Kept s (rtl_write32 ops reg v s)
  unfolding rtl_write32
  Kept-write32 reg v s = record { base_kept = refl; offset = refl; slot = λ lt. lt }

  module _ (places : Places) where
    Kept-start_send : (slot len : ℕ) (s : Driver D) → Kept s (start_send ops places slot len s)
    unfolding start_send
    Kept-start_send slot len s =
        let s1 = rtl_write32 ops (0x20 + slot * 4) (places.tx slot) s in
        let s2 = rtl_write32 ops (0x10 + slot * 4) len s1 in
        let k : Kept s (rtl_read32 ops (0x10 + slot * 4) s2).1 =
          Kept-trans (Kept-write32 (0x20 + slot * 4) (places.tx slot) s) (
            Kept-trans (Kept-write32 (0x10 + slot * 4) len s1)
              (Kept-read32 (0x10 + slot * 4) s2)) in
        record { base_kept = k.base_kept; offset = k.offset; slot = λ lt. omega arith }

    Kept-send : (frame : List ℕ) (s : Driver D) → Kept s (send ops places frame s)
    unfolding send
    Kept-send frame s =
        let filled : Driver D = record s {
          tx_buffers = λ k.
              if k == s.tx_index
              then fill_buffer frame (s.tx_buffers s.tx_index)
              else s.tx_buffers k;
        } in
        Kept-if (s.io_base == 0) _ _ (Kept-still s s refl refl refl) (
          Kept-if (leb (2 ^ 32) (places.tx s.tx_index)) _ _ (Kept-still s _ refl refl refl) (
            Kept-trans (Kept-still s filled refl refl refl)
              (Kept-start_send s.tx_index (rounded_up (clipped (length frame))) filled)))

    Kept-perform : (events : List Event) (s : Driver D) → Kept s (perform ops places events s)
    unfolding perform
    Kept-perform [] s = Kept-still s s refl refl refl
    Kept-perform (sent frame ∷ events) s =
        Kept-trans (Kept-perform events s) (Kept-send frame (perform ops places events s))
    Kept-perform (printed text ∷ events) s =
        Kept-trans (Kept-perform events s)
          (Kept-still (perform ops places events s) _ refl refl refl)
    Kept-perform (serial text ∷ events) s =
        Kept-trans (Kept-perform events s)
          (Kept-still (perform ops places events s) _ refl refl refl)

    pub Kept-call_net : (call : Net → Net) (s : Driver D) → Kept s (call_net ops places call s)
    unfolding call_net
    Kept-call_net call s =
        let net = call (record s.net { events = [] }) in
        Kept-trans (Kept-still s (record s { net = record net { events = [] } }) refl refl refl)
          (Kept-perform net.events (record s { net = record net { events = [] } }))

    pub Kept-hand_over :
        (packet : Bytes) (len : ℕ) (s : Driver D) → Kept s (hand_over ops places packet len s)
    unfolding hand_over
    Kept-hand_over packet len s = Kept-call_net (handle_packet s.mac packet len) s
