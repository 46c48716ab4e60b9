-- ===== src/Rtl8139/Sends.antt =====
-- src/drivers/rtl8139.c: what rtl8139_send puts into the slots' buffers, and where the driver stands
-- after rtl8139_init.
use Prim.Native.Nat.{bit_and}
use wnu.Prelude.{
  ℕ, zero, suc, ◌+◌, ◌%◌, ◌^◌, ◌<◌, ◌≡◌, ◌≢◌, ◌⊎◌, refl, sym, ap, ◌∙◌, Bool, true, false, Option,
  none, some, List, ◌==◌, ltb, leb, if◌then◌else◌, length, get_or, for_upto, min, arith, Bool-cases,
  inl, inr,
}
use wnu.Mem.Stores.{stored_at}
use wnu.Mem.{Bytes, store}
use wnu.Pci.{Device, find_device, config_read32}
use wnu.Rtl8139.{
  Card, Places, Driver, send, start_send, fill_buffer, rounded_up, clipped, tx_buffer_size,
  rtl_read8, rtl_read32, rtl_write8, rtl_write16, rtl_write32,
}
use wnu.Rtl8139.Poll.{wait_reset, enable, start_chip, with_card, init}
use wnu.Rtl8139.Laws.{IsInRing}

-- The loop from the start of the buffer on.
stored :
    (f : ℕ → ℕ) (n : ℕ) (buf : Bytes) (k : ℕ)
    → for_upto n 0 (λ j. store j (f j)) buf k ≡ (if ltb k n then f k else buf k)
stored f n buf k =
    ap (λ b. for_upto n 0 b buf k) (λ i j. store (from_zero j i) (f j))
    ∙ stored_at f 0 n 0 buf k
    ∙ ground arith
  where
    from_zero : (j : ℕ) → j ≡ 0 + j
    from_zero j = omega arith

-- A byte of a slot's buffer with a frame in it: the frame's first 2048 bytes, and zeros up to the
-- 60th.
abbrev pub framed : List ℕ → Bytes → Bytes
framed frame old k =
    if ltb k (min (length frame) tx_buffer_size)
    then get_or frame k 0
    else if ltb k 60
    then 0
    else old k

fill_buffer_lem :
    (frame : List ℕ) (old : Bytes) (k : ℕ) → fill_buffer frame old k ≡ framed frame old k
unfolding fill_buffer
fill_buffer_lem frame old k =
    let len = clipped (length frame) in
    let cleared = for_upto (rounded_up len) 0 (λ i. store i 0) old in
    ground
      (arith, stored (λ i. get_or frame i 0) len cleared k, stored (λ _. 0) (rounded_up len) old k)

module _ {D : Type 0} (ops : Card D) (places : Places) where
  -- With the card there and the buffer's address below 4 GiB, rtl8139_send puts the frame's bytes,
  -- 2048 at most, into the next slot's buffer, fills up to 60 bytes with zeros, changes no other byte
  -- of the four buffers, and goes to the next slot in turn.
  pub send_fills :
      (frame : List ℕ) (s : Driver D)
      → s.io_base ≢ 0
      → places.tx s.tx_index < 2 ^ 32
      → ((slot k : ℕ)
          → (send ops places frame s).tx_buffers slot k ≡ (
              if slot == s.tx_index
              then framed frame (s.tx_buffers slot) k
              else s.tx_buffers slot k))
        × ((send ops places frame s).tx_index ≡ (s.tx_index + 1) % 4)
  unfolding send start_send rtl_read32 rtl_write32
  send_fills frame s there low =
      let a : (s.io_base == 0) ≡ false = ground arith in
      let b : leb (2 ^ 32) (places.tx s.tx_index) ≡ false = ground arith in
      rw (a, b)
        (
          λ slot k. elim (Bool-cases (slot == s.tx_index)) [
            | inl here ↦
                let same : slot ≡ s.tx_index = ground arith in
                rw here (
                  fill_buffer_lem frame (s.tx_buffers s.tx_index) k
                  ∙ ap (λ n. framed frame (s.tx_buffers n) k) (sym same))
            | inr elsewhere ↦ rw elsewhere refl
          ],
          refl,
        )

  -- The places of the two rings in a state, as in another one.
  record SamePlaces (s t : Driver D) : Type 0 where
    slot : t.tx_index ≡ s.tx_index
    offset : t.rx_offset ≡ s.rx_offset

  SamePlaces-wait_reset :
      (timeout : ℕ) (s : Driver D) → SamePlaces s (wait_reset ops places timeout s).1
  unfolding wait_reset rtl_read8
  SamePlaces-wait_reset zero s = record { slot = refl; offset = refl }
  SamePlaces-wait_reset (suc timeout) s =
      let t = (rtl_read8 ops 0x37 s).1 in
      let rest = SamePlaces-wait_reset timeout t in
      elim (Bool-cases (bit_and (rtl_read8 ops 0x37 s).0 0x10 == 0)) [
        | inl over ↦ rw over (record { slot = refl; offset = refl })
        | inr waits ↦ rw waits (record { slot = rest.slot; offset = rest.offset })
      ]

  -- The driver after its start: without a card, where it stood before, or at the start of both rings.
  pub record Stands (s t : Driver D) : Type 0 where
    pub stands :
        ((t.io_base ≡ 0) × (t.tx_index ≡ s.tx_index) × (t.rx_offset ≡ s.rx_offset))
        ⊎ ((t.tx_index ≡ 0) × (t.rx_offset ≡ 0))

  Stands-if :
      {s : Driver D} (b : Bool) (x y : Driver D)
      → Stands s x
      → Stands s y
      → Stands s (if b then x else y)
  Stands-if true x y h k = h
  Stands-if false x y h k = k

  Stands-start_chip : (s : Driver D) → Stands s (start_chip ops places s)
  unfolding start_chip enable rtl_write8 rtl_write16 rtl_write32
  Stands-start_chip s =
      let powered = rtl_write8 ops 0x52 0x00 s in
      let w = wait_reset ops places 1000000 (rtl_write8 ops 0x37 0x10 powered) in
      let p = SamePlaces-wait_reset 1000000 (rtl_write8 ops 0x37 0x10 powered) in
      Stands-if (w.0 == 0) _ _ (record { stands = inl (refl, p.slot, p.offset) })
        (Stands-if (leb (2 ^ 32) places.rx) _ _ (record { stands = inr (refl, refl) })
          (record { stands = inr (refl, refl) }))

  Stands-with_card :
      (dev : Option Device) (space : ℕ → ℕ) (s : Driver D)
      → Stands s (with_card ops places dev space s)
  Stands-with_card none space s = record { stands = inl (refl, refl, refl) }
  Stands-with_card (some dev) space s =
      Stands-if (bit_and (config_read32 space dev.bus dev.slot dev.func 0x10) 1 == 0) _ _
        (record { stands = inl (refl, refl, refl) })
        (record { stands = (Stands-start_chip _).stands })

  init-Stands : (space : ℕ → ℕ) (s : Driver D) → Stands s (init ops places space s)
  unfolding init
  init-Stands space s = record {
    stands = (Stands-with_card (find_device space 0x10ec 0x8139) space _).stands;
  }

  -- After rtl8139_init both places are in their rings, if they were before, whether a card was found
  -- and started or not.
  pub init-IsInRing :
      (space : ℕ → ℕ) (s : Driver D) → IsInRing s → IsInRing (init ops places space s)
  init-IsInRing space s ring = elim ((init-Stands space s).stands) [
    | inl h ↦ record {
      slot = omega (arith, h.1, ring.slot);
      offset = omega (arith, h.2, ring.offset);
      aligned = ap (λ o. o % 4) h.2 ∙ ring.aligned;
    }
    | inr h ↦ record {
      slot = omega (arith, h.0);
      offset = omega (arith, h.1);
      aligned = ap (λ o. o % 4) h.1;
    }
  ]
