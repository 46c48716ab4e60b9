-- ===== src/Rtl8139/Laws.antt =====
-- src/drivers/rtl8139.c: the places in the rings stay in range, whatever the card does.
use Prim.Native.Nat.{bit_and, bit_or}
use wnu.Prelude.{
  ℕ, zero, suc, ◌+◌, ◌-◌, ◌*◌, ◌%◌, ◌^◌, ◌<◌, ◌≤◌, ◌≡◌, refl, ap, ◌∙◌, Bool, true, false, not, ◌&&◌,
  ◌||◌, Option, none, some, List, [], ◌∷◌, ◌==◌, ltb, if◌then◌else◌, arith,
}
use wnu.Mem.{Bytes}
use wnu.Str.{Str, codes}
use wnu.Libc.Printf.{Arg, word}
use wnu.Rtl8139.{Card, Places, Driver, rtl_read8, rtl_read16, rtl_write16, say, hand_over}
use wnu.Rtl8139.Kept.{Kept, Kept-write16, Kept-read8, Kept-read16, Kept-hand_over, Kept-trans}
use wnu.Rtl8139.Poll.{
  give_up, take_frame, poll_round, poll_loop, confirm_sent, poll, next_offset, ring_size, capr_of,
}

-- The next free slot, and the place in the receive ring.
pub record IsInRing {D : Type 0} (s : Driver D) : Type 0 where
  pub slot : s.tx_index < 4
  pub offset : s.rx_offset < ring_size
  pub aligned : s.rx_offset % 4 ≡ 0

next_offset_lem :
    (offset len : ℕ)
    → offset < ring_size
    → len ≤ 1600
    → (next_offset offset len < ring_size) × (next_offset offset len % 4 ≡ 0)
unfolding next_offset
next_offset_lem offset len lt le = (ground arith, ground arith)

pub IsInRing-Kept : {D : Type 0} {s t : Driver D} → Kept s t → IsInRing s → IsInRing t
IsInRing-Kept k ring = record {
  slot = k.slot ring.slot;
  offset = omega (arith, k.offset, ring.offset);
  aligned = ap (λ o. o % 4) k.offset ∙ ring.aligned;
}

-- A state in the ring, if there is one.
abbrev pub AllInRing : {D : Type 0} → Option (Driver D) → Type 0
AllInRing none = Unit
AllInRing (some s) = IsInRing s

module _ {D : Type 0} (ops : Card D) (places : Places) where
  IsInRing-take_frame :
      (len : ℕ) (s : Driver D) → IsInRing s → len ≤ 1600 → IsInRing (take_frame ops places len s)
  unfolding take_frame
  IsInRing-take_frame len s ring le =
      let packet : Bytes = λ k. ops.rx_buffer s.card (s.rx_offset + (4 + k)) in
      let handled = hand_over ops places packet (len - 4) s in
      let k = Kept-hand_over ops places packet (len - 4) s in
      let moved : Driver D = record handled { rx_offset = next_offset handled.rx_offset len } in
      let place = next_offset_lem handled.rx_offset len (omega (arith, k.offset, ring.offset)) le in
      let capr = capr_of moved.rx_offset in
      let w = Kept-write16 ops 0x38 capr moved in
      let v = Kept-write16 ops 0x3E 0x0003 (rtl_write16 ops 0x38 capr moved) in
      record {
        slot = v.slot (w.slot (k.slot ring.slot));
        offset = omega (arith, v.offset, w.offset, place.0);
        aligned = ap (λ o. o % 4) (v.offset ∙ w.offset) ∙ place.1;
      }

  IsInRing-give_up :
      (message text : Str) (args : List Arg) (s : Driver D)
      → IsInRing s
      → IsInRing (give_up ops places message (say s text args))
  unfolding give_up
  IsInRing-give_up message text args s ring =
      IsInRing-Kept (Kept-write16 ops 0x3E 0x0002 (say (say s text args) message []))
        (record { slot = ring.slot; offset = ring.offset; aligned = ring.aligned })

  IsInRing-if :
      (b : Bool) (x y : Bool × Driver D)
      → (b ≡ true → IsInRing x.1)
      → (b ≡ false → IsInRing y.1)
      → IsInRing (if b then x else y).1
  IsInRing-if true x y f g = f refl
  IsInRing-if false x y f g = g refl

  IsInRing-poll_round : (s : Driver D) → IsInRing s → IsInRing (poll_round ops places s).1
  unfolding poll_round
  IsInRing-poll_round s ring =
      let at : Bytes = λ k. ops.rx_buffer s.card (s.rx_offset + k) in
      let status = bit_or (at 0) (at 1 * 2 ^ 8) in
      let len = bit_or (at 2) (at 3 * 2 ^ 8) in
      IsInRing-if (bit_and status 0x0001 == 0) _ _ (λ _. IsInRing-give_up _ _ _ s ring)
        λ _.
          IsInRing-if (ltb len 4 || ltb 1600 len) _ _ (λ _. IsInRing-give_up _ _ _ s ring)
            λ good.
              IsInRing-take_frame len
                (say s (codes "rtl8139: rx status=0x%x len=%u off=%u\n")
                  (word status ∷ word len ∷ word s.rx_offset ∷ []))
                (record { slot = ring.slot; offset = ring.offset; aligned = ring.aligned })
                (ground arith)

  AllInRing-if :
      (b : Bool) (x y : Option (Driver D))
      → AllInRing x
      → AllInRing y
      → AllInRing (if b then x else y)
  AllInRing-if true x y h k = h
  AllInRing-if false x y h k = k

  AllInRing-poll_loop :
      (fuel : ℕ) (s : Driver D) → IsInRing s → AllInRing (poll_loop ops places fuel s)
  unfolding poll_loop
  AllInRing-poll_loop zero s ring = tt
  AllInRing-poll_loop (suc fuel) s ring =
      let t = (rtl_read8 ops 0x37 s).1 in
      let tested = IsInRing-Kept (Kept-read8 ops 0x37 s) ring in
      let u = poll_round ops places t in
      let round = IsInRing-poll_round t tested in
      AllInRing-if (bit_and (rtl_read8 ops 0x37 s).0 0x01 == 0)
        (if u.0 then poll_loop ops places fuel u.1 else some u.1) (some t)
        (AllInRing-if u.0 _ (some u.1) (AllInRing-poll_loop fuel u.1 round) round) tested

  AllInRing-confirm_sent :
      (isr : ℕ) (o : Option (Driver D)) → AllInRing o → AllInRing (confirm_sent ops places isr o)
  AllInRing-confirm_sent isr none h = tt
  AllInRing-confirm_sent isr (some s) h =
      AllInRing-if (bit_and isr 0x000C == 0) (some s) (some _) h
        (IsInRing-Kept (Kept-write16 ops 0x3E 0x000C s) h)

  -- Where rtl8139_poll returns, with any card, the next slot is one of the four and the next place a
  -- multiple of 4 in the ring, if they were before.
  pub AllInRing-poll : (fuel : ℕ) (s : Driver D) → IsInRing s → AllInRing (poll ops places fuel s)
  unfolding poll
  AllInRing-poll fuel s ring =
      let s1 = (rtl_read8 ops 0x37 s).1 in
      let s2 = (rtl_read16 ops 0x3E s1).1 in
      let s3 = (rtl_read16 ops 0x3A s2).1 in
      let cmd = (rtl_read8 ops 0x37 s).0 in
      let isr = (rtl_read16 ops 0x3E s1).0 in
      let ring2 =
        IsInRing-Kept (Kept-trans (Kept-read8 ops 0x37 s) (Kept-read16 ops 0x3E s1)) ring in
      let ring4 =
        IsInRing-Kept (Kept-trans (Kept-read16 ops 0x3A s2) (Kept-read16 ops 0x38 s3)) ring2 in
      AllInRing-if (s.io_base == 0) (some s) _ ring (
        AllInRing-if (not (bit_and cmd 0x01 == 0) && (isr == 0)) (some s2) _ ring2 (
          AllInRing-confirm_sent isr _ (
            AllInRing-poll_loop fuel _
              (record { slot = ring4.slot; offset = ring4.offset; aligned = ring4.aligned }))))
