-- ===== src/Rtl8139/Rounds.antt =====
-- src/drivers/rtl8139.c: a round of rtl8139_poll's loop with a frame of the receive ring.
use Prim.Native.Nat.{bit_or}
use wnu.Prelude.{
  ℕ, ◌+◌, ◌-◌, ◌*◌, ◌^◌, ◌≤◌, ◌≡◌, refl, sym, ap, subst, ◌∙◌, Bool, true, false, ◌||◌, List, [],
  ◌∷◌, ltb, length, arith,
}
use wnu.Mem.{Bytes}
use wnu.Str.{codes}
use wnu.Libc.Printf.{word}
use wnu.Net.Frames.{Mac}
use wnu.Net.Protocol.{Net}
use wnu.Rtl8139.{Card, Places, Driver, rtl_write8, rtl_write16, say, hand_over}
use wnu.Rtl8139.Poll.{take_frame, poll_round, next_offset, capr_of}
use wnu.Rtl8139.Ring.{behind, IsAt, FollowsRing, Same, Same-still, Same-write_isr}
use wnu.Rtl8139.Receive.{receive, next_offset-eq-behind, IsInStep, IsInStep-Same, Same-hand_over}

module _ {D : Type 0} (ops : Card D) (base : ℕ) (queue : D → List (List ℕ)) (place : D → ℕ)
    (sheet : FollowsRing ops base queue place) (places : Places) where
  abbrev pub InStep : List (List ℕ) → Mac → Net → Driver D → Type 0
  InStep = IsInStep ops base queue place sheet places

  -- A write of CAPR frees the first frame.
  write_capr_frees :
      (v : ℕ) (s : Driver D) (frame : List ℕ) (frames : List (List ℕ))
      → s.io_base ≡ base
      → queue s.card ≡ frame ∷ frames
      → v + 16 ≡ behind (place s.card) frame
      → (queue (rtl_write16 ops 0x38 v s).card ≡ frames)
        × (place (rtl_write16 ops 0x38 v s).card ≡ v + 16)
  unfolding rtl_write16 rtl_write8
  write_capr_frees v s frame frames same q e = rw same (sheet.capr v s.card frame frames q e)

  -- A frame is taken: the network has it, and the driver and the card stand behind it.
  InStep-take_frame :
      (frame : List ℕ) (frames : List (List ℕ)) (mac : Mac) (net : Net) (s : Driver D)
      → InStep (frame ∷ frames) mac net s
      → length frame + 4 ≤ 1600
      → 16 ≤ behind s.rx_offset frame
      → InStep frames mac (receive mac frame net) (take_frame ops places (length frame + 4) s)
        × ((take_frame ops places (length frame + 4) s).rx_offset ≡ behind s.rx_offset frame)
  unfolding take_frame rtl_write16 rtl_write8
  InStep-take_frame frame frames mac net s h short far =
      let there : IsAt (ops.rx_buffer s.card) s.rx_offset frame =
        subst (λ o. IsAt (ops.rx_buffer s.card) o frame) h.stands
          (sheet.first s.card frame frames h.waits) in
      let packet : Bytes = λ k. ops.rx_buffer s.card (s.rx_offset + (4 + k)) in
      let handled = hand_over ops places packet (length frame + 4 - 4) s in
      let no_check_sum : length frame + 4 - 4 ≡ length frame = omega arith in
      let k : Same queue place (record s { net = receive s.mac frame s.net }) handled =
        rw no_check_sum
          (Same-hand_over ops base queue place sheet places packet frame s there.bytes) in
      let moved : Driver D = record handled {
        rx_offset = next_offset handled.rx_offset (length frame + 4);
      } in
      let off : moved.rx_offset ≡ behind s.rx_offset frame =
        ap (λ o. next_offset o (length frame + 4)) k.offset
        ∙ next_offset-eq-behind s.rx_offset frame h.inside short in
      let v = capr_of moved.rx_offset in
      let back : v + 16 ≡ moved.rx_offset = ground (arith, off) in
      let w =
        write_capr_frees v moved frame frames (k.base_kept ∙ h.based) (k.frames ∙ h.waits)
          (back ∙ off ∙ ap (λ o. behind o frame) (sym (k.at_place ∙ h.stands))) in
      let a =
        Same-write_isr ops base queue place sheet 0x0003 (rtl_write16 ops 0x38 v moved)
          (k.base_kept ∙ h.based) in
      (
        record {
          based = a.base_kept ∙ k.base_kept ∙ h.based;
          waits = a.frames ∙ w.0;
          stands = a.at_place ∙ w.1 ∙ back ∙ sym a.offset;
          inside = omega (arith, a.offset, off);
          mac_is = a.mac ∙ k.mac ∙ h.mac_is;
          net_is = a.net ∙ k.net ∙ λ i. receive (h.mac_is i) frame (h.net_is i);
        },
        a.offset ∙ off,
      )

  -- A round of the loop with a frame there.
  pub record Goes (frame : List ℕ) (frames : List (List ℕ)) (mac : Mac) (net : Net) (s : Driver D)
      (o : Bool × Driver D) : Type 0 where
    pub more : o.0 ≡ true
    pub step : InStep frames mac (receive mac frame net) o.1
    pub offset : o.1.rx_offset ≡ behind s.rx_offset frame

  pub Goes-poll_round :
      (frame : List ℕ) (frames : List (List ℕ)) (mac : Mac) (net : Net) (s : Driver D)
      → InStep (frame ∷ frames) mac net s
      → length frame + 4 ≤ 1600
      → 16 ≤ behind s.rx_offset frame
      → Goes frame frames mac net s (poll_round ops places s)
  unfolding poll_round
  Goes-poll_round frame frames mac net s h short far =
      let there : IsAt (ops.rx_buffer s.card) s.rx_offset frame =
        subst (λ o. IsAt (ops.rx_buffer s.card) o frame) h.stands
          (sheet.first s.card frame frames h.waits) in
      let ring = ops.rx_buffer s.card in
      let status = bit_or (ring (s.rx_offset + 0)) (ring (s.rx_offset + 1) * 2 ^ 8) in
      let len = bit_or (ring (s.rx_offset + 2)) (ring (s.rx_offset + 3) * 2 ^ 8) in
      let told =
        say s (codes "rtl8139: rx status=0x%x len=%u off=%u\n")
          (word status ∷ word len ∷ word s.rx_offset ∷ []) in
      let good : (ltb len 4 || ltb 1600 len) ≡ false = ground (arith, there.size) in
      let t : (InStep frames mac (receive mac frame net) (take_frame ops places len told))
          × ((take_frame ops places len told).rx_offset ≡ behind s.rx_offset frame) =
        subst
          (λ n.
            InStep frames mac (receive mac frame net) (take_frame ops places n told)
            × ((take_frame ops places n told).rx_offset ≡ behind s.rx_offset frame))
          (sym there.size)
          (InStep-take_frame frame frames mac net told
            (IsInStep-Same ops base queue place sheet places
              (Same-still s told refl refl refl refl refl) h)
            short far) in
      rw (there.status, good) (record { more = refl; step = t.0; offset = t.1 })
