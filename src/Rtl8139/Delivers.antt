-- ===== src/Rtl8139/Delivers.antt =====
-- src/drivers/rtl8139.c: rtl8139_poll gives the frames of the receive ring to the network.
use Prim.Native.Nat.{bit_and}
use wnu.Prelude.{
  ℕ, zero, suc, ◌+◌, ◌<◌, ◌≡◌, ◌≢◌, refl, ap, subst, ◌∙◌, Bool, true, false, not, ◌&&◌, Option,
  some, List, [], ◌∷◌, ◌==◌, leb, if◌then◌else◌, length, arith,
}
use wnu.Str.{codes}
use wnu.Libc.Printf.{word}
use wnu.Net.Frames.{Mac}
use wnu.Net.Protocol.{Net}
use wnu.Rtl8139.{Card, Places, Driver, rtl_read8, rtl_read16, say}
use wnu.Rtl8139.Poll.{poll_round, poll_loop, confirm_sent, poll, ring_size}
use wnu.Rtl8139.Ring.{
  behind, has_frames, FollowsRing, Same-trans, Same-still, Same-read8, Same-read16, Same-write_isr,
}
use wnu.Rtl8139.Rounds.{Goes-poll_round}
use wnu.Rtl8139.Receive.{receive, receive_all, fits_ring, behind_all, IsInStep, IsInStep-Same}

module _ {D : Type 0} (ops : Card D) (base : ℕ) (queue : D → List (List ℕ)) (place : D → ℕ)
    (sheet : FollowsRing ops base queue place) (places : Places) where
  -- The loop returns, with all frames delivered.
  pub record Delivers (frames : List (List ℕ)) (offset : ℕ) (mac : Mac) (net : Net)
      (o : Option (Driver D)) : Type 0 where
    pub state : Driver D
    pub returns : o ≡ some state
    pub step : IsInStep ops base queue place sheet places [] mac (receive_all mac frames net) state
    pub offset_now : state.rx_offset ≡ behind_all offset frames

  shows_frames :
      (s : Driver D)
      → s.io_base ≡ base
      → (bit_and (rtl_read8 ops 0x37 s).0 0x01 == 0) ≡ has_frames (queue s.card)
  unfolding rtl_read8
  shows_frames s same = rw same (sheet.empty s.card)

  Delivers-poll_loop :
      (frames : List (List ℕ)) (fuel : ℕ) (mac : Mac) (net : Net) (s : Driver D)
      → IsInStep ops base queue place sheet places frames mac net s
      → fits_ring s.rx_offset frames ≡ true
      → length frames < fuel
      → Delivers frames s.rx_offset mac net (poll_loop ops places fuel s)
  unfolding poll_loop
  Delivers-poll_loop frames zero mac net s h fits lt = absurd (omega arith)
  Delivers-poll_loop [] (suc fuel) mac net s h fits lt =
      let k = Same-read8 ops base queue place sheet 0x37 s in
      let e = shows_frames s h.based ∙ ap has_frames h.waits in
      record {
        state = (rtl_read8 ops 0x37 s).1;
        returns = rw e refl;
        step = IsInStep-Same ops base queue place sheet places k h;
        offset_now = k.offset;
      }
  Delivers-poll_loop (frame ∷ frames) (suc fuel) mac net s h fits lt =
      let t = (rtl_read8 ops 0x37 s).1 in
      let k = Same-read8 ops base queue place sheet 0x37 s in
      let e = shows_frames s h.based ∙ ap has_frames h.waits in
      let ok : ((leb (length frame + 4) 1600 ≡ true) × (leb 16 (behind s.rx_offset frame) ≡ true))
          × (fits_ring (behind s.rx_offset frame) frames ≡ true) =
        ((ground arith, ground arith), ground arith) in
      let r =
        Goes-poll_round ops base queue place sheet places frame frames mac net t
          (IsInStep-Same ops base queue place sheet places k h) (ground (arith, ok.0.0))
          (ground (arith, ok.0.1, k.offset)) in
      let moved : (poll_round ops places t).1.rx_offset ≡ behind s.rx_offset frame =
        r.offset ∙ ap (λ o. behind o frame) k.offset in
      let rest =
        Delivers-poll_loop frames fuel mac (receive mac frame net) (poll_round ops places t).1
          r.step (ap (λ o. fits_ring o frames) moved ∙ ok.1) (omega arith) in
      record {
        state = rest.state;
        returns = rw (e, r.more) rest.returns;
        step = rest.step;
        offset_now = rest.offset_now ∙ ap (λ o. behind_all o frames) moved;
      }

  Delivers-if :
      {frames : List (List ℕ)} {offset : ℕ} {mac : Mac} {net : Net} (b : Bool)
      (x y : Option (Driver D))
      → (b ≡ true → Delivers frames offset mac net x)
      → (b ≡ false → Delivers frames offset mac net y)
      → Delivers frames offset mac net (if b then x else y)
  Delivers-if true x y f g = f refl
  Delivers-if false x y f g = g refl

  -- Nothing waits.
  Delivers-nothing :
      (frames : List (List ℕ)) (offset : ℕ) (mac : Mac) (net : Net) (s : Driver D)
      → has_frames frames ≡ false
      → IsInStep ops base queue place sheet places frames mac net s
      → s.rx_offset ≡ offset
      → Delivers frames offset mac net (some s)
  Delivers-nothing [] offset mac net s e h o = record {
    state = s;
    returns = refl;
    step = h;
    offset_now = o;
  }
  Delivers-nothing (frame ∷ frames) offset mac net s e h o = absurd cc

  Delivers-confirm_sent :
      (frames : List (List ℕ)) (offset : ℕ) (mac : Mac) (net : Net) (isr : ℕ)
      (o : Option (Driver D))
      → Delivers frames offset mac net o
      → Delivers frames offset mac net (confirm_sent ops places isr o)
  Delivers-confirm_sent frames offset mac net isr o d =
      let k = Same-write_isr ops base queue place sheet 0x000C d.state d.step.based in
      rw d.returns (
        Delivers-if (bit_and isr 0x000C == 0) _ _
          (λ _. record {
            state = d.state;
            returns = refl;
            step = d.step;
            offset_now = d.offset_now;
          })
          (λ _. record {
            state = _;
            returns = refl;
            step = IsInStep-Same ops base queue place sheet places k d.step;
            offset_now = k.offset ∙ d.offset_now;
          }))

  -- All of it, with the place in the ring at the end.
  pub Delivers-poll :
      (fuel : ℕ) (s : Driver D)
      → base ≢ 0
      → s.io_base ≡ base
      → place s.card ≡ s.rx_offset
      → s.rx_offset < ring_size
      → fits_ring s.rx_offset (queue s.card) ≡ true
      → length (queue s.card) < fuel
      → Delivers (queue s.card) s.rx_offset s.mac s.net (poll ops places fuel s)
  unfolding poll
  Delivers-poll fuel s there same stands inside fits lt =
      let frames = queue s.card in
      let s1 = (rtl_read8 ops 0x37 s).1 in
      let s2 = (rtl_read16 ops 0x3E s1).1 in
      let s3 = (rtl_read16 ops 0x3A s2).1 in
      let k2 =
        Same-trans (Same-read8 ops base queue place sheet 0x37 s)
          (Same-read16 ops base queue place sheet 0x3E s1) in
      let k4 = Same-trans k2 (
        Same-trans (Same-read16 ops base queue place sheet 0x3A s2)
          (Same-read16 ops base queue place sheet 0x38 s3)) in
      let h : IsInStep ops base queue place sheet places frames s.mac s.net s = record {
        based = same;
        waits = refl;
        stands = stands;
        inside = inside;
        mac_is = refl;
        net_is = refl;
      } in
      let cmd = (rtl_read8 ops 0x37 s).0 in
      let isr = (rtl_read16 ops 0x3E s1).0 in
      let s4 = (rtl_read16 ops 0x38 s3).1 in
      let told = say s4 (codes "rtl8139: poll cmd=0x%x isr=0x%x cbr=0x%x capr=0x%x\n") (
        word cmd
        ∷ word isr
        ∷ word (rtl_read16 ops 0x3A s2).0
        ∷ word (rtl_read16 ops 0x38 s3).0
        ∷ []) in
      let shown : (bit_and cmd 0x01 == 0) ≡ has_frames frames = shows_frames s same in
      Delivers-if (s.io_base == 0) _ _ (λ absent. absurd (ground (arith, same, there)))
        λ _.
          Delivers-if (not (bit_and cmd 0x01 == 0) && (isr == 0)) _ _
            (λ idle.
              Delivers-nothing frames s.rx_offset s.mac s.net s2 (ground (arith, shown))
                (IsInStep-Same ops base queue place sheet places k2 h) k2.offset)
            (λ _. Delivers-confirm_sent frames s.rx_offset s.mac s.net isr _ (
              subst (λ o. Delivers frames o s.mac s.net (poll_loop ops places fuel told)) k4.offset
                (Delivers-poll_loop frames fuel s.mac s.net told
                  (IsInStep-Same ops base queue place sheet places
                    (Same-trans k4 (Same-still _ _ refl refl refl refl refl)) h)
                  (ap (λ o. fits_ring o frames) k4.offset ∙ fits) lt)))
