-- ===== src/Rtl8139/Ring.antt =====
-- The receive ring of the network card that src/drivers/rtl8139.c drives, as the card's data sheet
-- describes it, and what the driver's calls leave of it alone.
use Prim.Native.Nat.{bit_and, bit_or}
use wnu.Prelude.{
  ℕ, ◌+◌, ◌*◌, ◌/◌, ◌%◌, ◌^◌, ◌<◌, ◌≡◌, refl, ap, ◌∙◌, Bool, true, false, List, [], ◌∷◌, ◌==◌,
  if◌then◌else◌, length, get_or,
}
use wnu.Mem.{Bytes}
use wnu.Rtl8139.{
  Card, Driver, rtl_read8, rtl_read16, rtl_read32, rtl_write8, rtl_write16, rtl_write32,
}

-- The place behind a frame: header, frame and check sum, up to a multiple of 4, in a ring of 8 KiB.
abbrev pub behind : ℕ → List ℕ → ℕ
behind offset frame = (offset + (length frame + 4) + 4 + 3) / 4 * 4 % 8192

-- A good frame in the ring: its status, its length with the check sum, and its bytes.
pub record IsAt (ring : Bytes) (offset : ℕ) (frame : List ℕ) : Type 0 where
  pub status :
      (bit_and (bit_or (ring (offset + 0)) (ring (offset + 1) * 2 ^ 8)) 0x0001 == 0) ≡ false
  pub size : bit_or (ring (offset + 2)) (ring (offset + 3) * 2 ^ 8) ≡ length frame + 4
  pub bytes : (k : ℕ) → k < length frame → ring (offset + (4 + k)) ≡ get_or frame k 0

abbrev pub has_frames : List (List ℕ) → Bool
has_frames [] = false
has_frames (frame ∷ frames) = true

-- The frames that wait in a card and the place of the first one, as in another state.
pub record SameRing {D : Type 0} (queue : D → List (List ℕ)) (place : D → ℕ) (d e : D)
    : Type 0 where
  pub frames : queue e ≡ queue d
  pub at_place : place e ≡ place d

-- The data sheet, for a card in which the frames `queue d` wait, the first one at `place d`: the
-- command register shows an empty ring, the first frame stands at its place, writing CAPR with the
-- place behind it less 16 frees it, and the other registers that the driver uses leave the ring
-- alone.
pub record FollowsRing {D : Type 0} (ops : Card D) (base : ℕ) (queue : D → List (List ℕ))
    (place : D → ℕ) : Type 0 where
  pub inb : (p : ℕ) (d : D) → SameRing queue place d (ops.inb p d).1
  pub inl : (p : ℕ) (d : D) → SameRing queue place d (ops.inl p d).1
  pub outl : (p v : ℕ) (d : D) → SameRing queue place d (ops.outl p v d)
  pub isr_low : (v : ℕ) (d : D) → SameRing queue place d (ops.outb ((base + 0x3E) % 2 ^ 16) v d)
  pub isr_high : (v : ℕ) (d : D) → SameRing queue place d (ops.outb ((base + 0x3F) % 2 ^ 16) v d)
  pub empty :
      (d : D) → (bit_and (ops.inb ((base + 0x37) % 2 ^ 16) d).0 0x01 == 0) ≡ has_frames (queue d)
  pub first :
      (d : D) (frame : List ℕ) (frames : List (List ℕ))
      → queue d ≡ frame ∷ frames
      → IsAt (ops.rx_buffer d) (place d) frame
  pub capr :
      (v : ℕ) (d : D) (frame : List ℕ) (frames : List (List ℕ))
      → queue d ≡ frame ∷ frames
      → v + 16 ≡ behind (place d) frame
      → (queue (
            ops.outb
              ((base + 0x39) % 2 ^ 16)
              (v / 2 ^ 8 % 256)
              (ops.outb ((base + 0x38) % 2 ^ 16) (v % 256) d))
          ≡ frames)
        × (place (
              ops.outb
                ((base + 0x39) % 2 ^ 16)
                (v / 2 ^ 8 % 256)
                (ops.outb ((base + 0x38) % 2 ^ 16) (v % 256) d))
            ≡ v + 16)

-- What the driver's calls that receive nothing leave alone.
pub record Same {D : Type 0} (queue : D → List (List ℕ)) (place : D → ℕ) (s t : Driver D)
    : Type 0 where
  pub base_kept : t.io_base ≡ s.io_base
  pub offset : t.rx_offset ≡ s.rx_offset
  pub mac : t.mac ≡ s.mac
  pub net : t.net ≡ s.net
  pub frames : queue t.card ≡ queue s.card
  pub at_place : place t.card ≡ place s.card

module _ {D : Type 0} {queue : D → List (List ℕ)} {place : D → ℕ} where
  pub Same-trans :
      {s t u : Driver D} → Same queue place s t → Same queue place t u → Same queue place s u
  Same-trans a b = record {
    base_kept = b.base_kept ∙ a.base_kept;
    offset = b.offset ∙ a.offset;
    mac = b.mac ∙ a.mac;
    net = b.net ∙ a.net;
    frames = b.frames ∙ a.frames;
    at_place = b.at_place ∙ a.at_place;
  }

  -- A change of the card alone.
  Same-card :
      (s : Driver D) (card : D)
      → SameRing queue place s.card card
      → Same queue place s (record s { card = card })
  Same-card s card r = record {
    base_kept = refl;
    offset = refl;
    mac = refl;
    net = refl;
    frames = r.frames;
    at_place = r.at_place;
  }

  pub Same-if :
      {s : Driver D} (b : Bool) (x y : Driver D)
      → Same queue place s x
      → Same queue place s y
      → Same queue place s (if b then x else y)
  Same-if true x y h k = h
  Same-if false x y h k = k

  -- A change of what the record does not name.
  pub Same-still :
      (s t : Driver D)
      → t.io_base ≡ s.io_base
      → t.rx_offset ≡ s.rx_offset
      → t.mac ≡ s.mac
      → t.net ≡ s.net
      → t.card ≡ s.card
      → Same queue place s t
  Same-still s t b o m n c = record {
    base_kept = b;
    offset = o;
    mac = m;
    net = n;
    frames = ap queue c;
    at_place = ap place c;
  }

module _ {D : Type 0} (ops : Card D) (base : ℕ) (queue : D → List (List ℕ)) (place : D → ℕ)
    (sheet : FollowsRing ops base queue place) where
  pub Same-read8 : (reg : ℕ) (s : Driver D) → Same queue place s (rtl_read8 ops reg s).1
  unfolding rtl_read8
  Same-read8 reg s = Same-card s _ (sheet.inb _ s.card)

  pub Same-read16 : (reg : ℕ) (s : Driver D) → Same queue place s (rtl_read16 ops reg s).1
  unfolding rtl_read16
  Same-read16 reg s = Same-trans (Same-read8 reg s) (Same-read8 (reg + 1) (rtl_read8 ops reg s).1)

  pub Same-read32 : (reg : ℕ) (s : Driver D) → Same queue place s (rtl_read32 ops reg s).1
  unfolding rtl_read32
  Same-read32 reg s = Same-card s _ (sheet.inl _ s.card)

  pub Same-write32 : (reg v : ℕ) (s : Driver D) → Same queue place s (rtl_write32 ops reg v s)
  unfolding rtl_write32
  Same-write32 reg v s = Same-card s _ (sheet.outl _ _ s.card)

  -- The interrupt status register.
  pub Same-write_isr :
      (v : ℕ) (s : Driver D) → s.io_base ≡ base → Same queue place s (rtl_write16 ops 0x3E v s)
  unfolding rtl_write16 rtl_write8
  Same-write_isr v s same =
      let low = rtl_write8 ops 0x3E (v % 256) s in
      Same-trans (Same-card s _ (at_low (v % 256) s.card)) (
        Same-card (record s { card = ops.outb ((s.io_base + 0x3E) % 2 ^ 16) (v % 256) s.card }) _
          (at_high (v / 2 ^ 8 % 256) _))
    where
      at_low : (w : ℕ) (d : D) → SameRing queue place d (ops.outb ((s.io_base + 0x3E) % 2 ^ 16) w d)
      at_low w d = rw same (sheet.isr_low w d)

      at_high :
          (w : ℕ) (d : D) → SameRing queue place d (ops.outb ((s.io_base + 0x3F) % 2 ^ 16) w d)
      at_high w d = rw same (sheet.isr_high w d)
