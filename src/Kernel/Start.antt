-- ===== src/Kernel/Start.antt =====
-- src/kernel/main.c: the kernel boots when the boot loader gives what it asks for, and panics else.
use wnu.Prelude.{
  ◌≡◌, ◌↔◌, refl, Bool, true, false, not, ◌||◌, Option, none, some, List, [], ◌∷◌, ◌==◌, arith,
  Bool-cases, inl, inr,
}
use wnu.Mem.{Bytes}
use wnu.Sata.{Bases}
use wnu.Console.Draw.{Font}
use wnu.Kernel.{Machine, Kernel}
use wnu.Kernel.Boot.{
  LimineFramebuffer, Limine, header_word, font_init, framebuffer_init, with_all, boot,
}

-- What _start needs: the boot protocol's revision, the kernel's address, a framebuffer, and a font
-- file of the format PSF 2.
pub record CanBoot (limine : Limine) (psf : Bytes) : Type 0 where
  pub revision : limine.base_revision_supported ≡ true
  pub bases : Bases
  pub address : limine.kernel_address ≡ some bases
  pub first : LimineFramebuffer
  pub others : List LimineFramebuffer
  pub framebuffer : limine.framebuffers ≡ some (first ∷ others)
  pub magic : header_word psf 0 ≡ 0x864ab572
  pub version : header_word psf 4 ≡ 0

-- The tests of font_init.
known_font :
    (psf : Bytes) (font : Font)
    → font_init psf ≡ some font
    → (header_word psf 0 ≡ 0x864ab572) × (header_word psf 4 ≡ 0)
unfolding font_init
known_font psf font e =
    elim (Bool-cases (not (header_word psf 0 == 0x864ab572) || not (header_word psf 4 == 0))) [
      | inl bad ↦ absurd ground arith
      | inr good ↦ (ground arith, ground arith)
    ]

module _ {D : Type 0} (m : Machine D) where
  boots :
      (limine : Limine) (psf : Bytes) (k : Kernel D)
      → CanBoot limine psf
      → (t : Kernel D) × (boot m limine psf k ≡ some t)
  unfolding boot font_init
  boots limine psf k c =
      let a : (header_word psf 0 == 0x864ab572) ≡ true = ground (arith, c.magic) in
      let b : (header_word psf 4 == 0) ≡ true = ground (arith, c.version) in
      rw (c.revision, c.address, c.framebuffer, a, b) (_, refl)

  needs :
      (revision : Bool) (address : Option Bases) (fbs : Option (List LimineFramebuffer))
      (psf : Bytes) (k t : Kernel D)
      → boot m
          (record {
            base_revision_supported = revision;
            kernel_address = address;
            framebuffers = fbs;
          })
          psf
          k
        ≡ some t
      → CanBoot
          (record {
            base_revision_supported = revision;
            kernel_address = address;
            framebuffers = fbs;
          })
          psf
  unfolding boot
  needs false address fbs psf k t e = absurd cc
  needs true none fbs psf k t e = absurd cc
  needs true (some bases) none psf k t e = absurd cc
  needs true (some bases) (some []) psf k t e = absurd cc
  needs true (some bases) (some (fb ∷ others)) psf k t e = go (font_init psf) refl e
    where
      go :
          (o : Option Font)
          → font_init psf ≡ o
          → with_all m (some bases) (framebuffer_init (some (fb ∷ others))) o k ≡ some t
          → CanBoot
              (record {
                base_revision_supported = true;
                kernel_address = some bases;
                framebuffers = some (fb ∷ others);
              })
              psf
      go none same h = absurd cc
      go (some font) same h = record {
        revision = refl;
        bases = bases;
        address = refl;
        first = fb;
        others = others;
        framebuffer = refl;
        magic = (known_font psf font same).0;
        version = (known_font psf font same).1;
      }

  -- _start reaches its loop exactly if the boot loader supports the protocol's revision and gives
  -- the kernel's address and a framebuffer, and the font file has the magic number and the version
  -- of PSF 2; it panics otherwise.
  pub boot_returns_iff :
      (limine : Limine) (psf : Bytes) (k : Kernel D)
      → (((t : Kernel D) × (boot m limine psf k ≡ some t)) ↔ CanBoot limine psf)
  boot_returns_iff limine psf k = (
    λ h.
        needs limine.base_revision_supported limine.kernel_address limine.framebuffers psf k h.0
          h.1,
    boots limine psf k,
  )
