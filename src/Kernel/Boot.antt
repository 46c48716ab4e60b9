-- ===== src/Kernel/Boot.antt =====
-- src/kernel/main.c: _start up to its loop. What the boot loader answers is a parameter, and so is
-- the font file; `none` is a panic, which halts for ever.
use Prim.Native.Nat.{bit_or}
use wnu.Prelude.{
  ℕ, ◌+◌, ◌*◌, ◌/◌, ◌^◌, Bool, not, true, ◌||◌, Option, none, some, List, [], ◌∷◌, ◌++◌, ◌==◌,
  if◌then◌else◌,
}
use wnu.Mem.{Bytes}
use wnu.Str.{Str, codes}
use wnu.Libc.Printf.{printf, word}
use wnu.Console.{Console, bind, clear, write}
use wnu.Console.Draw.{Framebuffer, Font}
use wnu.Vfs
use wnu.Shell
use wnu.Net.Protocol
use wnu.Net.Protocol.{text_or_empty}
use wnu.Rtl8139.Poll
use wnu.Sata
use wnu.Arch
use wnu.Sata.{Bases}
use wnu.Kernel.{Machine, Kernel, polling, places, settle, do_events}

-- struct limine_framebuffer, less its address.
pub record LimineFramebuffer : Type 0 where
  pub width : ℕ
  pub height : ℕ
  pub pitch : ℕ
  pub bpp : ℕ
  pub red_mask_shift : ℕ
  pub green_mask_shift : ℕ
  pub blue_mask_shift : ℕ

-- The responses to the requests; `none` is a null pointer.
pub record Limine : Type 0 where
  pub base_revision_supported : Bool
  pub kernel_address : Option Bases
  pub framebuffers : Option (List LimineFramebuffer)

-- A field of struct psf2_header, lowest byte first.
unfoldable pub header_word : Bytes → ℕ → ℕ
header_word psf k =
    bit_or (bit_or (bit_or (psf k) (psf (k + 1) * 2 ^ 8)) (psf (k + 2) * 2 ^ 16))
      (psf (k + 3) * 2 ^ 24)

-- font_init
unfoldable pub font_init : Bytes → Option Font
font_init psf =
    if not (header_word psf 0 == 0x864ab572) || not (header_word psf 4 == 0)
    then none
    else some (record {
      bytes = λ k. psf (header_word psf 8 + k);
      width = header_word psf 28;
      height = header_word psf 24;
      glyph_size = header_word psf 20;
      glyph_count = header_word psf 16;
    })

-- framebuffer_init
abbrev pub framebuffer_init : Option (List LimineFramebuffer) → Option Framebuffer
framebuffer_init none = none
framebuffer_init (some []) = none
framebuffer_init (some (fb ∷ others)) = some (record {
  width = fb.width;
  height = fb.height;
  pitch = fb.pitch;
  bytes_per_pixel = fb.bpp / 8;
  red_shift = fb.red_mask_shift;
  green_shift = fb.green_mask_shift;
  blue_shift = fb.blue_mask_shift;
})

-- BANNER of config.h
unfoldable pub banner : Str
banner =
    codes "__        ___   _ _   _ \n"
    ++ (codes "\\ \\      / / \\ | | | | |\n"
        ++ (codes " \\ \\ /\\ / /|  \\| | | | |\n"
            ++ (codes "  \\ V  V / | |\\  | |_| |\n"
                ++ (codes "   \\_/\\_/  |_| \\_|\\___/ \n" ++ codes "\nWNU's Not Unix\n"))))

-- The two texts before wnu_shell_init.
unfoldable pub welcome : Console → Console
welcome s =
    write (write s banner) (text_or_empty (printf (codes "Test %d printf()\n") (word 1 ∷ [])))

module _ {D : Type 0} (m : Machine D) where
  -- wnu_console_bind, wnu_console_clear and wnu_vfs_init.
  unfoldable pub start_screen : Bases → Framebuffer → Font → Kernel D → Kernel D
  start_screen bases fb font k = record k {
    bases = bases;
    console = clear (bind k.console (some fb) (some font));
    shell = record k.shell { vfs = Vfs.init k.shell.vfs };
  }

  -- rtl8139_init
  unfoldable pub start_network_card : Kernel D → Kernel D
  start_network_card k = settle m (Poll.init m.ops (places m k.bases) m.space k.driver) k

  -- wnu_sata_init and net_init.
  unfoldable pub start_disks : Kernel D → Kernel D
  start_disks k =
      let (registry, text) =
        Sata.init m.block_read k.bases m.mmio_read32 m.space
          (record { devices = k.devices; vfs = k.shell.vfs }) in
      record k {
        devices = registry.devices;
        shell = record k.shell { vfs = registry.vfs };
        console = write k.console text;
        driver = record k.driver { net = Protocol.init k.driver.net };
      }

  -- The texts at the end, and wnu_shell_init.
  unfoldable pub greet : Kernel D → Kernel D
  greet k =
      do_events m (Shell.init k.shell) (record k { console = welcome k.console; phase = polling })

  -- wnu_arch_init and wnu_sti; wnu_keyboard_init is empty. What is written to the interrupt
  -- controllers has no part in this state.
  unfoldable pub start_interrupts : Kernel D → Kernel D
  start_interrupts k = record k {
    cpu = record (Arch.init m.irq1_stub m.idt_address k.cpu).0 { interrupts_on = true };
  }

  -- The calls between the requests and the loop, in their order.
  unfoldable pub start : Bases → Framebuffer → Font → Kernel D → Kernel D
  start bases fb font k =
      start_interrupts (greet (start_disks (start_network_card (start_screen bases fb font k))))

  abbrev pub with_all :
      Option Bases → Option Framebuffer → Option Font → Kernel D → Option (Kernel D)
  with_all none fb font k = none
  with_all (some bases) none font k = none
  with_all (some bases) (some fb) none k = none
  with_all (some bases) (some fb) (some font) k = some (start bases fb font k)

  -- _start up to the loop, from what the static variables held.
  unfoldable pub boot : Limine → Bytes → Kernel D → Option (Kernel D)
  boot limine psf k =
      if not limine.base_revision_supported
      then none
      else with_all limine.kernel_address (framebuffer_init limine.framebuffers) (font_init psf) k
