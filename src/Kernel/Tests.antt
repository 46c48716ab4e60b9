-- ===== src/Kernel/Tests.antt =====
-- A machine with a font file, a small screen and a card with frames, and the witnesses of the
-- kernel's theorems.
use wnu.Prelude.{
  ℕ, ◌+◌, ◌-◌, ◌*◌, ◌^◌, ◌≡◌, refl, none, some, List, [], ◌∷◌, ◌++◌, false, true, Bool, ◌==◌,
  if◌then◌else◌, ltb, length, ◌⊎◌, replicate, arith,
}
use wnu.Mem.{Bytes, slice, store}
use wnu.Str.{codes}
use wnu.Vfs
use wnu.Vfs.{blank}
use wnu.Vfs.Path.{root}
use wnu.Vfs.Path.Parent.{root-IsValid}
use wnu.Vfs.Run.{init-IsWellFormed}
use wnu.Console.{Console, bind}
use wnu.Console.Draw.{Font}
use wnu.Console.Line.{typed}
use wnu.Console.Tests.{zeros, unbound, bound, bound-HasLine}
use wnu.Sata.{Bases}
use wnu.Arch.{Cpu, empty_gate}
use wnu.Shell.{Shell, execute}
use wnu.Fat32.{mounted, up_to_zero}
use wnu.Rtl8139.Laws.{IsInRing}
use wnu.Rtl8139.Tests.{RingCard, ring_card, ring_card-FollowsRing, ringing}
use wnu.Kernel.{Machine, Kernel, polling}
use wnu.Kernel.Boot.{LimineFramebuffer, header_word, font_init, framebuffer_init, boot}
use wnu.Kernel.Loop.{Turn, main, key, card, run}
use wnu.Kernel.Output.{IsHealthy}
use wnu.Kernel.Fed.{AreBrought, run_refines_terminal}
use wnu.Kernel.Runs.{StopsInPoll}
use wnu.Kernel.NoCard.{run_without_card}
use wnu.Kernel.Started.{IsStatic, CanDraw, answers, boot_then_run}
use wnu.Kernel.Terminal.{fresh_terminal, moves, terminal_of}
use wnu.Kernel.Calls.{pressed, enter}
use wnu.Keyboard.{key_of}
use wnu.Kernel.Typing.{typed_line_is_executed}

-- The network card at slot 0 of bus 0, with its ports from 0xC000 on.
abbrev space : ℕ → ℕ
space a =
    if a == 2 ^ 31
    then 0x813910ec
    else if a == 2 ^ 31 + 8
    then 0x02000000
    else if a == 2 ^ 31 + 0x10
    then 0xC001
    else if ltb a (2 ^ 31 + 256)
    then 0
    else 2 ^ 32 - 1

abbrev machine : Machine RingCard
machine = record {
  ops = ring_card;
  tx_virt = λ slot. 0x1000 + slot * 2048;
  rx_virt = 0x4000;
  irq1_stub = 0xFFFFFFFF80001230;
  idt_address = 0xFFFFFFFF80002000;
  space = space;
  mmio_read32 = λ a. 0;
  block_read = λ i sector buf count. (0, buf);
  fresh = zeros;
}

abbrev bases : Bases
bases = record { phys_base = 0x200000; virt_base = 0xffffffff80000000 }

abbrev cpu_with : Bool → Cpu
cpu_with interrupts = record {
  idt = λ k. empty_gate;
  idtr = record { limit = 0; base = 0 };
  interrupts_on = interrupts;
}

abbrev shell : Shell
shell = record { cwd = root; vfs = Vfs.init blank }

-- "pw" has been typed.
abbrev console : Console
console = record bound {
  input_buffer = store 0 b'p' (store 1 b'w' zeros);
  input_length = 2;
  line_ready = false;
}

abbrev kernel : Kernel RingCard
kernel = record {
  bases = bases;
  cpu = cpu_with true;
  console = console;
  shell = shell;
  devices = replicate 8 none;
  driver = ringing;
  log = [];
  line = [];
  phase = polling;
}

ringing-IsInRing : IsInRing ringing
ringing-IsInRing = record { slot = omega arith; offset = omega arith; aligned = refl }

kernel-IsHealthy : IsHealthy kernel
kernel-IsHealthy = record {
  shell = record { cwd = root-IsValid; vfs = init-IsWellFormed blank refl };
  line = record {
    ready = bound-HasLine.ready;
    on_screen = record {
      inside_x = bound-HasLine.on_screen.inside_x;
      inside_y = bound-HasLine.on_screen.inside_y;
      sound = bound-HasLine.on_screen.sound;
    };
    room = omega arith;
  };
  ring = ringing-IsInRing;
  interrupts = refl;
}

abbrev queue : RingCard → List (List ℕ)
queue d = d.frames

abbrev place : RingCard → ℕ
place d = d.start

abbrev fuel : RingCard → ℕ
fuel d = length (queue d) + 1

-- Frames that arrive.
abbrev bring : List (List ℕ) → RingCard → RingCard
bring new d = record d { frames = d.frames ++ new }

-- A frame of 60 bytes.
abbrev frame : List ℕ
frame = replicate 60 7

-- A key, a release and two frames come between the calls.
abbrev turns : List (Turn RingCard)
turns =
    main ∷ key 0x1e ∷ main ∷ card (bring (frame ∷ frame ∷ [])) ∷ main ∷ key 0x9e ∷ main ∷ main ∷ []

-- The third letter, and its release, and a frame between.
abbrev typing : List (Turn RingCard)
typing = main ∷ key 0x20 ∷ main ∷ card (bring (frame ∷ [])) ∷ key 0xA0 ∷ main ∷ []

types_pwd : pressed typing (typed kernel.console) ≡ record { text = codes "pwd"; done = false }
unfolding slice key_of
types_pwd = refl

-- The same, with no card found.
abbrev kernel_without_card : Kernel RingCard
kernel_without_card = record kernel { driver = record ringing { io_base = 0 } }

without_card-IsHealthy : IsHealthy kernel_without_card
without_card-IsHealthy = record {
  shell = kernel-IsHealthy.shell;
  line = kernel-IsHealthy.line;
  ring = record { slot = omega arith; offset = omega arith; aligned = refl };
  interrupts = refl;
}

run_without_card_example :
    (t : Kernel RingCard) × (run machine (λ d. 0) turns kernel_without_card ≡ some t)
    × IsHealthy t
    × (terminal_of t ≡ moves zeros (replicate 8 none) turns (terminal_of kernel_without_card))
run_without_card_example =
    run_without_card machine (λ d. 0) turns kernel_without_card without_card-IsHealthy refl

turns-AreBrought : AreBrought queue place turns (frame ∷ frame ∷ [])
turns-AreBrought = (frame ∷ frame ∷ [], [], refl, λ d. refl, λ d. refl, refl)

typing-AreBrought :
    AreBrought queue place (typing ++ key enter ∷ turns) (frame ∷ frame ∷ frame ∷ [])
typing-AreBrought = (frame ∷ [], frame ∷ frame ∷ [], refl, λ d. refl, λ d. refl, turns-AreBrought)

run_refines_terminal_example :
    (t : Kernel RingCard) × (run machine fuel turns kernel ≡ some t)
    × IsHealthy t
    × (terminal_of t ≡ moves zeros (replicate 8 none) turns (terminal_of kernel))
run_refines_terminal_example =
    run_refines_terminal machine 0xC000 queue place fuel ring_card-FollowsRing (λ d. omega arith)
      (omega arith) turns (frame ∷ frame ∷ []) kernel turns-AreBrought kernel-IsHealthy
      (record { based = refl; stands = refl; fits = refl })

typed_line_is_executed_example :
    (t : Kernel RingCard) × (run machine fuel (typing ++ key enter ∷ turns) kernel ≡ some t)
    × (t.shell ≡ (execute (mounted zeros (replicate 8 none)) shell (up_to_zero (codes "pwd"))).0)
typed_line_is_executed_example =
    typed_line_is_executed machine 0xC000 queue place fuel ring_card-FollowsRing (λ d. omega arith)
      (omega arith) typing turns (frame ∷ frame ∷ frame ∷ []) kernel (codes "pwd") typing-AreBrought
      kernel-IsHealthy (record { based = refl; stands = refl; fits = refl }) refl types_pwd refl

-- A font file with glyphs of 8 by 8 pixels behind a header of 32 bytes.
abbrev psf : Bytes
psf k =
    if k == 0
    then 0x72
    else if k == 1
    then 0xb5
    else if k == 2
    then 0x4a
    else if k == 3
    then 0x86
    else if k == 8
    then 32
    else if k == 16
    then 1
    else if k == 20
    then 8
    else if k == 24
    then 8
    else if k == 28
    then 8
    else 0

abbrev font : Font
font = record { bytes = λ k. psf (32 + k); width = 8; height = 8; glyph_size = 8; glyph_count = 1 }

psf_known : font_init psf ≡ some font
unfolding font_init header_word
psf_known = refl

-- A screen of 16 by 16 pixels of 32 bits.
abbrev screen : LimineFramebuffer
screen = record {
  width = 16;
  height = 16;
  pitch = 64;
  bpp = 32;
  red_mask_shift = 16;
  green_mask_shift = 8;
  blue_mask_shift = 0;
}

abbrev before_start : Kernel RingCard
before_start = record {
  bases = record { phys_base = 0; virt_base = 0 };
  cpu = cpu_with false;
  console = unbound;
  shell = record { cwd = root; vfs = blank };
  devices = replicate 8 none;
  driver = ringing;
  log = [];
  line = [];
  phase = polling;
}

before_start-IsStatic : IsStatic before_start
before_start-IsStatic = record { table = refl; cwd = refl; ring = ringing-IsInRing }

screen-CanDraw : CanDraw (bind unbound (framebuffer_init (some (screen ∷ []))) (some font))
unfolding bind
screen-CanDraw = record {
  ready = refl;
  sound = record { row_fits = omega arith; line_fits = omega arith; word = omega arith };
}

boot_then_run_example :
    (s : Kernel RingCard) × (boot machine (answers bases screen []) psf before_start ≡ some s)
    × IsHealthy s
    × (s.shell.cwd ≡ root)
    × (terminal_of s ≡ fresh_terminal s.shell [])
    × (((t : Kernel RingCard) × (run machine fuel turns s ≡ some t)
          × IsHealthy t
          × (terminal_of t ≡ moves zeros s.devices turns (terminal_of s)))
        ⊎ StopsInPoll machine fuel turns s)
boot_then_run_example =
    boot_then_run machine fuel bases screen [] psf font before_start turns psf_known
      before_start-IsStatic screen-CanDraw
