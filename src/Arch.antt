-- ===== src/Arch.antt =====
-- src/arch/arch.c: the interrupt descriptor table, the interrupt controllers, and the keyboard's
-- interrupt. What is written to ports is a list, in order; wnu_io_wait writes 0 to port 0x80.
pub mod Laws
mod Tests
use wnu.Prelude.{
  ℕ, Bool, true, false, ◌*◌, ◌/◌, ◌%◌, ◌^◌, List, [], ◌∷◌, ◌++◌, ◌==◌, ◌-◌, leb, if◌then◌else◌,
  for_upto,
}
use wnu.Console.{Console}
use wnu.Keyboard.{handle_scancode}

-- struct idt_entry
pub record Gate : Type 0 where
  pub offset_low : ℕ
  pub selector : ℕ
  pub ist : ℕ
  pub type_attr : ℕ
  pub offset_mid : ℕ
  pub offset_high : ℕ
  pub zero_word : ℕ

abbrev pub kernel_cs : ℕ
kernel_cs = 0x28

-- A write of a byte to a port.
pub record Write : Type 0 where
  pub port : ℕ
  pub value : ℕ

abbrev pub outb : ℕ → ℕ → Write
outb port value = record { port = port; value = value }

abbrev pub io_wait : Write
io_wait = outb 0x80 0

unfoldable pub pic_send_eoi : ℕ → List Write
pic_send_eoi irq = (if leb 8 irq then outb 0xA0 0x20 ∷ [] else []) ++ outb 0x20 0x20 ∷ []

-- The masks: every line but line 1 of the first controller.
abbrev pub master_mask : ℕ
master_mask = 0xFF - 2 ^ 1

abbrev pub slave_mask : ℕ
slave_mask = 0xFF

unfoldable pub pic_remap_keyboard_only : List Write
pic_remap_keyboard_only =
    outb 0x21 0xFF
    ∷ outb 0xA1 0xFF
    ∷ outb 0x20 0x11
    ∷ io_wait
    ∷ outb 0xA0 0x11
    ∷ io_wait
    ∷ outb 0x21 0x20
    ∷ io_wait
    ∷ outb 0xA1 0x28
    ∷ io_wait
    ∷ outb 0x21 0x04
    ∷ io_wait
    ∷ outb 0xA1 0x02
    ∷ io_wait
    ∷ outb 0x21 0x01
    ∷ io_wait
    ∷ outb 0xA1 0x01
    ∷ io_wait
    ∷ outb 0x21 master_mask
    ∷ outb 0xA1 slave_mask
    ∷ []

abbrev pub empty_gate : Gate
empty_gate = record {
  offset_low = 0;
  selector = 0;
  ist = 0;
  type_attr = 0;
  offset_mid = 0;
  offset_high = 0;
  zero_word = 0;
}

unfoldable pub set_idt_entry : ℕ → ℕ → (ℕ → Gate) → ℕ → Gate
set_idt_entry vector address idt k =
    if k == vector
    then record {
      offset_low = address % 2 ^ 16;
      selector = kernel_cs;
      ist = 0;
      type_attr = 0x8E;
      offset_mid = address / 2 ^ 16 % 2 ^ 16;
      offset_high = address / 2 ^ 32 % 2 ^ 32;
      zero_word = 0;
    }
    else idt k

-- The table after wnu_arch_init; `irq1_stub` is the address of the assembly routine.
unfoldable pub init_idt : ℕ → (ℕ → Gate) → ℕ → Gate
init_idt irq1_stub idt =
    set_idt_entry 0x21 irq1_stub
      (for_upto 256 0 (λ i table k. if k == i then empty_gate else table k) idt)

-- struct idt_ptr
pub record IdtPtr : Type 0 where
  pub limit : ℕ
  pub base : ℕ

-- The table, what lidt has loaded, and the interrupt flag.
pub record Cpu : Type 0 where
  pub idt : ℕ → Gate
  pub idtr : IdtPtr
  pub interrupts_on : Bool

-- The size of `idt`, whose gates have 16 bytes each.
abbrev pub idt_size : ℕ
idt_size = 256 * 16

-- load_idt, for the table's address.
unfoldable pub load_idt : ℕ → Cpu → Cpu
load_idt address s = record s { idtr = record { limit = idt_size - 1; base = address } }

-- wnu_arch_init, with the writes to the controllers.
unfoldable pub init : ℕ → ℕ → Cpu → Cpu × List Write
init irq1_stub address s =
    let masked : Cpu = record s { interrupts_on = false } in
    (
      load_idt address (record masked { idt = init_idt irq1_stub masked.idt }),
      pic_remap_keyboard_only,
    )

-- What wnu_irq1_c_handler does with the byte that port 0x60 gives: the console, and the writes.
unfoldable pub irq1_c_handler : ℕ → Console → Console × List Write
irq1_c_handler scancode console = (handle_scancode console scancode, pic_send_eoi 1)
