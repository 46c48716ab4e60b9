-- ===== src/Arch/Tests.antt =====
-- The witness of the interrupt set-up's theorem.
use wnu.Prelude.{ℕ, true}
use wnu.Arch.{Gate, Cpu, empty_gate}
use wnu.Arch.Laws.{Chip}

-- The routine's address, in the kernel's upper half.
abbrev stub : ℕ
stub = 0xFFFFFFFF80001230

abbrev table : ℕ → Gate
table k = empty_gate

-- A controller as the firmware leaves it.
abbrev chip : Chip
chip = record { expects = 0; first_vector = 8; mask = 0xB8 }

-- What the boot loader leaves.
abbrev cpu : Cpu
cpu = record { idt = table; idtr = record { limit = 0; base = 0 }; interrupts_on = true }

abbrev idt_address : ℕ
idt_address = 0xFFFFFFFF80002000
