-- ===== src/Kernel.antt =====
-- src/kernel/main.c: the state of the whole kernel, and what the calls of its parts do to it.
-- A part that only reports its output has it written to the console here, in its order.
pub mod Boot
pub mod Loop
pub mod Terminal
pub mod Output
pub mod Sound
pub mod Runs
pub mod Fed
pub mod NoCard
pub mod Start
pub mod Started
pub mod Calls
pub mod Typing
mod Tests
use wnu.Prelude.{ℕ, Option, none, some, List, [], ◌∷◌, ◌++◌}
use wnu.Mem.{Bytes}
use wnu.Str.{Str}
use wnu.Console.{Console, putchar, clear, write}
use wnu.Shell.{Shell, char, clear_screen, ping, udp, lsblk}
use wnu.Shell
use wnu.Block.{Device}
use wnu.Net.Protocol.{Net, Event, sent, printed, serial, ping_qemu_gateway, udp_test}
use wnu.Rtl8139.{Card, Places, Driver, call_net}
use wnu.Sata.{Bases}
use wnu.Arch.{Cpu}
use wnu.Sata.Listing.{print_devices}
use wnu.Platform.{virt_to_phys}

-- The hardware and the addresses that the linker chose; a network card has the states `D`.
pub record Machine (D : Type 0) : Type 0 where
  pub ops : Card D
  pub tx_virt : ℕ → ℕ
  pub rx_virt : ℕ
  pub irq1_stub : ℕ
  pub idt_address : ℕ
  pub space : ℕ → ℕ
  pub mmio_read32 : ℕ → ℕ
  pub block_read : ℕ → ℕ → Bytes → ℕ → ℕ × Bytes
  pub fresh : Bytes

-- Where the loop of _start stands: before rtl8139_poll, the test, wnu_console_readline,
-- wnu_shell_execute and wnu_shell_print_prompt.
pub data Phase : Type 0 where
  polling testing reading executing prompting : Phase

-- The static variables of all parts, the processor's interrupt state, the text on the serial port, and `line` of _start.
pub record Kernel (D : Type 0) : Type 0 where
  pub bases : Bases
  pub cpu : Cpu
  pub console : Console
  pub shell : Shell
  pub devices : List (Option Device)
  pub driver : Driver D
  pub log : Str
  pub line : Str
  pub phase : Phase

-- The driver's texts, the last one first, on the console, and on the serial port.
unfoldable pub write_texts : List Event → Console → Console
write_texts [] console = console
write_texts (sent frame ∷ texts) console = write_texts texts console
write_texts (printed text ∷ texts) console = write (write_texts texts console) text
write_texts (serial text ∷ texts) console = write_texts texts console

unfoldable pub log_texts : List Event → Str → Str
log_texts [] log = log
log_texts (sent frame ∷ texts) log = log_texts texts log
log_texts (printed text ∷ texts) log = log_texts texts log
log_texts (serial text ∷ texts) log = log_texts texts log ++ text

module _ {D : Type 0} (m : Machine D) where
  -- The buffers' physical addresses.
  abbrev pub places : Bases → Places
  places bases = record {
    tx = λ slot. virt_to_phys bases (m.tx_virt slot);
    rx_virt = m.rx_virt;
    rx = virt_to_phys bases m.rx_virt;
  }

  -- The driver after a call, with what it wrote.
  unfoldable pub settle : Driver D → Kernel D → Kernel D
  settle driver k = record k {
    console = write_texts driver.texts k.console;
    log = log_texts driver.texts k.log;
    driver = record driver { texts = [] };
  }

  -- net_ping_qemu_gateway or net_udp_test
  unfoldable pub call_network : (Net → Net) → Kernel D → Kernel D
  call_network call k = settle (call_net m.ops (places k.bases) call k.driver) k

  -- What the shell asked for.
  unfoldable pub do_event : Shell.Event → Kernel D → Kernel D
  do_event (char c) k = record k { console = putchar k.console c }
  do_event clear_screen k = record k { console = clear k.console }
  do_event ping k = call_network (ping_qemu_gateway k.driver.mac) k
  do_event udp k = call_network (udp_test k.driver.mac) k
  do_event lsblk k = record k {
    console = write k.console (print_devices k.bases m.mmio_read32 m.space);
  }

  unfoldable pub do_events : List Shell.Event → Kernel D → Kernel D
  do_events [] k = k
  do_events (e ∷ events) k = do_events events (do_event e k)
