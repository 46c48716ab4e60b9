-- ===== src/Platform.antt =====
-- include/wnu/platform.h: physical addresses, and the serial port.
-- The port instructions are parameters, over the state of what answers behind them.
pub mod Laws
mod Tests
use Prim.Native.Nat.{bit_and}
use wnu.Prelude.{
  ℕ, zero, suc, ◌+◌, ◌-◌, ◌%◌, ◌^◌, Option, none, some, List, [], ◌∷◌, ◌==◌, if◌then◌else◌,
}
use wnu.Str.{Str}
use wnu.Sata.{Bases}

unfoldable pub virt_to_phys : Bases → ℕ → ℕ
virt_to_phys b virt = (virt + (2 ^ 64 - b.virt_base % 2 ^ 64) + b.phys_base) % 2 ^ 64

-- wnu_inb and wnu_outb, by the port.
pub record Ports (U : Type 0) : Type 0 where
  pub inb : ℕ → U → ℕ × U
  pub outb : ℕ → ℕ → U → U

abbrev pub then_write : {U : Type 0} → Option U → (U → Option U) → Option U
then_write none next = none
then_write (some u) next = next u

module _ {U : Type 0} (ports : Ports U) where
  unfoldable pub io_wait : U → U
  io_wait u = ports.outb 0x80 0 u

  -- The loop that waits for an empty transmitter; `none` is more than `fuel` tests.
  unfoldable pub wait_empty : ℕ → U → Option U
  wait_empty zero u = none
  wait_empty (suc fuel) u =
      let (status, v) = ports.inb 0x3FD u in
      let rest = wait_empty fuel v in if bit_and status 0x20 == 0 then rest else some v

  unfoldable pub serial_putc : ℕ → ℕ → U → Option U
  serial_putc fuel c u = then_write (wait_empty fuel u) (λ v. some (ports.outb 0x3F8 (c % 256) v))

  -- The loop over the characters.
  unfoldable pub write_chars : ℕ → Str → U → Option U
  write_chars fuel [] u = some u
  write_chars fuel (c ∷ s) u = then_write (serial_putc fuel c u) (write_chars fuel s)

  -- `none` is a null pointer.
  abbrev pub serial_write : ℕ → Option Str → U → Option U
  serial_write fuel none u = some u
  serial_write fuel (some s) u = write_chars fuel s u
