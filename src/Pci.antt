-- ===== src/Pci.antt =====
-- src/drivers/pci.c: the configuration space and the search for a device.
-- The configuration space is a parameter: the word that port 0xCFC returns after an address has
-- been written to port 0xCF8.
pub mod Laws
mod Tests
use Prim.Native.Nat.{bit_and, bit_or}
use wnu.Prelude.{
  ℕ, zero, suc, ◌+◌, ◌*◌, ◌/◌, ◌%◌, ◌^◌, Bool, true, false, ◌&&◌, Option, none, some, ◌==◌,
  if◌then◌else◌,
}

-- struct pci_device
pub record Device : Type 0 where
  pub bus : ℕ
  pub slot : ℕ
  pub func : ℕ
  pub vendor_id : ℕ
  pub device_id : ℕ
  pub class_code : ℕ
  pub subclass : ℕ
  pub prog_if : ℕ

unfoldable pub address : ℕ → ℕ → ℕ → ℕ → ℕ
address bus slot func offset =
    bit_or (bit_or (bit_or (bit_or (2 ^ 31) (bus * 2 ^ 16)) (slot * 2 ^ 11)) (func * 2 ^ 8))
      (bit_and offset 0xFC)

-- The first index from `i` on, of `n`, at which a search succeeds.
unfoldable pub first_of_range {ℓ} : {A : Type ℓ} → ℕ → ℕ → (ℕ → Option A) → Option A
first_of_range zero i f = none
first_of_range (suc n) i f = elim (f i) [ some a ↦ some a | none ↦ first_of_range n (i + 1) f ]

module _ (space : ℕ → ℕ) where
  unfoldable pub config_read32 : ℕ → ℕ → ℕ → ℕ → ℕ
  config_read32 bus slot func offset = space (address bus slot func offset)

  unfoldable pub config_read16 : ℕ → ℕ → ℕ → ℕ → ℕ
  config_read16 bus slot func offset =
      config_read32 bus slot func offset / 2 ^ (bit_and offset 2 * 8) % 2 ^ 16

  unfoldable pub config_read8 : ℕ → ℕ → ℕ → ℕ → ℕ
  config_read8 bus slot func offset =
      config_read32 bus slot func offset / 2 ^ (bit_and offset 3 * 8) % 2 ^ 8

  -- What `*out` gets.
  unfoldable pub describe : ℕ → ℕ → ℕ → Device
  describe bus slot func = record {
    bus = bus;
    slot = slot;
    func = func;
    vendor_id = config_read16 bus slot func 0x00;
    device_id = config_read16 bus slot func 0x02;
    class_code = config_read8 bus slot func 0x0B;
    subclass = config_read8 bus slot func 0x0A;
    prog_if = config_read8 bus slot func 0x09;
  }

  unfoldable pub function_count : ℕ → ℕ → ℕ
  function_count bus slot = if bit_and (config_read8 bus slot 0 0x0E) 0x80 == 0 then 1 else 8

  -- One round of the innermost loop.
  unfoldable pub check_function : ℕ → ℕ → ℕ → ℕ → ℕ → Option Device
  check_function vendor device bus slot func =
      if config_read16 bus slot func 0x00 == 0xffff
      then none
      else if config_read16 bus slot func 0x00 == vendor
          && config_read16 bus slot func 0x02 == device
      then some (describe bus slot func)
      else none

  unfoldable pub check_slot : ℕ → ℕ → ℕ → ℕ → Option Device
  check_slot vendor device bus slot =
      if config_read16 bus slot 0 0x00 == 0xffff
      then none
      else first_of_range (function_count bus slot) 0 (check_function vendor device bus slot)

  -- `none` is a return of 0.
  unfoldable pub find_device : ℕ → ℕ → Option Device
  find_device vendor device =
      first_of_range 256 0 λ bus. first_of_range 32 0 λ slot. check_slot vendor device bus slot
