-- ===== src/Sata/Tests.antt =====
-- A bus with one controller, and the witnesses of the driver's theorems.
use wnu.Prelude.{ℕ, ◌+◌, ◌-◌, ◌*◌, ◌^◌, ◌≡◌, refl, none, some, [], ◌∷◌, ◌==◌, ltb, if◌then◌else◌}
use wnu.Mem.{Bytes}
use wnu.Str.{codes}
use wnu.Libc.Printf.{printf}
use wnu.Sata
use wnu.Sata.{
  Controller, Bases, device_name, number_digits, ahci_device_type, ahci_link_state, test_bit,
}
use wnu.Sata.Command.{Registers, Areas, Driver, command_table, block_read}
use wnu.Sata.Listing.{port_row}

-- A controller at slot 0 of bus 0.
abbrev space : ℕ → ℕ
space a =
    if a == 2 ^ 31
    then 0x29228086
    else if a == 2 ^ 31 + 8
    then 0x01060100
    else if a == 2 ^ 31 + 0x24
    then 0xFEBF0000
    else if ltb a (2 ^ 31 + 256)
    then 0
    else 2 ^ 32 - 1

abbrev reads : ℕ → ℕ → Bytes → ℕ → ℕ × Bytes
reads i lba buf count = (count, λ k. lba)

abbrev bases : Bases
bases = record { phys_base = 0x1000000; virt_base = 0xFFFFFFFF80000000 }

last_name : device_name 15 ≡ codes "sata15"
unfolding device_name number_digits
last_name = refl

abbrev first : Controller
first = record {
  bus = 0;
  slot = 0;
  func = 0;
  vendor_id = 0x8086;
  device_id = 0x2922;
  class_code = 1;
  subclass = 6;
  prog_if = 1;
  bar = [];
}

-- The row of a port has no defined text.
port_row_undefined : port_row first 0 0x101 3 ≡ none
unfolding port_row printf
port_row_undefined = refl

abbrev ahci : Controller
ahci = record first { bar = 0 ∷ 0 ∷ 0 ∷ 0 ∷ 0 ∷ 0xFEBF0000 ∷ [] }

-- Every register reads 2: port 1 is there, and a command is done at once.
abbrev regs : Registers ℕ
regs = record { read32 = λ a d. (2, d); write32 = λ a v d. v }

abbrev areas : Areas
areas = record {
  command_list = λ i. 0x300000 + i * 1024;
  received = λ i. 0x310000 + i * 256;
  command_table = λ i. 0x320000 + i * 256;
}

abbrev disk : Driver ℕ
disk = record { ctrls = ahci ∷ []; cmd_list = λ i k. 7; cmd_table = λ i k. 7; hba = 0; out = [] }

abbrev answer : ℕ × Driver ℕ
answer = block_read regs areas bases 0 0x123456789ABC (some 0xFEDCBA9876543210) 8 disk
