-- ===== src/Sata.antt =====
-- src/drivers/sata.c: the SATA controllers on the PCI bus, and their block devices.
-- The configuration space, and the registers as they are read for the messages, are parameters; the
-- function behind a block device is one too, for each controller (Sata.Command has its command).
pub mod Command
pub mod Scan
pub mod Listing
mod Tests
pub mod Names
use Prim.Native.Nat.{bit_and}
use wnu.Prelude.{
  ℕ, zero, suc, ◌+◌, ◌-◌, ◌*◌, ◌/◌, ◌%◌, ◌^◌, Bool, true, false, not, ◌&&◌, ◌||◌, Option, none,
  some, List, [], ◌∷◌, ◌++◌, ◌==◌, ltb, leb, if◌then◌else◌, length, get_or, take, for_upto,
}
use wnu.Mem.{Bytes}
use wnu.Str.{Str, codes}
use wnu.Pci.{config_read32, config_read16, config_read8, function_count}
use wnu.Libc.Printf.{Arg, printf, word, text}
use wnu.Net.Protocol.{text_or_empty}
use wnu.Block.{Device, Registry, register}

abbrev pub max_controllers : ℕ
max_controllers = 16

-- struct sata_ctrl_info
pub record Controller : Type 0 where
  pub bus : ℕ
  pub slot : ℕ
  pub func : ℕ
  pub vendor_id : ℕ
  pub device_id : ℕ
  pub class_code : ℕ
  pub subclass : ℕ
  pub prog_if : ℕ
  pub bar : List ℕ

-- The table and its count; and whether the search has returned before its end.
pub record Found : Type 0 where
  pub ctrls : List Controller
  pub full : Bool

abbrev text_of : Str → List Arg → Str
text_of format args = text_or_empty (printf format args)

module _ (space : ℕ → ℕ) where
  unfoldable pub pci_read_bar : ℕ → ℕ → ℕ → ℕ → ℕ
  pci_read_bar bus slot func bar_index =
      config_read32 space bus slot func ((0x10 + bar_index * 4) % 256)

  unfoldable pub describe : ℕ → ℕ → ℕ → Controller
  describe bus slot func =
      let bar = pci_read_bar bus slot func in
      record {
        bus = bus;
        slot = slot;
        func = func;
        vendor_id = config_read16 space bus slot func 0x00;
        device_id = config_read16 space bus slot func 0x02;
        class_code = config_read8 space bus slot func 0x0B;
        subclass = config_read8 space bus slot func 0x0A;
        prog_if = config_read8 space bus slot func 0x09;
        bar = bar 0 ∷ bar 1 ∷ bar 2 ∷ bar 3 ∷ bar 4 ∷ bar 5 ∷ [];
      }

  -- One round of the innermost loop; a search that has returned finds nothing more.
  unfoldable pub check_function : ℕ → ℕ → ℕ → Found → Found
  check_function bus slot func s =
      let c = describe bus slot func in
      if s.full
      then s
      else if c.vendor_id == 0xffff
      then s
      else if not (c.class_code == 0x01) || not (c.subclass == 0x06)
      then s
      else if leb max_controllers (length s.ctrls)
      then record s { full = true }
      else record s { ctrls = s.ctrls ++ c ∷ [] }

  unfoldable pub check_slot : ℕ → ℕ → Found → Found
  check_slot bus slot s =
      if config_read16 space bus slot 0 0x00 == 0xffff
      then s
      else for_upto (function_count space bus slot) 0 (check_function bus slot) s

  unfoldable pub scan_pci : Found
  scan_pci =
      for_upto 256 0 (λ bus. for_upto 32 0 (check_slot bus)) (record { ctrls = []; full = false })

-- The lines for the registers that hold the addresses.
unfoldable pub print_bars : ℕ → List ℕ → Str
print_bars i [] = []
print_bars i (b ∷ bars) =
    text_of (codes "  BAR%u = 0x%x\n") (word i ∷ word b ∷ []) ++ print_bars (i + 1) bars

unfoldable pub print_controller : Controller → ℕ → Str
print_controller c index =
    text_of (codes "sata%u: bus=%u slot=%u func=%u vendor=0x%x device=0x%x prog_if=0x%x\n") (
      word index
      ∷ word c.bus
      ∷ word c.slot
      ∷ word c.func
      ∷ word c.vendor_id
      ∷ word c.device_id
      ∷ word c.prog_if
      ∷ [])
    ++ print_bars 0 c.bar

abbrev pub bar5 : Controller → ℕ
bar5 c = get_or c.bar 5 0

-- `bar5 & 0xfffffff0u`
abbrev pub abar_phys : Controller → ℕ
abar_phys c = bar5 c / 16 * 16

-- Bit `n` of a word.
abbrev pub test_bit : ℕ → ℕ → Bool
test_bit v n = v / 2 ^ n % 2 == 1

-- Where the kernel lies: `wnu_kernel_phys_base` and `wnu_kernel_virt_base`.
pub record Bases : Type 0 where
  pub phys_base : ℕ
  pub virt_base : ℕ

unfoldable pub phys_to_virt : Bases → ℕ → ℕ
phys_to_virt b phys = (phys + (2 ^ 64 - b.phys_base % 2 ^ 64) + b.virt_base) % 2 ^ 64

module _ (bases : Bases) (mmio_read32 : ℕ → ℕ) where
  -- The lines for the ports that are there.
  unfoldable pub print_ports : ℕ → ℕ → ℕ → ℕ → Str
  print_ports zero port abar pi = []
  print_ports (suc n) port abar pi =
      let rest = print_ports n (port + 1) abar pi in
      let base = abar + 0x100 + port * 0x80 in
      let line =
        text_of (codes "  port %u: sig=0x%x ssts=0x%x\n")
          (word port ∷ word (mmio_read32 (base + 0x24)) ∷ word (mmio_read32 (base + 0x28)) ∷ []) in
      if test_bit pi port then line ++ rest else rest

  unfoldable pub probe_ahci_controller : Controller → ℕ → Str
  probe_ahci_controller c index =
      let abar = phys_to_virt bases (abar_phys c) in
      let cap = mmio_read32 abar in
      let pi = mmio_read32 (abar + 0x0C) in
      if not (c.prog_if == 0x01)
      then text_of (codes "sata%u: not AHCI, prog_if=0x%x\n") (word index ∷ word c.prog_if ∷ [])
      else if bar5 c == 0
      then text_of (codes "sata%u: missing AHCI BAR5\n") (word index ∷ [])
      else if not (bit_and (bar5 c) 1 == 0)
      then text_of (codes "sata%u: BAR5 is I/O space, expected MMIO\n") (word index ∷ [])
      else text_of (codes "sata%u: AHCI abar_phys=0x%x cap=0x%x pi=0x%x\n")
          (word index ∷ word (abar_phys c) ∷ word cap ∷ word pi ∷ [])
        ++ print_ports 32 0 abar pi

-- The digits of `num` before `digits`, `n` at most.
unfoldable pub number_digits : ℕ → ℕ → Str → Str
number_digits zero num digits = digits
number_digits (suc n) num digits =
    let rest = number_digits n (num / 10) ((b'0' + num % 10) ∷ digits) in
    if num == 0 then digits else rest

unfoldable pub device_name : ℕ → Str
device_name i = codes "sata" ++ take 27 (if i == 0 then b'0' ∷ [] else number_digits 15 i [])

module _ (block_read : ℕ → ℕ → Bytes → ℕ → ℕ × Bytes) where
  -- What wnu_sata_init puts into `sata_block_devs[i]`; its driver data are the controller's place.
  unfoldable pub block_device : ℕ → Device
  block_device i = record { name = device_name i; read = some (block_read i); capacity = 0 }

  module _ (bases : Bases) (mmio_read32 : ℕ → ℕ) where
    -- The loop of wnu_sata_init, from the controller at `i` on: the devices, and the messages.
    unfoldable pub register_controllers : ℕ → List Controller → Registry → Registry × Str
    register_controllers i [] s = (s, [])
    register_controllers i (c ∷ ctrls) s =
        let (t, done) = register s (block_device i) in
        let name = text (some (device_name i)) in
        let rest = register_controllers (i + 1) ctrls t in
        let result =
          if done
          then text_of (codes "sata: registered block device %s\n") (name ∷ [])
          else text_of (codes "sata: failed to register block device %s\n") (name ∷ []) in
        (
          rest.0,
          print_controller c i ++ probe_ahci_controller bases mmio_read32 c i ++ result ++ rest.1,
        )

    unfoldable pub init : (ℕ → ℕ) → Registry → Registry × Str
    init space s =
        let found = scan_pci space in
        let full = if found.full then codes "sata: controller table full\n" else [] in
        let registered = register_controllers 0 found.ctrls s in
        if length found.ctrls == 0
        then (s, codes "sata: init\n" ++ codes "sata: no SATA controllers found\n")
        else (registered.0, codes "sata: init\n" ++ full ++ registered.1)

unfoldable pub ahci_device_type : ℕ → Str
ahci_device_type sig =
    if sig == 0x00000101
    then codes "SATA"
    else if sig == 0xeb140101
    then codes "ATAPI"
    else if sig == 0xc33c0101
    then codes "SEMB"
    else if sig == 0x96690101
    then codes "PM"
    else codes "UNKNOWN"

unfoldable pub ahci_link_state : ℕ → Str
ahci_link_state ssts =
    let det = bit_and ssts 0x0f in
    if det == 0
    then codes "no-device"
    else if det == 1
    then codes "present-no-phy"
    else if det == 3
    then codes "online"
    else if det == 4
    then codes "offline"
    else codes "unknown"
