-- ===== src/Sata/Listing.antt =====
-- wnu_sata_print_devices of src/drivers/sata.c, as the text that it writes.
-- A row of a port uses `%-8s` and `%-10s`, which printf of src/lib/lib.c does not know: it takes no
-- argument for them, so `%u` gets a string. C leaves that undefined: such a row is `none` here, and
-- the text has nothing for it between the rows that are defined.
use Prim.Native.Nat.{bit_and}
use wnu.Prelude.{
  ℕ, zero, suc, ◌+◌, ◌*◌, not, ◌||◌, Option, some, List, [], ◌∷◌, ◌++◌, ◌==◌, if◌then◌else◌, length,
}
use wnu.Str.{Str, codes}
use wnu.Libc.Printf.{printf, word, text}
use wnu.Net.Protocol.{text_or_empty}
use wnu.Sata.{
  Controller, Bases, phys_to_virt, bar5, abar_phys, test_bit, scan_pci, ahci_device_type,
  ahci_link_state,
}

-- The row of a port.
unfoldable pub port_row : Controller → ℕ → ℕ → ℕ → Option Str
port_row c port sig ssts =
    printf (codes "sd%c    %-8s  %-10s  %u:%u.%u       port=%u sig=0x%x ssts=0x%x\n") (
      word (b'a' + port)
      ∷ text (some (ahci_device_type sig))
      ∷ text (some (ahci_link_state ssts))
      ∷ word c.bus
      ∷ word c.slot
      ∷ word c.func
      ∷ word port
      ∷ word sig
      ∷ word ssts
      ∷ [])

module _ (bases : Bases) (mmio_read32 : ℕ → ℕ) where
  -- The rows of `n` ports from `port` on.
  unfoldable pub port_rows : ℕ → ℕ → Controller → ℕ → ℕ → Str
  port_rows zero port c abar pi = []
  port_rows (suc n) port c abar pi =
      let rest = port_rows n (port + 1) c abar pi in
      let base = abar + 0x100 + port * 0x80 in
      let row =
        text_or_empty (port_row c port (mmio_read32 (base + 0x24)) (mmio_read32 (base + 0x28))) in
      if test_bit pi port then row ++ rest else rest

  -- The rows of a controller.
  unfoldable pub controller_rows : ℕ → Controller → Str
  controller_rows i c =
      let abar = phys_to_virt bases (abar_phys c) in
      let cap = mmio_read32 abar in
      let pi = mmio_read32 (abar + 0x0C) in
      let place = word i ∷ word c.bus ∷ word c.slot ∷ word c.func ∷ [] in
      if not (c.prog_if == 0x01)
      then text_or_empty (
          printf (codes "sata%u controller non-ahci  %u:%u.%u       vendor=0x%x device=0x%x\n")
            (place ++ word c.vendor_id ∷ word c.device_id ∷ []))
      else if bar5 c == 0 || not (bit_and (bar5 c) 1 == 0)
      then text_or_empty (
          printf (codes "sata%u controller bad-bar   %u:%u.%u       BAR5=0x%x\n")
            (place ++ word (bar5 c) ∷ []))
      else text_or_empty (
          printf (codes "sata%u controller ahci      %u:%u.%u       abar=0x%x pi=0x%x cap=0x%x\n")
            (place ++ word (abar_phys c) ∷ word pi ∷ word cap ∷ []))
        ++ port_rows 32 0 c abar pi

  unfoldable pub all_rows : ℕ → List Controller → Str
  all_rows i [] = []
  all_rows i (c ∷ ctrls) = controller_rows i c ++ all_rows (i + 1) ctrls

  unfoldable pub print_devices : (ℕ → ℕ) → Str
  print_devices space =
      let found = scan_pci space in
      let full = if found.full then codes "sata: controller table full\n" else [] in
      let header = codes "NAME   TYPE      STATE       BUS:SLOT.FUNC  INFO\n" in
      if length found.ctrls == 0
      then header
        ++ codes "none   -         -           -              no SATA/AHCI controllers found\n"
      else (full ++ header) ++ all_rows 0 found.ctrls
