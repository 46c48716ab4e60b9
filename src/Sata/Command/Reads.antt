-- ===== src/Sata/Command/Reads.antt =====
-- sata_block_read of src/drivers/sata.c: what a read that reports success has asked for, and what
-- every read leaves alone.
use wnu.Prelude.{ℕ, ◌+◌, ◌*◌, ◌%◌, ◌^◌, ◌<◌, ◌≤◌, ◌≡◌, ◌≢◌, false, ◌==◌}
use wnu.Mem.{Bytes}
use wnu.Sata.{Bases}
use wnu.Sata.Command.{Registers, Areas, Driver, command_header, command_table}
use wnu.Sata.Command.Encoding.{load32}

-- The first command header, by the offsets of AHCI: the command's length in words in the low 5 bits
-- of byte 0, the number of entries in the bytes 2 and 3, and the table's address from byte 8 on.
pub record AsksNothing (header : Bytes) : Type 0 where
  pub words : header 0 % 2 ^ 5 ≡ 5
  pub entries : header 2 + header 3 * 2 ^ 8 ≡ 0
  pub address : load32 header 0x08 + load32 header 0x0C * 2 ^ 32 ≡ 0

module _ {D : Type 0} (regs : Registers D) (areas : Areas) (bases : Bases) where
  -- A call on the controller at place `i`: the other controllers' areas stay, and so does what lies
  -- behind this one's; the areas hold the command if the result is not 0.
  record Reads (i lba buf count : ℕ) (s : Driver D) (o : ℕ × Driver D) : Type 0 where
    list : (j k : ℕ) → (j == i) ≡ false → o.1.cmd_list j k ≡ s.cmd_list j k
    table : (j k : ℕ) → (j == i) ≡ false → o.1.cmd_table j k ≡ s.cmd_table j k
    behind_list : (k : ℕ) → 1024 ≤ k → o.1.cmd_list i k ≡ s.cmd_list i k
    behind_table : (k : ℕ) → 256 ≤ k → o.1.cmd_table i k ≡ s.cmd_table i k
    result : o.0 ≢ 0 → o.0 ≡ count % 2 ^ 32
    header :
        o.0 ≢ 0 → (k : ℕ) → k < 1024 → o.1.cmd_list i k ≡ command_header (areas.command_table i) k
    command : o.0 ≢ 0 → (k : ℕ) → k < 256 → o.1.cmd_table i k ≡ command_table lba count buf k
