-- ===== src/Sata/Command.antt =====
-- sata_block_read of src/drivers/sata.c: the command for the controller, and its execution.
-- The registers are a parameter, reads included, which may change the controller; so are the
-- physical addresses of the command list, the receive area and the command table. printf knows no
-- `l` after a `%`: what the messages show for `%lx` and `%lu` is what it makes of them.
pub mod Encoding
pub mod Reads
use Prim.Native.Nat.{bit_and, bit_or}
use wnu.Prelude.{
  ℕ, zero, suc, ◌+◌, ◌-◌, ◌*◌, ◌/◌, ◌%◌, ◌^◌, Bool, true, false, not, ◌&&◌, ◌||◌, Option, none,
  some, List, [], ◌∷◌, ◌++◌, ◌==◌, ltb, leb, if◌then◌else◌, length, get_elem?,
}
use wnu.Mem.{Bytes, store, store32}
use wnu.Str.{Str, codes}
use wnu.Libc.Printf.{Arg, printf, word}
use wnu.Net.Protocol.{text_or_empty}
use wnu.Sata.{Controller, Bases, phys_to_virt, bar5, abar_phys, test_bit}

-- A controller whose state is a `D`: its memory-mapped registers, by address.
pub record Registers (D : Type 0) : Type 0 where
  pub read32 : ℕ → D → ℕ × D
  pub write32 : ℕ → ℕ → D → D

-- The physical addresses of the three areas, for each controller.
pub record Areas : Type 0 where
  pub command_list : ℕ → ℕ
  pub received : ℕ → ℕ
  pub command_table : ℕ → ℕ

-- The command lists and tables, for each controller, the registers' state, and the text written.
pub record Driver (D : Type 0) : Type 0 where
  pub ctrls : List Controller
  pub cmd_list : ℕ → Bytes
  pub cmd_table : ℕ → Bytes
  pub hba : D
  pub out : Str

-- The command header, after its memset.
unfoldable pub command_header : ℕ → Bytes
command_header table = store32 0x1C (table / 2 ^ 32 % 2 ^ 32) (
    store32 0x18 (table % 2 ^ 32)
      (store 4 1 (store 3 0 (store 2 0 (store 1 0 (store 0 5 (λ k. 0)))))))

-- The command in the table, after its memset: the bytes of the sector and the count.
unfoldable pub command_fis : ℕ → ℕ → Bytes
command_fis lba count = store 13 (count / 2 ^ 8 % 256) (
    store 12 (count % 256) (
      store 10 (lba / 2 ^ 40 % 256) (
        store 9 (lba / 2 ^ 32 % 256) (
          store 8 (lba / 2 ^ 24 % 256) (
            store 6 (lba / 2 ^ 16 % 256) (
              store 5 (lba / 2 ^ 8 % 256)
                (store 4 (lba % 256) (store 2 0x25 (store 1 0x80 (store 0 0x27 (λ k. 0)))))))))))

-- `dbc`, with the bit for the interrupt.
unfoldable pub byte_count : ℕ → ℕ
byte_count count = bit_or ((count * 512 + (2 ^ 64 - 1)) % 2 ^ 32) (2 ^ 31)

-- The whole table: the command, and the entry for the buffer.
unfoldable pub command_table : ℕ → ℕ → ℕ → Bytes
command_table lba count buf =
    store32 0x8C (byte_count count)
      (store32 0x84 (buf / 2 ^ 32 % 2 ^ 32) (store32 0x80 (buf % 2 ^ 32) (command_fis lba count)))

-- The first of `n` bits that is set, from `p` on.
unfoldable pub first_port : ℕ → ℕ → ℕ → Option ℕ
first_port zero p pi = none
first_port (suc n) p pi =
    let rest = first_port n (p + 1) pi in if test_bit pi p then some p else rest

-- A text of printf.
abbrev pub say : {D : Type 0} → Driver D → Str → List Arg → Driver D
say s format args = record s { out = s.out ++ text_or_empty (printf format args) }

-- A slot's memory replaced.
abbrev pub put : (ℕ → Bytes) → ℕ → Bytes → ℕ → Bytes
put areas i b k = if k == i then b else areas k

module _ {D : Type 0} (regs : Registers D) (areas : Areas) (bases : Bases) where
  -- The addresses written, and the command engine started.
  unfoldable pub start_port : ℕ → ℕ → D → D
  start_port port i d =
      let d1 = regs.write32 port (areas.command_list i % 2 ^ 32) d in
      let d2 = regs.write32 (port + 0x04) (areas.command_list i / 2 ^ 32 % 2 ^ 32) d1 in
      let d3 = regs.write32 (port + 0x08) (areas.received i % 2 ^ 32) d2 in
      let d4 = regs.write32 (port + 0x0C) (areas.received i / 2 ^ 32 % 2 ^ 32) d3 in
      let d5 = regs.write32 (port + 0x10) 0xffffffff d4 in
      let (cmd, d6) = regs.read32 (port + 0x18) d5 in
      let d7 = (regs.read32 (port + 0x18) (regs.read32 (port + 0x18) d6).1).1 in
      regs.write32 (port + 0x18) (bit_or (bit_or cmd (2 ^ 4)) 1) d7

  -- The loop that waits for the command, `n` tests at most.
  unfoldable pub wait_done : ℕ → ℕ → D → D
  wait_done zero port d = d
  wait_done (suc n) port d =
      let (cur, e) = regs.read32 (port + 0x38) d in
      let rest = wait_done n port e in if bit_and cur 1 == 0 then e else rest

  -- The command issued.
  unfoldable pub issue : ℕ → D → D
  issue port d =
      let (ci, d1) = regs.read32 (port + 0x38) d in
      let d2 = (regs.read32 (port + 0x38) d1).1 in regs.write32 (port + 0x38) (bit_or ci 1) d2

  -- The wait for a command that was issued, and its errors.
  unfoldable pub complete : ℕ → ℕ → Driver D → ℕ × Driver D
  complete port count s =
      let (tfd, hba) = regs.read32 (port + 0x20) (wait_done 1000000 port s.hba) in
      let done =
        say (record s { hba = hba }) (codes "sata_block_read: done, tfd=0x%x\n") (word tfd ∷ []) in
      if bit_and tfd 0x1 == 0
      then (count % 2 ^ 32, done)
      else (0, say done (codes "sata: tfd error 0x%x\n") (word tfd ∷ []))

  -- The areas filled, between the two messages.
  abbrev pub fill_areas : ℕ → ℕ → ℕ → ℕ → Driver D → Driver D
  fill_areas i lba buf count s = record s {
    cmd_list =
        put s.cmd_list i
          (λ k. if ltb k 1024 then command_header (areas.command_table i) k else s.cmd_list i k);
    cmd_table =
        put s.cmd_table i
          (λ k. if ltb k 256 then command_table lba count buf k else s.cmd_table i k);
  }

  -- From the port on. The message about the addresses stands before the command engine's start,
  -- which reads and writes registers alone.
  unfoldable pub run_command : ℕ → ℕ → ℕ → ℕ → ℕ → Driver D → ℕ × Driver D
  run_command i port lba buf count s =
      let told =
        say s (codes "sata_block_read: wrote CLB/FB, clb_phys=0x%x fb_phys=0x%x ctba=0x%x\n") (
          word (areas.command_list i)
          ∷ word (areas.received i)
          ∷ word (areas.command_table i)
          ∷ []) in
      let filled = fill_areas i lba buf count (record told { hba = start_port port i s.hba }) in
      complete port count (
        say (record filled { hba = issue port filled.hba })
          (codes "sata_block_read: issued CI, waiting for completion\n") [])

  -- The port found, if any; -1 in the message for none.
  abbrev pub on_port : Option ℕ → ℕ → ℕ → ℕ → ℕ → ℕ → Driver D → ℕ × Driver D
  on_port none i abar lba buf count s =
      (0, say s (codes "sata_block_read: selected port=%d\n") (word (2 ^ 32 - 1) ∷ []))
  on_port (some p) i abar lba buf count s =
      run_command i (abar + 0x100 + p * 0x80) lba buf count
        (say s (codes "sata_block_read: selected port=%d\n") (word p ∷ []))

  -- The controller at place `i`.
  abbrev pub on_controller : Option Controller → ℕ → ℕ → ℕ → ℕ → Driver D → ℕ × Driver D
  on_controller none i lba buf count s = (0, s)
  on_controller (some c) i lba buf count s =
      let abar = phys_to_virt bases (abar_phys c) in
      let (pi, d1) = regs.read32 (abar + 0x0C) s.hba in
      let (cap, d2) = regs.read32 abar d1 in
      let told =
        say (record s { hba = d2 })
          (codes "sata_block_read: ctrl_idx=%d bar5=0x%x abar_phys=0x%lx abar_virt=0x%lx "
            ++ codes "cap=0x%x pi=0x%x lba=%lu count=%u\n")
          (word i
            ∷ word (bar5 c)
            ∷ word (abar_phys c)
            ∷ word abar
            ∷ word cap
            ∷ word pi
            ∷ word lba
            ∷ word count
            ∷ []) in
      if bar5 c == 0 || not (bit_and (bar5 c) 1 == 0)
      then (0, s)
      else on_port (first_port 32 0 pi) i abar lba buf count told

  -- `driver_data` is the controller's place in the table; `buf` is the buffer's physical address,
  -- `none` for the null pointer. The result is an `int`, given as 32 bits.
  unfoldable pub block_read : ℕ → ℕ → Option ℕ → ℕ → Driver D → ℕ × Driver D
  block_read i lba none count s = (0, s)
  block_read i lba (some buf) count s =
      let run = on_controller (get_elem? s.ctrls i) i lba buf count s in
      if count == 0 then (0, s) else run
