-- ===== src/Sata/Command/Encoding.antt =====
-- The command that src/drivers/sata.c builds for a read, decoded.
use wnu.Prelude.{ℕ, ◌+◌, ◌-◌, ◌*◌, ◌%◌, ◌^◌, ◌<◌, ◌≤◌, ◌≡◌, refl, ◌∙◌, arith}
use wnu.Bits.{bit_or-shifted_right}
use wnu.Mem.{Bytes, store32}
use wnu.Sata.Command.{command_fis, command_table, byte_count}

-- A 32-bit word of a table, lowest byte first.
abbrev pub load32 : Bytes → ℕ → ℕ
load32 t a = t a + t (a + 1) * 2 ^ 8 + t (a + 2) * 2 ^ 16 + t (a + 3) * 2 ^ 24

-- A command table as AHCI lays it out: the command, the sector in 48 bits, the count, and the first
-- entry's address and byte count, of 22 bits.
pub record Decodes (t : Bytes) (lba count buf : ℕ) : Type 0 where
  pub frame_type : t 0 ≡ 0x27
  pub command : t 2 ≡ 0x25
  pub sector : t 4 + t 5 * 2 ^ 8 + t 6 * 2 ^ 16 + t 8 * 2 ^ 24 + t 9 * 2 ^ 32 + t 10 * 2 ^ 40 ≡ lba
  pub sectors : t 12 + t 13 * 2 ^ 8 ≡ count
  pub address : load32 t 0x80 + load32 t 0x84 * 2 ^ 32 ≡ buf
  pub bytes : load32 t 0x8C % 2 ^ 22 + 1 ≡ count * 512

byte_count_lem :
    (count : ℕ) → 0 < count → count < 2 ^ 16 → byte_count count ≡ 2 ^ 31 + (count * 512 - 1)
unfolding byte_count
byte_count_lem count p c =
    let bytes = (count * 512 + (2 ^ 64 - 1)) % 2 ^ 32 in
    omega (arith, bit_or-shifted_right 31 1 bytes (omega arith))

-- The table for a read of 1 to 8192 sectors below 2^48 decodes to that sector and count, and to the
-- buffer's address and as many bytes as the sectors have.
pub command_table-Decodes :
    (lba count buf : ℕ)
    → lba < 2 ^ 48
    → 0 < count
    → count ≤ 8192
    → buf < 2 ^ 64
    → Decodes (command_table lba count buf) lba count buf
unfolding command_table command_fis store32
command_table-Decodes lba count buf l p c b = record {
  frame_type = refl;
  command = refl;
  sector = omega arith;
  sectors = omega arith;
  address = omega arith;
  bytes = omega (arith, byte_count_lem count p (omega arith));
}

-- The controller reads only the 256 bytes of the table.
pub Decodes-congr :
    {t u : Bytes} {lba count buf : ℕ}
    → ((k : ℕ) → k < 256 → t k ≡ u k)
    → Decodes u lba count buf
    → Decodes t lba count buf
Decodes-congr {t} {u} e d = record {
  frame_type = e 0 (omega arith) ∙ d.frame_type;
  command = e 2 (omega arith) ∙ d.command;
  sector = omega (
    arith,
    d.sector,
    e 4 (omega arith),
    e 5 (omega arith),
    e 6 (omega arith),
    e 8 (omega arith),
    e 9 (omega arith),
    e 10 (omega arith),
  );
  sectors = omega (arith, d.sectors, e 12 (omega arith), e 13 (omega arith));
  address = load64 0x80 (omega arith) ∙ d.address;
  bytes = (λ i. load 0x8C (omega arith) i % 2 ^ 22 + 1) ∙ d.bytes;
}
  where
    load : (k : ℕ) → k + 4 ≤ 256 → load32 t k ≡ load32 u k
    load k le = omega (
      arith,
      e k (omega arith),
      e (k + 1) (omega arith),
      e (k + 2) (omega arith),
      e (k + 3) (omega arith),
    )

    load64 :
        (k : ℕ)
        → k + 8 ≤ 256
        → load32 t k + load32 t (k + 4) * 2 ^ 32 ≡ load32 u k + load32 u (k + 4) * 2 ^ 32
    load64 k le = λ i. load k (omega arith) i + load (k + 4) (omega arith) i * 2 ^ 32
