-- ===== src/Elf/Laws.antt =====
-- What elf_exec accepts, and what it reads.
use wnu.Prelude.{ℕ, ◌+◌, ◌*◌, ◌^◌, ◌<◌, ◌≤◌, ◌≡◌, ◌≢◌, ◌↔◌, some, arith, Bool-cases, inl, inr, ltb}
use wnu.Mem.{Bytes}
use wnu.Elf.{header_size, get16, get32, get64, elf_load, elf_exec}

-- A header of 64 bytes or more, with ELF's magic number in the bytes 0 to 3, and, lowest byte first,
-- the type 2 (an executable) at 16, the machine 0x3E (x86-64) at 18 and the version 1 at 20.
pub record IsExecutable (d : Bytes) (size : ℕ) : Type 0 where
  pub whole : 64 ≤ size
  pub magic : (d 0 ≡ 0x7F) × (d 1 ≡ 0x45) × (d 2 ≡ 0x4C) × (d 3 ≡ 0x46)
  pub kind : d 16 + d 17 * 2 ^ 8 ≡ 2
  pub machine : d 18 + d 19 * 2 ^ 8 ≡ 0x3E
  pub version : d 20 + d 21 * 2 ^ 8 + d 22 * 2 ^ 16 + d 23 * 2 ^ 24 ≡ 1

-- The eight bytes from 24 on, lowest byte first.
abbrev pub entry_point : Bytes → ℕ
entry_point d =
    d 24
    + d 25 * 2 ^ 8
    + d 26 * 2 ^ 16
    + d 27 * 2 ^ 24
    + d 28 * 2 ^ 32
    + d 29 * 2 ^ 40
    + d 30 * 2 ^ 48
    + d 31 * 2 ^ 56

-- elf_exec calls an address exactly if there are 64 bytes of header or more with the magic number,
-- the type of an executable, the machine x86-64 and the version 1, and the address is the one that
-- the bytes 24 to 31 give, not 0. No other byte of the header is looked at, so neither the class nor
-- the byte order that it names.
pub elf_exec_iff :
    (d : Bytes) (size a : ℕ)
    → (elf_exec d size ≡ some a) ↔ (IsExecutable d size × (entry_point d ≡ a) × (a ≢ 0))
unfolding elf_exec elf_load get64 get32 get16
elf_exec_iff d size a = (
  λ h. (
    record {
      whole = ground arith;
      magic = (ground arith, ground arith, ground arith, ground arith);
      kind = ground arith;
      machine = ground arith;
      version = ground arith;
    },
    ground arith,
    λ z. absurd (ground arith),
  ),
  λ (x, e, ne). ground (arith, x.whole, x.magic, x.kind, x.machine, x.version, ne),
)

module _ (d e : Bytes) (size k : ℕ) (h : (j : ℕ) → j < size → d j ≡ e j) where
  get16-local : k + 1 < size → get16 d k ≡ get16 e k
  unfolding get16
  get16-local fits = cc (h k (omega arith), h (k + 1) fits)

module _ (d e : Bytes) (size k : ℕ) (h : (j : ℕ) → j < size → d j ≡ e j) where
  get32-local : k + 3 < size → get32 d k ≡ get32 e k
  unfolding get32
  get32-local fits =
      omega (
        arith,
        get16-local d e size k h (omega arith),
        get16-local d e size (k + 2) h (omega arith),
      )

module _ (d e : Bytes) (size k : ℕ) (h : (j : ℕ) → j < size → d j ≡ e j) where
  get64-local : k + 7 < size → get64 d k ≡ get64 e k
  unfolding get64
  get64-local fits =
      omega (
        arith,
        get32-local d e size k h (omega arith),
        get32-local d e size (k + 4) h (omega arith),
      )

-- Data that agree on the first `size` bytes load alike: nothing behind them decides the result.
pub elf_load-local :
    (d e : Bytes) (size : ℕ) → ((k : ℕ) → k < size → d k ≡ e k) → elf_load d size ≡ elf_load e size
unfolding elf_load
elf_load-local d e size h = elim (Bool-cases (ltb size header_size)) [
  | inl short ↦ ground arith
  | inr whole ↦
      let in_header : header_size ≤ size = ground arith in
      ground (
        arith,
        h 0 (omega arith),
        h 1 (omega arith),
        h 2 (omega arith),
        h 3 (omega arith),
        get16-local d e size 16 h (omega arith),
        get16-local d e size 18 h (omega arith),
        get32-local d e size 20 h (omega arith),
        get64-local d e size 24 h (omega arith),
      )
]
