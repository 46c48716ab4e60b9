-- ===== src/Elf.antt =====
-- src/fs/elf.c with the header of include/wnu/elf.h: a packed record of 64 bytes, read in place.
pub mod Laws
mod Tests
use wnu.Prelude.{ℕ, ◌+◌, ◌*◌, ◌^◌, Option, none, some, not, ◌||◌, ◌==◌, ltb, if◌then◌else◌}
use wnu.Mem.{Bytes}

-- sizeof(struct ElfHeader)
abbrev pub header_size : ℕ
header_size = 64

-- Little-endian fields.
unfoldable pub get16 : Bytes → ℕ → ℕ
get16 d k = d k + d (k + 1) * 2 ^ 8

unfoldable pub get32 : Bytes → ℕ → ℕ
get32 d k = get16 d k + get16 d (k + 2) * 2 ^ 16

unfoldable pub get64 : Bytes → ℕ → ℕ
get64 d k = get32 d k + get32 d (k + 4) * 2 ^ 32

abbrev pub e_type : Bytes → ℕ
e_type d = get16 d 16

abbrev pub e_machine : Bytes → ℕ
e_machine d = get16 d 18

abbrev pub e_version : Bytes → ℕ
e_version d = get32 d 20

abbrev pub e_entry : Bytes → ℕ
e_entry d = get64 d 24

-- What `*entry_point` gets and the pointer that is returned are the same address; `none` is a
-- return of 0 before anything is stored.
unfoldable pub elf_load : Bytes → ℕ → Option ℕ
elf_load d size =
    if ltb size header_size
    then none
    else if not (d 0 == 0x7F) || (not (d 1 == b'E') || (not (d 2 == b'L') || not (d 3 == b'F')))
    then none
    else if not (e_type d == 2) || (not (e_machine d == 0x3E) || not (e_version d == 1))
    then none
    else some (e_entry d)

-- The address that is called, if any.
abbrev pub called : Option ℕ → Option ℕ
called none = none
called (some entry) = if entry == 0 then none else some entry

unfoldable pub elf_exec : Bytes → ℕ → Option ℕ
elf_exec d size = called (elf_load d size)
