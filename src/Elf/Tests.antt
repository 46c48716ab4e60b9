-- ===== src/Elf/Tests.antt =====
-- A header, and the witnesses of the loader's theorems.
use wnu.Prelude.{ℕ, ◌≡◌, ◌≢◌, ◌↔◌, refl, some, List, [], ◌∷◌}
use wnu.Mem.{Bytes}
use wnu.Str.{at}
use wnu.Elf.{elf_load, elf_exec, get16, get32, get64}
use wnu.Elf.Laws.{IsExecutable, entry_point, elf_exec_iff}

-- An executable with the entry point 0x400000.
abbrev header_bytes : List ℕ
header_bytes =
    0x7F ∷ b'E' ∷ b'L' ∷ b'F' ∷ 2 ∷ 1 ∷ 1 ∷ 0 ∷ 0 ∷ 0 ∷ 0 ∷ 0 ∷ 0 ∷ 0 ∷ 0 ∷ 0 ∷ 2 ∷ 0 ∷ 0x3E ∷ 0 ∷ 1
    ∷ 0 ∷ 0 ∷ 0 ∷ 0 ∷ 0 ∷ 0x40 ∷ []

abbrev program : Bytes
program k = at header_bytes k

runs : elf_exec program 64 ≡ some 0x400000
unfolding elf_exec elf_load get64 get32 get16
runs = refl

abbrev entry : ℕ
entry = 0x400000

elf_exec_iff_example :
    (elf_exec program 64 ≡ some entry)
    ↔ (IsExecutable program 64 × (entry_point program ≡ entry) × (entry ≢ 0))
elf_exec_iff_example = elf_exec_iff program 64 entry
