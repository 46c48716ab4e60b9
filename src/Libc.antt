-- ===== src/Libc.antt =====
-- The memory and string functions of src/lib/lib.c.
-- Memory is one byte array, and a pointer into it is an address. A character is a byte.
pub mod Memory
pub mod Strings
pub mod Printf
mod Tests
use wnu.Prelude.{
  ℕ, zero, suc, ◌+◌, ◌%◌, ℤ, pos, negsuc, sub_ℕ, Option, none, some, [], ◌∷◌, ◌==◌, ltb,
  if◌then◌else◌, for_upto,
}
use wnu.Mem.{Bytes, store}
use wnu.Str.{Str}

unfoldable pub memcpy : Bytes → ℕ → ℕ → ℕ → Bytes
memcpy mem dst src n = for_upto n 0 (λ i m. store (dst + i) (m (src + i)) m) mem

-- The loop of memmove from the last byte down.
unfoldable pub move_down : Bytes → ℕ → ℕ → ℕ → Bytes
move_down mem dst src zero = mem
move_down mem dst src (suc i) = move_down (store (dst + i) (mem (src + i)) mem) dst src i

unfoldable pub memmove : Bytes → ℕ → ℕ → ℕ → Bytes
memmove mem dst src n =
    if ltb dst src
    then for_upto n 0 (λ i m. store (dst + i) (m (src + i)) m) mem
    else move_down mem dst src n

unfoldable pub memset : Bytes → ℕ → ℕ → ℕ → Bytes
memset mem dst value n = for_upto n 0 (λ i m. store (dst + i) (value % 256) m) mem

-- The comparison from the addresses on.
unfoldable pub memcmp : Bytes → ℕ → ℕ → ℕ → ℤ
memcmp mem a b zero = pos 0
memcmp mem a b (suc n) =
    let rest = memcmp mem (a + 1) (b + 1) n in
    if mem a == mem b then rest else if ltb (mem a) (mem b) then negsuc 0 else pos 1

unfoldable pub strlen : Str → ℕ
strlen [] = 0
strlen (c ∷ s) = suc (strlen s)

unfoldable pub strcmp : Str → Str → ℤ
strcmp [] [] = pos 0
strcmp [] (y ∷ b) = sub_ℕ 0 y
strcmp (x ∷ a) [] = sub_ℕ x 0
strcmp (x ∷ a) (y ∷ b) = let rest = strcmp a b in if x == y then rest else sub_ℕ x y

unfoldable pub strncmp : Str → Str → ℕ → ℤ
strncmp a b zero = pos 0
strncmp [] [] (suc n) = pos 0
strncmp [] (y ∷ b) (suc n) = sub_ℕ 0 y
strncmp (x ∷ a) [] (suc n) = sub_ℕ x 0
strncmp (x ∷ a) (y ∷ b) (suc n) = let rest = strncmp a b n in if x == y then rest else sub_ℕ x y

-- The index of the next place, if any.
abbrev pub behind : Option ℕ → Option ℕ
behind none = none
behind (some i) = some (suc i)

-- The index that the result points to; `none` is the null pointer.
unfoldable pub strchr : Str → ℕ → Option ℕ
strchr [] c = if c == 0 then some 0 else none
strchr (x ∷ s) c = let rest = behind (strchr s c) in if x == c % 256 then some 0 else rest
