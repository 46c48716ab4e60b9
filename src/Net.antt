-- ===== src/Net.antt =====
-- The checksum of src/network/net.c.
pub mod Checksum
pub mod Frames
pub mod Protocol
mod Tests
use Prim.Native.Nat.{bit_or}
use wnu.Prelude.{
  ℕ, zero, suc, ◌+◌, ◌-◌, ◌*◌, ◌/◌, ◌%◌, ◌^◌, Option, none, some, List, [], ◌∷◌, ◌==◌,
  if◌then◌else◌,
}

-- The two loops' sums, in 32 bits, over the bytes that are left.
unfoldable pub sum_words : ℕ → List ℕ → ℕ
sum_words sum [] = sum
sum_words sum (a ∷ []) = (sum + a * 2 ^ 8) % 2 ^ 32
sum_words sum (a ∷ b ∷ bytes) = sum_words ((sum + bit_or (a * 2 ^ 8) b) % 2 ^ 32) bytes

-- The loop that adds the upper half to the lower; `none` for more than `fuel` tests.
unfoldable pub fold_carries : ℕ → ℕ → Option ℕ
fold_carries zero sum = none
fold_carries (suc fuel) sum =
    let rest = fold_carries fuel (sum % 2 ^ 16 + sum / 2 ^ 16) in
    if sum / 2 ^ 16 == 0 then some sum else rest

-- `(uint16_t)~sum`
abbrev pub complement : Option ℕ → Option ℕ
complement none = none
complement (some sum) = some ((2 ^ 32 - 1 - sum) % 2 ^ 16)

unfoldable pub checksum : List ℕ → Option ℕ
checksum bytes = complement (fold_carries 3 (sum_words 0 bytes))
