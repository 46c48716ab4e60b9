-- ===== src/Net/Checksum.antt =====
-- The checksum of src/network/net.c in plain arithmetic.
use Prim.Native.Nat.{bit_or}
use wnu.Prelude.{
  ℕ, ◌+◌, ◌-◌, ◌*◌, ◌/◌, ◌%◌, ◌^◌, ◌<◌, ◌≤◌, ◌≡◌, ◌∙◌, ap, some, List, [], ◌∷◌, ◌++◌, ◌==◌,
  if◌then◌else◌, length, length-append, arith,
}
use wnu.Bits.{bit_or-shifted}
use wnu.Net.{sum_words, fold_carries, checksum}

abbrev pub AreBytes : List ℕ → Type 0
AreBytes [] = Unit
AreBytes (a ∷ s) = (a < 256) × AreBytes s

-- The sum of the 16-bit words, the last byte of an odd number as an upper half.
abbrev pub total : List ℕ → ℕ
total [] = 0
total (a ∷ []) = a * 256
total (a ∷ b ∷ s) = a * 256 + b + total s

total_le : (s : List ℕ) → AreBytes s → total s ≤ 65535 * length s
total_le [] h = omega arith
total_le (a ∷ []) h = omega arith
total_le (a ∷ b ∷ s) h = omega (arith, total_le s h.1.1)

sum_words_lem :
    (s : List ℕ) (sum : ℕ) → AreBytes s → sum + total s < 2 ^ 32 → sum_words sum s ≡ sum + total s
unfolding sum_words
sum_words_lem [] sum h lt = omega arith
sum_words_lem (a ∷ []) sum h lt = omega arith
sum_words_lem (a ∷ b ∷ s) sum h lt =
    let word : bit_or (a * 2 ^ 8) b ≡ a * 256 + b = bit_or-shifted 8 a b h.1.0 in
    let step : (sum + bit_or (a * 2 ^ 8) b) % 2 ^ 32 ≡ sum + (a * 256 + b) = omega arith in
    rw step (omega (arith, sum_words_lem s (sum + (a * 256 + b)) h.1.1 (omega arith)))

-- The residue of a sum modulo 65535, with 65535 for the multiples other than 0.
abbrev pub residue : ℕ → ℕ
residue n = if n == 0 then 0 else (n - 1) % 65535 + 1

fold_carries_lem : (n : ℕ) → n < 2 ^ 32 → fold_carries 3 n ≡ some (residue n)
unfolding fold_carries
fold_carries_lem n h = ground arith

checksum_lem :
    (s : List ℕ) → AreBytes s → length s < 2 ^ 16 → checksum s ≡ some (65535 - residue (total s))
unfolding checksum
checksum_lem s h lt =
    rw
      (
        sum_words_lem s 0 h (omega (arith, total_le s h)),
        fold_carries_lem (0 + total s) (omega (arith, total_le s h)),
      )
      (ground arith)

-- Bytes in pairs.
abbrev pub flat : List (ℕ × ℕ) → List ℕ
flat [] = []
flat ((a, b) ∷ w) = a ∷ b ∷ flat w

total-flat : (w : List (ℕ × ℕ)) (s : List ℕ) → total (flat w ++ s) ≡ total (flat w) + total s
total-flat [] s = omega arith
total-flat ((a, b) ∷ w) s = omega (arith, total-flat w s)

AreBytes-flat :
    (w : List (ℕ × ℕ)) (s t : List ℕ)
    → AreBytes (flat w ++ s)
    → (AreBytes s → AreBytes t)
    → AreBytes (flat w ++ t)
AreBytes-flat [] s t h f = f h
AreBytes-flat ((a, b) ∷ w) s t h f = (h.0, (h.1.0, AreBytes-flat w s t h.1.1 f))

-- Adding what is left to 65535 makes the residue 65535.
residue_filled : (n : ℕ) → residue (n + (65535 - residue n)) ≡ 65535
residue_filled n = ground arith

-- If the checksum of a packet of fewer than 65536 bytes, whose field at an even place is 0, is put
-- into that field, the checksum of the packet is 0.
pub checksum_verifies :
    (before : List (ℕ × ℕ)) (after : List ℕ) (c : ℕ)
    → AreBytes (flat before ++ 0 ∷ 0 ∷ after)
    → length (flat before ++ 0 ∷ 0 ∷ after) < 2 ^ 16
    → checksum (flat before ++ 0 ∷ 0 ∷ after) ≡ some c
    → checksum (flat before ++ c / 2 ^ 8 ∷ c % 2 ^ 8 ∷ after) ≡ some 0
checksum_verifies before after c bytes short h =
    let empty = flat before ++ 0 ∷ 0 ∷ after in
    let full = flat before ++ c / 2 ^ 8 ∷ c % 2 ^ 8 ∷ after in
    let is_c : c ≡ 65535 - residue (total empty) = ground (arith, checksum_lem empty bytes short) in
    let bytes' : AreBytes full =
      AreBytes-flat before (0 ∷ 0 ∷ after) (c / 2 ^ 8 ∷ c % 2 ^ 8 ∷ after) bytes
        λ t. (omega arith, (omega arith, t.1.1)) in
    let short' : length full < 2 ^ 16 = omega (
      arith,
      length-append (flat before) (0 ∷ 0 ∷ after),
      length-append (flat before) (c / 2 ^ 8 ∷ c % 2 ^ 8 ∷ after),
    ) in
    let sum : total full ≡ total empty + c = omega (
      arith,
      total-flat before (0 ∷ 0 ∷ after),
      total-flat before (c / 2 ^ 8 ∷ c % 2 ^ 8 ∷ after),
    ) in
    checksum_lem full bytes' short'
    ∙ ap (λ n. some (65535 - residue n)) (sum ∙ ap (λ k. total empty + k) is_c)
    ∙ ap (λ n. some (65535 - n)) (residue_filled (total empty))
