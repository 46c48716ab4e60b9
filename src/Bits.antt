-- ===== src/Bits.antt =====
-- Laws of the bit operations at variables, from the digit recursion that they stand for.
use Prim.Native.Nat.{bit_and, bit_or, bit_and-bitwise, bit_or-bitwise, digits, max}
use wnu.Prelude.{
  Bool, true, ◌&&◌, ℕ, zero, suc, ◌+◌, ◌-◌, ◌*◌, ◌/◌, ◌%◌, ◌<◌, ◌≤◌, ◌≡◌, min, refl, ap, arith,
}

-- Any two counts of digits that reach the first number give the same result.
digits_count :
    (z : ℕ → ℕ) (f : ℕ → ℕ → ℕ) (n m a b : ℕ) → a ≤ n → a ≤ m → digits z f n a b ≡ digits z f m a b
digits_count z f zero zero a b h k = refl
digits_count z f zero (suc m) zero b h k = refl
digits_count z f zero (suc m) (suc a) b h k = absurd (omega arith)
digits_count z f (suc n) zero zero b h k = refl
digits_count z f (suc n) zero (suc a) b h k = absurd (omega arith)
digits_count z f (suc n) (suc m) zero b h k = refl
digits_count z f (suc n) (suc m) (suc a) b h k =
    ap (λ t. t * 2 + f (suc a % 2) (b % 2))
      (digits_count z f n m (suc a / 2) (b / 2) (omega arith) (omega arith))

bit_and_zero_left : (b : ℕ) → bit_and 0 b ≡ 0
bit_and_zero_left b = bit_and-bitwise 0 b

bit_or_zero_left : (b : ℕ) → bit_or 0 b ≡ b
bit_or_zero_left b = bit_or-bitwise 0 b

-- Both operations go digit by digit.
pub bit_and_halves : (a b : ℕ) → bit_and a b ≡ bit_and (a / 2) (b / 2) * 2 + min (a % 2) (b % 2)
bit_and_halves zero b = omega (arith, bit_and_zero_left b, bit_and_zero_left (b / 2))
bit_and_halves (suc a) b =
    let same =
      digits_count (λ _. 0) min a (suc a / 2) (suc a / 2) (b / 2) (omega arith) (omega arith) in
    omega (arith, same, bit_and-bitwise (suc a) b, bit_and-bitwise (suc a / 2) (b / 2))

pub bit_or_halves : (a b : ℕ) → bit_or a b ≡ bit_or (a / 2) (b / 2) * 2 + max (a % 2) (b % 2)
bit_or_halves zero b = omega (arith, bit_or_zero_left b, bit_or_zero_left (b / 2))
bit_or_halves (suc a) b =
    let same =
      digits_count (λ c. c) max a (suc a / 2) (suc a / 2) (b / 2) (omega arith) (omega arith) in
    omega (arith, same, bit_or-bitwise (suc a) b, bit_or-bitwise (suc a / 2) (b / 2))

-- 2 ^ k, by doubling.
abbrev pub pow2 : ℕ → ℕ
pow2 zero = 1
pow2 (suc k) = 2 * pow2 k

pow2_pos : (k : ℕ) → 0 < pow2 k
pow2_pos zero = omega arith
pow2_pos (suc k) = omega (arith, pow2_pos k)

-- A number of k digits passes a mask of k ones.
pub bit_and-mask : (k x : ℕ) → x < pow2 k → bit_and x (pow2 k - 1) ≡ x
bit_and-mask zero x h =
    omega (arith, bit_and_zero_left 0, ap (λ t. bit_and t 0) (zero_of_lt_one x h))
  where
    zero_of_lt_one : (x : ℕ) → x < 1 → x ≡ 0
    zero_of_lt_one x h = omega arith
bit_and-mask (suc k) x h =
    let half : (2 * pow2 k - 1) / 2 ≡ pow2 k - 1 = omega (arith, pow2_pos k) in
    omega (
      arith,
      pow2_pos k,
      bit_and_halves x (2 * pow2 k - 1),
      ap (bit_and (x / 2)) half,
      bit_and-mask k (x / 2) (omega arith),
    )

bit_or-zero_upto : (n x : ℕ) → x ≤ n → bit_or x 0 ≡ x
bit_or-zero_upto zero zero h = bit_or_zero_left 0
bit_or-zero_upto zero (suc x) h = absurd (omega arith)
bit_or-zero_upto (suc n) zero h = bit_or_zero_left 0
bit_or-zero_upto (suc n) (suc x) h =
    omega (arith, bit_or_halves (suc x) 0, bit_or-zero_upto n (suc x / 2) (omega arith))

-- A number shifted by k digits, and one of k digits, do not overlap.
pub bit_or-shifted : (k hi lo : ℕ) → lo < pow2 k → bit_or (hi * pow2 k) lo ≡ hi * pow2 k + lo
bit_or-shifted zero hi lo h =
    let none_left : lo ≡ 0 = omega arith in
    rw none_left (omega (arith, bit_or-zero_upto (hi * 1) (hi * 1) (omega arith)))
bit_or-shifted (suc k) hi lo h =
    let half : hi * (2 * pow2 k) / 2 ≡ hi * pow2 k = omega arith in
    omega (
      arith,
      bit_or_halves (hi * (2 * pow2 k)) lo,
      ap (λ t. bit_or t (lo / 2)) half,
      bit_or-shifted k hi (lo / 2) (omega arith),
    )

-- The same with the shifted number on the right.
pub bit_or-shifted_right : (k hi lo : ℕ) → lo < pow2 k → bit_or lo (hi * pow2 k) ≡ hi * pow2 k + lo
bit_or-shifted_right zero hi lo h =
    let none_left : lo ≡ 0 = omega arith in rw none_left (omega (arith, bit_or_zero_left (hi * 1)))
bit_or-shifted_right (suc k) hi lo h =
    let half : hi * (2 * pow2 k) / 2 ≡ hi * pow2 k = omega arith in
    omega (
      arith,
      bit_or_halves lo (hi * (2 * pow2 k)),
      ap (λ t. bit_or (lo / 2) t) half,
      bit_or-shifted_right k hi (lo / 2) (omega arith),
    )

-- A test at every number below a bound.
unfoldable pub every_below : ℕ → (ℕ → Bool) → Bool
every_below zero p = true
every_below (suc n) p = p n && every_below n p

pub holds_below : (n : ℕ) (p : ℕ → Bool) (x : ℕ) → every_below n p ≡ true → x < n → p x ≡ true
unfolding every_below
holds_below zero p x h lt = elim lt [ ]
holds_below (suc n) p x h lt = ground (arith, holds_below n p x)
