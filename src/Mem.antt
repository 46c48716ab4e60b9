-- ===== src/Mem.antt =====
-- Byte arrays by index, and windows of them.
pub mod Stores
use wnu.Prelude.{
  ℕ, zero, suc, ◌+◌, ◌/◌, ◌%◌, ◌^◌, ◌<◌, ◌≤◌, ◌≡◌, refl, ap, ◌∙◌, List, [], ◌∷◌, ◌++◌, length,
  get_or, take, arith, ◌==◌, if◌then◌else◌,
}

-- A byte array. Nothing bounds the index: a write outside the array would show.
abbrev pub Bytes : Type 0
Bytes = ℕ → ℕ

abbrev pub store : ℕ → ℕ → Bytes → Bytes
store a v mem k = if k == a then v else mem k

-- A 32-bit word, lowest byte first.
unfoldable pub store32 : ℕ → ℕ → Bytes → Bytes
store32 a v mem =
    store (a + 3) (v / 2 ^ 24 % 256)
      (store (a + 2) (v / 2 ^ 16 % 256) (store (a + 1) (v / 2 ^ 8 % 256) (store a (v % 256) mem)))

-- The `n` bytes from index `k` on.
unfoldable pub slice : Bytes → ℕ → ℕ → List ℕ
slice b k zero = []
slice b k (suc n) = b k ∷ slice b (k + 1) n

pub length-slice : (b : Bytes) (k n : ℕ) → length (slice b k n) ≡ n
unfolding slice
length-slice b k zero = refl
length-slice b k (suc n) = ap suc (length-slice b (k + 1) n)

pub slice-eq-take :
    (b : Bytes) (k n : ℕ) (src : List ℕ)
    → n ≤ length src
    → ((j : ℕ) → j < n → b (k + j) ≡ get_or src j 0)
    → slice b k n ≡ take n src
unfolding slice
slice-eq-take b k zero src h e = refl
slice-eq-take b k (suc n) [] h e = absurd (omega arith)
slice-eq-take b k (suc n) (x ∷ src) h e =
    λ i. head i ∷ slice-eq-take b (k + 1) n src (omega arith) tails i
  where
    head : b k ≡ x
    head = ap b (omega arith) ∙ e 0 (omega arith)

    tails : (j : ℕ) → j < n → b (k + 1 + j) ≡ get_or src j 0
    tails j lt = ap b (omega arith) ∙ e (suc j) (omega arith)

pub slice-congr :
    (a b : Bytes) (k n : ℕ) → ((j : ℕ) → j < k + n → a j ≡ b j) → slice a k n ≡ slice b k n
unfolding slice
slice-congr a b k zero e = refl
slice-congr a b k (suc n) e =
    λ i. e k (omega arith) i ∷ slice-congr a b (k + 1) n (λ j lt. e j (omega arith)) i

pub slice-add : (b : Bytes) (k m n : ℕ) → slice b k (m + n) ≡ slice b k m ++ slice b (k + m) n
unfolding slice
slice-add b k zero n = λ i. slice b (e i) (f i)
  where
    e : k ≡ k + 0
    e = omega arith

    f : 0 + n ≡ n
    f = omega arith
slice-add b k (suc m) n =
    ap (slice b k) suc_out
    ∙ ap (λ t. b k ∷ t) (slice-add b (k + 1) m n ∙ ap (λ j. slice b (k + 1) m ++ slice b j n) shift)
  where
    suc_out : suc m + n ≡ suc (m + n)
    suc_out = omega arith

    shift : k + 1 + m ≡ k + suc m
    shift = omega arith
