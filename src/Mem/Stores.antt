-- ===== src/Mem/Stores.antt =====
-- What a loop of stores leaves in an array.
use wnu.Prelude.{
  ℕ, zero, suc, ◌+◌, ◌-◌, ◌<◌, ◌≡◌, refl, ap, ◌∙◌, ◌&&◌, ◌∷◌, ◌++◌, ◌==◌, ltb, leb, if◌then◌else◌,
  take, min, for_upto, arith, Bool-cases, inl, inr,
}
use wnu.Mem.{Bytes, store, slice, slice-congr, slice-add}

-- Bytes stored one after the other, from the place `w` on.
pub stored_at :
    (f : ℕ → ℕ) (w n i : ℕ) (buf : Bytes) (k : ℕ)
    → for_upto n i (λ j. store (w + j) (f j)) buf k
      ≡ (if leb (w + i) k && ltb k (w + (i + n)) then f (k - w) else buf k)
unfolding for_upto
stored_at f w zero i buf k = ground arith
stored_at f w (suc n) i buf k = elim (Bool-cases (k == w + i)) [
  | inl here ↦
      let same : k - w ≡ i = ground arith in
      ground (arith, stored_at f w n (i + 1) (store (w + i) (f i) buf) k, ap f same)
  | inr elsewhere ↦ ground (arith, stored_at f w n (i + 1) (store (w + i) (f i) buf) k)
]

slice-shift :
    (a b : Bytes) (j k n : ℕ)
    → ((i : ℕ) → i < n → a (j + i) ≡ b (k + i))
    → slice a j n ≡ slice b k n
unfolding slice
slice-shift a b j k zero e = refl
slice-shift a b j k (suc n) e = λ i. head i ∷ slice-shift a b (j + 1) (k + 1) n rest i
  where
    head : a j ≡ b k
    head = ap a (omega arith) ∙ e 0 (omega arith) ∙ ap b (omega arith)

    rest : (i : ℕ) → i < n → a (j + 1 + i) ≡ b (k + 1 + i)
    rest i lt = ap a (omega arith) ∙ e (suc i) (omega arith) ∙ ap b (omega arith)

pub slice-stored_at :
    (f : Bytes) (w n : ℕ) (buf : Bytes)
    → slice (for_upto n 0 (λ j. store (w + j) (f j)) buf) 0 (w + n) ≡ slice buf 0 w ++ slice f 0 n
slice-stored_at f w n buf =
    slice-add _ 0 w n
    ∙ ap (λ l. l ++ slice after (0 + w) n)
        (slice-congr after buf 0 w λ j lt. ground (arith, stored_at f w n 0 buf j))
    ∙ ap (λ l. slice buf 0 w ++ l) (slice-shift after f (0 + w) 0 n each)
  where
    after : Bytes
    after = for_upto n 0 (λ j. store (w + j) (f j)) buf

    each : (i : ℕ) → i < n → after (0 + w + i) ≡ f (0 + i)
    each i lt =
        let same : 0 + w + i - w ≡ 0 + i = omega arith in
        ground (arith, stored_at f w n 0 buf (0 + w + i), ap f same)

pub take-slice : (b : Bytes) (k m n : ℕ) → take m (slice b k n) ≡ slice b k (min m n)
unfolding slice
take-slice b k zero n = let e : 0 ≡ min 0 n = omega arith in ap (slice b k) e
take-slice b k (suc m) zero = let e : 0 ≡ min (suc m) 0 = omega arith in ap (slice b k) e
take-slice b k (suc m) (suc n) = ap (λ t. b k ∷ t) (take-slice b (k + 1) m n) ∙ ap (slice b k) out
  where
    out : suc (min m n) ≡ min (suc m) (suc n)
    out = omega arith
