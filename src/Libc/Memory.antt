-- ===== src/Libc/Memory.antt =====
-- What the memory functions of src/lib/lib.c write and compare.
use wnu.Prelude.{
  ℕ, zero, suc, ◌+◌, ◌-◌, ◌%◌, ◌≤◌, ◌≡◌, ◌↔◌, ◌⊎◌, refl, ◌∙◌, ap, inl, inr, ◌&&◌, ◌==◌, leb, ltb,
  pos, if◌then◌else◌, for_upto, arith, Bool-cases,
}
use wnu.Mem.{Bytes, store, slice}
use wnu.Mem.Stores.{stored_at}
use wnu.Libc.{memcpy, memmove, move_down, memset, memcmp}

-- The memory with the `n` bytes from `src` on copied to `dst`.
abbrev pub moved : Bytes → ℕ → ℕ → ℕ → Bytes
moved mem dst src n k = if leb dst k && ltb k (dst + n) then mem (src + (k - dst)) else mem k

copy_up_lem :
    (n i : ℕ) (mem : Bytes) (dst src k : ℕ)
    → (dst ≤ src) ⊎ (src + (i + n) ≤ dst)
    → for_upto n i (λ j m. store (dst + j) (m (src + j)) m) mem k
      ≡ (if leb (dst + i) k && ltb k (dst + (i + n)) then mem (src + (k - dst)) else mem k)
unfolding for_upto
copy_up_lem zero i mem dst src k h = ground arith
copy_up_lem (suc n) i mem dst src k h =
    copy_up_lem n (i + 1) (store (dst + i) (mem (src + i)) mem) dst src k (ground arith)
    ∙ elim (Bool-cases (k == dst + i)) [
      | inl here ↦
          let same : src + (k - dst) ≡ src + i = ground arith in ground (arith, ap mem same)
      | inr elsewhere ↦ ground arith
    ]

move_down_lem :
    (n : ℕ) (mem : Bytes) (dst src k : ℕ)
    → src ≤ dst
    → move_down mem dst src n k ≡ moved mem dst src n k
unfolding move_down
move_down_lem zero mem dst src k h = ground arith
move_down_lem (suc n) mem dst src k h =
    move_down_lem n (store (dst + n) (mem (src + n)) mem) dst src k h
    ∙ elim (Bool-cases (k == dst + n)) [
      | inl here ↦
          let same : src + (k - dst) ≡ src + n = ground arith in ground (arith, ap mem same)
      | inr elsewhere ↦ ground arith
    ]

-- `memmove` copies the bytes that were there before the call, also between overlapping ranges, and
-- changes no other byte.
pub memmove-eq-moved :
    (mem : Bytes) (dst src n k : ℕ) → memmove mem dst src n k ≡ moved mem dst src n k
unfolding memmove
memmove-eq-moved mem dst src n k = elim (Bool-cases (ltb dst src)) [
  | inl up ↦ rw up (copy_up_lem n 0 mem dst src k (ground arith) ∙ ground arith)
  | inr down ↦ rw down (move_down_lem n mem dst src k (ground arith))
]

-- Between ranges of which none starts inside the other, or to a lower address, `memcpy` does what
-- `memmove` does.
pub memcpy-eq-memmove :
    (mem : Bytes) (dst src n k : ℕ)
    → (dst ≤ src) ⊎ (src + n ≤ dst)
    → memcpy mem dst src n k ≡ memmove mem dst src n k
unfolding memcpy
memcpy-eq-memmove mem dst src n k h =
    copy_up_lem n 0 mem dst src k (ground arith) ∙ ground (arith, memmove-eq-moved mem dst src n k)

pub memset_lem :
    (mem : Bytes) (dst value n k : ℕ)
    → memset mem dst value n k ≡ (if leb dst k && ltb k (dst + n) then value % 256 else mem k)
unfolding memset
memset_lem mem dst value n k = stored_at (λ _. value % 256) dst n 0 mem k ∙ ground arith

memcmp_equal :
    (n : ℕ) (mem : Bytes) (a b : ℕ) → memcmp mem a b n ≡ pos 0 → slice mem a n ≡ slice mem b n
unfolding memcmp slice
memcmp_equal zero mem a b h = refl
memcmp_equal (suc n) mem a b h = ground (arith, memcmp_equal n mem (a + 1) (b + 1))

memcmp_same :
    (n : ℕ) (mem : Bytes) (a b : ℕ) → slice mem a n ≡ slice mem b n → memcmp mem a b n ≡ pos 0
unfolding memcmp slice
memcmp_same zero mem a b h = refl
memcmp_same (suc n) mem a b h = ground (arith, memcmp_same n mem (a + 1) (b + 1))

-- `memcmp` returns 0 exactly on equal ranges.
pub memcmp_zero_iff :
    (mem : Bytes) (a b n : ℕ) → (memcmp mem a b n ≡ pos 0) ↔ (slice mem a n ≡ slice mem b n)
memcmp_zero_iff mem a b n = (memcmp_equal n mem a b, memcmp_same n mem a b)
