-- ===== src/Vfs/Data.antt =====
-- File data: what the copy loops of wnu_vfs_write_file and wnu_vfs_append_file leave in the array.
use wnu.Prelude.{
  ℕ, zero, suc, ◌+◌, ◌-◌, ◌<◌, ◌≤◌, ◌≡◌, ap, ◌∙◌, List, ◌++◌, ◌&&◌, ◌==◌, leb, ltb, length, get_or,
  take, arith, if◌then◌else◌,
}
use wnu.Mem.{slice}
use wnu.Mem.{Bytes, slice-eq-take, slice-congr, slice-add}
use wnu.Vfs.{copy_bytes}

-- The loop writes `src` to its range and nothing else.
pub copy_bytes_lem :
    (dst : Bytes) (off : ℕ) (src : List ℕ) (i n k : ℕ)
    → copy_bytes dst off src i n k
      ≡ (if leb (off + i) k && ltb k (off + i + n) then get_or src (k - off) 0 else dst k)
unfolding copy_bytes
copy_bytes_lem dst off src i zero k = ground arith
copy_bytes_lem dst off src i (suc n) k = ground (
  arith,
  copy_bytes_lem (λ j. if j == off + i then get_or src i 0 else dst j) off src (i + 1) n k,
  at_index,
)
  where
    at_index : k ≡ off + i → get_or src (k - off) 0 ≡ get_or src i 0
    at_index e = ap (λ j. get_or src j 0) (omega arith)

-- Bytes written at an offset read back from there.
pub slice-copy_bytes :
    (dst : Bytes) (off : ℕ) (src : List ℕ) (n : ℕ)
    → n ≤ length src
    → slice (copy_bytes dst off src 0 n) off n ≡ take n src
slice-copy_bytes dst off src n h = slice-eq-take _ off n src h each
  where
    each : (j : ℕ) → j < n → copy_bytes dst off src 0 n (off + j) ≡ get_or src j 0
    each j lt = ground (arith, copy_bytes_lem dst off src 0 n (off + j), same)
      where
        same : get_or src (off + j - off) 0 ≡ get_or src j 0
        same = ap (λ i. get_or src i 0) (omega arith)

-- Writing behind the first `off` bytes appends to them.
pub slice-copy_bytes_append :
    (dst : Bytes) (off : ℕ) (src : List ℕ) (n : ℕ)
    → n ≤ length src
    → slice (copy_bytes dst off src 0 n) 0 (off + n) ≡ slice dst 0 off ++ take n src
slice-copy_bytes_append dst off src n h =
    slice-add _ 0 off n
    ∙ (λ i. old i ++ slice (copy_bytes dst off src 0 n) (e i) n)
    ∙ ap (λ t. slice dst 0 off ++ t) (slice-copy_bytes dst off src n h)
  where
    e : 0 + off ≡ off
    e = omega arith

    old : slice (copy_bytes dst off src 0 n) 0 off ≡ slice dst 0 off
    old = slice-congr _ _ 0 off (λ j lt. ground (arith, copy_bytes_lem dst off src 0 n j))
