-- ===== src/Heap/Laws.antt =====
-- The allocator of src/mem/heap.c, one request and sequences of them.

use Prim.Native.Nat.{bit_and}
use wnu.Prelude.{
  ℕ, ◌+◌, ◌-◌, ◌*◌, ◌/◌, ◌%◌, ◌^◌, ◌<◌, ◌≤◌, ◌≡◌, ◌⊎◌, ◌↔◌, inl, inr, ap, false, Option, none, some,
  List, [], ◌∷◌, arith, ltb, ◌==◌, Bool-cases, if◌then◌else◌,
}
use wnu.Bits.{bit_and_halves, bit_and-mask}
use wnu.Heap.{Heap, init, heap_size, word, align_up, malloc}

-- A mask without its lowest digit drops the lowest digit of a number.
mask_even : (x m : ℕ) → bit_and x (2 * m) ≡ 2 * bit_and (x / 2) m
mask_even x m =
    let half : 2 * m / 2 ≡ m = omega arith in
    omega (arith, bit_and_halves x (2 * m), ap (bit_and (x / 2)) half)

mask_sixteen : (x : ℕ) → x < word → bit_and x (word - 16) ≡ 16 * (x / 16)
mask_sixteen x h = omega (
  arith,
  mask_even x (2 ^ 63 - 8),
  mask_even (x / 2) (2 ^ 62 - 4),
  mask_even (x / 2 / 2) (2 ^ 61 - 2),
  mask_even (x / 2 / 2 / 2) (2 ^ 60 - 1),
  bit_and-mask 60 (x / 2 / 2 / 2 / 2) (omega arith),
)

-- The next multiple of 16.
pub align_up_sixteen : (v : ℕ) → v < 2 ^ 63 → align_up v 16 ≡ 16 * ((v + 15) / 16)
unfolding align_up
align_up_sixteen v h = omega (arith, mask_sixteen ((v + 16 + (word - 1)) % word) (omega arith))

-- Where the next block starts.
abbrev pub next_start : Heap → ℕ
next_start h = 16 * ((h.offset + 15) / 16)

-- A request below half the address space does not wrap: `malloc` in plain arithmetic.
pub malloc_no_wrap :
    (h : Heap) (size : ℕ)
    → h.offset ≤ heap_size
    → size < 2 ^ 63
    → malloc h size ≡ (
        if size == 0
        then (none, h)
        else if ltb heap_size (next_start h + size)
        then (none, record h { offset = next_start h })
        else (some (next_start h), record h { offset = next_start h + size }))
unfolding malloc
malloc_no_wrap h size v small =
    rw (align_up_sixteen h.offset (omega arith))
      (let e : (next_start h + size) % word ≡ next_start h + size = omega arith in rw e)

-- A sequence of requests, with what each returns.
unfoldable pub requests : Heap → List ℕ → List (Option ℕ × ℕ)
requests h [] = []
requests h (size ∷ sizes) = let (p, h') = malloc h size in (p, size) ∷ requests h' sizes

-- From the address `lo` on, the blocks given out are aligned, lie in the array, and each ends
-- before the next begins.
abbrev pub AreDisjoint : ℕ → List (Option ℕ × ℕ) → Type 0
AreDisjoint lo [] = Unit
AreDisjoint lo ((none, n) ∷ r) = AreDisjoint lo r
AreDisjoint lo ((some p, n) ∷ r) =
    (lo ≤ p) × (p % 16 ≡ 0) × (p + n ≤ heap_size) × AreDisjoint (p + n) r

abbrev pub AllSmall : List ℕ → Type 0
AllSmall [] = Unit
AllSmall (n ∷ ns) = (n < 2 ^ 63) × AllSmall ns

AreDisjoint-mono : (r : List (Option ℕ × ℕ)) (a b : ℕ) → a ≤ b → AreDisjoint b r → AreDisjoint a r
AreDisjoint-mono [] a b h d = tt
AreDisjoint-mono ((none, n) ∷ r) a b h d = AreDisjoint-mono r a b h d
AreDisjoint-mono ((some p, n) ∷ r) a b h d = (omega arith, d.1, d.2, d.3)

requests_from :
    (sizes : List ℕ) (h : Heap)
    → h.offset ≤ heap_size
    → AllSmall sizes
    → AreDisjoint h.offset (requests h sizes)
unfolding requests
requests_from [] h v small = tt
requests_from (size ∷ sizes) h v small = elim (Bool-cases (size == 0)) [
  | inl z ↦ rw (malloc_no_wrap h size v small.0, z) (requests_from sizes h v small.1)
  | inr nz ↦ elim (Bool-cases (ltb heap_size (next_start h + size))) [
    | inl full ↦
        let later : Heap = record h { offset = next_start h } in
        rw (malloc_no_wrap h size v small.0, nz, full)
          (AreDisjoint-mono (requests later sizes) h.offset (next_start h) (omega arith)
            (requests_from sizes later (omega arith) small.1))
    | inr fits ↦
        let later : Heap = record h { offset = next_start h + size } in
        let inside : next_start h + size ≤ heap_size = ground arith in
        rw (malloc_no_wrap h size v small.0, nz, fits)
          (omega arith, omega arith, inside, requests_from sizes later inside small.1)
  ]
]

-- From wnu_heap_init on, whatever the requests below 2^63 bytes, the blocks are 16-aligned, lie
-- in the array, and do not overlap.
pub requests-AreDisjoint :
    (h : Heap) (sizes : List ℕ) → AllSmall sizes → AreDisjoint 0 (requests (init h) sizes)
unfolding init
requests-AreDisjoint h sizes small = requests_from sizes (init h) (omega arith) small

-- With the offset in the array, a request below 2^63 bytes is refused exactly if it is 0 or does
-- not fit behind the next aligned offset.
pub malloc_refuses_iff :
    (h : Heap) (size : ℕ)
    → h.offset ≤ heap_size
    → size < 2 ^ 63
    → ((malloc h size).0 ≡ none) ↔ ((size ≡ 0) ⊎ (heap_size < next_start h + size))
malloc_refuses_iff h size v small = (
  λ e. ground (arith, malloc_no_wrap h size v small),
  λ c. ground (arith, malloc_no_wrap h size v small),
)

-- With a positive offset in the array, a request as large as what is left of the address space
-- behind the next start passes the bound, since the sum wraps to 0: it is given out, and the
-- offset is 0 again.
pub malloc_wraps :
    (h : Heap)
    → 0 < h.offset
    → h.offset ≤ heap_size
    → malloc h (word - next_start h) ≡ (some (next_start h), record { offset = 0 })
unfolding malloc
malloc_wraps h pos v = rw (align_up_sixteen h.offset (omega arith)) (
    let e : (next_start h + (word - next_start h)) % word ≡ 0 = omega arith in
    let nz : (word - next_start h == 0) ≡ false = ground arith in rw (e, nz))
