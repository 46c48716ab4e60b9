-- ===== src/Heap.antt =====
-- src/mem/heap.c: a bump allocator over one static array. A pointer is an index into the array.
pub mod Laws
mod Tests
use Prim.Native.Nat.{bit_and}
use wnu.Prelude.{ℕ, ◌+◌, ◌-◌, ◌*◌, ◌%◌, ◌^◌, Option, none, some, ◌==◌, ltb, if◌then◌else◌}

-- HEAP_SIZE
abbrev pub heap_size : ℕ
heap_size = 1024 * 1024

abbrev pub word : ℕ
word = 2 ^ 64

-- The state is `heap_offset`.
pub record Heap : Type 0 where
  pub offset : ℕ

unfoldable pub init : Heap → Heap
init h = record h { offset = 0 }

-- `size_t` arithmetic: the sum wraps, and `~(align - 1)` complements 64 bits.
unfoldable pub align_up : ℕ → ℕ → ℕ
align_up value align = bit_and ((value + align + (word - 1)) % word) (word - 1 - (align - 1))

-- The pointer, or `none` for the null pointer, and the new state.
unfoldable pub malloc : Heap → ℕ → Option ℕ × Heap
malloc h size =
    if size == 0
    then (none, h)
    else let start = align_up h.offset 16 in
      if ltb heap_size ((start + size) % word)
      then (none, record h { offset = start })
      else (some start, record h { offset = (start + size) % word })

unfoldable pub free : Heap → Option ℕ → Heap
free h ptr = h
