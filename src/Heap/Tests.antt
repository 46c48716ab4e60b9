-- ===== src/Heap/Tests.antt =====
-- The witnesses of the allocator's theorems.
use wnu.Prelude.{ℕ, ◌+◌, ◌-◌, ◌<◌, ◌≡◌, ◌⊎◌, ◌↔◌, none, some, List, [], ◌∷◌, arith}
use wnu.Heap.{Heap, init, heap_size, word, malloc}
use wnu.Heap.Laws.{
  requests, AreDisjoint, next_start, requests-AreDisjoint, malloc_refuses_iff, malloc_wraps,
}

-- Twenty bytes are taken.
abbrev used : Heap
used = record { offset = 20 }

abbrev sizes : List ℕ
sizes = 20 ∷ 0 ∷ 100 ∷ 2000000 ∷ 16 ∷ []

requests-AreDisjoint_example : AreDisjoint 0 (requests (init used) sizes)
requests-AreDisjoint_example =
    requests-AreDisjoint used sizes
      (omega arith, (omega arith, (omega arith, (omega arith, (omega arith, tt)))))

abbrev too_much : ℕ
too_much = 2000000

malloc_refuses_iff_example :
    ((malloc used too_much).0 ≡ none) ↔ ((too_much ≡ 0) ⊎ (heap_size < next_start used + too_much))
malloc_refuses_iff_example = malloc_refuses_iff used too_much (omega arith) (omega arith)

malloc_wraps_example :
    malloc used (word - next_start used) ≡ (some (next_start used), record { offset = 0 })
malloc_wraps_example = malloc_wraps used (omega arith) (omega arith)
