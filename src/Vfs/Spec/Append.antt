-- ===== src/Vfs/Spec/Append.antt =====
-- wnu_vfs_append_file against the abstract file system.
use wnu.Prelude.{
  ℕ, ◌+◌, ◌-◌, ◌%◌, ◌≤◌, ◌≡◌, inl, inr, refl, ap, ◌∙◌, ◌&&◌, Option, none, some, List, ◌++◌, length,
  take, min, ltb, arith, Bool-cases, Option-cases, if◌then◌else◌,
}
use wnu.Mem.{slice, length-slice}
use wnu.Str.{Str}
use wnu.Str.Laws.{string_equal_iff}
use wnu.Vfs.{Node, Vfs, find_node, append_file, append_node, copy_bytes, max_data, size_mod}
use wnu.Vfs.Path.{valid_path}
use wnu.Vfs.Table.{get_node-eq-none, get_node_found, get_elem?-eq-get_node}
use wnu.Vfs.Data.{slice-copy_bytes_append}
use wnu.Vfs.Files.{Updated, append_file-Updated, append_file_failed}
use wnu.Vfs.Inv.{IsWellFormed}
use wnu.Vfs.Spec.{Entry, folder, content, view, put, bytes_of, is_some}

-- A file with as many of the new bytes as the array has room for.
abbrev pub grown : List ℕ → ℕ → Option Entry → Option Entry
grown src size none = none
grown src size (some folder) = some folder
grown src size (some (content b)) = some (content (b ++ take (min size (max_data - length b)) src))

append_result :
    (s : Vfs) (p : Str) (src : List ℕ) (size : ℕ)
    → (append_file s p (some src) size).1 ≡ (valid_path (some p) && is_some (bytes_of (view s p)))
unfolding append_file
append_result s p src size = elim (Option-cases (find_node s.nodes p)) [
  | inl e ↦ ground (arith, get_node-eq-none s.nodes p e)
  | inr (i, e) ↦
      ground (arith, (get_node_found s.nodes p i e).1, get_elem?-eq-get_node s.nodes p i e)
]

-- No `size_t` operation of the append wraps.
append_sizes :
    (src : List ℕ) (size : ℕ) (m : Node)
    → m.size ≤ max_data
    → (append_node src size m).size ≡ m.size + min size (max_data - m.size)
unfolding append_node
append_sizes src size m h = ground arith

type_append : (src : List ℕ) (size : ℕ) (m : Node) → (append_node src size m).type ≡ m.type
unfolding append_node
type_append src size m = refl

append_slice :
    (src : List ℕ) (size : ℕ) (m : Node)
    → m.size ≤ max_data
    → size ≤ length src
    → slice (append_node src size m).bytes 0 (append_node src size m).size
      ≡ slice m.bytes 0 m.size ++ take (min size (max_data - m.size)) src
append_slice src size m h fits =
    ap (slice (append_node src size m).bytes 0) (append_sizes src size m h)
    ∙ ap (λ k. slice k 0 (m.size + min size (max_data - m.size))) bytes
    ∙ slice-copy_bytes_append m.bytes m.size src (min size (max_data - m.size)) (omega arith)
  where
    clipped :
        (if ltb ((max_data + size_mod - m.size) % size_mod) size
          then (max_data + size_mod - m.size) % size_mod
          else size)
        ≡ min size (max_data - m.size)
    clipped = ground arith

    bytes :
        (append_node src size m).bytes
        ≡ copy_bytes m.bytes m.size src 0 (min size (max_data - m.size))
    bytes = unfold append_node in ap (copy_bytes m.bytes m.size src 0) clipped

-- On a well-formed file system an append of `size` bytes from a buffer that has them succeeds
-- exactly on a valid path that holds a file. Then as many of the bytes as fit in 4096 follow the
-- old ones, and no other path changes.
pub append_file_refines :
    (s : Vfs) (p : Str) (src : List ℕ) (size : ℕ)
    → IsWellFormed s
    → size ≤ length src
    → ((append_file s p (some src) size).1 ≡ (valid_path (some p) && is_some (bytes_of (view s p))))
      × ((q : Str)
          → view (append_file s p (some src) size).0 q ≡ (
              if (append_file s p (some src) size).1
              then put p (grown src size (view s p)) (view s) q
              else view s q))
append_file_refines s p src size w h = (
  append_result s p src size,
  λ q. elim (Bool-cases (append_file s p (some src) size).1) [
    | inl e ↦ appended q (append_file-Updated s p src size e) ∙ rw e
    | inr e ↦ ap (λ v. view v q) (append_file_failed s p (some src) size e) ∙ rw e
  ],
)
  where
    appended :
        (q : Str)
        → Updated (append_node src size) s p (append_file s p (some src) size).0
        → view (append_file s p (some src) size).0 q ≡ put p (grown src size (view s p)) (view s) q
    appended q u =
        let fits = w.sized p u.node u.at_path in
        ground (
          arith,
          u.lookups q,
          u.at_path,
          u.is_file,
          string_equal_iff p q,
          type_append src size u.node,
          append_slice src size u.node fits h,
          length-slice u.node.bytes 0 u.node.size,
        )
