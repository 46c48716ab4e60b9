-- ===== src/Vfs/Files.antt =====
-- Writing, appending and reading files.
use wnu.Prelude.{
  ℕ, inl, inr, ◌≡◌, refl, true, false, Option, none, some, List, ltb, length, arith, Option-cases,
  if◌then◌else◌,
}
use wnu.Mem.{Bytes}
use wnu.Mem.{slice}
use wnu.Str.{Str, string_equal}
use wnu.Vfs.{
  Node, NodeType, file, Vfs, find_node, modify, is_dir_type, type_is_dir, write_node, append_node,
  write_file, append_file, read_file, max_data,
}
use wnu.Vfs.Path.{valid_path}
use wnu.Vfs.Path.Laws.{IsValid, IsValid-of_valid_path, IsValid→valid_path}
use wnu.Vfs.Table.{
  get_node, map_node, length-modify, node_at-find_node, get_elem?-eq-get_node, get_node_found,
  get_node-modify_found,
}
use wnu.Vfs.Unique.{IsUnique, modify_found-IsUnique}

-- A successful write through the node at `p`: it is a file, and `f` was applied to it alone.
pub record Updated (f : Node → Node) (s : Vfs) (p : Str) (s' : Vfs) : Type 0 where
  pub valid : IsValid p
  pub node : Node
  pub at_path : get_node s.nodes p ≡ some node
  pub is_file : node.type ≡ file
  pub lookups :
      (q : Str)
      → get_node s'.nodes q
        ≡ (if string_equal p q then map_node f (get_node s.nodes q) else get_node s.nodes q)
  pub unique : IsUnique s.nodes → IsUnique s'.nodes
  pub capacity : length s'.nodes ≡ length s.nodes

file_of_not_dir : (t : NodeType) → is_dir_type t ≡ false → t ≡ file
file_of_not_dir t h = ground arith

update-Updated :
    (f : Node → Node) (s : Vfs) (p : Str) (i : ℕ)
    → ((m : Node) → ((f m).used ≡ m.used) × ((f m).path ≡ m.path))
    → valid_path (some p) ≡ true
    → find_node s.nodes p ≡ some i
    → type_is_dir (get_node s.nodes p) ≡ false
    → Updated f s p (record s { nodes = modify s.nodes i f })
update-Updated f s p i keep v e t =
    let (n, h) = get_node_found s.nodes p i e in
    record {
      valid = IsValid-of_valid_path p v;
      node = n;
      at_path = h;
      is_file = file_of_not_dir n.type (rw h at t);
      lookups = λ q. get_node-modify_found s.nodes p i f q keep e;
      unique = modify_found-IsUnique s.nodes p i f keep e;
      capacity = length-modify s.nodes i f;
    }

-- wnu_vfs_write_file clips the size to the array.
abbrev pub clip : ℕ → ℕ
clip size = if ltb max_data size then max_data else size

pub write_file-Updated :
    (s : Vfs) (p : Str) (src : List ℕ) (size : ℕ)
    → (write_file s p (some src) size).1 ≡ true
    → Updated (write_node src (clip size)) s p (write_file s p (some src) size).0
unfolding write_file
write_file-Updated s p src size h = elim (Option-cases (find_node s.nodes p)) [
  | inl e ↦ absurd (ground arith)
  | inr (i, e) ↦
      let done : (write_file s p (some src) size).0
          ≡ record s { nodes = modify s.nodes i (write_node src (clip size)) } =
        ground arith in
      rw done (
        update-Updated (write_node src (clip size)) s p i (unfold write_node in λ m. (refl, refl))
          (ground arith) e (ground (arith, get_elem?-eq-get_node s.nodes p i e)))
]

pub append_file-Updated :
    (s : Vfs) (p : Str) (src : List ℕ) (size : ℕ)
    → (append_file s p (some src) size).1 ≡ true
    → Updated (append_node src size) s p (append_file s p (some src) size).0
unfolding append_file
append_file-Updated s p src size h = elim (Option-cases (find_node s.nodes p)) [
  | inl e ↦ absurd (ground arith)
  | inr (i, e) ↦
      let done : (append_file s p (some src) size).0
          ≡ record s { nodes = modify s.nodes i (append_node src size) } =
        ground arith in
      rw done (
        update-Updated (append_node src size) s p i (unfold append_node in λ m. (refl, refl))
          (ground arith) e (ground (arith, get_elem?-eq-get_node s.nodes p i e)))
]

pub write_file_failed :
    (s : Vfs) (p : Str) (src : Option (List ℕ)) (size : ℕ)
    → (write_file s p src size).1 ≡ false
    → (write_file s p src size).0 ≡ s
unfolding write_file
write_file_failed s p none size h = refl
write_file_failed s p (some src) size h = ground arith

pub append_file_failed :
    (s : Vfs) (p : Str) (src : Option (List ℕ)) (size : ℕ)
    → (append_file s p src size).1 ≡ false
    → (append_file s p src size).0 ≡ s
unfolding append_file
append_file_failed s p none size h = refl
append_file_failed s p (some src) size h = ground arith

-- The bytes that a reader of `read_file` sees.
abbrev pub seen : Option (Bytes × ℕ) → Option (List ℕ)
seen none = none
seen (some (b, n)) = some (slice b 0 n)

-- What a lookup gives to a reader.
abbrev pub file_bytes : Option Node → Option (List ℕ)
file_bytes none = none
file_bytes (some n) = if is_dir_type n.type then none else some (slice n.bytes 0 n.size)

pub read_file-eq-file_bytes :
    (s : Vfs) (p : Str) → IsValid p → seen (read_file s p) ≡ file_bytes (get_node s.nodes p)
unfolding read_file
read_file-eq-file_bytes s p v = ground (arith, IsValid→valid_path v, node_at-find_node s.nodes p)
