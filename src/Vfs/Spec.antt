-- ===== src/Vfs/Spec.antt =====
-- The abstract file system, a map from paths to directories and files, and the operations of
-- src/fs/vfs.c against it.
pub mod Append
use wnu.Prelude.{
  ℕ, zero, suc, ◌+◌, ◌-◌, ◌<◌, ◌≤◌, ◌≡◌, ◌≢◌, ◌⊎◌, ◌↔◌, inl, inr, refl, sym, ap, ◌∙◌, Bool, true,
  false, not, ◌&&◌, Option, none, some, List, [], ◌∷◌, ◌++◌, length, take, min, arith, Bool-cases,
  Option-cases, if◌then◌else◌,
}
use wnu.Mem.{slice, length-slice}
use wnu.Str.{Str, string_equal}
use wnu.Str.Laws.{string_equal_iff}
use wnu.Vfs.{
  Node, NodeType, file, dir, Vfs, type_is_dir, is_dir_type, free_slot, find_node, exists,
  parent_exists_and_is_dir, alloc_node, has_child, create, create_file, create_dir, delete,
  write_file, append_file, read_file, write_node, append_node, max_data, size_mod,
}
use wnu.Vfs.Path.{root, valid_path}
use wnu.Vfs.Path.Laws.{IsValid, IsValid-of_valid_path, IsValid→valid_path}
use wnu.Vfs.Path.Parent.{parent}
use wnu.Vfs.Table.{
  get_node, map_node, node_at-find_node, get_node-eq-none, get_node_found, get_elem?-eq-get_node,
}
use wnu.Vfs.Data.{slice-copy_bytes, slice-copy_bytes_append}
use wnu.Vfs.Ops.{Created, create-Created, create_failed, Deleted, delete-Deleted, delete_failed}
use wnu.Vfs.Files.{
  Updated, clip, seen, file_bytes, read_file-eq-file_bytes, write_file-Updated, append_file-Updated,
  write_file_failed, append_file_failed,
}
use wnu.Vfs.Inv.{IsWellFormed}
use wnu.Vfs.Descend.{IsBelow-of_has_child, child_of_below}

pub data Entry : Type 0 where
  folder : Entry
  content : List ℕ → Entry

abbrev pub entry : Node → Entry
entry n = if is_dir_type n.type then folder else content (slice n.bytes 0 n.size)

abbrev pub map_entry : Option Node → Option Entry
map_entry none = none
map_entry (some n) = some (entry n)

-- What the table says of a path.
abbrev pub view : Vfs → Str → Option Entry
view s p = map_entry (get_node s.nodes p)

-- A map with one path given anew.
abbrev pub put : Str → Option Entry → (Str → Option Entry) → Str → Option Entry
put p e fs q = if string_equal p q then e else fs q

abbrev pub is_folder : Option Entry → Bool
is_folder none = false
is_folder (some folder) = true
is_folder (some (content b)) = false

abbrev pub is_absent : Option Entry → Bool
is_absent none = true
is_absent (some e) = false

abbrev pub is_some {ℓ} : {A : Type ℓ} → Option A → Bool
is_some none = false
is_some (some a) = true

-- A new entry may be made: the path is valid, not "/", and new, and its parent is a directory.
abbrev pub can_create : (Str → Option Entry) → Str → Bool
can_create fs p =
    valid_path (some p)
    && (not (string_equal p root) && (is_absent (fs p) && is_folder (fs (parent p))))

-- The entry that a creation makes.
abbrev pub fresh : NodeType → Entry
fresh dir = folder
fresh file = content []

is_folder-view : (o : Option Node) → is_folder (map_entry o) ≡ type_is_dir o
is_folder-view none = refl
is_folder-view (some n) = ground arith

entry_of_new : (t : NodeType) (n : Node) → (n.type ≡ t) → (n.size ≡ 0) → entry n ≡ fresh t
unfolding slice
entry_of_new dir n h k = ground arith
entry_of_new file n h k = ground (arith, ap (slice n.bytes 0) k)

exists-view : (s : Vfs) (p : Str) → exists s p ≡ not (is_absent (view s p))
unfolding exists
exists-view s p = elim (Option-cases (find_node s.nodes p)) [
  | inl e ↦ ground (arith, get_node-eq-none s.nodes p e)
  | inr (i, e) ↦ ground (arith, (get_node_found s.nodes p i e).1)
]

parent-view : (s : Vfs) (p : Str) → parent_exists_and_is_dir s p ≡ is_folder (view s (parent p))
unfolding parent_exists_and_is_dir
parent-view s p = rw (node_at-find_node, is_folder-view)

create_result :
    (t : NodeType) (s : Vfs) (p : Str)
    → (create t s p).1 ≡ (can_create (view s) p && is_some (free_slot s.nodes))
unfolding create alloc_node
create_result t s p = ground (arith, exists-view s p, parent-view s p)

view-create :
    (t : NodeType) (s : Vfs) (p q : Str)
    → (create t s p).1 ≡ true
    → view (create t s p).0 q ≡ put p (some (fresh t)) (view s) q
view-create t s p q h =
    let c = create-Created t s p h in
    ground (arith, c.lookups q, entry_of_new t c.node c.is_new.0 c.is_new.1)

-- A creation succeeds exactly where the abstract file system allows it and the table has a free
-- slot. Then the path, and no other, gets the new empty entry; otherwise no path changes.
pub create_refines :
    (t : NodeType) (s : Vfs) (p : Str)
    → ((create t s p).1 ≡ (can_create (view s) p && is_some (free_slot s.nodes)))
      × ((q : Str)
          → view (create t s p).0 q
            ≡ (if (create t s p).1 then put p (some (fresh t)) (view s) q else view s q))
create_refines t s p = (
  create_result t s p,
  λ q. elim (Bool-cases (create t s p).1) [
    | inl h ↦ view-create t s p q h ∙ rw h
    | inr h ↦ ap (λ v. view v q) (create_failed t s p h) ∙ rw h
  ],
)

-- The path is no entry's parent.
abbrev pub IsChildless : (Str → Option Entry) → Str → Type 0
IsChildless fs p = (q : Str) → is_some (fs q) ≡ true → q ≢ root → parent q ≢ p

-- What the abstract file system lets go of.
abbrev pub CanDelete : (Str → Option Entry) → Str → Type 0
CanDelete fs p = IsValid p × (p ≢ root) × (is_some (fs p) ≡ true) × IsChildless fs p

delete_needs : (s : Vfs) (p : Str) → IsWellFormed s → (delete s p).1 ≡ true → CanDelete (view s) p
delete_needs s p w h =
    let d = delete-Deleted s p w.unique h in
    (d.valid, d.below_root, ground (arith, d.present.1), λ q there nr. childless q d there nr)
  where
    childless :
        (q : Str) → Deleted s p (delete s p).0 → is_some (view s q) ≡ true → q ≢ root → parent q ≢ p
    childless q d there nr = elim (Option-cases (get_node s.nodes q)) [
      | inl e ↦ absurd (ground arith)
      | inr (n, e) ↦ d.no_child q n e (w.valid q n e) nr (w.closed q n e nr)
    ]

-- The loop finds nothing in the way of a path without children.
has_child-IsChildless :
    (s : Vfs) (p : Str) (i : ℕ)
    → IsWellFormed s
    → IsValid p
    → IsChildless (view s) p
    → has_child s.nodes 0 i p ≡ false
has_child-IsChildless s p i w v childless = elim (Bool-cases (has_child s.nodes 0 i p)) [
  | inr e ↦ e
  | inl e ↦
      let (q, n, at_q, b) = IsBelow-of_has_child s.nodes 0 i p e in
      let (c, m, at_c, nr, up) = child_of_below s p w v (suc (length q)) q n (omega arith) at_q b in
      absurd (childless c (ground (arith, at_c)) nr up)
]

delete_suffices :
    (s : Vfs) (p : Str) → IsWellFormed s → CanDelete (view s) p → (delete s p).1 ≡ true
unfolding delete
delete_suffices s p w (v, nr, there, childless) = elim (Option-cases (find_node s.nodes p)) [
  | inl e ↦ absurd (ground (arith, get_node-eq-none s.nodes p e))
  | inr (i, e) ↦ ground (
    arith,
    IsValid→valid_path v,
    string_equal_iff p root,
    has_child-IsChildless s p i w v childless,
  )
]

-- On a well-formed file system a deletion succeeds exactly on a valid path that is there, is not
-- "/", and is no entry's parent. It then removes that path and nothing else; a call that fails
-- changes no path.
pub delete_refines :
    (s : Vfs) (p : Str)
    → IsWellFormed s
    → (((delete s p).1 ≡ true) ↔ CanDelete (view s) p)
      × ((q : Str)
          → view (delete s p).0 q ≡ (if (delete s p).1 then put p none (view s) q else view s q))
delete_refines s p w = (
  (delete_needs s p w, delete_suffices s p w),
  λ q. elim (Bool-cases (delete s p).1) [
    | inl h ↦ ground (arith, (delete-Deleted s p w.unique h).lookups q)
    | inr h ↦ ap (λ v. view v q) (delete_failed s p h) ∙ rw h
  ],
)

-- The bytes of an entry, if it is a file.
abbrev pub bytes_of : Option Entry → Option (List ℕ)
bytes_of none = none
bytes_of (some folder) = none
bytes_of (some (content b)) = some b

file_bytes-view : (o : Option Node) → file_bytes o ≡ bytes_of (map_entry o)
file_bytes-view none = refl
file_bytes-view (some n) = ground arith

-- Reading a valid path gives the bytes of the file there, and the null pointer for a directory or
-- a path that is not there.
pub read_file_refines : (s : Vfs) (p : Str) → IsValid p → seen (read_file s p) ≡ bytes_of (view s p)
read_file_refines s p v = read_file-eq-file_bytes s p v ∙ file_bytes-view (get_node s.nodes p)

write_result :
    (s : Vfs) (p : Str) (src : List ℕ) (size : ℕ)
    → (write_file s p (some src) size).1 ≡ (valid_path (some p) && is_some (bytes_of (view s p)))
unfolding write_file
write_result s p src size = elim (Option-cases (find_node s.nodes p)) [
  | inl e ↦ ground (arith, get_node-eq-none s.nodes p e)
  | inr (i, e) ↦
      ground (arith, (get_node_found s.nodes p i e).1, get_elem?-eq-get_node s.nodes p i e)
]

entry-write_node :
    (src : List ℕ) (n : ℕ) (m : Node)
    → n ≤ length src
    → m.type ≡ file
    → entry (write_node src n m) ≡ content (take n src)
unfolding write_node
entry-write_node src n m h t = ground (arith, slice-copy_bytes m.bytes 0 src n h)

-- A write of `size` bytes from a buffer that has them succeeds exactly on a valid path that holds a file. Then the file holds
-- the first bytes of the buffer, 4096 at most, and no other path changes.
pub write_file_refines :
    (s : Vfs) (p : Str) (src : List ℕ) (size : ℕ)
    → size ≤ length src
    → ((write_file s p (some src) size).1 ≡ (valid_path (some p) && is_some (bytes_of (view s p))))
      × ((q : Str)
          → view (write_file s p (some src) size).0 q ≡ (
              if (write_file s p (some src) size).1
              then put p (some (content (take (min size max_data) src))) (view s) q
              else view s q))
write_file_refines s p src size h = (
  write_result s p src size,
  λ q. elim (Bool-cases (write_file s p (some src) size).1) [
    | inl e ↦ written q (write_file-Updated s p src size e) ∙ rw e
    | inr e ↦ ap (λ v. view v q) (write_file_failed s p (some src) size e) ∙ rw e
  ],
)
  where
    clipped : clip size ≡ min size max_data
    clipped = ground arith

    written :
        (q : Str)
        → Updated (write_node src (clip size)) s p (write_file s p (some src) size).0
        → view (write_file s p (some src) size).0 q
          ≡ put p (some (content (take (min size max_data) src))) (view s) q
    written q u = ground (
      arith,
      u.lookups q,
      u.at_path,
      u.is_file,
      string_equal_iff p q,
      clipped,
      entry-write_node src (min size max_data) u.node (omega arith),
    )
