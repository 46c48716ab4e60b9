-- ===== src/Vfs/Inv.antt =====
-- The invariant of the file system of src/fs/vfs.c, and the operations against it.
use wnu.Prelude.{
  ℕ, ◌≤◌, ◌≡◌, ◌≢◌, inl, inr, refl, ap, ◌∙◌, true, Option, none, some, List, length, arith,
  Bool-cases,
}
use wnu.Str.{Str, string_equal}
use wnu.Str.Laws.{string_equal_iff}
use wnu.Vfs.{
  Node, NodeType, Vfs, type_is_dir, file, dir, create, create_file, create_dir, delete, write_file,
  append_file, write_node, append_node, max_data, max_nodes,
}
use wnu.Vfs.Path.{root}
use wnu.Vfs.Path.Laws.{IsValid}
use wnu.Vfs.Path.Parent.{parent}
use wnu.Vfs.Table.{get_node, map_node}
use wnu.Vfs.Unique.{IsUnique}
use wnu.Vfs.Ops.{Created, create-Created, create_failed, Deleted, delete-Deleted, delete_failed}
use wnu.Vfs.Files.{
  Updated, clip, write_file-Updated, append_file-Updated, write_file_failed, append_file_failed,
}

-- 128 slots, distinct valid paths, sizes within the data array, and a tree: the root is a
-- directory, and so is the parent of every other node.
pub record IsWellFormed (s : Vfs) : Type 0 where
  pub capacity : length s.nodes ≡ max_nodes
  pub unique : IsUnique s.nodes
  pub rooted : type_is_dir (get_node s.nodes root) ≡ true
  pub valid : (p : Str) (n : Node) → get_node s.nodes p ≡ some n → IsValid p
  pub sized : (p : Str) (n : Node) → get_node s.nodes p ≡ some n → n.size ≤ max_data
  pub closed :
      (p : Str) (n : Node)
      → get_node s.nodes p ≡ some n
      → p ≢ root
      → type_is_dir (get_node s.nodes (parent p)) ≡ true

Created-IsWellFormed :
    (t : NodeType) (s s' : Vfs) (p : Str) → IsWellFormed s → Created t s p s' → IsWellFormed s'
Created-IsWellFormed t s s' p w c = record {
  capacity = c.capacity ∙ w.capacity;
  unique = c.unique w.unique;
  rooted = ground (arith, c.lookups root, string_equal_iff p root, c.below_root, w.rooted);
  valid = λ q n h. ground (arith, c.lookups q, string_equal_iff p q, c.valid, w.valid q n);
  sized = λ q n h. ground (arith, c.lookups q, c.is_new, w.sized q n);
  closed = λ q n h nr. ground (
    arith,
    c.lookups q,
    c.lookups (parent q),
    c.absent,
    c.in_dir,
    string_equal_iff p q,
    string_equal_iff p (parent q),
    w.closed q n,
  );
}

Deleted-IsWellFormed : (s s' : Vfs) (p : Str) → IsWellFormed s → Deleted s p s' → IsWellFormed s'
Deleted-IsWellFormed s s' p w d = record {
  capacity = d.capacity ∙ w.capacity;
  unique = d.unique;
  rooted = ground (arith, d.lookups root, string_equal_iff p root, d.below_root, w.rooted);
  valid = λ q n h. ground (arith, d.lookups q, w.valid q n);
  sized = λ q n h. ground (arith, d.lookups q, w.sized q n);
  closed = λ q n h nr.
      let at_q : get_node s.nodes q ≡ some n = ground (arith, d.lookups q) in
      let in_dir = w.closed q n at_q nr in
      ground (
        arith,
        d.lookups (parent q),
        string_equal_iff p (parent q),
        d.no_child q n at_q (w.valid q n at_q) nr in_dir,
        in_dir,
      );
}

-- A write that keeps the type of a file and a size within the array.
Updated-IsWellFormed :
    (f : Node → Node) (s s' : Vfs) (p : Str)
    → ((m : Node) → (f m).type ≡ m.type)
    → ((m : Node) → m.size ≤ max_data → (f m).size ≤ max_data)
    → IsWellFormed s
    → Updated f s p s'
    → IsWellFormed s'
Updated-IsWellFormed f s s' p typed fits w u = record {
  capacity = u.capacity ∙ w.capacity;
  unique = u.unique w.unique;
  rooted = type_is_dir_kept root ∙ w.rooted;
  valid = λ q n h. let (m, at_q) = before q n h in w.valid q m at_q;
  sized = λ q n h. sized_after q n h;
  closed = λ q n h nr.
      let (m, at_q) = before q n h in type_is_dir_kept (parent q) ∙ w.closed q m at_q nr;
}
  where
    type_is_dir_map : (o : Option Node) → type_is_dir (map_node f o) ≡ type_is_dir o
    type_is_dir_map none = refl
    type_is_dir_map (some m) = rw (typed m)

    type_is_dir_kept :
        (q : Str) → type_is_dir (get_node s'.nodes q) ≡ type_is_dir (get_node s.nodes q)
    type_is_dir_kept q = elim (Bool-cases (string_equal p q)) [
      | inl e ↦ ap type_is_dir (u.lookups q) ∙ rw e (type_is_dir_map (get_node s.nodes q))
      | inr e ↦ ap type_is_dir (u.lookups q) ∙ rw e
    ]

    before :
        (q : Str) (n : Node)
        → get_node s'.nodes q ≡ some n
        → (m : Node) × (get_node s.nodes q ≡ some m)
    before q n h = ground (arith, u.lookups q)

    sized_after : (q : Str) (n : Node) → get_node s'.nodes q ≡ some n → n.size ≤ max_data
    sized_after q n h =
        let (m, at_q) = before q n h in ground (arith, u.lookups q, w.sized q m at_q, fits m)

write_node_fits :
    (src : List ℕ) (size : ℕ) (m : Node) → (write_node src (clip size) m).size ≤ max_data
unfolding write_node
write_node_fits src size m = ground arith

append_node_fits :
    (src : List ℕ) (size : ℕ) (m : Node)
    → m.size ≤ max_data
    → (append_node src size m).size ≤ max_data
unfolding append_node
append_node_fits src size m h = ground arith

pub create-IsWellFormed :
    (t : NodeType) (s : Vfs) (p : Str) → IsWellFormed s → IsWellFormed (create t s p).0
create-IsWellFormed t s p w = elim (Bool-cases (create t s p).1) [
  | inl h ↦ Created-IsWellFormed t s _ p w (create-Created t s p h)
  | inr h ↦ rw (create_failed t s p h) w
]

pub create_dir-IsWellFormed : (v : Vfs) (p : Str) → IsWellFormed v → IsWellFormed (create_dir v p).0
unfolding create_dir
create_dir-IsWellFormed v p w = create-IsWellFormed dir v p w

pub create_file-IsWellFormed :
    (v : Vfs) (p : Str) → IsWellFormed v → IsWellFormed (create_file v p).0
unfolding create_file
create_file-IsWellFormed v p w = create-IsWellFormed file v p w

pub delete-IsWellFormed : (s : Vfs) (p : Str) → IsWellFormed s → IsWellFormed (delete s p).0
delete-IsWellFormed s p w = elim (Bool-cases (delete s p).1) [
  | inl h ↦ Deleted-IsWellFormed s _ p w (delete-Deleted s p w.unique h)
  | inr h ↦ rw (delete_failed s p h) w
]

pub write_file-IsWellFormed :
    (s : Vfs) (p : Str) (src : Option (List ℕ)) (size : ℕ)
    → IsWellFormed s
    → IsWellFormed (write_file s p src size).0
write_file-IsWellFormed s p none size w =
    rw (write_file_failed s p none size (unfold write_file in refl)) w
write_file-IsWellFormed s p (some src) size w =
    elim (Bool-cases (write_file s p (some src) size).1) [
      | inl h ↦
          Updated-IsWellFormed (write_node src (clip size)) s _ p (unfold write_node in λ m. refl)
            (λ m _. write_node_fits src size m) w (write_file-Updated s p src size h)
      | inr h ↦ rw (write_file_failed s p (some src) size h) w
    ]

pub append_file-IsWellFormed :
    (s : Vfs) (p : Str) (src : Option (List ℕ)) (size : ℕ)
    → IsWellFormed s
    → IsWellFormed (append_file s p src size).0
append_file-IsWellFormed s p none size w =
    rw (append_file_failed s p none size (unfold append_file in refl)) w
append_file-IsWellFormed s p (some src) size w =
    elim (Bool-cases (append_file s p (some src) size).1) [
      | inl h ↦
          Updated-IsWellFormed (append_node src size) s _ p (unfold append_node in λ m. refl)
            (append_node_fits src size) w (append_file-Updated s p src size h)
      | inr h ↦ rw (append_file_failed s p (some src) size h) w
    ]
