-- ===== src/Vfs/Ops.antt =====
-- What each operation does to the lookups, on success and on failure.
use wnu.Prelude.{
  length, ℕ, ◌+◌, ◌≡◌, ◌≢◌, inl, inr, refl, sym, ap, ◌∙◌, true, false, none, some, [], ◌&&◌, ◌%◌,
  get_elem?, arith, Option-cases, if◌then◌else◌,
}
use wnu.Str.{Str, string_equal, string_copy}
use wnu.Str.Laws.{string_equal_iff, string_copy_fits}
use wnu.Vfs.{
  Node, NodeType, Vfs, find_node, free_slot, modify, exists, create, alloc_node, type_is_dir,
  parent_exists_and_is_dir, size_mod, delete, has_child,
}
use wnu.Vfs.Path.{root, max_name}
use wnu.Vfs.Path.Laws.{IsValid, IsValid-of_valid_path}
use wnu.Vfs.Path.Parent.{parent, below-parent, parent-ne}
use wnu.Vfs.Table.{
  get_node, node_at-find_node, get_node-eq-none, modify-modify, get_node_found, length-modify,
  get_node-modify_free, get_elem?-eq-get_node,
}
use wnu.Vfs.Unique.{IsUnique, modify_free-IsUnique, get_node-modify_freed, modify_freed-IsUnique}
use wnu.Vfs.Children.{has_child_of_below}

-- The two writes that make a node: those of alloc_node and those of the caller.
abbrev pub allocated : Vfs → Node → Node
allocated s n = record n { used = true; inode = s.next_inode; size = 0; path = [] }

abbrev pub named : NodeType → Str → Node → Node
named t p n = record n { type = t; size = 0; path = string_copy n.path p max_name }

abbrev made : NodeType → Vfs → Str → Node → Node
made t s p n = named t p (allocated s n)

-- What a successful creation went through.
record Creates (t : NodeType) (s : Vfs) (p : Str) : Type 0 where
  valid : IsValid p
  below_root : p ≢ root
  absent : get_node s.nodes p ≡ none
  in_dir : type_is_dir (get_node s.nodes (parent p)) ≡ true
  slot : ℕ
  is_free : free_slot s.nodes ≡ some slot
  result : (create t s p).0 ≡ record {
    nodes = modify (modify s.nodes slot (allocated s)) slot (named t p);
    next_inode = (s.next_inode + 1) % size_mod;
  }

-- A call that does not succeed changes nothing.
pub create_failed :
    (t : NodeType) (s : Vfs) (p : Str) → (create t s p).1 ≡ false → (create t s p).0 ≡ s
unfolding create
create_failed t s p h = ground arith

find_node_of_not_exists : (s : Vfs) (p : Str) → exists s p ≡ false → find_node s.nodes p ≡ none
unfolding exists
find_node_of_not_exists s p h = elim (Option-cases (find_node s.nodes p)) [
  | inl e ↦ e
  | inr (i, e) ↦ absurd (ground arith)
]

create-Creates : (t : NodeType) (s : Vfs) (p : Str) → (create t s p).1 ≡ true → Creates t s p
unfolding create alloc_node parent_exists_and_is_dir
create-Creates t s p h = elim (Option-cases (free_slot s.nodes)) [
  | inl e ↦ absurd (ground arith)
  | inr (i, e) ↦ record {
    valid = IsValid-of_valid_path p (ground arith);
    below_root = ground (arith, string_equal_iff p root);
    absent = get_node-eq-none s.nodes p (find_node_of_not_exists s p (ground arith));
    in_dir = ap type_is_dir (sym (node_at-find_node s.nodes (parent p))) ∙ ground arith;
    slot = i;
    is_free = e;
    result = ground arith;
  }
]

-- A successful creation: the path is new, its parent is a directory, and the lookups gain one
-- empty node at the path.
pub record Created (t : NodeType) (s : Vfs) (p : Str) (s' : Vfs) : Type 0 where
  pub valid : IsValid p
  pub below_root : p ≢ root
  pub absent : get_node s.nodes p ≡ none
  pub in_dir : type_is_dir (get_node s.nodes (parent p)) ≡ true
  pub node : Node
  pub is_new : (node.type ≡ t) × (node.size ≡ 0)
  pub lookups :
      (q : Str) → get_node s'.nodes q ≡ (if string_equal p q then some node else get_node s.nodes q)
  pub unique : IsUnique s.nodes → IsUnique s'.nodes
  pub capacity : length s'.nodes ≡ length s.nodes

pub create-Created :
    (t : NodeType) (s : Vfs) (p : Str) → (create t s p).1 ≡ true → Created t s p (create t s p).0
create-Created t s p h =
    let c = create-Creates t s p h in
    let new : (m : Node) → ((made t s p m).used ≡ true) × ((made t s p m).path ≡ p) =
      λ m. (refl, string_copy_fits [] p max_name c.valid.fits) in
    let (m, e) = get_node-modify_free s.nodes p c.slot (made t s p) new c.is_free c.absent in
    let one = modify-modify s.nodes c.slot (allocated s) (named t p) in
    record {
      valid = c.valid;
      below_root = c.below_root;
      absent = c.absent;
      in_dir = c.in_dir;
      node = made t s p m;
      is_new = (refl, refl);
      lookups = λ q. rw (c.result, one) (e q);
      unique = λ u.
          rw (c.result, one)
            (modify_free-IsUnique s.nodes p c.slot (made t s p) new c.is_free c.absent u);
      capacity = rw (c.result, one) (length-modify s.nodes c.slot (made t s p));
    }

-- What a successful deletion went through.
record Deletes (s : Vfs) (p : Str) : Type 0 where
  valid : IsValid p
  below_root : p ≢ root
  index : ℕ
  found : find_node s.nodes p ≡ some index
  kept : (type_is_dir (get_elem? s.nodes index) && has_child s.nodes 0 index p) ≡ false
  result : (delete s p).0 ≡ record s { nodes = modify s.nodes index λ n. record n { used = false } }

pub delete_failed : (s : Vfs) (p : Str) → (delete s p).1 ≡ false → (delete s p).0 ≡ s
unfolding delete
delete_failed s p h = ground arith

delete-Deletes : (s : Vfs) (p : Str) → (delete s p).1 ≡ true → Deletes s p
unfolding delete
delete-Deletes s p h = elim (Option-cases (find_node s.nodes p)) [
  | inl e ↦ absurd (ground arith)
  | inr (i, e) ↦ record {
    valid = IsValid-of_valid_path p (ground arith);
    below_root = ground (arith, string_equal_iff p root);
    index = i;
    found = e;
    kept = ground arith;
    result = ground arith;
  }
]

-- A successful deletion: the lookups lose the path and nothing else, and no path has it as parent.
pub record Deleted (s : Vfs) (p : Str) (s' : Vfs) : Type 0 where
  pub valid : IsValid p
  pub below_root : p ≢ root
  pub lookups :
      (q : Str) → get_node s'.nodes q ≡ (if string_equal p q then none else get_node s.nodes q)
  pub unique : IsUnique s'.nodes
  pub capacity : length s'.nodes ≡ length s.nodes
  pub present : (n : Node) × (get_node s.nodes p ≡ some n)
  pub no_child :
      (q : Str) (n : Node)
      → get_node s.nodes q ≡ some n
      → IsValid q
      → q ≢ root
      → type_is_dir (get_node s.nodes (parent q)) ≡ true
      → parent q ≢ p

pub delete-Deleted :
    (s : Vfs) (p : Str) → IsUnique s.nodes → (delete s p).1 ≡ true → Deleted s p (delete s p).0
delete-Deleted s p u h =
    let d = delete-Deletes s p h in
    record {
      valid = d.valid;
      below_root = d.below_root;
      lookups =
          λ q. rw d.result (get_node-modify_freed s.nodes p d.index _ q (λ m. refl) d.found u);
      unique = rw d.result (modify_freed-IsUnique s.nodes p d.index _ (λ m. refl) d.found u);
      capacity = rw d.result (length-modify s.nodes d.index _);
      present = get_node_found s.nodes p d.index d.found;
      no_child = λ q n at_q v nr in_dir e.
          let is_child =
            has_child_of_below s.nodes 0 d.index d.index p q n d.found (omega arith)
              (below-parent q p v nr d.below_root e) (λ same. parent-ne q v nr (e ∙ same)) at_q in
          ground (arith, d.kept, get_elem?-eq-get_node s.nodes p d.index d.found);
    }
