-- ===== src/Vfs/Tree.antt =====
-- The recursion of tree_walk and the length of the paths that it visits.
use wnu.Prelude.{
  ap, ◌⊎◌, ◌++◌, ℕ, zero, suc, ◌+◌, ◌<◌, ◌≤◌, ◌≡◌, inl, inr, refl, true, false, Option, none, some,
  List, [], ◌∷◌, length, arith, Bool-cases, Option-cases,
}
use wnu.Str.{Str, codes, string_equal}
use wnu.Str.Laws.{string_equal_iff}
use wnu.Vfs.{Node, Vfs, exists, is_dir_type, find_node, node_at}
use wnu.Vfs.Path.{max_name, is_direct_child, valid_path}
use wnu.Vfs.Path.Laws.{IsValid, IsValid-of_valid_path}
use wnu.Vfs.Path.Child.{is_direct_child_iff, length-join}
use wnu.Vfs.Table.{get_node}
use wnu.Vfs.Inv.{IsWellFormed}
use wnu.Vfs.Listing.{walk_children, tree_walk, tree, tree_line, then_write, tree_fuel}

-- Every used node has a valid path.
abbrev pub UsedAreValid : List Node → Type 0
UsedAreValid [] = Unit
UsedAreValid (n ∷ ns) = (n.used ≡ true → IsValid n.path) × UsedAreValid ns

pub used_are_valid :
    (ns : List Node) → ((p : Str) (n : Node) → get_node ns p ≡ some n → IsValid p) → UsedAreValid ns
unfolding get_node
used_are_valid [] h = tt
used_are_valid (m ∷ ns) h = (
  λ u. h m.path m (ground (arith, string_equal_iff m.path m.path)),
  used_are_valid ns (λ p n e. later p n e (Bool-cases (string_equal m.path p))),
)
  where
    later :
        (p : Str) (n : Node)
        → get_node ns p ≡ some n
        → (string_equal m.path p ≡ true) ⊎ (string_equal m.path p ≡ false)
        → IsValid p
    later p n e c = elim (Bool-cases (m.used)) [
      | inl u ↦ elim c [ inl a ↦ h p m (ground arith) | inr a ↦ h p n (ground arith) ]
      | inr u ↦ h p n (ground arith)
    ]

-- A direct child has a longer path.
length-child : (p q : Str) → IsValid p → is_direct_child p q ≡ true → length p < length q
length-child p q v h =
    let (name, e, n) = (is_direct_child_iff p q v).0 h in
    omega (arith, length-join p name v n, ap (length {A = ℕ}) e)

then_write-some :
    (a b : Option Str)
    → (x : Str) × (a ≡ some x)
    → (y : Str) × (b ≡ some y)
    → (z : Str) × (then_write a b ≡ some z)
then_write-some none b (x, e) r = absurd (cc)
then_write-some (some a) none l (y, e) = absurd (cc)
then_write-some (some a) (some b) l r = (a ++ b, refl)

walk_children_total :
    (walk : Str → Option Str) (ns : List Node) (p : Str)
    → ((q : Str) → IsValid q → length p < length q → (out : Str) × (walk q ≡ some out))
    → IsValid p
    → UsedAreValid ns
    → (out : Str) × (walk_children walk ns p ≡ some out)
unfolding walk_children
walk_children_total walk [] p h v u = ([], refl)
walk_children_total walk (n ∷ ns) p h v u =
    let rest = walk_children_total walk ns p h v u.1 in
    elim (Bool-cases n.used) [
      | inr off ↦ rw off rest
      | inl on ↦ elim (Bool-cases (is_direct_child p n.path)) [
        | inr no_child ↦ rw (on, no_child) rest
        | inl child ↦
            rw (on, child)
              (then_write-some (walk n.path) (walk_children walk ns p)
                (h n.path (u.0 on) (length-child p n.path v child)) rest)
      ]
    ]

tree_walk_total :
    (fuel : ℕ) (s : Vfs) (p : Str) (depth : ℕ)
    → UsedAreValid s.nodes
    → IsValid p
    → max_name ≤ fuel + length p
    → (out : Str) × (tree_walk fuel s p depth ≡ some out)
unfolding tree_walk
tree_walk_total zero s p depth u v h = absurd (omega (arith, v.fits))
tree_walk_total (suc fuel) s p depth u v h =
    let rest =
      walk_children_total (λ q. tree_walk fuel s q (depth + 1)) s.nodes p
        (λ q vq longer. tree_walk_total fuel s q (depth + 1) u vq (omega arith)) v u in
    elim (Option-cases (node_at s.nodes (find_node s.nodes p))) [
      | inl e ↦ ([], ground arith)
      | inr (n, e) ↦ elim (Bool-cases (is_dir_type n.type)) [
        | inr not_dir ↦ (tree_line n p depth, ground arith)
        | inl is_dir ↦ (tree_line n p depth ++ rest.0, ground (arith, rest.1))
      ]
    ]

-- On a well-formed file system wnu_vfs_tree returns, whatever the path.
pub tree_total : (s : Vfs) (p : Str) → IsWellFormed s → (out : Str) × (tree s p ≡ some out)
unfolding tree
tree_total s p w = elim (Bool-cases (valid_path (some p))) [
  | inr e ↦ (codes "tree: invalid path\n", rw e)
  | inl e ↦ elim (Bool-cases (exists s p)) [
    | inr a ↦ (codes "tree: not found\n", rw (e, a))
    | inl a ↦
        let v = IsValid-of_valid_path p e in
        rw (e, a) (tree_walk_total tree_fuel s p 0 (used_are_valid s.nodes w.valid) v (omega arith))
  ]
]
