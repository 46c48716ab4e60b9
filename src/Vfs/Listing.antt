-- ===== src/Vfs/Listing.antt =====
-- wnu_vfs_list_dir and wnu_vfs_tree of src/fs/vfs.c: the characters that they write to the console.
use wnu.Prelude.{
  ℕ, zero, suc, ◌+◌, not, ◌&&◌, Option, none, some, List, [], ◌∷◌, ◌++◌, if◌then◌else◌,
}
use wnu.Str.{Str, codes, string_equal}
use wnu.Vfs.Path.{root, valid_path, path_basename, is_direct_child}
use wnu.Vfs.{Node, Vfs, is_dir_type, find_node, node_at, exists}

abbrev pub newline : ℕ
newline = b'\n'

-- One line of the listing.
unfoldable pub list_line : Node → Str
unfolding path_basename
list_line n =
    path_basename n.path ++ ((if is_dir_type n.type then codes "/" else []) ++ newline ∷ [])

unfoldable pub list_children : List Node → Str → Str
unfolding is_direct_child list_line
list_children [] path = []
list_children (n ∷ ns) path =
    let rest = list_children ns path in
    if not n.used
    then rest
    else if not (is_direct_child path n.path)
    then rest
    else list_line n ++ rest

unfoldable pub list_dir : Vfs → Str → Str
unfolding valid_path find_node node_at list_children
list_dir s path =
    if not (valid_path (some path))
    then codes "invalid path\n"
    else elim (node_at s.nodes (find_node s.nodes path)) [
      | none ↦ codes "not found\n"
      | some n ↦
          if not (is_dir_type n.type) then codes "not a directory\n" else list_children s.nodes path
    ]

unfoldable pub tree_indent : ℕ → Str
tree_indent zero = []
tree_indent (suc depth) = codes "  " ++ tree_indent depth

-- The line that tree_walk writes for the node at `path`.
unfoldable pub tree_line : Node → Str → ℕ → Str
unfolding tree_indent string_equal path_basename
tree_line n path depth =
    tree_indent depth
    ++ ((if string_equal path root then codes "/" else path_basename n.path)
        ++ ((if is_dir_type n.type && not (string_equal path root) then codes "/" else [])
            ++ newline ∷ []))

-- The text of two calls in a row; `none` means that one ran out of fuel.
abbrev pub then_write : Option Str → Option Str → Option Str
then_write none b = none
then_write (some a) none = none
then_write (some a) (some b) = some (a ++ b)

-- The loop of tree_walk over the table, with the recursive call as an argument.
unfoldable pub walk_children : (Str → Option Str) → List Node → Str → Option Str
unfolding is_direct_child
walk_children walk [] path = some []
walk_children walk (n ∷ ns) path =
    let rest = walk_children walk ns path in
    if not n.used
    then rest
    else if not (is_direct_child path n.path)
    then rest
    else then_write (walk n.path) rest

-- The recursion of tree_walk takes fuel, one for each level.
unfoldable pub tree_walk : ℕ → Vfs → Str → ℕ → Option Str
unfolding find_node node_at tree_line walk_children
tree_walk zero s path depth = none
tree_walk (suc fuel) s path depth = elim (node_at s.nodes (find_node s.nodes path)) [
  | none ↦ some []
  | some n ↦
      if not (is_dir_type n.type)
      then some (tree_line n path depth)
      else then_write (some (tree_line n path depth))
          (walk_children (λ p. tree_walk fuel s p (depth + 1)) s.nodes path)
]

-- Levels below a path of at least one character, in a table of paths below 64 characters.
abbrev pub tree_fuel : ℕ
tree_fuel = 64

unfoldable pub tree : Vfs → Str → Option Str
unfolding valid_path exists tree_walk
tree s path =
    if not (valid_path (some path))
    then some (codes "tree: invalid path\n")
    else if not (exists s path)
    then some (codes "tree: not found\n")
    else tree_walk tree_fuel s path 0
