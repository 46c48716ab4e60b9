-- ===== src/Vfs.antt =====
-- src/fs/vfs.c: the table of nodes and the operations on it.
-- The table is a list of nodes, a node pointer is its index. File data are functions from an
-- index, so that a write outside the array would show.
pub mod Path
pub mod Listing
pub mod Table
pub mod Tree
pub mod Spec
pub mod Run
pub mod Inv
pub mod Files
pub mod Data
pub mod Ops
pub mod Unique
pub mod Children
pub mod Descend
mod Tests
use Path.{max_name, slash, root, valid_path, parent_path, path_basename, is_direct_child}
use wnu.Prelude.{
  ℕ, zero, suc, ◌+◌, ◌-◌, ◌%◌, ◌^◌, Bool, true, false, not, ◌&&◌, Option, none, some, List, [], ◌∷◌,
  ◌++◌, ◌==◌, ltb, if◌then◌else◌, replicate, get_elem?, get_or,
}
use wnu.Mem.{Bytes}
use wnu.Str.{Str, codes, at, string_len, string_equal, string_starts_with, string_copy}

pub data NodeType : Type 0 where
  file dir : NodeType

pub record Node : Type 0 where
  pub used : Bool
  pub inode : ℕ
  pub type : NodeType
  pub path : Str
  pub bytes : Bytes
  pub size : ℕ

pub record Vfs : Type 0 where
  pub nodes : List Node
  pub next_inode : ℕ

-- WNU_VFS_MAX_NODES
abbrev pub max_nodes : ℕ
max_nodes = 128

-- WNU_VFS_MAX_DATA
abbrev pub max_data : ℕ
max_data = 4096

abbrev pub size_mod : ℕ
size_mod = 2 ^ 64

abbrev pub is_dir_type : NodeType → Bool
is_dir_type dir = true
is_dir_type file = false

-- The index after one more node.
abbrev pub shift : Option ℕ → Option ℕ
shift none = none
shift (some i) = some (suc i)

-- The index of the first used node with this path.
unfoldable pub find_node : List Node → Str → Option ℕ
find_node [] path = none
find_node (n ∷ ns) path =
    if n.used && string_equal n.path path then some 0 else shift (find_node ns path)

-- The search of `alloc_node`.
unfoldable pub free_slot : List Node → Option ℕ
free_slot [] = none
free_slot (n ∷ ns) = if not n.used then some 0 else shift (free_slot ns)

-- Apply the writes through a node pointer.
unfoldable pub modify : List Node → ℕ → (Node → Node) → List Node
modify [] i f = []
modify (n ∷ ns) zero f = f n ∷ ns
modify (n ∷ ns) (suc i) f = n ∷ modify ns i f

unfoldable pub alloc_node : Vfs → Option (ℕ × Vfs)
alloc_node s = elim (free_slot s.nodes) [
  | none ↦ none
  | some i ↦ some (
    i,
    record {
      nodes =
          modify s.nodes i λ n. record n { used = true; inode = s.next_inode; size = 0; path = [] };
      next_inode = (s.next_inode + 1) % size_mod;
    },
  )
]

-- The type of the node at an index.
abbrev pub type_is_dir : Option Node → Bool
type_is_dir none = false
type_is_dir (some n) = is_dir_type n.type

-- The node that `find_node` points to.
unfoldable pub node_at : List Node → Option ℕ → Option Node
node_at ns none = none
node_at ns (some i) = get_elem? ns i

unfoldable pub parent_exists_and_is_dir : Vfs → Str → Bool
parent_exists_and_is_dir s path =
    type_is_dir (node_at s.nodes (find_node s.nodes (parent_path path [] max_name)))

unfoldable pub exists : Vfs → Str → Bool
unfolding find_node
exists s path = elim (find_node s.nodes path) [ none ↦ false | some i ↦ true ]

unfoldable pub is_dir : Vfs → Str → Bool
unfolding find_node node_at
is_dir s path = type_is_dir (node_at s.nodes (find_node s.nodes path))

unfoldable pub is_file : Vfs → Str → Bool
unfolding find_node node_at
is_file s path = elim (node_at s.nodes (find_node s.nodes path)) [
  | none ↦ false
  | some n ↦ not (is_dir_type n.type)
]

-- The body that wnu_vfs_create_file and wnu_vfs_create_dir share but for the type they store.
unfoldable pub create : NodeType → Vfs → Str → Vfs × Bool
create t s path =
    if not (valid_path (some path))
    then (s, false)
    else if string_equal path root
    then (s, false)
    else if exists s path
    then (s, false)
    else if not (parent_exists_and_is_dir s path)
    then (s, false)
    else elim (alloc_node s) [
      | none ↦ (s, false)
      | some (i, s') ↦ (
        record s' {
          nodes =
              modify s'.nodes i
                λ n. record n { type = t; size = 0; path = string_copy n.path path max_name };
        },
        true,
      )
    ]

unfoldable pub create_file : Vfs → Str → Vfs × Bool
unfolding create
create_file s path = create file s path

unfoldable pub create_dir : Vfs → Str → Vfs × Bool
unfolding create
create_dir s path = create dir s path

-- The loop of wnu_vfs_delete: a used node, other than the one at index `i`, lies below `path`.
-- The list is the table from index `j` on.
unfoldable pub has_child : List Node → ℕ → ℕ → Str → Bool
has_child [] j i path = false
has_child (n ∷ ns) j i path =
    let rest = has_child ns (j + 1) i path in
    if not n.used
    then rest
    else if j == i
    then rest
    else if string_starts_with n.path path && at n.path (string_len path) == slash
    then true
    else rest

unfoldable pub delete : Vfs → Str → Vfs × Bool
delete s path =
    if not (valid_path (some path))
    then (s, false)
    else if string_equal path root
    then (s, false)
    else elim (find_node s.nodes path) [
      | none ↦ (s, false)
      | some i ↦
          if type_is_dir (get_elem? s.nodes i) && has_child s.nodes 0 i path
          then (s, false)
          else (record s { nodes = modify s.nodes i λ n. record n { used = false } }, true)
    ]

-- dst[off + k] = src[k] for the `n` indices k from `i` on.
unfoldable pub copy_bytes : Bytes → ℕ → List ℕ → ℕ → ℕ → Bytes
copy_bytes dst off src i zero = dst
copy_bytes dst off src i (suc n) =
    copy_bytes (λ k. if k == off + i then get_or src i 0 else dst k) off src (i + 1) n

unfoldable pub write_node : List ℕ → ℕ → Node → Node
unfolding copy_bytes
write_node src size n = record n { bytes = copy_bytes n.bytes 0 src 0 size; size = size }

-- `src` is what `data` points to, `none` the null pointer.
unfoldable pub write_file : Vfs → Str → Option (List ℕ) → ℕ → Vfs × Bool
write_file s path none size = (s, false)
write_file s path (some src) size =
    if not (valid_path (some path)) then (s, false) else elim (find_node s.nodes path) [
      | none ↦ (s, false)
      | some i ↦ if type_is_dir (get_elem? s.nodes i) then (s, false) else (
        record s {
          nodes = modify s.nodes i (write_node src (if ltb max_data size then max_data else size));
        },
        true,
      )
    ]

-- `size_t` subtraction, `available = WNU_VFS_MAX_DATA - node->size`, and the clipped append.
unfoldable pub append_node : List ℕ → ℕ → Node → Node
unfolding copy_bytes
append_node src size n =
    let available = (max_data + size_mod - n.size) % size_mod in
    let size' = if ltb available size then available else size in
    record n { bytes = copy_bytes n.bytes n.size src 0 size'; size = (n.size + size') % size_mod }

unfoldable pub append_file : Vfs → Str → Option (List ℕ) → ℕ → Vfs × Bool
append_file s path none size = (s, false)
append_file s path (some src) size =
    if not (valid_path (some path)) then (s, false) else elim (find_node s.nodes path) [
      | none ↦ (s, false)
      | some i ↦
          if type_is_dir (get_elem? s.nodes i)
          then (s, false)
          else (record s { nodes = modify s.nodes i (append_node src size) }, true)
    ]

-- The data pointer and `*out_size`; `none` is the null pointer, with `*out_size` 0.
unfoldable pub read_file : Vfs → Str → Option (Bytes × ℕ)
read_file s path =
    if not (valid_path (some path)) then none else elim (node_at s.nodes (find_node s.nodes path)) [
      | none ↦ none
      | some n ↦ if is_dir_type n.type then none else some (n.bytes, n.size)
    ]

abbrev pub empty_node : Node
empty_node = record { used = false; inode = 0; type = file; path = []; bytes = λ k. 0; size = 0 }

unfoldable pub clear : List Node → List Node
clear [] = []
clear (n ∷ ns) = record n { used = false; inode = 0; size = 0; path = [] } ∷ clear ns

-- The loop and the root node of wnu_vfs_init.
unfoldable pub format : Vfs → Vfs
format s =
    let cleared : Vfs = record { nodes = clear s.nodes; next_inode = 1 } in
    elim (alloc_node cleared) [
      | none ↦ cleared
      | some (i, t) ↦ record t {
        nodes =
            modify t.nodes i λ n. record n { type = dir; path = string_copy n.path root max_name };
      }
    ]

abbrev pub os_release : Str
os_release = codes "NAME=WNU\nID=unix-like\nHOME_URL=https://github.com/segfaultuwu/wnu\n"

unfoldable pub init : Vfs → Vfs
init s =
    let s1 = (create_dir (format s) (codes "/bin")).0 in
    let s2 = (create_dir s1 (codes "/etc")).0 in
    let s3 = (create_dir s2 (codes "/home")).0 in
    let s4 = (create_dir s3 (codes "/tmp")).0 in
    let s5 = (create_file s4 (codes "/etc/os-release")).0 in
    let s6 =
      (write_file s5 (codes "/etc/os-release") (some os_release) (string_len os_release)).0 in
    let s7 = (create_file s6 (codes "/hello.txt")).0 in
    (write_file s7 (codes "/hello.txt") (some (codes "hello from vfs\n")) 15).0

-- The static table before wnu_vfs_init.
abbrev pub blank : Vfs
blank = record { nodes = replicate max_nodes empty_node; next_inode = 0 }
