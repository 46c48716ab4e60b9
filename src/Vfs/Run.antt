-- ===== src/Vfs/Run.antt =====
-- The file system from wnu_vfs_init on, under any sequence of operations.
use wnu.Prelude.{ℕ, suc, ◌≡◌, refl, ap, ◌∙◌, true, Option, none, some, List, [], ◌∷◌, length, arith}
use wnu.Str.{Str, codes, string_copy, string_len}
use wnu.Str.Laws.{string_equal_iff}
use wnu.Vfs.{
  Node, file, dir, Vfs, os_release, alloc_node, free_slot, modify, clear, format, init, create_file,
  create_dir, delete, write_file, append_file, max_nodes,
}
use wnu.Vfs.Path.{root}
use wnu.Vfs.Path.Parent.{root-IsValid}
use wnu.Vfs.Table.{get_node}
use wnu.Vfs.Unique.{IsUnique}
use wnu.Vfs.Inv.{
  IsWellFormed, create-IsWellFormed, delete-IsWellFormed, write_file-IsWellFormed,
  append_file-IsWellFormed,
}

-- The calls that change the file system.
pub data Op : Type 0 where
  make_file make_dir remove : Str → Op
  overwrite append : Str → Option (List ℕ) → ℕ → Op

unfoldable pub step : Vfs → Op → Vfs
step s (make_file p) = (create_file s p).0
step s (make_dir p) = (create_dir s p).0
step s (remove p) = (delete s p).0
step s (overwrite p src n) = (write_file s p src n).0
step s (append p src n) = (append_file s p src n).0

unfoldable pub run : Vfs → List Op → Vfs
unfolding step
run s [] = s
run s (op ∷ ops) = run (step s op) ops

pub step-IsWellFormed : (s : Vfs) (op : Op) → IsWellFormed s → IsWellFormed (step s op)
unfolding step create_file create_dir
step-IsWellFormed s (make_file p) w = create-IsWellFormed file s p w
step-IsWellFormed s (make_dir p) w = create-IsWellFormed dir s p w
step-IsWellFormed s (remove p) w = delete-IsWellFormed s p w
step-IsWellFormed s (overwrite p src n) w = write_file-IsWellFormed s p src n w
step-IsWellFormed s (append p src n) w = append_file-IsWellFormed s p src n w

pub run-IsWellFormed : (ops : List Op) (s : Vfs) → IsWellFormed s → IsWellFormed (run s ops)
unfolding run
run-IsWellFormed [] s w = w
run-IsWellFormed (op ∷ ops) s w = run-IsWellFormed ops (step s op) (step-IsWellFormed s op w)

get_node-clear : (ns : List Node) (p : Str) → get_node (clear ns) p ≡ none
unfolding get_node clear
get_node-clear [] p = refl
get_node-clear (n ∷ ns) p = get_node-clear ns p

clear-IsUnique : (ns : List Node) → IsUnique (clear ns)
unfolding clear
clear-IsUnique [] = tt
clear-IsUnique (n ∷ ns) = (λ _. get_node-clear ns [], clear-IsUnique ns)

length-clear : (ns : List Node) → length (clear ns) ≡ length ns
unfolding clear
length-clear [] = refl
length-clear (n ∷ ns) = ap suc (length-clear ns)

-- The root node that wnu_vfs_init makes, in the place of a node of the table.
abbrev root_node : Node → Node
root_node n = record n {
  used = true;
  inode = 1;
  type = dir;
  path = string_copy [] root 64;
  size = 0;
}

format_nodes :
    (n : Node) (ns : List Node) (k : ℕ)
    → (format (record { nodes = n ∷ ns; next_inode = k })).nodes ≡ root_node n ∷ clear ns
unfolding format clear alloc_node free_slot modify
format_nodes n ns k = refl

IsWellFormed-root :
    (n : Node) (ns : List Node) (k : ℕ)
    → length (n ∷ ns) ≡ max_nodes
    → IsWellFormed (record { nodes = root_node n ∷ clear ns; next_inode = k })
unfolding get_node string_copy
IsWellFormed-root n ns k h = record {
  capacity = ap suc (length-clear ns) ∙ h;
  unique = (λ _. get_node-clear ns root, clear-IsUnique ns);
  rooted = ground (arith, string_equal_iff root root);
  valid = λ p m e. ground (arith, string_equal_iff root p, get_node-clear ns p, root-IsValid);
  sized = λ p m e. ground (arith, string_equal_iff root p, get_node-clear ns p);
  closed = λ p m e nr. ground (arith, string_equal_iff root p, get_node-clear ns p);
}

format-IsWellFormed :
    (ns : List Node) (k : ℕ)
    → length ns ≡ max_nodes
    → IsWellFormed (format (record { nodes = ns; next_inode = k }))
format-IsWellFormed [] k h = absurd (omega arith)
format-IsWellFormed (n ∷ ns) k h = rw format_nodes (IsWellFormed-root n ns _ h)

-- The calls of wnu_vfs_init after the root is made.
abbrev boot : List Op
boot =
    make_dir (codes "/bin")
    ∷ make_dir (codes "/etc")
    ∷ make_dir (codes "/home")
    ∷ make_dir (codes "/tmp")
    ∷ make_file (codes "/etc/os-release")
    ∷ overwrite (codes "/etc/os-release") (some os_release) (string_len os_release)
    ∷ make_file (codes "/hello.txt")
    ∷ overwrite (codes "/hello.txt") (some (codes "hello from vfs\n")) 15
    ∷ []

pub init-IsWellFormed : (s : Vfs) → length s.nodes ≡ max_nodes → IsWellFormed (init s)
unfolding init run
init-IsWellFormed s h =
    run-IsWellFormed boot (format s) (format-IsWellFormed s.nodes s.next_inode h)

-- Whatever a table of 128 slots held, after wnu_vfs_init and any sequence of creations,
-- deletions, writes and appends, failed ones included, the file system is well formed.
pub init_then_run-IsWellFormed :
    (s : Vfs) (ops : List Op) → length s.nodes ≡ max_nodes → IsWellFormed (run (init s) ops)
init_then_run-IsWellFormed s ops h = run-IsWellFormed ops (init s) (init-IsWellFormed s h)
