-- ===== src/Vfs/Tests.antt =====
-- Runs of the file system at fixed inputs, and the witnesses of its theorems.
use wnu.Prelude.{ℕ, ◌≡◌, ◌↔◌, ◌&&◌, refl, true, some, none, List, [], ◌∷◌, arith, if◌then◌else◌}
use wnu.Mem.{slice}
use wnu.Str.{Str, codes, string_len, string_equal, string_starts_with, string_copy}
use wnu.Vfs.Path.{
  valid_path, parent_path, path_basename, last_slash, has_slash, is_name, is_direct_child,
}
use wnu.Vfs.Path.Laws.{IsValid}
use wnu.Vfs.{
  Vfs, dir, blank, init, find_node, node_at, free_slot, modify, alloc_node,
  parent_exists_and_is_dir, exists, create, create_dir, create_file, delete, has_child, copy_bytes,
  write_node, append_node, write_file, append_file, read_file, format, clear,
}
use wnu.Vfs.Listing.{
  list_dir, list_children, list_line, tree, tree_walk, tree_line, tree_indent, walk_children,
}
use wnu.Vfs.Files.{seen}
use wnu.Vfs.Inv.{IsWellFormed}
use wnu.Vfs.Run.{
  Op, make_file, make_dir, remove, overwrite, run, step, init-IsWellFormed,
  init_then_run-IsWellFormed,
}
use wnu.Vfs.Spec.{
  folder, content, view, put, can_create, CanDelete, is_some, bytes_of, create_refines,
  delete_refines, read_file_refines, write_file_refines,
}
use wnu.Vfs.Spec.Append.{grown, append_file_refines}
use wnu.Vfs.Tree.{tree_total}

-- Opens what the operations call.
abbrev run_all : ℕ
unfolding valid_path parent_path last_slash find_node node_at free_slot modify alloc_node
    parent_exists_and_is_dir exists create create_dir create_file delete has_child copy_bytes
    write_node write_file append_node append_file read_file format clear string_len string_equal
    string_starts_with string_copy path_basename has_slash is_name is_direct_child list_children
    list_line tree_walk tree_line tree_indent walk_children slice step
run_all = 0

list_root : list_dir (init blank) (codes "/") ≡ codes "bin/\netc/\nhome/\ntmp/\nhello.txt\n"
unfolding init list_dir run_all
list_root = refl

tree_root :
    tree (init blank) (codes "/")
    ≡ some (codes "/\n  bin/\n  etc/\n    os-release\n  home/\n  tmp/\n  hello.txt\n")
unfolding init tree run_all
tree_root = refl

abbrev booted : Vfs
booted = init blank

booted-IsWellFormed : IsWellFormed booted
booted-IsWellFormed = init-IsWellFormed blank refl

-- A directory with a file in it, and calls that fail: a file twice, and a directory in use.
abbrev script : List Op
script =
    make_dir (codes "/a")
    ∷ make_file (codes "/a/b")
    ∷ make_file (codes "/a/b")
    ∷ overwrite (codes "/a/b") (some (codes "hello")) 5
    ∷ remove (codes "/a")
    ∷ []

-- A directory that is not empty stays.
script_keeps_dir : exists (run booted script) (codes "/a") ≡ true
unfolding run init run_all
script_keeps_dir = refl

init_then_run-IsWellFormed_example : IsWellFormed (run (init blank) script)
init_then_run-IsWellFormed_example = init_then_run-IsWellFormed blank script refl

create_refines_example :
    ((create dir booted (codes "/a")).1
      ≡ (can_create (view booted) (codes "/a") && is_some (free_slot booted.nodes)))
    × ((q : Str)
        → view (create dir booted (codes "/a")).0 q ≡ (
            if (create dir booted (codes "/a")).1
            then put (codes "/a") (some folder) (view booted) q
            else view booted q))
create_refines_example = create_refines dir booted (codes "/a")

delete_refines_example :
    (((delete booted (codes "/tmp")).1 ≡ true) ↔ CanDelete (view booted) (codes "/tmp"))
    × ((q : Str)
        → view (delete booted (codes "/tmp")).0 q ≡ (
            if (delete booted (codes "/tmp")).1
            then put (codes "/tmp") none (view booted) q
            else view booted q))
delete_refines_example = delete_refines booted (codes "/tmp") booted-IsWellFormed

write_file_refines_example :
    ((write_file booted (codes "/hello.txt") (some (codes "hi")) 2).1 ≡ (
      valid_path (some (codes "/hello.txt"))
      && is_some (bytes_of (view booted (codes "/hello.txt")))))
    × ((q : Str)
        → view (write_file booted (codes "/hello.txt") (some (codes "hi")) 2).0 q ≡ (
            if (write_file booted (codes "/hello.txt") (some (codes "hi")) 2).1
            then put (codes "/hello.txt") (some (content (codes "hi"))) (view booted) q
            else view booted q))
write_file_refines_example =
    write_file_refines booted (codes "/hello.txt") (codes "hi") 2 (omega arith)

append_file_refines_example :
    ((append_file booted (codes "/hello.txt") (some (codes "hi")) 2).1 ≡ (
      valid_path (some (codes "/hello.txt"))
      && is_some (bytes_of (view booted (codes "/hello.txt")))))
    × ((q : Str)
        → view (append_file booted (codes "/hello.txt") (some (codes "hi")) 2).0 q ≡ (
            if (append_file booted (codes "/hello.txt") (some (codes "hi")) 2).1
            then put
                (codes "/hello.txt")
                (grown (codes "hi") 2 (view booted (codes "/hello.txt")))
                (view booted)
                q
            else view booted q))
append_file_refines_example =
    append_file_refines booted (codes "/hello.txt") (codes "hi") 2 booted-IsWellFormed (omega arith)

hello-IsValid : IsValid (codes "/hello.txt")
hello-IsValid = record { rooted = refl; fits = omega arith }

read_file_refines_example :
    seen (read_file booted (codes "/hello.txt")) ≡ bytes_of (view booted (codes "/hello.txt"))
read_file_refines_example = read_file_refines booted (codes "/hello.txt") hello-IsValid

-- What the file of wnu_vfs_init holds.
hello_content : seen (read_file booted (codes "/hello.txt")) ≡ some (codes "hello from vfs\n")
unfolding init run_all
hello_content = refl

tree_total_example : (out : Str) × (tree booted (codes "/") ≡ some out)
tree_total_example = tree_total booted (codes "/") booted-IsWellFormed
