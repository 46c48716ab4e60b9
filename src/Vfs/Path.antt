-- ===== src/Vfs/Path.antt =====
-- The path functions of src/fs/vfs.c: validity, parent, base name, direct children.
pub mod Laws
pub mod Parent
pub mod Child
use wnu.Prelude.{
  ℕ, zero, suc, ◌+◌, ◌-◌, Bool, true, false, not, Option, none, some, [], ◌∷◌, ◌==◌, leb,
  if◌then◌else◌, take, drop, min,
}
use wnu.Str.{Str, codes, at, string_len, string_equal, string_starts_with, string_copy}

-- WNU_VFS_MAX_NAME
abbrev pub max_name : ℕ
max_name = 64

abbrev pub slash : ℕ
slash = b'/'

-- The path "/".
abbrev pub root : Str
root = slash ∷ []

-- `none` is the null pointer.
unfoldable pub valid_path : Option Str → Bool
unfolding string_len
valid_path none = false
valid_path (some path) =
    if not (at path 0 == slash)
    then false
    else if leb max_name (string_len path)
    then false
    else true

-- The scan that leaves the index of the last '/' in `last`, over the characters from index `i` on.
unfoldable pub last_slash : Str → ℕ → ℕ → ℕ
last_slash [] i last = last
last_slash (c ∷ s) i last = last_slash s (i + 1) (if c == slash then i else last)

-- The content of `out`, an array of `out_size` characters that held `old`.
unfoldable pub parent_path : Str → Str → ℕ → Str
unfolding string_len string_equal string_copy last_slash
parent_path path old out_size =
    if string_len path == 0
    then string_copy old root out_size
    else if string_equal path root
    then string_copy old root out_size
    else let last = last_slash path 0 0 in
      if last == 0 then string_copy old root out_size else take (min last (out_size - 1)) path

unfoldable pub path_basename : Str → Str
unfolding string_len string_equal last_slash
path_basename path =
    if string_len path == 0
    then root
    else if string_equal path root
    then root
    else drop (last_slash path 0 0 + 1) path

-- The loop over `rest` that looks for a further '/'.
unfoldable pub has_slash : Str → Bool
has_slash [] = false
has_slash (c ∷ s) = let rest = has_slash s in if c == slash then true else rest

-- The test on what follows the parent: not empty, and no '/' in it.
unfoldable pub is_name : Str → Bool
unfolding has_slash
is_name rest = if at rest 0 == 0 then false else not (has_slash rest)

unfoldable pub is_direct_child : Str → Str → Bool
unfolding string_equal string_starts_with string_len is_name
is_direct_child parent child =
    if string_equal parent child
    then false
    else if string_equal parent root
    then (if not (at child 0 == slash) then false else is_name (drop 1 child))
    else if not (string_starts_with child parent)
    then false
    else if not (at child (string_len parent) == slash)
    then false
    else is_name (drop (string_len parent + 1) child)
