-- ===== src/Shell/Resolve.antt =====
-- resolve_path of src/shell/shell.c.
use wnu.Prelude.{ℕ, ◌+◌, Option, none, some, [], ◌∷◌, ◌++◌, ◌==◌, leb, if◌then◌else◌, length}
use wnu.Str.{Str, codes, at, string_len, string_equal, string_copy}
use wnu.Vfs.Path.{slash, root}

-- PATH_MAX
abbrev pub path_max : ℕ
path_max = 64

-- The last loop: the characters of `input` behind those in `out`, while one more place is left for
-- the terminator.
unfoldable pub append_chars : Str → Str → ℕ → Option Str
append_chars out [] out_size = some out
append_chars out (c ∷ input) out_size =
    if leb out_size (length out + 1) then none else append_chars (out ++ c ∷ []) input out_size

-- The directory part of a relative path.
unfoldable pub relative_base : Str → ℕ → Option Str
relative_base cwd out_size =
    if string_equal cwd root
    then (if leb out_size 1 then none else some root)
    else if leb out_size (string_len cwd + 1)
    then none
    else some (cwd ++ slash ∷ [])

-- `none` as a result is the return value 0; as the input it is the null pointer.
unfoldable pub resolve_path : Str → Option Str → ℕ → Option Str
resolve_path cwd none out_size = none
resolve_path cwd (some input) out_size =
    if out_size == 0
    then none
    else if at input 0 == 0
    then none
    else if string_equal input (codes ".")
    then some (string_copy [] cwd out_size)
    else if at input 0 == slash
    then (if leb out_size (string_len input) then none else some (string_copy [] input out_size))
    else elim (relative_base cwd out_size) [
      | none ↦ none
      | some base ↦ append_chars base input out_size
    ]
