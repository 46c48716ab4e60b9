-- ===== src/Shell/Laws.antt =====
-- resolve_path of src/shell/shell.c against its description, and the invariant of the shell.
use wnu.Prelude.{
  ℕ, ◌+◌, ◌-◌, ◌<◌, ◌≡◌, inl, inr, refl, Bool, true, false, not, Option, none, some, List, [], ◌∷◌,
  ◌++◌, ◌==◌, leb, ltb, if◌then◌else◌, length, length-append, drop, take, min, arith, Bool-cases,
}
use mathlib.Core.List.{append_assoc, append-nil}
use wnu.Str.{Str, codes, at, string_len, string_equal}
use wnu.Str.Laws.{string_len-eq-length, string_copy_fits}
use wnu.Vfs.{Vfs, file, dir, create_file, create_dir, delete, exists, is_dir, read_file}
use wnu.Vfs.Path.{slash, root}
use wnu.Vfs.Path.Laws.{IsValid}
use wnu.Vfs.Path.Child.{join, at-join}
use wnu.Vfs.Inv.{IsWellFormed, write_file-IsWellFormed, create-IsWellFormed, delete-IsWellFormed}
use wnu.Shell.Resolve.{resolve_path, path_max, append_chars, relative_base}
use wnu.Mem.{Bytes}
use wnu.Shell.{
  Shell, with_path, show_file, skip_spaces, Event, Outcome, change_dir, list, cat, on_path, touch,
  mkdir, rm, show_tree, write_text, word_len, mount, mount_at, write_to, says, space, execute,
  execute_rest,
}

append_chars_lem :
    (out input : Str) (n : ℕ)
    → length out < n
    → append_chars out input n
      ≡ (if ltb (length out + length input) n then some (out ++ input) else none)
unfolding append_chars
append_chars_lem out [] n h = ground (arith, append-nil out)
append_chars_lem out (c ∷ input) n h = elim (Bool-cases (leb n (length out + 1))) [
  | inl e ↦ ground arith
  | inr e ↦ ground (
    arith,
    append_chars_lem (out ++ c ∷ []) input n (omega (arith, length-append out (c ∷ []), room e)),
    length-append out (c ∷ []),
    append_assoc out (c ∷ []) input,
  )
]
  where
    room : leb n (length out + 1) ≡ false → length out + 1 < n
    room e = ground arith

-- What a path means in a directory: "." is the directory, a path from the root is itself, and any
-- other path is joined to the directory; what does not fit 64 characters is refused.
abbrev pub resolved : Str → Str → Option Str
resolved cwd input =
    if at input 0 == 0
    then none
    else if string_equal input (codes ".")
    then some cwd
    else let full = if at input 0 == slash then input else join cwd input in
      if ltb (length full) path_max then some full else none

joined :
    (cwd input : Str)
    → length cwd < path_max
    → (elim (relative_base cwd path_max) as (λ _. Option Str) [
      | none ↦ none
      | some base ↦ append_chars base input path_max
    ])
      ≡ (if ltb (length (join cwd input)) path_max then some (join cwd input) else none)
unfolding relative_base
joined cwd input h = elim (Bool-cases (string_equal cwd root)) [
  | inl e ↦ rw (e, append_chars_lem root input path_max (omega arith)) (ground arith)
  | inr e ↦ elim (Bool-cases (leb path_max (string_len cwd + 1))) [
    | inl long ↦
        rw (e, long) (ground (arith, string_len-eq-length cwd, length-append cwd (slash ∷ input)))
    | inr fits ↦
        rw (e, fits)
          (ground (
            arith,
            append_chars_lem (cwd ++ slash ∷ []) input path_max,
            string_len-eq-length cwd,
            length-append cwd (slash ∷ []),
            length-append cwd (slash ∷ input),
            append_assoc cwd (slash ∷ []) input,
          ))
  ]
]

-- If the current directory is a valid path, `resolve_path` with room for 64 characters finds what
-- a path means in it.
pub resolve_path-eq-resolved :
    (cwd input : Str) → IsValid cwd → resolve_path cwd (some input) path_max ≡ resolved cwd input
unfolding resolve_path
resolve_path-eq-resolved cwd input v = ground (
  arith,
  joined cwd input v.fits,
  string_copy_fits [] cwd path_max v.fits,
  string_copy_fits [] input path_max,
  string_len-eq-length input,
)

-- What resolves is a valid path.
pub resolve_path-IsValid :
    (cwd input p : Str) → IsValid cwd → resolve_path cwd (some input) path_max ≡ some p → IsValid p
resolve_path-IsValid cwd input p v h = record {
  rooted = ground (arith, resolve_path-eq-resolved cwd input v, at-join cwd input v, v.rooted);
  fits = ground (arith, resolve_path-eq-resolved cwd input v, v.fits);
}

-- The current directory is a valid path, and the file system is well formed.
pub record IsSane (s : Shell) : Type 0 where
  pub cwd : IsValid s.cwd
  pub vfs : IsWellFormed s.vfs

-- The state that a command leaves is sane.
record Keeps (o : Outcome) : Type 0 where
  sane : IsSane o.0

same : {s : Shell} (e : List Event) → IsSane s → Keeps (s, e)
same e h = record { sane = h }

Keeps-if : (b : Bool) (x y : Outcome) → Keeps x → Keeps y → Keeps (if b then x else y)
Keeps-if true x y h k = h
Keeps-if false x y h k = k

-- A body that is given a valid path.
Keeps-with_path :
    (cwd arg : Str) (failed : Outcome) (body : Str → Outcome)
    → IsValid cwd
    → Keeps failed
    → ((p : Str) → IsValid p → Keeps (body p))
    → Keeps (with_path (resolve_path cwd (some arg) path_max) failed body)
Keeps-with_path cwd arg failed body v f b =
    go (resolve_path cwd (some arg) path_max) (λ p e. resolve_path-IsValid cwd arg p v e)
  where
    go : (o : Option Str) → ((p : Str) → o ≡ some p → IsValid p) → Keeps (with_path o failed body)
    go none valid = f
    go (some p) valid = b p (valid p refl)

change_dir-Keeps : (s : Shell) (arg : Str) → IsSane s → Keeps (change_dir s arg)
unfolding change_dir
change_dir-Keeps s arg h = Keeps-with_path s.cwd arg _ _ h.cwd (same _ h) λ p v.
    Keeps-if (not (exists s.vfs p)) _ _ (same _ h) (
      Keeps-if (not (is_dir s.vfs p)) _ _ (same _ h) (record {
        sane = record { cwd = rw (string_copy_fits s.cwd p path_max v.fits) v; vfs = h.vfs };
      }))

list-Keeps : (s : Shell) (arg : Str) → IsSane s → Keeps (list s arg)
unfolding list
list-Keeps s arg h = Keeps-with_path s.cwd arg _ _ h.cwd (same _ h) (λ p v. same _ h)

show_tree-Keeps : (s : Shell) (arg : Str) → IsSane s → Keeps (show_tree s arg)
unfolding show_tree
show_tree-Keeps s arg h = Keeps-with_path s.cwd arg _ _ h.cwd (same _ h) (λ p v. same _ h)

Keeps-show_file : (s : Shell) (o : Option (Bytes × ℕ)) → IsSane s → Keeps (show_file s o)
Keeps-show_file s none h = same _ h
Keeps-show_file s (some (b, n)) h = same _ h

cat-Keeps : (s : Shell) (arg : Str) → IsSane s → Keeps (cat s arg)
unfolding cat
cat-Keeps s arg h =
    Keeps-with_path s.cwd arg _ _ h.cwd (same _ h) (λ p v. Keeps-show_file s (read_file s.vfs p) h)

on_path-Keeps :
    (s : Shell) (arg : Str) (call : Vfs → Str → Vfs × Bool) (invalid failed : Str)
    → ((p : Str) → IsWellFormed (call s.vfs p).0)
    → IsSane s
    → Keeps (on_path s arg call invalid failed)
unfolding on_path
on_path-Keeps s arg call invalid failed keep h =
    Keeps-with_path s.cwd arg _ _ h.cwd (same _ h)
      (λ p v. record { sane = record { cwd = h.cwd; vfs = keep p } })

made :
    (s : Shell)
    → IsSane s
    → (p : Str) → IsWellFormed (if exists s.vfs p then s.vfs else (create_file s.vfs p).0)
made s h p = elim (Bool-cases (exists s.vfs p)) [
  | inl e ↦ rw e h.vfs
  | inr e ↦ rw e (unfold create_file in create-IsWellFormed file s.vfs p h.vfs)
]

write_to-Keeps : (s : Shell) (text p : Str) → IsSane s → Keeps (write_to s text p)
unfolding write_to
write_to-Keeps s text p h = record {
  sane = record { cwd = h.cwd; vfs = write_file-IsWellFormed _ p (some text) _ (made s h p) };
}

write_text-Keeps : (s : Shell) (arg : Str) → IsSane s → Keeps (write_text s arg)
unfolding write_text
write_text-Keeps s args h =
    let body =
      Keeps-with_path s.cwd (take (word_len args) args) (s, says (codes "write: invalid path\n"))
        (write_to s (drop (word_len args + 1) args)) h.cwd (same _ h)
        (λ p v. write_to-Keeps s _ p h) in
    elim (Bool-cases (at args (word_len args) == space)) [
      | inr e ↦ rw (e, write_text) (same _ h)
      | inl e ↦ elim (Bool-cases (leb path_max (word_len args))) [
        | inl long ↦ rw (e, long, write_text) (same _ h)
        | inr short ↦ rw (e, short, write_text) body
      ]
    ]

module _ (fat32_mount : Vfs → Str → Str → Vfs × Bool × Str)
    (mounts : (v : Vfs) (dev mp : Str)
      → IsWellFormed v
      → IsWellFormed (fat32_mount v dev mp).0) where
  mount_at-Keeps : (s : Shell) (dev p : Str) → IsSane s → Keeps (mount_at fat32_mount s dev p)
  unfolding mount_at
  mount_at-Keeps s dev p h = record {
    sane = record { cwd = h.cwd; vfs = mounts s.vfs dev p h.vfs };
  }

  mount-Keeps : (s : Shell) (arg : Str) → IsSane s → Keeps (mount fat32_mount s arg)
  unfolding mount
  mount-Keeps s args h =
      let rest = skip_spaces (drop (word_len args) args) in
      let body =
        Keeps-with_path s.cwd rest (s, says (codes "mount: invalid mountpoint\n"))
          (mount_at fat32_mount s (take (min (word_len args) (path_max - 1)) args)) h.cwd (same _ h)
          (λ p v. mount_at-Keeps s _ p h) in
      elim (Bool-cases (word_len args == string_len args)) [
        | inl e ↦ rw (e, mount) (same _ h)
        | inr e ↦ elim (Bool-cases (string_equal rest [])) [
          | inl none_left ↦ rw (e, none_left, mount) (same _ h)
          | inr some_left ↦ rw (e, some_left, mount) body
        ]
      ]

  touch-Keeps : (s : Shell) (arg : Str) → IsSane s → Keeps (touch s arg)
  unfolding touch
  touch-Keeps s arg h =
      on_path-Keeps s arg create_file (codes "touch: invalid path\n") (codes "touch: failed\n")
        (λ p. unfold create_file in create-IsWellFormed file s.vfs p h.vfs) h

  mkdir-Keeps : (s : Shell) (arg : Str) → IsSane s → Keeps (mkdir s arg)
  unfolding mkdir
  mkdir-Keeps s arg h =
      on_path-Keeps s arg create_dir (codes "mkdir: invalid path\n") (codes "mkdir: failed\n")
        (λ p. unfold create_dir in create-IsWellFormed dir s.vfs p h.vfs) h

  rm-Keeps : (s : Shell) (arg : Str) → IsSane s → Keeps (rm s arg)
  unfolding rm
  rm-Keeps s arg h =
      on_path-Keeps s arg delete (codes "rm: invalid path\n") (codes "rm: failed\n")
        (λ p. delete-IsWellFormed s.vfs p h.vfs) h

  execute_rest-Keeps : (s : Shell) (l : Str) → IsSane s → Keeps (execute_rest fat32_mount s l)
  unfolding execute_rest
  execute_rest-Keeps s l h =
      search
        (
          Keeps-if, same, touch-Keeps, mkdir-Keeps, show_tree-Keeps, rm-Keeps, mount-Keeps,
          write_text-Keeps,
        )
        depth 14

  execute-Keeps : (s : Shell) (l : Str) → IsSane s → Keeps (execute fat32_mount s l)
  unfolding execute
  execute-Keeps s l h =
      search (Keeps-if, same, change_dir-Keeps, list-Keeps, cat-Keeps, execute_rest-Keeps) depth 14

  -- Every command keeps the current directory a valid path and the file system well formed, if
  -- mounting keeps the file system well formed.
  pub execute-IsSane : (s : Shell) (l : Str) → IsSane s → IsSane (execute fat32_mount s l).0
  execute-IsSane s l h = (execute-Keeps s l h).sane
