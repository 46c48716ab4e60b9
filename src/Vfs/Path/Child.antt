-- ===== src/Vfs/Path/Child.antt =====
-- Joining a directory and a name, and its inverses: parent, base name, the direct child test.
use wnu.Prelude.{
  ℕ, zero, suc, ◌<◌, ◌≡◌, ◌≢◌, ◌↔◌, inl, inr, refl, sym, ap, ◌∙◌, true, false, [], ◌∷◌, ◌++◌, ◌==◌,
  length, take, drop, arith, Bool-cases, length-append, if◌then◌else◌,
}
use wnu.Str.{Str, at, string_equal, string_starts_with}
use wnu.Str.Laws.{
  string_len-eq-length, string_equal_iff, string_starts_with-append, eq-of-string_starts_with,
}
use wnu.Vfs.Path.{max_name, slash, root, last_slash, path_basename, is_name, is_direct_child}
use wnu.Vfs.Path.Laws.{
  length_pos, IsValid, IsName, last_slash-append, IsName→is_name, is_name→IsName, at→has_slash,
}
use wnu.Vfs.Path.Parent.{parent, parent_cut}

-- The path of the entry `name` in the directory `dir`.
abbrev pub join : Str → Str → Str
join dir name = (if string_equal dir root then [] else dir) ++ slash ∷ name

at_separator : (a name : Str) → at (a ++ slash ∷ name) (length a) ≡ slash
at_separator [] name = refl
at_separator (c ∷ a) name = at_separator a name

drop_past : (a name : Str) → drop (suc (length a)) (a ++ slash ∷ name) ≡ name
drop_past [] name = refl
drop_past (c ∷ a) name = drop_past a name

take_before : (a b : Str) → take (length a) (a ++ b) ≡ a
take_before [] b = refl
take_before (c ∷ a) b = ap (λ t. c ∷ t) (take_before a b)

drop-at : (k : ℕ) (s : Str) → at s k ≡ slash → drop k s ≡ slash ∷ drop (suc k) s
drop-at zero [] h = absurd (omega arith)
drop-at zero (c ∷ s) h = rw h refl
drop-at (suc k) [] h = absurd (omega arith)
drop-at (suc k) (c ∷ s) h = drop-at k s h

-- What `is_direct_child` strips from a child of `dir` before the separator.
abbrev base : Str → Str
base dir = if string_equal dir root then [] else dir

child_tests :
    (dir child : Str)
    → is_direct_child dir child ≡ true
    → (string_starts_with child (base dir) ≡ true)
      × (at child (length (base dir)) ≡ slash)
      × (is_name (drop (suc (length (base dir))) child) ≡ true)
unfolding is_direct_child string_starts_with
child_tests dir child h = elim (Bool-cases (string_equal dir root)) [
  | inl e ↦ rw e (ground arith)
  | inr e ↦ rw e (ground (arith, string_len-eq-length dir))
]

is_direct_child_of_tests :
    (dir child : Str)
    → string_equal dir child ≡ false
    → string_starts_with child (base dir) ≡ true
    → at child (length (base dir)) ≡ slash
    → is_name (drop (suc (length (base dir))) child) ≡ true
    → is_direct_child dir child ≡ true
unfolding is_direct_child
is_direct_child_of_tests dir child ne a b c = elim (Bool-cases (string_equal dir root)) [
  | inl e ↦ ground arith
  | inr e ↦ ground (arith, string_len-eq-length dir)
]

pub length-join : (dir name : Str) → IsValid dir → IsName name → length dir < length (join dir name)
length-join dir [] v n = absurd (n.nonempty refl)
length-join dir (c ∷ name) v n = elim (Bool-cases (string_equal dir root)) [
  | inl e ↦ rw (e, (string_equal_iff dir root).0 e) (omega arith)
  | inr e ↦ rw e (omega (arith, length-append dir (slash ∷ c ∷ name)))
]

join-not_equal :
    (dir name : Str) → IsValid dir → IsName name → string_equal dir (join dir name) ≡ false
join-not_equal dir name v n = ground (
  arith,
  length-join dir name v n,
  λ (e : dir ≡ join dir name). ap (length {A = ℕ}) e,
  string_equal_iff dir (join dir name),
)

-- The direct children of a valid path are the paths that join it and a name.
pub is_direct_child_iff :
    (dir child : Str)
    → IsValid dir
    → (is_direct_child dir child ≡ true) ↔ ((name : Str) × (child ≡ join dir name) × IsName name)
is_direct_child_iff dir child v = (
  λ h.
      let (a, b, c) = child_tests dir child h in
      (
        drop (suc (length (base dir))) child,
        eq-of-string_starts_with child (base dir) a ∙ ap (λ t. base dir ++ t) (drop-at _ child b),
        is_name→IsName _ c,
      ),
  λ (name, e, n). rw e (
      is_direct_child_of_tests dir (join dir name) (join-not_equal dir name v n)
        (string_starts_with-append (base dir) (slash ∷ name)) (at_separator (base dir) name)
        (rw drop_past (IsName→is_name n))),
)

at_zero-append : (a b : Str) → at a 0 ≡ slash → at (a ++ b) 0 ≡ slash
at_zero-append [] b h = absurd (omega arith)
at_zero-append (c ∷ a) b h = h

-- A joined path starts at the root.
pub at-join : (dir name : Str) → IsValid dir → at (join dir name) 0 ≡ slash
at-join dir name v = elim (Bool-cases (string_equal dir root)) [
  | inl e ↦ rw e
  | inr e ↦ rw e (at_zero-append dir (slash ∷ name) v.rooted)
]

module _ (dir name : Str) (v : IsValid dir) (n : IsName name) where
  join-ne-root : join dir name ≢ root
  join-ne-root e = omega (arith, length-join dir name v n, length_pos dir v, ap (length {A = ℕ}) e)

  pub join-IsValid : length (join dir name) < max_name → IsValid (join dir name)
  join-IsValid h = record { rooted = at-join dir name v; fits = h }

  last_slash-join : last_slash (join dir name) 0 0 ≡ length (base dir)
  last_slash-join =
      omega (arith, last_slash-append (base dir) name 0 0 (at→has_slash name n.one_part))

  -- The parent of an entry of a directory is that directory.
  pub parent-join : length (join dir name) < max_name → parent (join dir name) ≡ dir
  parent-join h =
      parent_cut (join dir name) (length (base dir)) (join-IsValid h) join-ne-root last_slash-join
        shorter
      ∙ same
    where
      shorter : length (base dir) < length (join dir name)
      shorter = omega (arith, length-append (base dir) (slash ∷ name))

      same :
          (if length (base dir) == 0 then root else take (length (base dir)) (join dir name)) ≡ dir
      same = elim (Bool-cases (string_equal dir root)) [
        | inl e ↦ rw e (sym ((string_equal_iff dir root).0 e))
        | inr e ↦ rw e (ground (arith, length_pos dir v, take_before dir (slash ∷ name)))
      ]

  pub path_basename-join : path_basename (join dir name) ≡ name
  unfolding path_basename
  path_basename-join = ground (
    arith,
    string_len-eq-length (join dir name),
    length-join dir name v n,
    string_equal_iff (join dir name) root,
    join-ne-root,
    last_slash-join,
    drop_past (base dir) name,
  )

-- If a valid path and a name join to a path below 64 characters, its parent is the path, and its
-- base name is the name.
pub parent_and_basename-join :
    (dir name : Str)
    → IsValid dir
    → IsName name
    → length (join dir name) < max_name
    → (parent (join dir name) ≡ dir) × (path_basename (join dir name) ≡ name)
parent_and_basename-join dir name v n h =
    (parent-join dir name v n h, path_basename-join dir name v n)
