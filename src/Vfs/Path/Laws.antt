-- ===== src/Vfs/Path/Laws.antt =====
-- Facts on the last '/' of a path, on which its parent and its base name rest.
use wnu.Prelude.{
  ℕ, zero, suc, ◌+◌, ◌<◌, ◌≡◌, ◌≢◌, ◌⊎◌, inl, inr, refl, true, false, some, [], ◌∷◌, ◌++◌, ◌==◌,
  length, drop, arith, Bool-cases, if◌then◌else◌,
}
use wnu.Str.{Str, at}
use wnu.Str.Laws.{string_len-eq-length}
use wnu.Vfs.Path.{max_name, slash, valid_path, last_slash, has_slash, is_name}

-- A path that the file system accepts: it starts with '/' and fits its array.
pub record IsValid (p : Str) : Type 0 where
  pub rooted : at p 0 ≡ slash
  pub fits : length p < max_name

pub length_pos : (p : Str) → IsValid p → 0 < length p
length_pos [] v = absurd (omega (arith, v.rooted))
length_pos (c ∷ s) v = omega arith

pub IsValid-of_valid_path : (p : Str) → valid_path (some p) ≡ true → IsValid p
unfolding valid_path
IsValid-of_valid_path p h = ground (arith, string_len-eq-length p)

pub IsValid→valid_path : {p : Str} → IsValid p → valid_path (some p) ≡ true
unfolding valid_path
IsValid→valid_path {p} v = ground (arith, string_len-eq-length p)

-- What is left of a string is a file's own name: not empty and without '/'.
pub record IsName (s : Str) : Type 0 where
  pub nonempty : at s 0 ≢ 0
  pub one_part : (i : ℕ) → at s i ≢ slash

pub has_slash→at : (s : Str) → has_slash s ≡ false → (i : ℕ) → at s i ≢ slash
unfolding has_slash
has_slash→at [] h i = omega arith
has_slash→at (c ∷ s) h zero = ground arith
has_slash→at (c ∷ s) h (suc i) = has_slash→at s (ground arith) i

pub at→has_slash : (s : Str) → ((i : ℕ) → at s i ≢ slash) → has_slash s ≡ false
unfolding has_slash
at→has_slash [] h = refl
at→has_slash (c ∷ s) h = ground (arith, h 0, at→has_slash s (λ i. h (suc i)))

pub is_name→IsName : (s : Str) → is_name s ≡ true → IsName s
unfolding is_name
is_name→IsName s h = record { nonempty = ground arith; one_part = has_slash→at s (ground arith) }

pub IsName→is_name : {s : Str} → IsName s → is_name s ≡ true
unfolding is_name
IsName→is_name {s} v = ground (arith, v.nonempty, at→has_slash s v.one_part)

-- The scan ends at the start value, or at the last '/'.
pub last_slash_cases :
    (s : Str) (i l : ℕ)
    → ((has_slash s ≡ false) × (last_slash s i l ≡ l))
      ⊎ ((k : ℕ) × (last_slash s i l ≡ i + k)
          × (k < length s)
          × (at s k ≡ slash)
          × (has_slash (drop (suc k) s) ≡ false))
unfolding last_slash has_slash
last_slash_cases [] i l = inl (refl, refl)
last_slash_cases (c ∷ s) i l = elim (Bool-cases (c == slash)) [
  | inl e ↦ elim (last_slash_cases s (i + 1) i) [
    | inl h ↦ inr (0, rw e (omega (arith, h.1)), omega arith, ground arith, h.0)
    | inr (k, a, b, h, d) ↦ inr (suc k, rw e (omega (arith, a)), omega arith, h, d)
  ]
  | inr e ↦ elim (last_slash_cases s (i + 1) l) [
    | inl h ↦ inl (rw e h.0, rw e h.1)
    | inr (k, a, b, h, d) ↦ inr (suc k, rw e (omega (arith, a)), omega arith, h, d)
  ]
]

last_slash_no_slash : (s : Str) (i l : ℕ) → has_slash s ≡ false → last_slash s i l ≡ l
unfolding last_slash has_slash
last_slash_no_slash [] i l h = refl
last_slash_no_slash (c ∷ s) i l h = ground (arith, last_slash_no_slash s (i + 1) l)

pub last_slash-append :
    (a name : Str) (i l : ℕ)
    → has_slash name ≡ false
    → last_slash (a ++ slash ∷ name) i l ≡ i + length a
unfolding last_slash
last_slash-append [] name i l h = omega (arith, last_slash_no_slash name (i + 1) i h)
last_slash-append (c ∷ a) name i l h =
    omega (arith, last_slash-append a name (i + 1) (if c == slash then i else l) h)
