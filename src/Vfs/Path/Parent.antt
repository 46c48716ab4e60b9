-- ===== src/Vfs/Path/Parent.antt =====
-- The parent of a path, and what a direct child is.
use wnu.Prelude.{
  ℕ, zero, suc, ◌<◌, ◌≡◌, ◌≢◌, ◌⊎◌, inl, inr, refl, sym, ap, ◌∙◌, true, [], ◌∷◌, ◌==◌, length, take,
  arith, length-take, if◌then◌else◌,
}
use wnu.Str.{Str, at, string_len, string_starts_with, string_copy}
use wnu.Str.Laws.{string_len-eq-length, string_equal_iff}
use wnu.Vfs.Path.{max_name, slash, root, last_slash, parent_path}
use wnu.Vfs.Path.Laws.{IsValid, last_slash_cases, has_slash→at}

-- The parent as the callers compute it, in a fresh array of 64 characters.
abbrev pub parent : Str → Str
parent p = parent_path p [] max_name

-- A path cut at a '/' that is not its first character.
pub record IsCut (p : Str) (k : ℕ) (q : Str) : Type 0 where
  pub later : 0 < k
  pub inside : k < length p
  pub separator : at p k ≡ slash
  pub cut : q ≡ take k p

string_copy-root : string_copy [] root max_name ≡ root
unfolding string_copy
string_copy-root = refl

-- Where the last '/' is not the first character, the parent ends before it.
pub parent_cut :
    (p : Str) (k : ℕ)
    → IsValid p
    → p ≢ root
    → last_slash p 0 0 ≡ k
    → k < length p
    → parent p ≡ (if k == 0 then root else take k p)
unfolding parent_path
parent_cut p k v ne e h =
    ground (arith, string_len-eq-length p, string_equal_iff p root, string_copy-root)

pub parent_cases :
    (p : Str) → IsValid p → p ≢ root → (parent p ≡ root) ⊎ ((k : ℕ) × IsCut p k (parent p))
parent_cases p v ne = elim (last_slash_cases p 0 0) [
  | inl h ↦ absurd (has_slash→at p h.0 0 v.rooted)
  | inr (zero, a, b, h, d) ↦ inl (parent_cut p 0 v ne (omega (arith, a)) b)
  | inr (suc k, a, b, h, d) ↦ inr (
    suc k,
    record {
      later = omega arith;
      inside = b;
      separator = h;
      cut = ground (arith, parent_cut p (suc k) v ne (omega (arith, a)) b);
    },
  )
]

pub at-take : (k i : ℕ) (s : Str) → i < k → at (take k s) i ≡ at s i
at-take zero i s h = elim h [ ]
at-take (suc k) i [] h = refl
at-take (suc k) zero (c ∷ s) h = refl
at-take (suc k) (suc i) (c ∷ s) h = at-take k i s (omega arith)

pub string_starts_with-take : (k : ℕ) (s : Str) → string_starts_with s (take k s) ≡ true
unfolding string_starts_with
string_starts_with-take zero s = refl
string_starts_with-take (suc k) [] = refl
string_starts_with-take (suc k) (c ∷ s) = ground (arith, string_starts_with-take k s)

pub root-IsValid : IsValid root
root-IsValid = record { rooted = refl; fits = omega arith }

-- The parent is shorter than its path.
pub length-parent : (p : Str) → IsValid p → p ≢ root → length (parent p) < length p
length-parent p v ne = elim (parent_cases p v ne) [
  | inl e ↦ rw e (two_of_ne_root p v ne)
  | inr (k, c) ↦ rw c.cut (omega (arith, length-take k p, c.inside))
]
  where
    two_of_ne_root : (p : Str) → IsValid p → p ≢ root → 1 < length p
    two_of_ne_root [] v ne = absurd (omega (arith, v.rooted))
    two_of_ne_root (c ∷ []) v ne = absurd (ne (rw v.rooted))
    two_of_ne_root (c ∷ d ∷ s) v ne = omega arith

pub parent-ne : (p : Str) → IsValid p → p ≢ root → parent p ≢ p
parent-ne p v ne e = omega (arith, length-parent p v ne, ap length e)

pub parent-IsValid : (p : Str) → IsValid p → p ≢ root → IsValid (parent p)
parent-IsValid p v ne = elim (parent_cases p v ne) [
  | inl e ↦ rw e root-IsValid
  | inr (k, c) ↦ record {
    rooted = rw c.cut (at-take k 0 p c.later ∙ v.rooted);
    fits = omega (arith, length-parent p v ne, v.fits);
  }
]

-- A path other than the root's child lies below its parent in the sense of wnu_vfs_delete.
pub below-parent :
    (p q : Str)
    → IsValid p
    → p ≢ root
    → q ≢ root
    → parent p ≡ q
    → (string_starts_with p q ≡ true) × (at p (string_len q) ≡ slash)
below-parent p q v ne nq e = elim (parent_cases p v ne) [
  | inl r ↦ absurd (nq (sym e ∙ r))
  | inr (k, c) ↦
      let f : q ≡ take k p = sym e ∙ c.cut in
      (
        rw f (string_starts_with-take k p),
        rw f (
            ap (at p) (string_len-eq-length (take k p) ∙ omega (arith, length-take k p, c.inside))
            ∙ c.separator),
      )
]
