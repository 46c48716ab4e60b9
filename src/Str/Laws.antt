-- ===== src/Str/Laws.antt =====
-- What the string helpers decide and compute.
use wnu.Prelude.{
  ℕ, zero, suc, ◌<◌, ◌≡◌, ◌↔◌, refl, ap, true, [], ◌∷◌, ◌++◌, length, drop, take_of_length_le,
  arith,
}
use wnu.Str.{Str, string_len, string_equal, string_starts_with, string_copy}

pub string_len-eq-length : (s : Str) → string_len s ≡ length s
unfolding string_len
string_len-eq-length [] = refl
string_len-eq-length (c ∷ s) = ap suc (string_len-eq-length s)

pub eq-of-string_equal : (a b : Str) → string_equal a b ≡ true → a ≡ b
unfolding string_equal
eq-of-string_equal [] [] h = refl
eq-of-string_equal [] (y ∷ b) h = cc
eq-of-string_equal (x ∷ a) [] h = cc
eq-of-string_equal (x ∷ a) (y ∷ b) h = ground (arith, eq-of-string_equal a b)

pub string_equal_self : (a : Str) → string_equal a a ≡ true
unfolding string_equal
string_equal_self [] = refl
string_equal_self (x ∷ a) = ground (arith, string_equal_self a)

-- `string_equal` decides equality of strings.
pub string_equal_iff : (a b : Str) → (string_equal a b ≡ true) ↔ (a ≡ b)
string_equal_iff a b = (eq-of-string_equal a b, λ e. rw e (string_equal_self b))

pub string_starts_with-append : (p r : Str) → string_starts_with (p ++ r) p ≡ true
unfolding string_starts_with
string_starts_with-append [] r = refl
string_starts_with-append (c ∷ p) r = ground (arith, string_starts_with-append p r)

-- A prefix is followed by what is left behind its length.
pub eq-of-string_starts_with :
    (s p : Str) → string_starts_with s p ≡ true → s ≡ p ++ drop (length p) s
unfolding string_starts_with
eq-of-string_starts_with s [] h = refl
eq-of-string_starts_with [] (c ∷ p) h = cc
eq-of-string_starts_with (x ∷ s) (c ∷ p) h = ground (arith, eq-of-string_starts_with s p)

-- A string shorter than the array is copied whole.
pub string_copy_fits : (dst src : Str) (m : ℕ) → length src < m → string_copy dst src m ≡ src
unfolding string_copy
string_copy_fits dst src zero h = elim h [ ]
string_copy_fits dst src (suc m) h = take_of_length_le m src (omega arith)
