-- ===== src/Libc/Strings.antt =====
-- What the string functions of src/lib/lib.c compute.
use wnu.Prelude.{
  ℕ, zero, suc, ◌<◌, ◌≤◌, ◌≡◌, ◌≢◌, ◌↔◌, refl, some, pos, [], ◌∷◌, length, take, arith,
  Option-cases, inl, inr,
}
use wnu.Str.{Str, at}
use wnu.Libc.{strcmp, strncmp, strchr}

-- The characters before a terminator.
abbrev pub HasNoZero : Str → Type 0
HasNoZero [] = Unit
HasNoZero (c ∷ s) = (0 < c) × HasNoZero s

strcmp_equal : (a b : Str) → HasNoZero a → HasNoZero b → strcmp a b ≡ pos 0 → a ≡ b
unfolding strcmp
strcmp_equal [] [] p q h = refl
strcmp_equal [] (y ∷ b) p q h = ground arith
strcmp_equal (x ∷ a) [] p q h = ground arith
strcmp_equal (x ∷ a) (y ∷ b) p q h = ground (arith, strcmp_equal a b p.1 q.1)

strcmp_self : (a : Str) → strcmp a a ≡ pos 0
unfolding strcmp
strcmp_self [] = refl
strcmp_self (x ∷ a) = ground (arith, strcmp_self a)

-- `strcmp` returns 0 exactly on equal strings.
pub strcmp_zero_iff : (a b : Str) → HasNoZero a → HasNoZero b → (strcmp a b ≡ pos 0) ↔ (a ≡ b)
strcmp_zero_iff a b p q = (strcmp_equal a b p q, λ e. rw e (strcmp_self b))

-- `strncmp` compares the strings up to `n` characters.
pub strncmp-eq-strcmp : (n : ℕ) (a b : Str) → strncmp a b n ≡ strcmp (take n a) (take n b)
unfolding strncmp strcmp
strncmp-eq-strcmp zero a b = refl
strncmp-eq-strcmp (suc n) [] [] = refl
strncmp-eq-strcmp (suc n) [] (y ∷ b) = refl
strncmp-eq-strcmp (suc n) (x ∷ a) [] = refl
strncmp-eq-strcmp (suc n) (x ∷ a) (y ∷ b) = ground (arith, strncmp-eq-strcmp n a b)

-- The first place of a character, the terminator included.
abbrev pub IsFirst : Str → ℕ → ℕ → Type 0
IsFirst s c i = (i ≤ length s) × (at s i ≡ c) × ((j : ℕ) → j < i → at s j ≢ c)

not_before_cons :
    (x : ℕ) (s : Str) (c i : ℕ)
    → x ≢ c
    → ((j : ℕ) → j < i → at s j ≢ c)
    → (j : ℕ) → j < suc i
    → at (x ∷ s) j ≢ c
not_before_cons x s c i ne h zero lt = ne
not_before_cons x s c i ne h (suc j) lt = h j (omega arith)

strchr_found : (s : Str) (c i : ℕ) → c < 256 → strchr s c ≡ some i → IsFirst s c i
unfolding strchr
strchr_found [] c i lt h = (ground arith, ground arith, λ j below. absurd (ground arith))
strchr_found (x ∷ s) c zero lt h = (omega arith, x_is_c, λ j below. absurd (omega arith))
  where
    x_is_c : x ≡ c
    x_is_c = elim (Option-cases (strchr s c)) [ inl e ↦ ground arith | inr (k, e) ↦ ground arith ]
strchr_found (x ∷ s) c (suc i) lt h =
    let e : strchr s c ≡ some i = elim (Option-cases (strchr s c)) [
      | inl e ↦ ground arith
      | inr (k, e) ↦ ground arith
    ] in
    let ne : x ≢ c = λ same. absurd (ground arith) in
    let (a, b, d) = strchr_found s c i lt e in (omega (arith, a), b, not_before_cons x s c i ne d)

strchr_finds : (s : Str) (c i : ℕ) → c < 256 → HasNoZero s → IsFirst s c i → strchr s c ≡ some i
unfolding strchr
strchr_finds [] c i lt p (a, b, d) = ground arith
strchr_finds (x ∷ s) c zero lt p (a, b, d) = ground arith
strchr_finds (x ∷ s) c (suc i) lt p (a, b, d) =
    let rest =
      strchr_finds s c i lt p.1 (omega (arith, a), b, λ j below. d (suc j) (omega arith)) in
    ground (arith, rest, d 0 (omega arith))

-- For a byte, `strchr` points to its first place in the string, the terminator included.
pub strchr_iff : (s : Str) (c i : ℕ) → c < 256 → HasNoZero s → (strchr s c ≡ some i) ↔ IsFirst s c i
strchr_iff s c i lt p = (strchr_found s c i lt, strchr_finds s c i lt p)
