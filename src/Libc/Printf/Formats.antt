-- ===== src/Libc/Printf/Formats.antt =====
-- printf against the pieces of a format.
use wnu.Prelude.{
  ℕ, ◌+◌, ◌-◌, ◌%◌, ◌^◌, ◌<◌, ◌≡◌, ◌≢◌, refl, ap, true, false, Bool, ◌||◌, Option, none, some, [],
  ◌∷◌, ◌++◌, List, leb, ltb, ◌==◌, if◌then◌else◌, arith, Bool-cases, inl, inr,
}
use wnu.Str.{Str, codes}
use wnu.Libc.Printf.{
  Arg, text, word, print_unsigned_base, print_signed, convert, printf, or_null, with_prefix, taken,
  then_rest,
}
use wnu.Libc.Printf.Numbers.{print_unsigned_base_reads_back}

-- A format with its arguments. `other` is a '%' before a character that is no conversion.
pub data Piece : Type 0 where
  plain other : ℕ → Piece
  percent : Piece
  string : Option Str → Piece
  char signed integer unsigned hex pointer : ℕ → Piece

-- The characters that a conversion stands for.
abbrev pub is_conversion : ℕ → Bool
is_conversion c =
    c == b'%'
    || (c == b's'
        || (c == b'c' || (c == b'd' || (c == b'i' || (c == b'u' || (c == b'x' || c == b'p'))))))

abbrev pub IsGood : Piece → Type 0
IsGood (plain c) = c ≢ b'%'
IsGood (other c) = is_conversion c ≡ false
IsGood percent = Unit
IsGood (string s) = Unit
IsGood (char n) = Unit
IsGood (signed n) = Unit
IsGood (integer n) = Unit
IsGood (unsigned n) = Unit
IsGood (hex n) = Unit
IsGood (pointer n) = n < 2 ^ 64

abbrev pub AreGood : List Piece → Type 0
AreGood [] = Unit
AreGood (p ∷ ps) = IsGood p × AreGood ps

abbrev pub spelling : List Piece → Str
spelling [] = []
spelling (plain c ∷ ps) = c ∷ spelling ps
spelling (other c ∷ ps) = b'%' ∷ c ∷ spelling ps
spelling (percent ∷ ps) = b'%' ∷ b'%' ∷ spelling ps
spelling (string s ∷ ps) = b'%' ∷ b's' ∷ spelling ps
spelling (char n ∷ ps) = b'%' ∷ b'c' ∷ spelling ps
spelling (signed n ∷ ps) = b'%' ∷ b'd' ∷ spelling ps
spelling (integer n ∷ ps) = b'%' ∷ b'i' ∷ spelling ps
spelling (unsigned n ∷ ps) = b'%' ∷ b'u' ∷ spelling ps
spelling (hex n ∷ ps) = b'%' ∷ b'x' ∷ spelling ps
spelling (pointer n ∷ ps) = b'%' ∷ b'p' ∷ spelling ps

abbrev pub arguments : List Piece → List Arg
arguments [] = []
arguments (plain c ∷ ps) = arguments ps
arguments (other c ∷ ps) = arguments ps
arguments (percent ∷ ps) = arguments ps
arguments (string s ∷ ps) = text s ∷ arguments ps
arguments (char n ∷ ps) = word n ∷ arguments ps
arguments (signed n ∷ ps) = word n ∷ arguments ps
arguments (integer n ∷ ps) = word n ∷ arguments ps
arguments (unsigned n ∷ ps) = word n ∷ arguments ps
arguments (hex n ∷ ps) = word n ∷ arguments ps
arguments (pointer n ∷ ps) = word n ∷ arguments ps

abbrev pub or_empty : Option Str → Str
or_empty none = []
or_empty (some s) = s

-- The digits of a number.
abbrev pub numeral : ℕ → ℕ → Str
numeral base n = or_empty (print_unsigned_base n base)

-- The number that an `int` argument stands for.
abbrev pub signed_numeral : ℕ → Str
signed_numeral n = if ltb n (2 ^ 31) then numeral 10 n else b'-' ∷ numeral 10 (2 ^ 32 - n)

abbrev pub shown : Piece → Str
shown (plain c) = c ∷ []
shown (other c) = b'%' ∷ c ∷ []
shown percent = b'%' ∷ []
shown (string s) = or_null s
shown (char n) = (n % 256) ∷ []
shown (signed n) = signed_numeral (n % 2 ^ 32)
shown (integer n) = signed_numeral (n % 2 ^ 32)
shown (unsigned n) = numeral 10 (n % 2 ^ 32)
shown (hex n) = numeral 16 (n % 2 ^ 32)
shown (pointer n) = codes "0x" ++ numeral 16 n

abbrev pub all_shown : List Piece → Str
all_shown [] = []
all_shown (p ∷ ps) = shown p ++ all_shown ps

decimal : (n : ℕ) → n < 2 ^ 64 → print_unsigned_base n 10 ≡ some (numeral 10 n)
decimal n lt = let (out, e, _) = (print_unsigned_base_reads_back n lt).0 in ground (arith, e)

hexadecimal : (n : ℕ) → n < 2 ^ 64 → print_unsigned_base n 16 ≡ some (numeral 16 n)
hexadecimal n lt = let (out, e, _) = (print_unsigned_base_reads_back n lt).1 in ground (arith, e)

print_signed_word :
    (r : ℕ)
    → r < 2 ^ 32
    → print_signed (if leb (2 ^ 31) r then r + (2 ^ 64 - 2 ^ 32) else r) ≡ some (signed_numeral r)
unfolding print_signed
print_signed_word r lt = elim (Bool-cases (ltb r (2 ^ 31))) [
  | inl small ↦
      let same : (if leb (2 ^ 31) r then r + (2 ^ 64 - 2 ^ 32) else r) ≡ r = ground arith in
      rw (same, small) (ground (arith, decimal r (omega arith)))
  | inr large ↦
      let top : (if leb (2 ^ 31) r then r + (2 ^ 64 - 2 ^ 32) else r) ≡ r + (2 ^ 64 - 2 ^ 32) =
        ground arith in
      let back : (2 ^ 64 - (r + (2 ^ 64 - 2 ^ 32))) % 2 ^ 64 ≡ 2 ^ 32 - r = ground arith in
      let high : leb (2 ^ 63) (r + (2 ^ 64 - 2 ^ 32)) ≡ true = ground arith in
      rw (top, large, high, back, decimal (2 ^ 32 - r) (omega arith)) refl
]

-- Each conversion writes what its piece shows, and takes its piece's arguments.
convert_string :
    (s : Option Str) (args : List Arg) → convert b's' (text s ∷ args) ≡ some (or_null s, args)
unfolding convert
convert_string s args = refl

convert_char :
    (n : ℕ) (args : List Arg) → convert b'c' (word n ∷ args) ≡ some ((n % 256) ∷ [], args)
unfolding convert
convert_char n args = refl

convert_percent : (args : List Arg) → convert b'%' args ≡ some (b'%' ∷ [], args)
unfolding convert
convert_percent args = refl

convert_other :
    (c : ℕ) (args : List Arg)
    → is_conversion c ≡ false
    → convert c args ≡ some (b'%' ∷ c ∷ [], args)
unfolding convert
convert_other c args h = ground arith

convert_signed :
    (n : ℕ) (args : List Arg)
    → convert b'd' (word n ∷ args) ≡ some (signed_numeral (n % 2 ^ 32), args)
unfolding convert
convert_signed n args = ap (λ o. taken o args) (print_signed_word (n % 2 ^ 32) (omega arith))

convert_integer :
    (n : ℕ) (args : List Arg)
    → convert b'i' (word n ∷ args) ≡ some (signed_numeral (n % 2 ^ 32), args)
unfolding convert
convert_integer n args = ap (λ o. taken o args) (print_signed_word (n % 2 ^ 32) (omega arith))

convert_unsigned :
    (n : ℕ) (args : List Arg) → convert b'u' (word n ∷ args) ≡ some (numeral 10 (n % 2 ^ 32), args)
unfolding convert
convert_unsigned n args = ap (λ o. taken o args) (decimal (n % 2 ^ 32) (omega arith))

convert_hex :
    (n : ℕ) (args : List Arg) → convert b'x' (word n ∷ args) ≡ some (numeral 16 (n % 2 ^ 32), args)
unfolding convert
convert_hex n args = ap (λ o. taken o args) (hexadecimal (n % 2 ^ 32) (omega arith))

convert_pointer :
    (n : ℕ) (args : List Arg)
    → n < 2 ^ 64
    → convert b'p' (word n ∷ args) ≡ some (codes "0x" ++ numeral 16 n, args)
unfolding convert
convert_pointer n args lt = ap (λ o. taken (with_prefix (codes "0x") o) args) (hexadecimal n lt)

printf_plain :
    (c : ℕ) (format : Str) (args : List Arg)
    → c ≢ b'%'
    → printf (c ∷ format) args ≡ with_prefix (c ∷ []) (printf format args)
unfolding printf
printf_plain c [] args h = ground arith
printf_plain c (d ∷ format) args h = ground arith

printf_percent :
    (d : ℕ) (format : Str) (args : List Arg)
    → printf (b'%' ∷ d ∷ format) args ≡ then_rest (convert d args) (printf format)
unfolding printf
printf_percent d format args = refl

-- A conversion, then the rest of the format.
printf_piece :
    (d : ℕ) (format : Str) (args rest : List Arg) (t u : Str)
    → convert d args ≡ some (t, rest)
    → printf format rest ≡ some u
    → printf (b'%' ∷ d ∷ format) args ≡ some (t ++ u)
printf_piece d format args rest t u c r = rw (printf_percent d format args, c, r) refl

-- What stands behind the pieces: nothing, or a '%' without a conversion.
abbrev pub ending : Bool → Str
ending true = b'%' ∷ []
ending false = []

-- A format is pieces and perhaps a '%' at the very end: characters, conversions (%s %c %d %i %u %x
-- %p %%), and '%' before another character. For such a format, with the arguments that its
-- conversions take, a pointer's of 64 bits, printf writes what the pieces show, in order, and
-- nothing for the '%' at the end.
pub printf-eq-all_shown :
    (ps : List Piece) (trailing : Bool)
    → AreGood ps
    → printf (spelling ps ++ ending trailing) (arguments ps) ≡ some (all_shown ps)
printf-eq-all_shown [] true g = unfold printf in refl
printf-eq-all_shown [] false g = unfold printf in refl
printf-eq-all_shown (plain c ∷ ps) b g =
    rw (printf_plain c (spelling ps ++ ending b) (arguments ps) g.0, printf-eq-all_shown ps b g.1)
      refl
printf-eq-all_shown (other c ∷ ps) b g =
    printf_piece c _ _ _ _ _ (convert_other c (arguments ps) g.0) (printf-eq-all_shown ps b g.1)
printf-eq-all_shown (percent ∷ ps) b g =
    printf_piece _ _ _ _ _ _ (convert_percent (arguments ps)) (printf-eq-all_shown ps b g.1)
printf-eq-all_shown (string s ∷ ps) b g =
    printf_piece _ _ _ _ _ _ (convert_string s (arguments ps)) (printf-eq-all_shown ps b g.1)
printf-eq-all_shown (char n ∷ ps) b g =
    printf_piece _ _ _ _ _ _ (convert_char n (arguments ps)) (printf-eq-all_shown ps b g.1)
printf-eq-all_shown (signed n ∷ ps) b g =
    printf_piece _ _ _ _ _ _ (convert_signed n (arguments ps)) (printf-eq-all_shown ps b g.1)
printf-eq-all_shown (integer n ∷ ps) b g =
    printf_piece _ _ _ _ _ _ (convert_integer n (arguments ps)) (printf-eq-all_shown ps b g.1)
printf-eq-all_shown (unsigned n ∷ ps) b g =
    printf_piece _ _ _ _ _ _ (convert_unsigned n (arguments ps)) (printf-eq-all_shown ps b g.1)
printf-eq-all_shown (hex n ∷ ps) b g =
    printf_piece _ _ _ _ _ _ (convert_hex n (arguments ps)) (printf-eq-all_shown ps b g.1)
printf-eq-all_shown (pointer n ∷ ps) b g =
    printf_piece _ _ _ _ _ _ (convert_pointer n (arguments ps) g.0) (printf-eq-all_shown ps b g.1)
