-- ===== src/Libc/Printf.antt =====
-- Number printing and printf of src/lib/lib.c: the characters that they write to the console.
pub mod Numbers
pub mod Formats
use wnu.Prelude.{
  ℕ, zero, suc, ◌+◌, ◌-◌, ◌%◌, ◌/◌, ◌^◌, Bool, Option, none, some, List, [], ◌∷◌, ◌++◌, ◌==◌, ltb,
  leb, if◌then◌else◌,
}
use wnu.Str.{Str, codes}

unfoldable pub digit_char : ℕ → ℕ
digit_char digit = if ltb digit 10 then b'0' + digit else b'a' + digit - 10

-- The loop that fills `buffer`; the last character stored is the head of the list, as the next loop
-- writes them. `none` means that the fuel ran out.
unfoldable pub fill_buffer : ℕ → ℕ → ℕ → Str → Option Str
fill_buffer zero value base buffer = none
fill_buffer (suc fuel) value base buffer =
    let rest = fill_buffer fuel (value / base) base (digit_char (value % base) ∷ buffer) in
    if value == 0 then some buffer else rest

-- A 64-bit value has at most 64 digits.
abbrev pub digit_fuel : ℕ
digit_fuel = 65

unfoldable pub print_unsigned_base : ℕ → ℕ → Option Str
print_unsigned_base value base =
    if value == 0 then some (b'0' ∷ []) else fill_buffer digit_fuel value base []

abbrev pub minus : Option Str → Option Str
minus none = none
minus (some text) = some (b'-' ∷ text)

-- `value` is the bit pattern of the int64_t; -value is its two's complement.
unfoldable pub print_signed : ℕ → Option Str
print_signed value =
    if leb (2 ^ 63) value
    then minus (print_unsigned_base ((2 ^ 64 - value) % 2 ^ 64) 10)
    else print_unsigned_base value 10

-- A variable argument: a pointer to a string, null or not, or a register of 64 bits.
pub data Arg : Type 0 where
  text : Option Str → Arg
  word : ℕ → Arg

-- An `int` argument as an int64_t.
abbrev pub sign_extend : ℕ → ℕ
sign_extend n = if leb (2 ^ 31) (n % 2 ^ 32) then n % 2 ^ 32 + (2 ^ 64 - 2 ^ 32) else n % 2 ^ 32

abbrev pub or_null : Option Str → Str
or_null none = codes "(null)"
or_null (some s) = s

abbrev pub with_prefix : Str → Option Str → Option Str
with_prefix p none = none
with_prefix p (some s) = some (p ++ s)

abbrev pub taken : Option Str → List Arg → Option (Str × List Arg)
taken none args = none
taken (some t) args = some (t, args)

-- A conversion of a register, and of a string pointer; `none` is an argument that is missing or of
-- the other kind, which C leaves undefined.
abbrev pub take_word : List Arg → (ℕ → Option Str) → Option (Str × List Arg)
take_word [] print = none
take_word (text s ∷ args) print = none
take_word (word n ∷ args) print = taken (print n) args

abbrev pub take_text : List Arg → Option (Str × List Arg)
take_text [] = none
take_text (text s ∷ args) = some (or_null s, args)
take_text (word n ∷ args) = none

-- The switch: what one conversion writes, and the arguments that are left.
unfoldable pub convert : ℕ → List Arg → Option (Str × List Arg)
convert c args =
    if c == b'%'
    then some (b'%' ∷ [], args)
    else if c == b's'
    then take_text args
    else if c == b'c'
    then take_word args (λ n. some ((n % 256) ∷ []))
    else if c == b'd'
    then take_word args (λ n. print_signed (sign_extend n))
    else if c == b'i'
    then take_word args (λ n. print_signed (sign_extend n))
    else if c == b'u'
    then take_word args (λ n. print_unsigned_base (n % 2 ^ 32) 10)
    else if c == b'x'
    then take_word args (λ n. print_unsigned_base (n % 2 ^ 32) 16)
    else if c == b'p'
    then take_word args (λ n. with_prefix (codes "0x") (print_unsigned_base n 16))
    else some (b'%' ∷ c ∷ [], args)

-- The characters of a conversion, then those of the rest of the format.
abbrev pub then_rest : Option (Str × List Arg) → (List Arg → Option Str) → Option Str
then_rest none rest = none
then_rest (some (s, args)) rest = with_prefix s (rest args)

unfoldable pub printf : Str → List Arg → Option Str
unfolding convert
printf [] args = some []
printf (c ∷ []) args = if c == b'%' then some [] else some (c ∷ [])
printf (c ∷ d ∷ format) args =
    let plain = with_prefix (c ∷ []) (printf (d ∷ format) args) in
    let converted = then_rest (convert d args) (printf format) in
    if c == b'%' then converted else plain
