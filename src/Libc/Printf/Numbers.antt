-- ===== src/Libc/Printf/Numbers.antt =====
-- The numbers that print_unsigned_base and print_signed write, read back.
use native.Mathlib.Nat.{div-add-mod', mod-lt, div-lt_iff_lt-mul}
use wnu.Prelude.{
  ℕ, zero, suc, ◌+◌, ◌-◌, ◌*◌, ◌%◌, ◌/◌, ◌^◌, ◌<◌, ◌≤◌, ◌≡◌, ap, ◌∙◌, some, [], ◌∷◌, length, leb,
  ◌&&◌, ◌==◌, if◌then◌else◌, arith, Bool-cases, inl, inr,
}
use wnu.Str.{Str}
use wnu.Libc.Printf.{digit_char, fill_buffer, digit_fuel, print_unsigned_base}

-- The value of a hexadecimal digit, lower case; 16 for a character that is none.
abbrev pub digit_of : ℕ → ℕ
digit_of c =
    if leb 0x30 c && leb c 0x39
    then c - 0x30
    else if leb 0x61 c && leb c 0x66
    then c - 0x61 + 10
    else 16

-- A text of digits behind the number `n`.
abbrev pub read_from : ℕ → ℕ → Str → ℕ
read_from base n [] = n
read_from base n (c ∷ s) = read_from base (n * base + digit_of c) s

abbrev pub AreDigits : ℕ → Str → Type 0
AreDigits base [] = Unit
AreDigits base (c ∷ s) = (digit_of c < base) × AreDigits base s

abbrev pub power : ℕ → ℕ → ℕ
power base zero = 1
power base (suc m) = power base m * base

digit_of-digit_char : (d : ℕ) → d < 16 → digit_of (digit_char d) ≡ d
unfolding digit_char
digit_of-digit_char d lt = ground arith

-- The text is the numeral of a value, in `m` digits at most.
pub record IsNumeral (base m value : ℕ) (out : Str) : Type 0 where
  pub reads : read_from base 0 out ≡ value
  pub digits : AreDigits base out
  pub short : length out ≤ m

-- What the loop leaves, over the characters that were stored before.
record Fills (base m value : ℕ) (buffer out : Str) : Type 0 where
  reads : read_from base 0 out ≡ read_from base value buffer
  digits : AreDigits base buffer → AreDigits base out
  short : length out ≤ m + length buffer

Fills-done : (base m value : ℕ) (buffer : Str) → value ≡ 0 → Fills base m value buffer buffer
Fills-done base m value buffer z = record {
  reads = ap (λ n. read_from base n buffer) {x = 0} {y = value} (omega arith);
  digits = λ d. d;
  short = omega arith;
}

Fills-step :
    (base m value : ℕ) (buffer out : Str)
    → 2 ≤ base
    → base ≤ 16
    → Fills base m (value / base) (digit_char (value % base) ∷ buffer) out
    → Fills base (suc m) value buffer out
Fills-step base m value buffer out two most f =
    let small : value % base < base = mod-lt value {m = base} (omega arith) in
    let whole : value / base * base + digit_of (digit_char (value % base)) ≡ value =
      omega (
        arith,
        digit_of-digit_char (value % base) (omega (arith, small)),
        div-add-mod' value base,
      ) in
    record {
      reads = f.reads ∙ ap (λ n. read_from base n buffer) whole;
      digits = λ d.
          f.digits
            (omega (arith, digit_of-digit_char (value % base) (omega (arith, small)), small), d);
      short = omega (arith, f.short);
    }

fill_buffer-Fills :
    (fuel m base value : ℕ) (buffer : Str)
    → 2 ≤ base
    → base ≤ 16
    → value < power base m
    → m < fuel
    → (out : Str) × (fill_buffer fuel value base buffer ≡ some out) × Fills base m value buffer out
unfolding fill_buffer
fill_buffer-Fills zero m base value buffer two most lt more = elim more [ ]
fill_buffer-Fills (suc fuel) zero base value buffer two most lt more =
    (buffer, ground arith, Fills-done base 0 value buffer (omega arith))
fill_buffer-Fills (suc fuel) (suc m) base value buffer two most lt more =
    let smaller : value / base < power base m =
      (div-lt_iff_lt-mul {k = base} {x = value} {y = power base m} (omega arith)).1 lt in
    let (out, e, f) =
      fill_buffer-Fills fuel m base (value / base) (digit_char (value % base) ∷ buffer) two most
        smaller (omega arith) in
    elim (Bool-cases (value == 0)) [
      | inl z ↦ (buffer, ground arith, Fills-done base (suc m) value buffer (ground arith))
      | inr nz ↦ (out, ground (arith, e), Fills-step base m value buffer out two most f)
    ]

print_in_base :
    (value base m : ℕ)
    → 2 ≤ base
    → base ≤ 16
    → value < power base (suc m)
    → m < 64
    → (out : Str) × (print_unsigned_base value base ≡ some out) × IsNumeral base (suc m) value out
unfolding print_unsigned_base
print_in_base value base m two most lt short = elim (Bool-cases (value == 0)) [
  | inl z ↦ (
    b'0' ∷ [],
    ground arith,
    record { reads = ground arith; digits = omega arith; short = omega arith },
  )
  | inr nz ↦
      let (out, e, f) =
        fill_buffer-Fills digit_fuel (suc m) base value [] two most lt (omega arith) in
      (
        out,
        ground (arith, e),
        record { reads = f.reads; digits = f.digits tt; short = omega (arith, f.short) },
      )
]

-- In base 10 and in base 16, print_unsigned_base returns for every 64-bit value, and writes digits,
-- '0' to '9' and in base 16 also 'a' to 'f', that read back to the value, 20 and 16 at most, which
-- its buffer of 32 holds.
pub print_unsigned_base_reads_back :
    (value : ℕ)
    → value < 2 ^ 64
    → ((out : Str) × (print_unsigned_base value 10 ≡ some out) × IsNumeral 10 20 value out)
      × ((out : Str) × (print_unsigned_base value 16 ≡ some out) × IsNumeral 16 16 value out)
print_unsigned_base_reads_back value lt = (
  print_in_base value 10 19 (omega arith) (omega arith) (omega arith) (omega arith),
  print_in_base value 16 15 (omega arith) (omega arith) (omega arith) (omega arith),
)
