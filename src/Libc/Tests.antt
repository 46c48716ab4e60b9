-- ===== src/Libc/Tests.antt =====
-- Runs of the library functions at fixed inputs, and the witnesses of their theorems.
use wnu.Prelude.{◌-◌, ◌^◌, ◌≡◌, refl, none, some, List, [], ◌∷◌, ◌++◌, true, arith}
use wnu.Mem.{Bytes}
use wnu.Str.{Str, codes}
use wnu.Libc.{memmove}
use wnu.Libc.Memory.{moved, memmove-eq-moved}
use wnu.Libc.Printf.{printf, print_unsigned_base, print_signed, fill_buffer, digit_char, word}
use wnu.Libc.Printf.Numbers.{IsNumeral, print_unsigned_base_reads_back}
use wnu.Libc.Printf.Formats.{
  Piece, plain, string, signed, integer, hex, other, ending, spelling, arguments, all_shown,
  printf-eq-all_shown,
}

-- Each byte holds its address.
abbrev numbered : Bytes
numbered k = k

-- Two ranges that overlap, to a higher address.
memmove-eq-moved_example : memmove numbered 12 10 5 14 ≡ moved numbered 12 10 5 14
memmove-eq-moved_example = memmove-eq-moved numbered 12 10 5 14

moved_up : moved numbered 12 10 5 14 ≡ 12
moved_up = refl

print_unsigned_base_reads_back_example :
    ((out : Str) × (print_unsigned_base 48879 10 ≡ some out) × IsNumeral 10 20 48879 out)
    × ((out : Str) × (print_unsigned_base 48879 16 ≡ some out) × IsNumeral 16 16 48879 out)
print_unsigned_base_reads_back_example = print_unsigned_base_reads_back 48879 (omega arith)

prints_beef : print_unsigned_base 48879 16 ≡ some (codes "beef")
unfolding print_unsigned_base fill_buffer digit_char
prints_beef = refl

-- The least int.
prints_least : printf (codes "%d") (word (2 ^ 31) ∷ []) ≡ some (codes "-2147483648")
unfolding printf print_signed print_unsigned_base fill_buffer digit_char
prints_least = refl

-- "%lx" is no conversion: it takes no argument, and the 'x' is written as it stands.
prints_long : printf (codes "%lx") (word 255 ∷ []) ≡ some (codes "%lx")
unfolding printf
prints_long = refl

-- "n=%d %s %x%l%i", and a '%' at the end.
abbrev pieces : List Piece
pieces =
    plain b'n'
    ∷ plain b'='
    ∷ signed (2 ^ 32 - 7)
    ∷ plain b' '
    ∷ string none
    ∷ plain b' '
    ∷ hex 255
    ∷ other b'l'
    ∷ integer 5
    ∷ []

printf-eq-all_shown_example :
    printf (spelling pieces ++ ending true) (arguments pieces) ≡ some (all_shown pieces)
printf-eq-all_shown_example = printf-eq-all_shown pieces true (ground arith)

shows_pieces : all_shown pieces ≡ codes "n=-7 (null) ff%l5"
unfolding print_unsigned_base fill_buffer digit_char
shows_pieces = refl
