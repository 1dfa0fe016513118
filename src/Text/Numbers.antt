-- ===== src/Text/Numbers.antt =====
-- `atoi`, against the decimal printing of integers.
use libxio.Base.{
  ℕ, suc, ◌+◌, ◌≤◌, ◌≡◌, refl, ap, Bool, true, false, [], ◌∷◌, Bytes, ◌==◌, if◌then◌else◌, ◌&&◌,
  ◌||◌, leb, le→leb, Run, done, fault, Fault, arith,
}
use libxio.Base.Int.{ℤ, pos, negsuc}
use libxio.Decimal.{digits, max_digits, print_int}
use libxio.BufferRef.{is_digit, parse_sign, signed, int_max}
use libxio.BufferRef.Number.{
  magnitude, AllDigits, digits-AllDigits, decimal-digits, parse_sign-digits, print_pos,
  print_negsuc,
}
use libxio.BufferRef.Numeral.{decimal}

-- `isspace` in the C locale.
unfoldable pub is_space : ℕ → Bool
is_space c = c == b' ' || leb 9 c && leb c 13

unfoldable pub skip_space : Bytes → Bytes
unfolding is_space
skip_space [] = []
skip_space (c ∷ s) = if is_space c then skip_space s else c ∷ s

-- A number that is not an `int` is undefined behaviour.
abbrev to_int32 : Bool → ℕ → Run ℤ
to_int32 sign n =
    if leb n (if sign then int_max + 1 else int_max)
    then done (signed sign n)
    else fault Fault.int_overflow

unfoldable pub atoi : Bytes → Run ℤ
unfolding skip_space parse_sign
atoi s = let (sign, rest) = parse_sign (skip_space s) in to_int32 sign (decimal rest)

digit_above : (c : ℕ) → is_digit c ≡ true → is_space c ≡ false
unfolding is_digit is_space
digit_above c h = ground arith

skip_space-digits : (s : Bytes) → AllDigits s → skip_space s ≡ s
unfolding skip_space
skip_space-digits [] h = refl
skip_space-digits (c ∷ s) h = rw (digit_above c h.0) refl

-- `atoi` reads back what `printf("%d")` prints of an `int`.
pub atoi-print_int : (z : ℤ) → magnitude z ≤ int_max → atoi (print_int z) ≡ done z
unfolding atoi
atoi-print_int (pos n) h =
    rw
      (
        print_pos n,
        skip_space-digits (digits max_digits n) (digits-AllDigits max_digits n),
        parse_sign-digits (digits max_digits n) (digits-AllDigits max_digits n),
        decimal-digits n (omega arith),
        le→leb n int_max h,
      )
      refl
atoi-print_int (negsuc n) h =
    rw
      (
        print_negsuc n,
        decimal-digits (suc n) (omega arith),
        le→leb (suc n) (int_max + 1) (omega arith),
      )
      (ap done (negative n))
  where
    negative : (k : ℕ) → signed true (suc k) ≡ negsuc k
    negative k = ground arith
