-- ===== src/Decimal.antt =====
-- `snprintf("%d")` and its kin, as the integer overloads of `push_back` in include/xio/Buffer.h use
-- them: the decimal digits of a number, with a sign in front of a negative one.
use libxio.Base.{ℕ, zero, suc, ◌+◌, ◌/◌, ◌%◌, [], ◌∷◌, ◌++◌, Bytes, ◌==◌, if◌then◌else◌}
use libxio.Base.Int.{ℤ, pos, negsuc}

-- The digits of a number below 10 ^ fuel; the last digit is emitted last.
unfoldable pub digits : (fuel : ℕ) → ℕ → Bytes
digits zero n = []
digits (suc f) n =
    let rest = digits f (n / 10) in
    if n / 10 == 0 then (b'0' + n % 10) ∷ [] else rest ++ ((b'0' + n % 10) ∷ [])

-- A 64-bit number has 20 digits at most.
abbrev pub max_digits : ℕ
max_digits = 20

unfoldable pub print_int : ℤ → Bytes
unfolding digits
print_int (pos n) = digits max_digits n
print_int (negsuc n) = b'-' ∷ digits max_digits (suc n)
