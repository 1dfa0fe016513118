-- ===== src/BufferRef/Number.antt =====
-- `toInt` reads what `push_back(int)` prints.
use libxio.Base.{
  ℕ, zero, suc, ◌+◌, ◌-◌, ◌*◌, ◌/◌, ◌%◌, ◌^◌, ◌≤◌, ◌<◌, ◌≡◌, ◌≢◌, refl, ap, ◌∙◌, Bool, true, false,
  [], ◌∷◌, ◌++◌, Bytes, length, done, fault, Fault, arith, inl, inr, ◌==◌, leb, le→leb, ne→==,
  ==_iff, Bool-cases, if◌then◌else◌, take-all, take-append_left, ◌&&◌,
}
use libxio.Base.Int.{ℤ, pos, negsuc, sub_ℕ}
use native.Mathlib.Nat.{pow-suc}
use libxio.Decimal.{digits, max_digits, print_int}
use libxio.BufferRef.{BufferRef, text, is_digit, parse_sign, signed, to_int, int_max}
use libxio.BufferRef.Numeral.{leading, value, decimal, to_int_lem}

-- All bytes are digits.
abbrev pub AllDigits : Bytes → Type 0
AllDigits [] = Unit
AllDigits (c ∷ s) = (is_digit c ≡ true) × AllDigits s

AllDigits-append : (s t : Bytes) → AllDigits s → AllDigits t → AllDigits (s ++ t)
AllDigits-append [] t hs ht = ht
AllDigits-append (c ∷ s) t hs ht = (hs.0, AllDigits-append s t hs.1 ht)

leading-AllDigits : (s : Bytes) → AllDigits s → leading is_digit s ≡ s
unfolding leading
leading-AllDigits [] h = refl
leading-AllDigits (c ∷ s) h = rw (h.0, leading-AllDigits s h.1)

value-append :
    (s t : Bytes) (n : ℕ)
    → value 10 (λ c. c - b'0') n (s ++ t)
      ≡ value 10 (λ c. c - b'0') (value 10 (λ c. c - b'0') n s) t
unfolding value
value-append [] t n = refl
value-append (c ∷ s) t n = value-append s t (n * 10 + (c - b'0'))

digit_byte : (n : ℕ) → is_digit (b'0' + n % 10) ≡ true
unfolding is_digit
digit_byte n =
    rw (le→leb b'0' (b'0' + n % 10) (omega arith), le→leb (b'0' + n % 10) b'9' (omega arith))

pub digits-AllDigits : (f n : ℕ) → AllDigits (digits f n)
unfolding digits
digits-AllDigits zero n = tt
digits-AllDigits (suc f) n = elim (Bool-cases (n / 10 == 0)) [
  | inl z ↦ rw z (digit_byte n, tt)
  | inr k ↦
      rw k (AllDigits-append (digits f (n / 10)) _ (digits-AllDigits f (n / 10)) (digit_byte n, tt))
]

value-digits : (f n : ℕ) → n < 10 ^ f → value 10 (λ c. c - b'0') 0 (digits f n) ≡ n
unfolding digits value
value-digits zero n h = omega arith
value-digits (suc f) n h = elim (Bool-cases (n / 10 == 0)) [
  | inl z ↦ rw z (omega (arith, (==_iff (n / 10) 0).0 z))
  | inr k ↦
      rw
        (
          k,
          value-append (digits f (n / 10)) ((b'0' + n % 10) ∷ []) 0,
          value-digits f (n / 10) (omega (arith, pow-suc 10 f)),
        )
        (omega arith)
]

pub decimal-digits : (n : ℕ) → n < 10 ^ max_digits → decimal (digits max_digits n) ≡ n
decimal-digits n h =
    rw (leading-AllDigits (digits max_digits n) (digits-AllDigits max_digits n))
      (value-digits max_digits n h)

pub parse_sign-digits : (s : Bytes) → AllDigits s → parse_sign s ≡ (false, s)
unfolding parse_sign is_digit
parse_sign-digits [] h = refl
parse_sign-digits (c ∷ s) h = rw (
  ne→== c b'-' (digit_above c b'-' (omega arith) h.0),
  ne→== c b'+' (digit_above c b'+' (omega arith) h.0),
)
  where
    digit_above : (a k : ℕ) → k < b'0' → (leb b'0' a && leb a b'9') ≡ true → a ≢ k
    digit_above a k lt q = ground arith

-- The view of a printed number, with other bytes behind it.
abbrev printed : ℤ → Bytes → BufferRef
printed z w = record { mem = print_int z ++ w; size = length (print_int z) }

text-printed : (z : ℤ) (w : Bytes) → text (printed z w) ≡ print_int z
text-printed z w =
    take-append_left (length (print_int z)) (print_int z) w (omega arith)
    ∙ take-all (length (print_int z)) (print_int z) (omega arith)

-- The magnitude of an integer.
abbrev pub magnitude : ℤ → ℕ
magnitude (pos n) = n
magnitude (negsuc n) = suc n

to_int_of :
    (v : BufferRef) (sign : Bool) (s : Bytes)
    → parse_sign (text v) ≡ (sign, s)
    → to_int v ≡ (
        if leb (decimal s) int_max
        then done (signed sign (decimal s))
        else fault Fault.int_overflow)
to_int_of v sign s e =
    to_int_lem v
    ∙ ap
        (λ (p : Bool × Bytes).
          if leb (decimal p.1) int_max
          then done (signed p.0 (decimal p.1))
          else fault Fault.int_overflow)
        e

pub print_pos : (n : ℕ) → print_int (pos n) ≡ digits max_digits n
unfolding print_int
print_pos n = refl

pub print_negsuc : (n : ℕ) → print_int (negsuc n) ≡ b'-' ∷ digits max_digits (suc n)
unfolding print_int
print_negsuc n = refl

parse_minus : (s : Bytes) → parse_sign (b'-' ∷ s) ≡ (true, s)
unfolding parse_sign
parse_minus s = refl

to_int_digits :
    (z : ℤ) (w : Bytes)
    → magnitude z < 10 ^ max_digits
    → to_int (printed z w)
      ≡ (if leb (magnitude z) int_max then done z else fault Fault.int_overflow)
to_int_digits (pos n) w h =
    to_int_of (printed (pos n) w) false (digits max_digits n) (
      rw
        (
          text-printed (pos n) w,
          print_pos n,
          parse_sign-digits (digits max_digits n) (digits-AllDigits max_digits n),
        )
        refl)
    ∙ ap (λ k. if leb k int_max then done (pos k) else fault Fault.int_overflow)
        (decimal-digits n h)
to_int_digits (negsuc n) w h =
    to_int_of (printed (negsuc n) w) true (digits max_digits (suc n))
      (rw (text-printed (negsuc n) w, print_negsuc n, parse_minus (digits max_digits (suc n))) refl)
    ∙ ap (λ k. if leb k int_max then done (sub_ℕ 0 k) else fault Fault.int_overflow)
        (decimal-digits (suc n) h)
    ∙ ap (λ k. if leb (suc n) int_max then done k else fault Fault.int_overflow) (negative n)
  where
    negative : (k : ℕ) → sub_ℕ 0 (suc k) ≡ negsuc k
    negative k = ground arith

-- `toInt` reads back every `int` that `push_back(int)` has printed, but for `INT_MIN`, at which it
-- overflows.
pub to_int-print_int :
    (z : ℤ) (w : Bytes)
    → magnitude z ≤ int_max + 1
    → to_int (record { mem = print_int z ++ w; size = length (print_int z) })
      ≡ (if leb (magnitude z) int_max then done z else fault Fault.int_overflow)
to_int-print_int z w h = to_int_digits z w (omega arith)
