-- ===== src/BufferRef/Numeral.antt =====
-- The numbers that texts of digits stand for, and what the loops of `toInt` and `hex` read of them.
use libxio.Base.{
  ℕ, ◌+◌, ◌-◌, ◌*◌, ◌%◌, ◌^◌, ◌≤◌, ◌≡◌, refl, Bool, true, false, [], ◌∷◌, Bytes, done, fault, Fault,
  arith, inl, inr, ◌>>=◌, ◌==◌, ltb, leb, ltb→lt, le→leb, gt→leb, ==_iff, Bool-cases, if◌then◌else◌,
}
use libxio.BufferRef.{
  BufferRef, text, is_digit, is_xdigit, hex_digit, hex_loop, hex, digits_loop, parse_sign, signed,
  to_int, int_max,
}

-- The digits that a text begins with, and the number that digits spell behind `n`.
unfoldable pub leading : (ℕ → Bool) → Bytes → Bytes
leading p [] = []
leading p (c ∷ s) = if p c then c ∷ leading p s else []

unfoldable pub value : (base : ℕ) (digit : ℕ → ℕ) → ℕ → Bytes → ℕ
value base digit n [] = n
value base digit n (c ∷ s) = value base digit (n * base + digit c) s

abbrev pub decimal : Bytes → ℕ
decimal s = value 10 (λ c. c - b'0') 0 (leading is_digit s)

abbrev pub hexadecimal : Bytes → ℕ
hexadecimal s = value 16 hex_digit 0 (leading is_xdigit s)

le-value : (s : Bytes) (n : ℕ) → n ≤ value 10 (λ c. c - b'0') n s
unfolding value
le-value [] n = omega arith
le-value (c ∷ s) n = omega (arith, le-value s (n * 10 + (c - b'0')))

digits_loop_lem :
    (s : Bytes) (n : ℕ)
    → n ≤ int_max
    → let total = value 10 (λ c. c - b'0') n (leading is_digit s) in
      digits_loop s n ≡ (if leb total int_max then done total else fault Fault.int_overflow)
unfolding digits_loop value leading
digits_loop_lem [] n h = rw (le→leb n int_max h)
digits_loop_lem (c ∷ s) n h = elim (Bool-cases (is_digit c)) [
  | inr other ↦ rw (other, le→leb n int_max h)
  | inl digit ↦ rw digit (elim (Bool-cases (ltb int_max (n * 10 + (c - b'0')))) [
    | inl big ↦ rw (
      big,
      gt→leb (value 10 (λ c. c - b'0') (n * 10 + (c - b'0')) (leading is_digit s)) int_max
          (omega (arith, ltb→lt _ _ big, le-value (leading is_digit s) (n * 10 + (c - b'0')))),
    )
    | inr fits ↦ rw fits (digits_loop_lem s (n * 10 + (c - b'0')) (below fits))
  ])
]
  where
    below : {m : ℕ} → ltb int_max m ≡ false → m ≤ int_max
    below q = ground arith

-- `toInt` reads the digits behind the sign, up to the first other byte. It returns their signed
-- value, and overflows exactly if that value without its sign is above `INT_MAX`.
pub to_int_lem :
    (v : BufferRef)
    → to_int v ≡ (
        if leb (decimal (parse_sign (text v)).1) int_max
        then done (signed (parse_sign (text v)).0 (decimal (parse_sign (text v)).1))
        else fault Fault.int_overflow)
unfolding to_int
to_int_lem v =
    rw (digits_loop_lem (parse_sign (text v)).1 0 (omega arith))
      (through (leb (decimal (parse_sign (text v)).1) int_max))
  where
    through :
        (b : Bool)
        → ((if b then done (decimal (parse_sign (text v)).1) else fault Fault.int_overflow)
            >>= λ val. done (signed (parse_sign (text v)).0 val))
          ≡ (if b
              then done (signed (parse_sign (text v)).0 (decimal (parse_sign (text v)).1))
              else fault Fault.int_overflow)
    through true = refl
    through false = refl

hex_step :
    (n d : ℕ)
    → ((if n % 2 ^ 32 == 0 then n % 2 ^ 32 else n % 2 ^ 32 * 16 % 2 ^ 32) + d) % 2 ^ 32
      ≡ (n * 16 + d) % 2 ^ 32
hex_step n d = elim (Bool-cases (n % 2 ^ 32 == 0)) [
  | inl z ↦ rw z (omega (arith, (==_iff (n % 2 ^ 32) 0).0 z))
  | inr k ↦ rw k (omega arith)
]

hex_loop_lem :
    (s : Bytes) (n : ℕ)
    → hex_loop 32 s (n % 2 ^ 32) ≡ value 16 hex_digit n (leading is_xdigit s) % 2 ^ 32
unfolding hex_loop value leading
hex_loop_lem [] n = refl
hex_loop_lem (c ∷ s) n = elim (Bool-cases (is_xdigit c)) [
  | inr other ↦ rw other
  | inl digit ↦ rw (digit, hex_step n (hex_digit c)) (hex_loop_lem s (n * 16 + hex_digit c))
]

-- `hex<uint32_t>` returns the value of the hexadecimal digits that the text begins with, modulo 2^32.
pub hex_lem : (v : BufferRef) → hex 32 v ≡ hexadecimal (text v) % 2 ^ 32
unfolding hex
hex_lem v = hex_loop_lem (text v) 0
