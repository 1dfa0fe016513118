-- ===== src/Base/Int.antt =====
-- Signed integers over the native numbers, under the library's names (its ℤ stands on the unary ℕ).
use libxio.Base.{ap, ℕ, ◌==◌, true, false, ◌-◌, ◌≡◌, Bool, arith, leb, if◌then◌else◌}

-- `negsuc n` is -(n + 1).
pub data ℤ : Type 0 where
  pos : ℕ → ℤ
  negsuc : ℕ → ℤ

-- a - b, as an integer.
abbrev pub sub_ℕ : ℕ → ℕ → ℤ
sub_ℕ a b = if leb b a then pos (a - b) else negsuc (b - a - 1)

abbrev pub same_int : ℤ → ℤ → Bool
same_int (pos m) (pos n) = m == n
same_int (negsuc m) (negsuc n) = m == n
same_int (pos m) (negsuc n) = false
same_int (negsuc m) (pos n) = false

pub same_int_refl : (a : ℤ) → same_int a a ≡ true
same_int_refl (pos n) = ground arith
same_int_refl (negsuc n) = ground arith

pub same_int_sound : (a b : ℤ) → same_int a b ≡ true → a ≡ b
same_int_sound (pos m) (pos n) h = ap pos (ground (arith, h))
same_int_sound (negsuc m) (negsuc n) h = ap negsuc (ground (arith, h))
same_int_sound (pos m) (negsuc n) h = absurd (cc)
same_int_sound (negsuc m) (pos n) h = absurd (cc)
