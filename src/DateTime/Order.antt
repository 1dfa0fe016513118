-- ===== src/DateTime/Order.antt =====
-- The order of dates.
use libxio.Base.{
  ℕ, ◌+◌, ◌-◌, ◌*◌, ◌^◌, ◌<◌, ◌≡◌, true, ltb, leb, ◌==◌, arith, Bool-cases, inl, inr, leb→le,
  leb→gt,
}
use libxio.Base.Int.{pos, negsuc, sub_ℕ}
use libxio.DateTime.{
  DateTime, to_int, compare_dates, equal, less, less_equal, greater, greater_equal, difference,
  later, earlier,
}

-- Numbers in the range of `int` are not changed.
to_int_pos : (n : ℕ) → n < 2 ^ 31 → to_int (pos n) ≡ pos n
unfolding to_int
to_int_pos n h = ground arith

to_int_negsuc : (n : ℕ) → n < 2 ^ 31 → to_int (negsuc n) ≡ negsuc n
unfolding to_int
to_int_negsuc n h = ground arith

-- Dates less than 2^31 seconds apart.
abbrev pub Near : DateTime → DateTime → Type 0
Near a b = (a.value < b.value + 2 ^ 31) × (b.value < a.value + 2 ^ 31)

compare_dates-Near : (a b : DateTime) → Near a b → compare_dates a b ≡ sub_ℕ a.value b.value
unfolding compare_dates
compare_dates-Near a b (lt, gt) = elim (Bool-cases (leb b.value a.value)) [
  | inl le ↦ rw le (to_int_pos (a.value - b.value) (omega (arith, leb→le _ _ le)))
  | inr n ↦ rw n (to_int_negsuc (b.value - a.value - 1) (omega (arith, leb→gt _ _ n)))
]

-- For dates less than 2^31 seconds apart the operators are those of the numbers of seconds.
pub order_lem :
    (a b : DateTime)
    → Near a b
    → (equal a b ≡ (a.value == b.value))
      × (less a b ≡ ltb a.value b.value)
      × (less_equal a b ≡ leb a.value b.value)
      × (greater a b ≡ ltb b.value a.value)
      × (greater_equal a b ≡ leb b.value a.value)
unfolding equal less less_equal greater greater_equal
order_lem a b n =
    rw (compare_dates-Near a b n)
      (ground arith, ground arith, ground arith, ground arith, ground arith)

-- Dates that are a multiple of 2^32 seconds apart compare equal.
pub equal-far : (a : DateTime) (k : ℕ) → equal a (later a (2 ^ 32 * (k + 1))) ≡ true
unfolding equal compare_dates to_int later
equal-far a k = ground arith

-- A span that is added to a date is the difference to it, and taken off again gives the date.
pub difference-later :
    (a : DateTime) (span : ℕ)
    → (difference (later a span) a ≡ span)
      × (difference a (later a span) ≡ span)
      × (earlier (later a span) span ≡ a)
unfolding difference later earlier
difference-later a span = (ground arith, ground arith, ground arith)
