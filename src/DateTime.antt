-- ===== src/DateTime.antt =====
-- Dates, include/xio/DateTime.h and lib/DateTime.cpp. The value is a `double`; it is here the whole
-- number of seconds since 1970 that `unixtime` gives.
pub mod Order
mod Tests
use libxio.Base.{ℕ, ◌+◌, ◌-◌, ◌*◌, ◌%◌, ◌^◌, Bool, true, false, not, ltb, leb, ◌==◌, if◌then◌else◌}
use libxio.Base.Int.{ℤ, pos, negsuc, sub_ℕ}

pub record DateTime : Type 0 where
  pub value : ℕ

-- `update(value)` and `operator=`, which write only another value; `update()` takes that of a clock.
unfoldable pub update : ℕ → DateTime → DateTime
update v d = if not (d.value == v) then record d { value = v } else d

-- `valid`.
unfoldable pub is_valid : DateTime → Bool
is_valid d = not (d.value == 0)

-- A `time_t` of 64 bits that becomes an `int` of 32.
unfoldable pub to_int : ℤ → ℤ
to_int z =
    let bits : ℕ = elim z [ pos n ↦ n % 2 ^ 32 | negsuc n ↦ 2 ^ 32 - 1 - n % 2 ^ 32 ] in
    if ltb bits (2 ^ 31) then pos bits else negsuc (2 ^ 32 - 1 - bits)

-- `compare`.
unfoldable pub compare_dates : DateTime → DateTime → ℤ
unfolding to_int
compare_dates a b = to_int (sub_ℕ a.value b.value)

-- The operators, by the sign of `compare`.
abbrev pub is_zero : ℤ → Bool
is_zero (pos n) = n == 0
is_zero (negsuc n) = false

abbrev pub is_negative : ℤ → Bool
is_negative (pos n) = false
is_negative (negsuc n) = true

unfoldable pub equal : DateTime → DateTime → Bool
unfolding compare_dates
equal a b = is_zero (compare_dates a b)

unfoldable pub less : DateTime → DateTime → Bool
unfolding compare_dates
less a b = is_negative (compare_dates a b)

unfoldable pub less_equal : DateTime → DateTime → Bool
unfolding compare_dates
less_equal a b = let z = compare_dates a b in if is_negative z then true else is_zero z

abbrev pub is_positive : ℤ → Bool
is_positive (pos n) = ltb 0 n
is_positive (negsuc n) = false

unfoldable pub greater : DateTime → DateTime → Bool
unfolding compare_dates
greater a b = is_positive (compare_dates a b)

unfoldable pub greater_equal : DateTime → DateTime → Bool
unfolding compare_dates
greater_equal a b = let z = compare_dates a b in if is_positive z then true else is_zero z

-- `a - b` of two dates, a span of the absolute value of the difference.
unfoldable pub difference : DateTime → DateTime → ℕ
difference a b = if ltb a.value b.value then b.value - a.value else a.value - b.value

-- A date and a span: `a + b` and `a - b`, for spans up to the date.
unfoldable pub later : DateTime → ℕ → DateTime
later a span = record { value = a.value + span }

unfoldable pub earlier : DateTime → ℕ → DateTime
earlier a span = record { value = a.value - span }
