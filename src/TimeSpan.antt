-- ===== src/TimeSpan.antt =====
-- The whole-number parts of a time span, include/xio/TimeSpan.h. The value is a `double`; a value is
-- here the whole number of seconds that the conversion to `int` gives.
use libxio.Base.{ℕ, ◌+◌, ◌-◌, ◌*◌, ◌/◌, ◌%◌, ◌<◌, ◌≡◌, arith}

-- `ticksPerDay`, `ticksPerHour`.
abbrev per_day : ℕ
per_day = 86400

abbrev per_hour : ℕ
per_hour = 3600

-- `days`, `hours`, `minutes` and `seconds` of a value that is not negative.
unfoldable pub days : ℕ → ℕ
days v = v / per_day

unfoldable pub hours : ℕ → ℕ
hours v = v / per_hour - 24 * (v / per_day)

unfoldable pub minutes : ℕ → ℕ
minutes v = v / 60 - 60 * (v / 3600)

unfoldable pub seconds : ℕ → ℕ
seconds v = v % 60

-- The four parts of a span that is not negative make up its seconds, and hours, minutes and seconds
-- are below 24, 60 and 60.
pub parts_lem :
    (v : ℕ)
    → (v ≡ days v * 86400 + hours v * 3600 + minutes v * 60 + seconds v)
      × (hours v < 24)
      × (minutes v < 60)
      × (seconds v < 60)
unfolding days hours minutes seconds
parts_lem v = (omega arith, omega arith, omega arith, omega arith)
