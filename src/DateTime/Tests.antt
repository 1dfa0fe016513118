-- ===== src/DateTime/Tests.antt =====
-- The order of dates at concrete dates.
use libxio.Base.{◌≡◌, refl, true, ltb, leb, ◌==◌, arith}
use libxio.DateTime.{
  DateTime, equal, less, less_equal, greater, greater_equal, compare_dates, to_int,
}
use libxio.DateTime.Order.{order_lem}

abbrev noon : DateTime
noon = record { value = 43200 }

abbrev one_past : DateTime
one_past = record { value = 43201 }

noon_first : less noon one_past ≡ true
unfolding less compare_dates to_int
noon_first = refl

order_lem_example :
    (equal noon one_past ≡ (43200 == 43201))
    × (less noon one_past ≡ ltb 43200 43201)
    × (less_equal noon one_past ≡ leb 43200 43201)
    × (greater noon one_past ≡ ltb 43201 43200)
    × (greater_equal noon one_past ≡ leb 43201 43200)
order_lem_example = order_lem noon one_past (omega arith, omega arith)
