-- ===== src/BufferRef/Tests.antt =====
-- The theorems on views, at short texts.
use libxio.Base.{
  true, ◌≡◌, refl, [], ◌∷◌, ◌++◌, length, done, fault, Fault, Returns, leb, if◌then◌else◌, arith,
}
use libxio.Base.Int.{negsuc}
use libxio.Decimal.{print_int}
use libxio.BufferRef.{
  parse_sign, digits_loop, is_digit, BufferRef, at, memchr, ref, trim_left, trim_right, find_char,
  find, split_char, trim, to_int, int_max, is_space,
}
use libxio.BufferRef.Inv.{IsView}
use libxio.BufferRef.Search.{Occurs, find-Finds}
use libxio.BufferRef.Find.{Finds}
use libxio.BufferRef.Cut.{Splits, split_char-Splits}
use libxio.BufferRef.Trim.{Trimmed, trim-Trimmed, trim_empty}
use libxio.BufferRef.Compare.{to_bool, iequals_text, case_eq, to_lower, hash, fnv_loop, extend}
use libxio.Text.{codes}
use libxio.BufferRef.Number.{to_int-print_int}

-- " a=b " in front of other bytes.
abbrev line : BufferRef
line = record { mem = b' ' ∷ b'a' ∷ b'=' ∷ b'b' ∷ b' ' ∷ b'x' ∷ []; size = 5 }

line-IsView : IsView line
line-IsView = record { within = omega arith; bounded = omega arith }

-- Runs of the executable definitions.
line_halves :
    split_char line b'='
    ≡ done (record { mem = line.mem; size = 2 }, record { mem = b'b' ∷ b' ' ∷ b'x' ∷ []; size = 2 })
unfolding split_char find_char memchr ref
line_halves = refl

trimmed_line : trim line ≡ done (record { mem = b'a' ∷ b'=' ∷ b'b' ∷ b' ' ∷ b'x' ∷ []; size = 3 })
unfolding trim trim_left at is_space trim_right ref
trimmed_line = refl

find-Finds_example :
    Returns
      (Finds (Occurs (b'o' ∷ b'o' ∷ []) (b'f' ∷ b'o' ∷ b'o' ∷ [])) 0 3)
      (find (record { mem = b'f' ∷ b'o' ∷ b'o' ∷ 0 ∷ []; size = 3 }) (b'o' ∷ b'o' ∷ []) 0)
find-Finds_example =
    find-Finds (b'f' ∷ b'o' ∷ b'o' ∷ []) [] (b'o' ∷ b'o' ∷ []) 0 (omega arith, (omega arith, tt))
      (λ e. cc) (omega arith) (omega arith)

split_char-Splits_example : Returns (Splits line b'=') (split_char line b'=')
split_char-Splits_example = split_char-Splits line b'=' line-IsView

trim-Trimmed_example : Returns (Trimmed line) (trim line)
trim-Trimmed_example =
    trim-Trimmed line 1 line-IsView (omega arith) (b'a', refl, unfold is_space in refl)

trim_empty_example : trim (record { mem = b'a' ∷ []; size = 0 }) ≡ fault Fault.out_of_bounds
trim_empty_example = trim_empty (b'a' ∷ []) (omega arith)

to_int-print_int_example :
    to_int
      (record { mem = print_int (negsuc 41) ++ (b';' ∷ []); size = length (print_int (negsuc 41)) })
    ≡ (if leb 42 int_max then done (negsuc 41) else fault Fault.int_overflow)
to_int-print_int_example = to_int-print_int (negsuc 41) (b';' ∷ []) (omega arith)

-- "-41x" and "fFg".
abbrev minus : BufferRef
minus = record { mem = b'-' ∷ b'4' ∷ b'1' ∷ b'x' ∷ []; size = 4 }

abbrev colour : BufferRef
colour = record { mem = b'f' ∷ b'F' ∷ b'g' ∷ []; size = 3 }

minus_value : to_int minus ≡ done (negsuc 40)
unfolding to_int parse_sign digits_loop is_digit
minus_value = refl

-- "True" in front of another byte.
abbrev word : BufferRef
word = record { mem = codes "True;"; size = 4 }

to_bool-word : to_bool word ≡ done true
unfolding to_bool iequals_text case_eq to_lower
to_bool-word = refl

-- The hash of an empty view is the offset basis, and that of "a" a known value.
hash_a : hash (record { mem = codes "a"; size = 1 }) ≡ 0xe40c292c
unfolding hash fnv_loop extend
hash_a = refl
