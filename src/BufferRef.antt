-- ===== src/BufferRef.antt =====
-- `BufferBase<T>` and `BufferRef` (include/xio/Buffer.h): a view of some bytes of an array, with its
-- searches, tests, cuts and conversions. The proofs are in the modules below.
pub mod Rfind
pub mod Numeral
pub mod Find
pub mod Inv
pub mod Search
pub mod Cut
pub mod Trim
pub mod Number
pub mod Compare
pub mod Tests
use libxio.Base.{
  ℕ, zero, suc, ◌+◌, ◌-◌, ◌*◌, ◌%◌, ◌^◌, ◌≤◌, ◌<◌, ◌≡◌, refl, Bool, true, false, not, ◌&&◌, ◌||◌,
  Option, none, some, List, [], ◌∷◌, ◌++◌, Bytes, size_mod, length, take, drop, get_elem?, Run,
  done, fault, Fault, ◌>>=◌, ◌>>◌, assert, ltb, leb, ◌==◌, if◌then◌else◌,
}
use libxio.Base.Int.{ℤ, pos, negsuc, sub_ℕ}

-- `data_` points into an array, whose bytes from there to its end are `mem`; the view is the first
-- `size` of them. A read behind the array is a fault.
pub record BufferRef : Type 0 where
  pub mem : Bytes
  pub size : ℕ

-- The bytes in the view.
abbrev pub text : BufferRef → Bytes
text v = take v.size v.mem

-- `npos`, that is `size_t(-1)`.
abbrev pub npos : ℕ
npos = 2 ^ 64 - 1

-- `at(offset)`.
unfoldable pub at : BufferRef → ℕ → Run ℕ
at v i = elim (get_elem? v.mem i) [ none ↦ fault Fault.out_of_bounds | some x ↦ done x ]

-- `ref(offset)` and `ref(offset, count)`, with their assertions.
unfoldable pub ref_from : BufferRef → ℕ → Run BufferRef
ref_from v offset = do
  assert (leb offset v.size)
  done (record { mem = drop offset v.mem; size = v.size - offset })

unfoldable pub ref : BufferRef → (offset count : ℕ) → Run BufferRef
ref v offset count = do
  assert (leb offset v.size)
  assert ((count == npos) || leb ((offset + count) % size_mod) v.size)
  done (record { mem = drop offset v.mem; size = if count == npos then v.size - offset else count })

-- `memchr(p, c, n)` over the bytes from `p` on; `i` counts the bytes passed.
unfoldable pub memchr : ℕ → Bytes → (n i : ℕ) → Run (Option ℕ)
memchr c m zero i = done none
memchr c [] (suc n) i = fault Fault.out_of_bounds
memchr c (x ∷ m) (suc n) i = if x == c then done (some i) else memchr c m n (i + 1)

-- `find(char, offset)`; `size() - offset` wraps.
unfoldable pub find_char : BufferRef → ℕ → (offset : ℕ) → Run ℕ
find_char v c offset = do
  p ← memchr c (drop offset v.mem) ((v.size + size_mod - offset) % size_mod) offset
  elim p [ none ↦ done npos | some i ↦ done i ]

-- `while (*p == *q && p != qe) { ++p; ++q; }` and the test `p == qe` behind it. The number is
-- `qe - p`; `*p` is read before `p` is compared.
unfoldable pub match_rest : Bytes → Bytes → ℕ → Run Bool
match_rest [] q k = fault Fault.out_of_bounds
match_rest (x ∷ m) [] k = fault Fault.out_of_bounds
match_rest (x ∷ m) (y ∷ q) zero = done true
match_rest (x ∷ m) (y ∷ q) (suc k) = if x == y then match_rest m q k else done false

-- `while (i != e) …` of `find(const char*)`: the number is `e - i`, and `first ∷ rest` is the needle
-- behind which its terminator stands.
unfoldable pub find_loop : (first : ℕ) (rest : Bytes) (k : ℕ) → Bytes → (n i : ℕ) → Run ℕ
find_loop first rest k m zero i = done npos
find_loop first rest k [] (suc n) i = fault Fault.out_of_bounds
find_loop first rest k (x ∷ m) (suc n) i =
    let next = find_loop first rest k m n (i + 1) in
    if x == first then (do hit ← match_rest m rest k; if hit then done i else next) else next

-- `find(const char*, offset)` and `find(PodType (&)[N], offset)`, for a needle without its NUL. An
-- empty needle has its terminator for a first byte.
unfoldable pub find : BufferRef → Bytes → (offset : ℕ) → Run ℕ
find v [] offset =
    find_loop 0 [] npos (drop offset v.mem) ((v.size + size_mod - offset) % size_mod) offset
find v (y ∷ ys) offset =
    find_loop y (ys ++ (0 ∷ [])) (length ys) (drop offset v.mem)
      ((v.size + size_mod - offset) % size_mod) offset

-- The loop of `rfind(char, offset)`, from index `q` down to 0.
unfoldable pub rfind_loop : BufferRef → ℕ → ℕ → Run ℕ
rfind_loop v c zero = do x ← at v 0; if x == c then done 0 else done npos
rfind_loop v c (suc q) =
    let next = rfind_loop v c q in do x ← at v (suc q); if x == c then done (suc q) else next

-- `rfind(char)`, which starts at `size() - 1`.
unfoldable pub rfind_char : BufferRef → ℕ → Run ℕ
rfind_char v c =
    if v.size == 0 then done npos else rfind_loop v c ((v.size + size_mod - 1) % size_mod)

-- `BufferRef()`.
abbrev pub null_ref : BufferRef
null_ref = record { mem = []; size = 0 }

-- `split(char)` and `split(const char*)`.
abbrev pub split_at : BufferRef → (i step : ℕ) → Run (BufferRef × BufferRef)
split_at v i step =
    if i == npos
    then (do whole ← ref_from v 0; done (whole, null_ref))
    else (do left ← ref v 0 i; right ← ref v ((i + step) % size_mod) npos; done (left, right))

unfoldable pub split_char : BufferRef → ℕ → Run (BufferRef × BufferRef)
split_char v delimiter = do i ← find_char v delimiter 0; split_at v i 1

unfoldable pub split : BufferRef → Bytes → Run (BufferRef × BufferRef)
split v delimiter = do i ← find v delimiter 0; split_at v i (length delimiter)

-- `memcmp(p, q, n) == 0` over the bytes from `p` and from `q` on.
unfoldable pub mem_eq : Bytes → Bytes → ℕ → Run Bool
mem_eq m q zero = done true
mem_eq [] q (suc n) = fault Fault.out_of_bounds
mem_eq (x ∷ m) [] (suc n) = fault Fault.out_of_bounds
mem_eq (x ∷ m) (y ∷ q) (suc n) = if x == y then mem_eq m q n else done false

-- `begins(const BufferRef&)`.
unfoldable pub begins : BufferRef → BufferRef → Run Bool
begins v w = if leb w.size v.size then mem_eq v.mem w.mem w.size else done false

-- `ends(const BufferRef&)` and `ends(char)`.
unfoldable pub ends : BufferRef → BufferRef → Run Bool
ends v w =
    if w.size == 0
    then done true
    else if ltb v.size w.size
    then done false
    else mem_eq (drop (v.size - w.size) v.mem) w.mem w.size

unfoldable pub ends_char : BufferRef → ℕ → Run Bool
ends_char v c = if leb 1 v.size then (do x ← at v (v.size - 1); done (x == c)) else done false

-- `equals(a, b)` of two views.
unfoldable pub equals : BufferRef → BufferRef → Run Bool
equals a b = if not (a.size == b.size) then done false else mem_eq a.mem b.mem a.size

-- `chomp`.
unfoldable pub chomp : BufferRef → Run BufferRef
chomp v = do newline ← ends_char v b'\n'; if newline then ref v 0 (v.size - 1) else ref v 0 v.size

-- `std::isspace` in the C locale.
unfoldable pub is_space : ℕ → Bool
is_space c = (c == b' ') || (leb 9 c && leb c 13)

-- The loops of `trim`: `left` goes up over `n` bytes at most, `right` goes down to 0.
unfoldable pub trim_left : BufferRef → (n left : ℕ) → Run ℕ
trim_left v zero left = done left
trim_left v (suc n) left =
    let next = trim_left v n (left + 1) in do x ← at v left; if is_space x then next else done left

unfoldable pub trim_right : BufferRef → ℕ → Run ℕ
trim_right v zero = done 0
trim_right v (suc right) =
    let next = trim_right v right in
    do x ← at v (suc right); if is_space x then next else done (suc right)

-- `trim`, with its `size_t` arithmetic.
unfoldable pub trim : BufferRef → Run BufferRef
trim v = do
  left ← trim_left v v.size 0
  right ← trim_right v ((v.size + size_mod - 1) % size_mod)
  ref v left ((1 + right + size_mod - left) % size_mod)

-- `std::isdigit`, `std::isxdigit`.
unfoldable pub is_digit : ℕ → Bool
is_digit c = leb b'0' c && leb c b'9'

unfoldable pub is_xdigit : ℕ → Bool
unfolding is_digit
is_xdigit c = is_digit c || (leb b'a' c && leb c b'f') || (leb b'A' c && leb c b'F')

-- The value that `hex` adds for a hexadecimal digit.
unfoldable pub hex_digit : ℕ → ℕ
unfolding is_digit
hex_digit c =
    if is_digit c
    then c - b'0'
    else if leb b'a' c && leb c b'f'
    then 10 + c - b'a'
    else 10 + c - b'A'

-- The loop of `hex<U>` for an unsigned type of `w` bits, over the bytes of the view. `val` is
-- multiplied only if it is not zero.
unfoldable pub hex_loop : (w : ℕ) → Bytes → ℕ → ℕ
unfolding hex_digit
hex_loop w [] val = val
hex_loop w (c ∷ s) val =
    if not (is_xdigit c)
    then val
    else hex_loop w s (((if val == 0 then val else val * 16 % 2 ^ w) + hex_digit c) % 2 ^ w)

unfoldable pub hex : (w : ℕ) → BufferRef → ℕ
hex w v = hex_loop w (text v) 0

abbrev pub int_max : ℕ
int_max = 2 ^ 31 - 1

-- The loop of `toInt`. A signed product or sum above `INT_MAX` is undefined behaviour.
unfoldable pub digits_loop : Bytes → ℕ → Run ℕ
digits_loop [] val = done val
digits_loop (c ∷ s) val =
    if not (is_digit c)
    then done val
    else if ltb int_max (val * 10 + (c - b'0'))
    then fault Fault.int_overflow
    else digits_loop s (val * 10 + (c - b'0'))

-- `toInt`.
abbrev pub signed : Bool → ℕ → ℤ
signed sign val = if sign then sub_ℕ 0 val else pos val

unfoldable pub parse_sign : Bytes → Bool × Bytes
parse_sign [] = (false, [])
parse_sign (c ∷ s) =
    if c == b'-' then (true, s) else if c == b'+' then (false, s) else (false, c ∷ s)

unfoldable pub to_int : BufferRef → Run ℤ
to_int v = do let (sign, s) = parse_sign (text v); val ← digits_loop s 0; done (signed sign val)
