-- ===== src/BufferRef/Compare.antt =====
-- The tests, copies and the hash of `BufferBase<T>` (include/xio/Buffer.h) that compare a view with
-- text from outside: C strings, `std::string`s and string literals.
pub mod Tested
pub mod Cased
use Prim.Native.Nat.{bit_xor}
use Prim.Native.Char.{code}
use libxio.Base.{
  ℕ, zero, suc, ◌+◌, ◌-◌, ◌*◌, ◌%◌, ◌^◌, Bool, true, false, not, ◌&&◌, Option, none, some, List, [],
  ◌∷◌, Bytes, size_mod, length, take, drop, Run, done, fault, Fault, ◌>>=◌, ◌>>◌, assert, ltb, leb,
  ◌==◌, if◌then◌else◌,
}
use libxio.Text.{codes}
use libxio.BufferRef.{BufferRef, text, at, mem_eq}

-- `begins(const char*)`; a null pointer is `none`, and a C string is given without its NUL.
unfoldable pub begins_text : BufferRef → Option Bytes → Run Bool
begins_text v none = done true
begins_text v (some s) = if leb (length s) v.size then mem_eq v.mem s (length s) else done false

-- `begins(const std::string&)` and `begins(char)`.
unfoldable pub begins_string : BufferRef → Bytes → Run Bool
begins_string v [] = done true
begins_string v (c ∷ s) =
    if leb (length (c ∷ s)) v.size then mem_eq v.mem (c ∷ s) (length (c ∷ s)) else done false

unfoldable pub begins_char : BufferRef → ℕ → Run Bool
begins_char v c = if leb 1 v.size then (do x ← at v 0; done (x == c)) else done false

-- `ends(const char*)`.
unfoldable pub ends_text : BufferRef → Option Bytes → Run Bool
ends_text v none = done true
ends_text v (some s) =
    if ltb v.size (length s)
    then done false
    else mem_eq (drop (v.size - length s) v.mem) s (length s)

-- `equals(a, PodType (&)[N])` and `equals(a, const std::string&)`.
unfoldable pub equals_text : BufferRef → Bytes → Run Bool
equals_text a s = if not (a.size == length s) then done false else mem_eq a.mem s (length s)

-- `std::tolower` in the C locale.
unfoldable pub to_lower : ℕ → ℕ
to_lower c = if leb b'A' c && leb c b'Z' then c + 32 else c

-- `strncasecmp(p, q, n) == 0`, which stops behind a NUL that both have.
unfoldable pub case_eq : Bytes → Bytes → ℕ → Run Bool
case_eq m q zero = done true
case_eq [] q (suc n) = fault Fault.out_of_bounds
case_eq (x ∷ m) [] (suc n) = fault Fault.out_of_bounds
case_eq (x ∷ m) (y ∷ q) (suc n) =
    let rest = if x == 0 then done true else case_eq m q n in
    if to_lower x == to_lower y then rest else done false

-- `iequals(a, b)` of two views.
unfoldable pub iequals : BufferRef → BufferRef → Run Bool
iequals a b = if not (a.size == b.size) then done false else case_eq a.mem b.mem a.size

-- `iequals(a, PodType (&)[N])` and `iequals(a, const std::string&)`.
unfoldable pub iequals_text : BufferRef → Bytes → Run Bool
iequals_text a s = if not (a.size == length s) then done false else case_eq a.mem s (length s)

-- `toBool`.
unfoldable pub to_bool : BufferRef → Run Bool
to_bool v = do
  is_true ← iequals_text v (codes "true")
  if is_true then done true else equals_text v (codes "1")

-- `std::string(p, n)`.
unfoldable pub copy : Bytes → ℕ → Run Bytes
copy m n = if leb n (length m) then done (take n m) else fault Fault.out_of_bounds

-- `substr(offset)`, `str()`, and `substr(offset, count)`.
unfoldable pub substr_from : BufferRef → ℕ → Run Bytes
substr_from v offset = do assert (leb offset v.size); copy (drop offset v.mem) (v.size - offset)

unfoldable pub str : BufferRef → Run Bytes
unfolding substr_from
str v = substr_from v 0

unfoldable pub substr : BufferRef → (offset count : ℕ) → Run Bytes
substr v offset count = do
  assert (leb ((offset + count) % size_mod) v.size)
  copy (drop offset v.mem) count

-- `xio::hash`, the loop over `begin()` to `end()`. A `char` is signed: it is extended to the 32 bits
-- of the result by its sign.
unfoldable pub extend : ℕ → ℕ
extend c = if ltb c 128 then c else c + 2 ^ 32 - 256

unfoldable pub fnv_loop : Bytes → ℕ → ℕ
unfolding extend
fnv_loop [] result = result
fnv_loop (c ∷ s) result = fnv_loop s (bit_xor result (extend c) * 16777619 % 2 ^ 32)

unfoldable pub hash : BufferRef → ℕ
unfolding fnv_loop
hash v = fnv_loop (text v) 2166136261
