-- ===== src/Buffer/Dump.antt =====
-- `BufferBase<T>::dump` (lib/Buffer.cpp), which prints bytes in lines of sixteen. The array of a line is
-- a list of cells and a pointer into it an index; a store behind its end is a fault. What is printed
-- is a heading and the texts of the lines. `isprint` is a parameter.
pub mod Text
pub mod Laid
pub mod Lines
mod Tests
use libxio.Base.{
  ℕ, zero, suc, ◌+◌, ◌*◌, ◌/◌, ◌%◌, Bool, List, [], ◌∷◌, Bytes, length, Run, done, fault, Fault,
  ◌>>=◌, ltb, ◌==◌, if◌then◌else◌,
}

-- A store through a pointer.
unfoldable pub put : (i c : ℕ) → Bytes → Run Bytes
put i c [] = fault Fault.out_of_bounds
put zero c (x ∷ xs) = done (c ∷ xs)
put (suc i) c (x ∷ xs) = put i c xs >>= λ ys. done (x ∷ ys)

-- `*u++ = c`.
unfoldable pub push : (u c : ℕ) → Bytes → Run (ℕ × Bytes)
push u c line = put u c line >>= λ line'. done (u + 1, line')

-- Three of them.
unfoldable pub push_three : (u a b c : ℕ) → Bytes → Run (ℕ × Bytes)
push_three u a b c line = do
  (u1, line1) ← push u a line
  (u2, line2) ← push u1 b line1
  push u2 c line2

-- A digit out of `hex`.
abbrev pub hex_char : ℕ → ℕ
hex_char n = if ltb n 10 then 48 + n else 55 + n

-- What `printf("%s")` prints of an array.
unfoldable pub printed : Bytes → Run Bytes
printed [] = fault Fault.out_of_bounds
printed (x ∷ xs) =
    let rest = printed xs in if x == 0 then done [] else (rest >>= λ ys. done (x ∷ ys))

-- The first line of a dump.
pub data Heading : Type 0 where
  described : Bytes → ℕ → Heading
  memory_dump : ℕ → Heading

abbrev pub heading : (description : Bytes) → ℕ → Heading
heading [] n = memory_dump n
heading (x ∷ xs) n = described (x ∷ xs) n

module _ (is_print : ℕ → Bool) where
  abbrev pub plain_char : ℕ → ℕ
  plain_char x = if is_print x then x else 46

  -- The places of a block that are left, with bytes and then, once these have ended, with spaces.
  unfoldable pub block : (left u v : ℕ) (xs line : Bytes) → Run (ℕ × ℕ × Bytes × Bytes)
  block zero u v xs line = done (u, v, xs, line)
  block (suc left) u v [] line = do
    (u', line') ← push_three u 32 32 32 line
    block left u' v [] line'
  block (suc left) u v (x ∷ xs) line = do
    (u', line1) ← push_three u (hex_char (x / 16 % 16)) (hex_char (x % 16)) 32 line
    (v', line2) ← push v (plain_char x) line1
    block left u' v' xs line2

  -- The blocks that are left, each with its separator. Those behind the last byte are all spaces.
  unfoldable pub blocks : (left u v : ℕ) (xs line : Bytes) → Run (ℕ × Bytes × Bytes)
  blocks zero u v xs line = done (v, xs, line)
  blocks (suc left) u v xs line = do
    (u', v', rest, line1) ← block 8 u v xs line
    (u'', line2) ← push_three u' 32 32 32 line1
    blocks left u'' v' rest line2

  -- A round of the `while`: what it prints, the bytes behind, and the array.
  unfoldable pub dump_line : (xs line : Bytes) → Run (Bytes × Bytes × Bytes)
  dump_line xs line = do
    (v, rest, line1) ← blocks 2 0 54 xs line
    line2 ← put v 0 line1
    text ← printed line2
    done (text, rest, line2)

  unfoldable pub dump_lines : (fuel : ℕ) (xs line : Bytes) → Run (List Bytes)
  dump_lines fuel [] line = done []
  dump_lines zero (x ∷ xs) line = fault Fault.out_of_fuel
  dump_lines (suc fuel) (x ∷ xs) line = do
    (text, rest, line') ← dump_line (x ∷ xs) line
    texts ← dump_lines fuel rest line'
    done (text ∷ texts)

  -- `dump`, from what the stack holds where the array of a line is put.
  unfoldable pub dump : (bytes description stack : Bytes) → Run (Heading × List Bytes)
  dump bytes description stack = dump_lines (length bytes) bytes stack >>= λ texts.
      done (heading description (length bytes), texts)
