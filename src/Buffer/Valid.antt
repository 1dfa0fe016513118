-- ===== src/Buffer/Valid.antt =====
-- The invariant of a buffer, and what the call of `realloc` in `setCapacity` leaves of it.
use libxio.Base.{
  ℕ, ◌≤◌, ◌<◌, min, ◌≡◌, ◌≢◌, refl, Bool, true, false, Option, none, some, [], Bytes, size_mod,
  length, take, Returns, arith, ne→==,
}
use libxio.Memory.{Block, null, heap, freed, block_bytes, Realloc, IsRealloc, Refuses}
use libxio.Buffer.{Buffer, reallocate}

-- The block has as many bytes as the capacity says, and was not freed.
abbrev pub Owns : Block → ℕ → Type 0
Owns null c = c ≡ 0
Owns (heap m) c = length m ≡ c
Owns freed c = ⊥

pub record IsValid (b : Buffer) : Type 0 where
  pub owned : Owns b.block b.capacity
  pub within : b.size ≤ b.capacity
  pub bounded : b.capacity < size_mod

-- What a request for `value` bytes leaves: more or less storage with the same bytes in it, or, if
-- the allocator has none, the buffer as it was.
pub record Holds (b : Buffer) (value : ℕ) (b' : Buffer) : Type 0 where
  pub owned : Owns b'.block value
  pub capacity : b'.capacity ≡ value
  pub size : b'.size ≡ b.size
  pub same :
      take (min value b.capacity) (block_bytes b'.block)
      ≡ take (min value b.capacity) (block_bytes b.block)

abbrev pub Resized : Realloc → Buffer → ℕ → Bool × Buffer → Type 0
Resized r b value (true, b') = Holds b value b'
Resized r b value (false, b') = (b' ≡ b) × Refuses r

module _ (r : Realloc) (ok : IsRealloc r) where
  reallocate_heap :
      (m : Bytes) (s c value : ℕ) (o : Option Bytes)
      → r m value ≡ o
      → length m ≡ c
      → value ≢ 0
      → Returns
          (Resized r (record { block = heap m; size = s; capacity = c }) value)
          (reallocate r value (record { block = heap m; size = s; capacity = c }))
  unfolding reallocate
  reallocate_heap m s c value none e h pos = rw (e, ne→== value 0 pos) (refl, (m, value, e))
  reallocate_heap m s c value (some m') e h pos = rw e (record {
    owned = ok.sized m value e;
    capacity = refl;
    size = refl;
    same = ok.keeps m value (min value c) e (omega arith) (omega arith);
  })

  reallocate_null :
      (s c value : ℕ) (o : Option Bytes)
      → r [] value ≡ o
      → c ≡ 0
      → value ≢ 0
      → Returns
          (Resized r (record { block = null; size = s; capacity = c }) value)
          (reallocate r value (record { block = null; size = s; capacity = c }))
  unfolding reallocate
  reallocate_null s c value none e h pos = rw (e, ne→== value 0 pos) (refl, ([], value, e))
  reallocate_null s c value (some m') e h pos = rw e (record {
    owned = ok.sized [] value e;
    capacity = refl;
    size = refl;
    same = ok.keeps [] value (min value c) e (omega arith) (omega arith);
  })

  reallocate_block :
      (p : Block) (s c value : ℕ)
      → Owns p c
      → value ≢ 0
      → Returns
          (Resized r (record { block = p; size = s; capacity = c }) value)
          (reallocate r value (record { block = p; size = s; capacity = c }))
  reallocate_block null s c value = reallocate_null s c value (r [] value) refl
  reallocate_block (heap m) s c value = reallocate_heap m s c value (r m value) refl
  reallocate_block freed s c value = λ h. absurd h

  pub reallocate-Resized :
      (b : Buffer) (value : ℕ)
      → Owns b.block b.capacity
      → value ≢ 0
      → Returns (Resized r b value) (reallocate r value b)
  reallocate-Resized b value = reallocate_block b.block b.size b.capacity value
