-- ===== src/Buffer/Inv.antt =====
-- What `setCapacity` (lib/Buffer.cpp) does to a valid buffer.
use libxio.Base.{
  ℕ, ◌+◌, ◌%◌, ◌≤◌, ◌<◌, min, ◌≡◌, ◌≢◌, ◌⊎◌, refl, sym, ap, ◌∙◌, Bool, true, false, not, Bytes,
  size_mod, take, length-take, take-take, take-all, done, Returns, ltb, ◌==◌, if◌then◌else◌, arith,
  Bool-cases, inl, inr, ne→==, ltb→lt, ltb→ge, ==_iff, Returns-mono,
}
use libxio.Memory.{Block, null, heap, freed, block_bytes, Realloc, IsRealloc, Refuses}
use libxio.Buffer.{Buffer, contents, chunk_size, pad, reallocate, set_capacity}
use libxio.Buffer.Valid.{Owns, IsValid, Resized, reallocate-Resized}

-- What `setCapacity` leaves for a request of `value` bytes.
pub record Fitted (r : Realloc) (b : Buffer) (value : ℕ) (res : Bool × Buffer) : Type 0 where
  pub valid : IsValid res.1
  pub kept : contents res.1 ≡ take value (contents b)
  pub size : res.1.size ≡ min b.size value
  pub room : res.0 ≡ true → value ≤ res.1.capacity
  pub refused : res.0 ≡ false → Refuses r
  pub exact : res.0 ≡ true → (value ≤ b.capacity) ⊎ (b.capacity ≡ 0) → res.1.capacity ≡ value
  pub aligned :
      res.0 ≡ true
      → b.capacity ≢ 0
      → b.capacity < value
      → (res.1.capacity % chunk_size ≡ 0) × (res.1.capacity < value + chunk_size)

-- A padded request is a multiple of the chunk size, and less than a chunk larger.
pub pad_bounds :
    (v : ℕ)
    → v ≢ 0
    → v + chunk_size < size_mod
    → (v ≤ pad v) × (pad v < v + chunk_size) × (pad v % chunk_size ≡ 0)
pad_bounds v pos h = omega arith

Resized-IsValid :
    (r : Realloc) (b : Buffer) (value : ℕ) (res : Bool × Buffer)
    → IsValid b
    → b.size ≤ value
    → value < size_mod
    → Resized r b value res
    → IsValid res.1
      × (contents res.1 ≡ contents b)
      × (res.1.size ≡ b.size)
      × (res.0 ≡ true → res.1.capacity ≡ value)
      × (res.0 ≡ false → Refuses r)
Resized-IsValid r b value (false, b') v le lt h = rw h.0 (v, refl, refl, (λ e. cc), λ _. h.1)
Resized-IsValid r b value (true, b') v le lt h = (
  record { owned = rw h.capacity h.owned; within = omega arith; bounded = omega arith },
  rw h.size (same_prefix (min value b.capacity) b.size _ _ (omega (arith, v.within)) h.same),
  h.size,
  (λ _. h.capacity),
  λ e. cc,
)
  where
    same_prefix : (n k : ℕ) (xs ys : Bytes) → k ≤ n → take n xs ≡ take n ys → take k xs ≡ take k ys
    same_prefix n k xs ys le e = sym (take-take k n xs le) ∙ ap (take k) e ∙ take-take k n ys le

-- `size_` is cut down to a smaller request before the storage is.
abbrev cut : ℕ → Buffer → Buffer
cut value b = if ltb value b.size then record b { size = value } else b

cut-IsValid : (value : ℕ) (b : Buffer) → IsValid b → IsValid (cut value b)
cut-IsValid value b v = ground arith

size-cut : (value : ℕ) (b : Buffer) → (cut value b).size ≡ min b.size value
size-cut value b = ground arith

contents-cut : (value : ℕ) (b : Buffer) → contents (cut value b) ≡ take value (contents b)
contents-cut value b = elim (Bool-cases (ltb value b.size)) [
  | inl lt ↦ rw lt (sym (take-take value b.size _ (ground arith)))
  | inr ge ↦
      rw ge
        (sym (take-all value _ (omega (arith, length-take b.size (block_bytes b.block), ge_of ge))))
]
  where
    ge_of : ltb value b.size ≡ false → b.size ≤ value
    ge_of h = ground arith

module _ (r : Realloc) (ok : IsRealloc r) (b : Buffer) (v : IsValid b) where
  grown_to :
      (value n : ℕ)
      → b.capacity < value
      → value ≤ n
      → n < size_mod
      → (b.capacity ≡ 0 → n ≡ value)
      → (b.capacity ≢ 0 → (n % chunk_size ≡ 0) × (n < value + chunk_size))
      → Returns (Fitted r b value) (reallocate r n b)
  grown_to value n lt le h exact aligned =
      Returns-mono (Resized r b n) (Fitted r b value) (reallocate r n b)
        (reallocate-Resized r ok b n v.owned (omega arith))
        λ res fit.
          let (valid, same, sized, cap, refused) =
            Resized-IsValid r b n res v (omega (arith, v.within)) h fit in
          record {
            valid = valid;
            kept =
                same
                ∙ sym (
                    take-all value (contents b)
                      (omega (arith, v.within, length-take b.size (block_bytes b.block))));
            size = omega (arith, sized, v.within);
            room = λ e. omega (arith, cap e);
            refused = refused;
            exact = λ e c. cap e ∙ exact (omega arith);
            aligned = λ e c _. rw (cap e) (aligned c);
          }

  grown :
      (value : ℕ)
      → b.capacity < value
      → value + chunk_size < size_mod
      → Returns
          (Fitted r b value)
          (reallocate r (if not (b.capacity == 0) then pad value else value) b)
  grown value lt h = elim (Bool-cases (b.capacity == 0)) [
    | inl z ↦ rw z (
        grown_to value value lt (omega arith) (omega arith) (λ _. refl)
          (λ c. absurd (c ((==_iff b.capacity 0).0 z))))
    | inr n ↦ rw n (
        let (lo, hi, al) = pad_bounds value (omega arith) h in
        grown_to value (pad value) lt lo (omega arith) (λ c. ground arith) (λ _. (al, hi)))
  ]

  shrunk :
      (value : ℕ)
      → value < b.capacity
      → value ≢ 0
      → Returns (Fitted r b value) (reallocate r value (cut value b))
  shrunk value lt pos =
      Returns-mono (Resized r (cut value b) value) (Fitted r b value)
        (reallocate r value (cut value b))
        (reallocate-Resized r ok (cut value b) value (cut-IsValid value b v).owned pos)
        λ res fit.
          let (valid, same, sized, cap, refused) =
            Resized-IsValid r (cut value b) value res (cut-IsValid value b v)
              (omega (arith, size-cut value b)) (omega (arith, v.bounded)) fit in
          record {
            valid = valid;
            kept = same ∙ contents-cut value b;
            size = sized ∙ size-cut value b;
            room = λ e. omega (arith, cap e);
            refused = refused;
            exact = λ e _. cap e;
            aligned = λ e c l. absurd (omega arith);
          }

  -- `setCapacity` on a valid buffer, for some bytes and far from the end of `size_t`, commits no fault.
  -- The buffer stays valid and holds the first `value` of its bytes. On success there is room for
  -- `value` bytes: exactly so where the storage shrinks or there was none, else rounded up to less
  -- than a chunk more, at a multiple of the chunk size. It fails only if the allocator refuses.
  pub set_capacity-Fitted :
      (value : ℕ)
      → value ≢ 0
      → value + chunk_size < size_mod
      → Returns (Fitted r b value) (set_capacity r value b)
  unfolding set_capacity
  set_capacity-Fitted value pos h =
      rw (ne→== value 0 pos) (elim (Bool-cases (ltb b.capacity value)) [
        | inl lt ↦ rw lt (grown value (ltb→lt _ _ lt) h)
        | inr ge ↦ rw ge (elim (Bool-cases (ltb value b.capacity)) [
          | inl small ↦ rw small (shrunk value (ltb→lt _ _ small) pos)
          | inr same ↦ rw same (unchanged (omega (arith, ltb→ge _ _ ge, ltb→ge _ _ same)))
        ])
      ])
    where
      unchanged : b.capacity ≡ value → Fitted r b value (true, b)
      unchanged e = record {
        valid = v;
        kept = sym (
            take-all value (contents b)
              (omega (arith, v.within, length-take b.size (block_bytes b.block))));
        size = omega (arith, v.within);
        room = λ _. omega arith;
        refused = λ e. cc;
        exact = λ _ _. e;
        aligned = λ _ _ l. absurd (omega arith);
      }

-- `setCapacity(0)` on a buffer with storage frees it, and leaves `data_` and `size_` as they were.
pub set_capacity-zero :
    (r : Realloc) (b : Buffer)
    → IsValid b
    → b.capacity ≢ 0
    → set_capacity r 0 b ≡ done (true, record b { block = freed; capacity = 0 })
unfolding set_capacity
set_capacity-zero r b v pos = go b.block b.size b.capacity v.owned pos
  where
    go :
        (p : Block) (s c : ℕ)
        → Owns p c
        → c ≢ 0
        → set_capacity r 0 (record { block = p; size = s; capacity = c })
          ≡ done (true, record { block = freed; size = s; capacity = 0 })
    go null s c o h = absurd (h o)
    go (heap m) s c o h = rw (ne→== c 0 h)
    go freed s c o h = absurd o
