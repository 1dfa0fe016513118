-- ===== src/Buffer/Append.antt =====
-- The functions of a buffer that append: what they add, and when they add nothing.
use libxio.Base.{
  ℕ, ◌+◌, ◌-◌, ◌%◌, ◌≤◌, ◌<◌, ◌≡◌, ◌≢◌, ◌⊎◌, refl, sym, ap, ◌∙◌, Bool, true, false, [], ◌∷◌, ◌++◌,
  append-nil, Bytes, size_mod, length, length-append, take, drop, length-take, length-drop,
  take-all, take-append_left, take-append_right, length-zero, mod_small, done, Returns,
  Returns-mono, Returns-bind, ◌>>=◌, if◌then◌else◌, arith, inl, inr, le→leb, gt→leb,
}
use libxio.Memory.{Block, null, heap, freed, block_bytes, Realloc, IsRealloc, Refuses}
use libxio.Buffer.{
  Buffer, Policy, contents, chunk_size, reserve, copy_end, push_back, push_back_char, clear, assign,
}
use libxio.Buffer.Valid.{Owns, IsValid}
use libxio.Buffer.Reserve.{Reserved, reserve-Reserved}

-- A valid buffer shows as many bytes as its size says.
pub length-contents : (b : Buffer) → IsValid b → length (contents b) ≡ b.size
length-contents b v = go b.block b.size b.capacity v.owned v.within
  where
    go : (p : Block) (s c : ℕ) → Owns p c → s ≤ c → length (take s (block_bytes p)) ≡ s
    go null s c o h = omega (arith, length-take {A = ℕ} s [])
    go (heap m) s c o h = omega (arith, length-take s m)
    go freed s c o h = absurd o

-- What a successful append leaves.
pub record Appended (b : Buffer) (xs : Bytes) (b' : Buffer) : Type 0 where
  pub valid : IsValid b'
  pub bytes : contents b' ≡ contents b ++ xs
  pub capacity : b'.capacity ≡ b.capacity

pub splice_bytes :
    (m xs : Bytes) (s : ℕ)
    → s + length xs ≤ length m
    → (take (s + length xs) (take s m ++ (xs ++ drop (s + length xs) m)) ≡ take s m ++ xs)
      × (length (take s m ++ (xs ++ drop (s + length xs) m)) ≡ length m)
splice_bytes m xs s h = (
  take-append_right (s + length xs) (take s m) _ (omega (arith, length-take s m))
      ∙ ap (λ r. take s m ++ r)
          (take-append_left (s + length xs - length (take s m)) xs _
              (omega (arith, length-take s m))
            ∙ take-all (s + length xs - length (take s m)) xs (omega (arith, length-take s m))),
  omega (
    arith,
    length-append {0} (take s m) (xs ++ drop (s + length xs) m),
    length-append {0} xs (drop (s + length xs) m),
    length-take {0} s m,
    length-drop {0} (s + length xs) m,
  ),
)

copy_end_block :
    (xs : Bytes) (p : Block) (s c : ℕ)
    → Owns p c
    → c < size_mod
    → xs ≢ []
    → s + length xs ≤ c
    → Returns
        (Appended (record { block = p; size = s; capacity = c }) xs)
        (copy_end xs (record { block = p; size = s; capacity = c }))
unfolding copy_end
copy_end_block xs null s c o lt ne h = absurd (ne (length-zero xs (omega arith)))
copy_end_block xs freed s c o lt ne h = absurd o
copy_end_block xs (heap m) s c o lt ne h =
    let (bytes, same) = splice_bytes m xs s (omega arith) in
    rw
      (
        le→leb (s + length xs) (length m) (omega arith),
        mod_small (s + length xs) {m = size_mod} (omega arith),
      )
      (record {
        valid = record { owned = same ∙ o; within = h; bounded = lt };
        bytes = bytes;
        capacity = refl;
      })

-- `memcpy(end(), …)` within the capacity appends the bytes.
pub copy_end-Appended :
    (xs : Bytes) (b : Buffer)
    → IsValid b
    → xs ≢ []
    → b.size + length xs ≤ b.capacity
    → Returns (Appended b xs) (copy_end xs b)
copy_end-Appended xs b v ne room =
    copy_end_block xs b.block b.size b.capacity v.owned v.bounded ne room

-- What an append leaves, whether or not there is room: the buffer stays valid and either ends with
-- the new bytes or holds what it held. It always ends with them if they fit the capacity, or if
-- the buffer may grow and the allocator has memory.
pub record Pushed (r : Realloc) (e : Policy) (b : Buffer) (xs : Bytes) (b' : Buffer) : Type 0 where
  pub valid : IsValid b'
  pub bytes :
      (contents b' ≡ contents b ++ xs)
      ⊎ ((contents b' ≡ contents b) × ((e ≡ Policy.immutable) ⊎ Refuses r))
  pub fits :
      b.size + length xs ≤ b.capacity
      → (contents b' ≡ contents b ++ xs) × (b'.capacity ≡ b.capacity)
  pub grows : e ≡ Policy.mutable → ¬ Refuses r → contents b' ≡ contents b ++ xs

module _ (r : Realloc) (e : Policy) (xs : Bytes) (b : Buffer) (ok : IsRealloc r)
    (v : IsValid b) where
  -- the body that the overloads share
  reserve_then_copy :
      xs ≢ []
      → b.size + length xs + chunk_size < size_mod
      → Returns (Pushed r e b xs) (
          reserve r e ((b.size + length xs) % size_mod) b >>= λ (room, b').
          if room then copy_end xs b' else done b')
  reserve_then_copy ne h = rw (mod_small (b.size + length xs) {m = size_mod} (omega arith)) (
      Returns-bind (Reserved r e b (b.size + length xs)) (Pushed r e b xs)
        (reserve r e (b.size + length xs) b) _
        (reserve-Reserved r e b (b.size + length xs) ok v (λ z. ne (length-zero xs (omega arith)))
          h)
        λ res fit. step res fit)
    where
      step :
          (res : Bool × Buffer)
          → Reserved r e b (b.size + length xs) res
          → Returns (Pushed r e b xs) (if res.0 then copy_end xs res.1 else done res.1)
      step (true, b') fit =
          Returns-mono (Appended b' xs) (Pushed r e b xs) (copy_end xs b')
            (copy_end-Appended xs b' fit.valid ne (omega (arith, fit.size, fit.room refl)))
            λ b'' a. record {
              valid = a.valid;
              bytes = inl (a.bytes ∙ ap (λ t. t ++ xs) fit.kept);
              fits = λ le. (
                a.bytes ∙ ap (λ t. t ++ xs) fit.kept,
                a.capacity ∙ ap (λ (t : Buffer). t.capacity) (fit.enough le).1,
              );
              grows = λ _ _. a.bytes ∙ ap (λ t. t ++ xs) fit.kept;
            }
      step (false, b') fit = record {
        valid = fit.valid;
        bytes = inr (fit.kept, fit.refused refl);
        fits = λ le. absurd (clash (fit.enough le).0);
        grows = λ m some_room. absurd (refusal (fit.refused refl) m some_room);
      }
        where
          clash : false ≡ true → ⊥
          clash h = cc

          refusal : (e ≡ Policy.immutable) ⊎ Refuses r → e ≡ Policy.mutable → ¬ Refuses r → ⊥
          refusal (inl i) m n = two (sym i ∙ m)
            where
              two : Policy.immutable ≡ Policy.mutable → ⊥
              two q = cc
          refusal (inr f) m n = n f

-- `push_back(const void*, size_t)`, under either policy, on a valid buffer and far from the end of
-- `size_t`, commits no fault: the buffer stays valid and appends all the bytes or keeps what it held.
-- It appends them where they fit the capacity, without new storage, and where it may grow and the
-- allocator has memory.
pub push_back-Pushed :
    (r : Realloc) (e : Policy) (xs : Bytes) (b : Buffer)
    → IsRealloc r
    → IsValid b
    → b.size + length xs + chunk_size < size_mod
    → Returns (Pushed r e b xs) (push_back r e xs b)
unfolding push_back
push_back-Pushed r e [] b ok v h = record {
  valid = v;
  bytes = inl (sym (append-nil (contents b)));
  fits = λ _. (sym (append-nil (contents b)), refl);
  grows = λ _ _. sym (append-nil (contents b));
}
push_back-Pushed r e (x ∷ xs) b ok v h = reserve_then_copy r e (x ∷ xs) b ok v (λ q. cc) h

-- `push_back(char)` appends one byte, under the same conditions.
pub push_back_char-Pushed :
    (r : Realloc) (e : Policy) (c : ℕ) (b : Buffer)
    → IsRealloc r
    → IsValid b
    → b.size + 1 + chunk_size < size_mod
    → Returns (Pushed r e b (c ∷ [])) (push_back_char r e c b)
unfolding push_back_char
push_back_char-Pushed r e c b ok v h = reserve_then_copy r e (c ∷ []) b ok v (λ q. cc) h

pub clear-IsValid : (b : Buffer) → IsValid b → IsValid (clear b)
unfolding clear
clear-IsValid b v = record { owned = v.owned; within = omega arith; bounded = v.bounded }

-- `operator=(const BufferRef&)` replaces the bytes, if the allocator has memory.
pub contents-assign :
    (r : Realloc) (xs : Bytes) (b : Buffer)
    → IsRealloc r
    → ¬ Refuses r
    → IsValid b
    → length xs + chunk_size < size_mod
    → Returns (λ b'. IsValid b' × (contents b' ≡ xs)) (assign r xs b)
unfolding assign
contents-assign r xs b ok memory v h =
    Returns-mono (Pushed r Policy.mutable (clear b) xs) (λ b'. IsValid b' × (contents b' ≡ xs))
      (push_back r Policy.mutable xs (clear b))
      (push_back-Pushed r Policy.mutable xs (clear b) ok (clear-IsValid b v) (omega arith))
      λ b' p. (p.valid, p.grows refl memory)

-- A fixed buffer without room keeps its bytes: nothing is written past the end.
pub push_back-immutable_full :
    (r : Realloc) (xs : Bytes) (b : Buffer)
    → b.capacity < b.size + length xs
    → b.size + length xs < size_mod
    → push_back r Policy.immutable xs b ≡ done b
unfolding push_back reserve
push_back-immutable_full r [] b lt h = refl
push_back-immutable_full r (x ∷ xs) b lt h =
    rw (mod_small (b.size + length (x ∷ xs)) {m = size_mod} h, gt→leb _ _ lt)
