-- ===== src/Buffer/Capacity.antt =====
-- `reserve(0)`, `resize`, `c_str`, the ranged `push_back` and the moves of a buffer.
use libxio.Base.{
  ℕ, zero, suc, ◌+◌, ◌%◌, ◌≤◌, ◌<◌, ◌≡◌, ◌≢◌, ◌⊎◌, ◌↔◌, refl, sym, ◌∙◌, Bool, true, false, not,
  some, [], ◌∷◌, ◌++◌, Bytes, size_mod, length, length-append, take, drop, length-take, length-drop,
  take-take, take-all, take-append_left, get_elem?, mod_small, Run, done, fault, Fault, Returns,
  Returns-bind, ◌>>=◌, ltb, leb, ◌==◌, if◌then◌else◌, arith, Bool-cases, inl, inr, ltb→lt, ltb→ge,
  le→leb, gt→leb, ge→ltb, lt→ltb, ne→==, ==_iff,
}
use libxio.Memory.{Block, null, heap, freed, block_bytes, Realloc, IsRealloc, Refuses, write_at}
use libxio.Buffer.{
  Buffer, Policy, contents, chunk_size, set_capacity, reallocate, reserve, copy_end, push_back,
  push_back_range, resize, move_assign, c_str, empty_buffer,
}
use libxio.Buffer.Inv.{set_capacity-zero}
use libxio.Buffer.Valid.{Owns, IsValid}
use libxio.Buffer.Reserve.{Reserved, reserve-Reserved}

-- `resize` succeeds exactly within the capacity; a shorter size keeps a prefix of the bytes.
pub resize_lem :
    (n : ℕ) (b : Buffer)
    → IsValid b
    → IsValid (resize n b).1
      × (((resize n b).0 ≡ true) ↔ (n ≤ b.capacity))
      × ((resize n b).1.size ≡ (if (resize n b).0 then n else b.size))
      × (n ≤ b.size → contents (resize n b).1 ≡ take n (contents b))
unfolding resize
resize_lem n b v = elim (Bool-cases (ltb b.capacity n)) [
  | inl lt ↦ rw lt (
    v,
    ((λ e. cc), λ le. absurd (omega (arith, ltb→lt _ _ lt))),
    refl,
    λ le. absurd (omega (arith, v.within, ltb→lt _ _ lt)),
  )
  | inr ge ↦ rw ge (
    record { owned = v.owned; within = ltb→ge _ _ ge; bounded = v.bounded },
    ((λ _. ltb→ge _ _ ge), λ _. refl),
    refl,
    λ le. sym (take-take n b.size (block_bytes b.block) le),
  )
]

-- `reserve(0)` on a buffer with storage frees the storage.
pub reserve-zero :
    (r : Realloc) (b : Buffer)
    → IsValid b
    → b.capacity ≢ 0
    → reserve r Policy.mutable 0 b ≡ done (true, record b { block = freed; capacity = 0 })
unfolding reserve
reserve-zero r b v pos = rw (ge→ltb b.capacity 0 (omega arith)) (set_capacity-zero r b v pos)

push_back-freed :
    (r : Realloc) (x : ℕ) (xs : Bytes) (s : ℕ)
    → s + length (x ∷ xs) < size_mod
    → push_back r Policy.mutable (x ∷ xs) (record { block = freed; size = s; capacity = 0 })
      ≡ fault Fault.use_after_free
unfolding push_back reserve set_capacity reallocate
push_back-freed r x xs s h = rw (
  mod_small (s + length (x ∷ xs)) {m = size_mod} h,
  lt→ltb 0 (s + length (x ∷ xs)) (omega arith),
  ne→== (s + length (x ∷ xs)) 0 (omega arith),
)

reserve_nothing :
    (r : Realloc) (b : Buffer) → b.capacity ≡ 0 → reserve r Policy.mutable 0 b ≡ done (true, b)
unfolding reserve set_capacity
reserve_nothing r b z = rw z

-- After `reserve(0)` has freed the storage, the next append reallocates the freed block.
pub push_back_after_reserve-zero :
    (r : Realloc) (x : ℕ) (xs : Bytes) (b : Buffer)
    → IsValid b
    → b.capacity ≢ 0
    → b.size + length (x ∷ xs) < size_mod
    → (reserve r Policy.mutable 0 b >>= λ res. push_back r Policy.mutable (x ∷ xs) res.1)
      ≡ fault Fault.use_after_free
push_back_after_reserve-zero r x xs b v pos h =
    rw (reserve-zero r b v pos) (push_back-freed r x xs b.size h)

-- The same branches, written the other way round.
flip_branches :
    (m : Run (Bool × Buffer)) (inside : Bool) (xs ys : Bytes)
    → inside ≡ true
    → xs ≡ ys
    → (m >>= λ res.
        if not res.0
        then done res.1
        else if inside
        then copy_end xs res.1
        else fault Fault.out_of_bounds)
      ≡ (m >>= λ res. if res.0 then copy_end ys res.1 else done res.1)
flip_branches (fault f) inside xs ys h k = refl
flip_branches (done (true, b)) inside xs ys h k = rw (h, k)
flip_branches (done (false, b)) inside xs ys h k = refl

range_tail :
    (r : Realloc) (e : Policy) (b : Buffer) (ys : Bytes) (n : ℕ) (inside : Bool)
    → n ≡ length ys
    → inside ≡ true
    → (if n == 0
        then done b
        else reserve r e ((b.size + n) % size_mod) b >>= λ res.
            if not res.0
            then done res.1
            else if inside
            then copy_end (take n ys) res.1
            else fault Fault.out_of_bounds)
      ≡ push_back r e ys b
unfolding push_back
range_tail r e b [] n inside eq le = rw eq
range_tail r e b (y ∷ ys) n inside eq le =
    rw (ne→== n 0 (omega arith), eq)
      (flip_branches (reserve r e ((b.size + length (y ∷ ys)) % size_mod) b) inside
        (take (length (y ∷ ys)) (y ∷ ys)) (y ∷ ys) le
        (take-all (length (y ∷ ys)) (y ∷ ys) (omega arith)))

-- The ranged `push_back`. Its assertion refuses every range that ends inside the value, and lets a
-- range pass that ends behind it; a range that ends with the value is appended.
pub push_back_range_lem :
    (r : Realloc) (e : Policy) (value : Bytes) (offset len : ℕ) (b : Buffer)
    → offset + len < size_mod
    → (offset + len < length value
        → push_back_range r e value offset len b ≡ fault Fault.assert_failed)
      × (offset + len ≡ length value
          → push_back_range r e value offset len b ≡ push_back r e (drop offset value) b)
unfolding push_back_range
push_back_range_lem r e value offset len b h = (
  (λ lt. rw (mod_small (offset + len) {m = size_mod} h, gt→leb _ _ lt)),
  λ eq.
      rw
        (
          mod_small (offset + len) {m = size_mod} h,
          le→leb (length value) (offset + len) (omega arith),
        )
        (range_tail r e b (drop offset value) len (leb (offset + len) (length value))
          (omega (arith, length-drop {0} offset value))
          (le→leb (offset + len) (length value) (omega arith))),
)

-- Moving into a valid buffer commits no fault, takes over the source and empties it.
pub move_assign_lem :
    (r : Realloc) (b v : Buffer) → IsValid b → move_assign r b v ≡ done (v, empty_buffer)
unfolding move_assign
move_assign_lem r b v valid = elim (Bool-cases (b.capacity == 0)) [
  | inl z ↦ rw (reserve_nothing r b ((==_iff b.capacity 0).0 z))
  | inr n ↦ rw (reserve-zero r b valid (λ e. false_true (sym n ∙ (==_iff b.capacity 0).1 e)))
]
  where
    false_true : false ≡ true → ⊥
    false_true h = cc

-- What `c_str` leaves if it gets its room: the same bytes, with a terminator behind them.
pub record Terminated (b b' : Buffer) : Type 0 where
  pub valid : IsValid b'
  pub kept : contents b' ≡ contents b
  pub terminator : get_elem? (block_bytes b'.block) b.size ≡ some 0

get_elem?-take_then :
    (s : ℕ) (m ys : Bytes) (x : ℕ) → s ≤ length m → get_elem? (take s m ++ (x ∷ ys)) s ≡ some x
get_elem?-take_then zero m ys x h = refl
get_elem?-take_then (suc s) [] ys x h = absurd (omega arith)
get_elem?-take_then (suc s) (y ∷ m) ys x h = get_elem?-take_then s m ys x (omega arith)

terminate_block :
    (b : Buffer) (p : Block) (s c : ℕ)
    → Owns p c
    → s < c
    → c < size_mod
    → take s (block_bytes p) ≡ contents b
    → s ≡ b.size
    → Returns
        (Terminated b)
        (write_at p s (0 ∷ []) >>= λ p'. done (record { block = p'; size = s; capacity = c }))
unfolding write_at
terminate_block b null s c o lt fits e q = absurd (omega arith)
terminate_block b freed s c o lt fits e q = absurd o
terminate_block b (heap m) s c o lt fits e q =
    rw (le→leb (s + 1) (length m) (omega arith)) (record {
      valid = record {
        owned = omega (
          arith,
          length-append {0} (take s m) (0 ∷ drop (s + 1) m),
          length-take {0} s m,
          length-drop {0} (s + 1) m,
        );
        within = omega arith;
        bounded = fits;
      };
      kept =
          take-append_left s (take s m) (0 ∷ drop (s + 1) m) (omega (arith, length-take {0} s m))
          ∙ take-take s s m (omega arith)
          ∙ e;
      terminator = rw (← q) (get_elem?-take_then s m (drop (s + 1) m) 0 (omega arith));
    })

-- `c_str` puts a NUL behind the bytes and changes none of them, if the allocator has memory.
pub c_str-Terminated :
    (r : Realloc) (b : Buffer)
    → IsRealloc r
    → ¬ Refuses r
    → IsValid b
    → b.size + 1 + chunk_size < size_mod
    → Returns (Terminated b) (c_str r b)
unfolding c_str
c_str-Terminated r b ok memory v h = rw (mod_small (b.size + 1) {m = size_mod} (omega arith)) (
    Returns-bind (Reserved r Policy.mutable b (b.size + 1)) (Terminated b)
      (reserve r Policy.mutable (b.size + 1) b) _
      (reserve-Reserved r Policy.mutable b (b.size + 1) ok v (omega arith) h)
      λ res fit. step res fit)
  where
    step :
        (res : Bool × Buffer)
        → Reserved r Policy.mutable b (b.size + 1) res
        → Returns (Terminated b) (
            if not res.0
            then done res.1
            else write_at res.1.block res.1.size (0 ∷ []) >>= λ p.
                done (record (res.1) { block = p }))
    step (true, b') fit =
        terminate_block b b'.block b'.size b'.capacity fit.valid.owned
          (omega (arith, fit.size, fit.room refl)) fit.valid.bounded fit.kept fit.size
    step (false, b') fit = absurd (refused (fit.refused refl))
      where
        refused : (Policy.mutable ≡ Policy.immutable) ⊎ Refuses r → ⊥
        refused (inl q) = cc
        refused (inr f) = memory f
