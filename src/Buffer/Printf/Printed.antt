-- ===== src/Buffer/Printf/Printed.antt =====
-- What `printf` leaves of a buffer.
use libxio.Base.{
  ℕ, suc, ◌+◌, ◌-◌, ◌%◌, ◌≤◌, ◌<◌, ◌≡◌, ◌≢◌, ◌⊎◌, refl, sym, ap, ◌∙◌, Bool, true, false, Option,
  none, some, ◌++◌, Bytes, size_mod, length, take, take-take, mod_small, Returns, Returns-mono,
  Returns-bind, ltb, arith, inl, inr, Bool-cases, ltb→lt, ge→ltb, lt→ltb, ne→==, Returns-and, ◌*◌,
  ◌^◌,
}
use native.Mathlib.Decide.{ℕ_discrete}
use libxio.Memory.{Block, Realloc, IsRealloc, Refuses}
use libxio.Buffer.{Buffer, Policy, contents, chunk_size, reserve, resize, set_capacity}
use libxio.Buffer.Inv.{Fitted, set_capacity-Fitted}
use libxio.Buffer.Valid.{IsValid}
use libxio.Buffer.Reserve.{Reserved, reserve-Reserved}
use libxio.Buffer.Printf.{snprintf, grow_or_stop, printf_loop, printf, countable}
use libxio.Buffer.Printf.Put.{Put, snprintf_block, Put-IsValid}

-- What the loop leaves: the text stands behind the bytes.
abbrev Printed : Bytes → Buffer → Buffer → Type 0
Printed text b b' = IsValid b' × (contents b' ≡ contents b ++ text)

module _ (r : Realloc) (e : Policy) (text : Bytes) where
  -- With room for the text and its NUL one round is enough.
  round_fits :
      (b : Buffer) (rounds : ℕ)
      → IsValid b
      → length text < b.capacity - b.size
      → Returns (Printed text b) (printf_loop r e (some text) (suc rounds) b)
  unfolding printf_loop resize
  round_fits b rounds v lt =
      Returns-bind (Put text b) (Printed text b)
        (snprintf text b.block b.size (b.capacity - b.size)) _
        (snprintf_block text b.block b.size b.capacity (b.capacity - b.size) v.owned v.within refl)
        λ p k.
          rw (lt→ltb _ _ lt, ge→ltb b.capacity (b.size + length text) (omega arith))
            (record { owned = k.owned; within = omega arith; bounded = v.bounded }, k.put lt)

  -- Two rounds are always enough where the buffer may grow.
  rounds_enough :
      (b : Buffer) (rounds : ℕ)
      → IsRealloc r
      → e ≡ Policy.mutable
      → ¬ Refuses r
      → IsValid b
      → b.capacity + length text + 1 + chunk_size < size_mod
      → Returns (Printed text b) (printf_loop r e (some text) (suc (suc rounds)) b)
  unfolding printf_loop grow_or_stop
  rounds_enough b rounds ok m memory v h =
      elim (Bool-cases (ltb (length text) (b.capacity - b.size))) [
        | inl lt ↦ round_fits b (suc rounds) v (ltb→lt _ _ lt)
        | inr ge ↦
            Returns-bind (Put text b) (Printed text b)
              (snprintf text b.block b.size (b.capacity - b.size)) _
              (snprintf_block text b.block b.size b.capacity (b.capacity - b.size) v.owned v.within
                refl)
              λ p k.
                rw (ge, mod_small (b.capacity + (length text + 1)) {m = size_mod} (omega arith))
                  (Returns-bind
                    (Reserved r e (record b { block = p }) (b.capacity + (length text + 1)))
                    (Printed text b)
                    (reserve r e (b.capacity + (length text + 1)) (record b { block = p })) _
                    (reserve-Reserved r e (record b { block = p }) (b.capacity + (length text + 1))
                      ok (Put-IsValid text b p v k) (omega arith) (omega arith))
                    λ res fit. again p k res fit)
      ]
    where
      again :
          (p : Block)
          → Put text b p
          → (res : Bool × Buffer)
          → Reserved r e (record b { block = p }) (b.capacity + (length text + 1)) res
          → Returns (Printed text b) (grow_or_stop (printf_loop r e (some text) (suc rounds)) res)
      again p k (true, b') fit =
          Returns-mono (Printed text b') (Printed text b)
            (printf_loop r e (some text) (suc rounds) b')
            (round_fits b' rounds fit.valid (omega (arith, fit.room refl, fit.size, v.within)))
            λ b'' q. (q.0, q.1 ∙ ap (λ t. t ++ text) (fit.kept ∙ k.kept))
      again p k (false, b') fit = absurd (no (fit.refused refl))
        where
          no : ¬ ((e ≡ Policy.immutable) ⊎ Refuses r)
          no (inl i) = two (sym i ∙ m)
            where
              two : ¬ (Policy.immutable ≡ Policy.mutable)
              two q = cc
          no (inr f) = memory f

-- `reserve` makes less room than a chunk more than asked for.
reserve_bound :
    (r : Realloc) (b : Buffer) (n : ℕ)
    → IsRealloc r
    → ¬ Refuses r
    → IsValid b
    → n ≢ 0
    → n + chunk_size < size_mod
    → Returns (λ res. res.1.capacity ≤ b.capacity + n + chunk_size) (reserve r Policy.mutable n b)
unfolding reserve
reserve_bound r b n ok memory v pos h = elim (Bool-cases (ltb b.capacity n)) [
  | inr ge ↦ rw (ge, ne→== n 0 pos) (omega arith)
  | inl lt ↦ rw lt (
      Returns-mono (Fitted r b n) (λ res. res.1.capacity ≤ b.capacity + n + chunk_size)
        (set_capacity r n b) (set_capacity-Fitted r ok b v n pos h)
        λ res fit. within res fit (ltb→lt _ _ lt))
]
  where
    within :
        (res : Bool × Buffer)
        → Fitted r b n res
        → b.capacity < n
        → res.1.capacity ≤ b.capacity + n + chunk_size
    within (false, b') fit lt = absurd (memory (fit.refused refl))
    within (true, b') fit lt = elim (ℕ_discrete b.capacity 0) [
      | yes none_yet ↦ omega (arith, fit.exact refl (inr none_yet))
      | no some_yet ↦ omega (arith, (fit.aligned refl some_yet lt).1)
    ]

-- `printf` with arguments into a valid buffer that may grow, while the allocator has memory and the
-- sizes stay far from the end of `size_t`, commits no fault and appends the whole text that the format
-- and its arguments give, if the length of that is an `int`: two rounds of its loop are enough.
pub printf-Printed :
    (r : Realloc) (len rounds : ℕ) (text : Bytes) (b : Buffer)
    → IsRealloc r
    → ¬ Refuses r
    → IsValid b
    → length text < 2 ^ 31
    → b.capacity + b.size + len + length text + 3 * chunk_size < size_mod
    → Returns
        (λ b'. IsValid b' × (contents b' ≡ contents b ++ text))
        (printf r Policy.mutable (suc (suc rounds)) len (some text) b)
unfolding printf
printf-Printed r len rounds text b ok memory v short h =
    rw
      (
        mod_small (b.size + len + 1) {m = size_mod} (omega arith),
        lt→ltb (length text) (2 ^ 31) short,
      )
      (Returns-bind
        (λ res.
          Reserved r Policy.mutable b (b.size + len + 1) res
          × (res.1.capacity ≤ b.capacity + (b.size + len + 1) + chunk_size))
        (Printed text b) (reserve r Policy.mutable (b.size + len + 1) b) _
        (Returns-and (Reserved r Policy.mutable b (b.size + len + 1))
          (λ res. res.1.capacity ≤ b.capacity + (b.size + len + 1) + chunk_size)
          (reserve r Policy.mutable (b.size + len + 1) b)
          (reserve-Reserved r Policy.mutable b (b.size + len + 1) ok v (omega arith) (omega arith))
          (reserve_bound r b (b.size + len + 1) ok memory v (omega arith) (omega arith)))
        λ res fit.
          Returns-mono (Printed text res.1) (Printed text b)
            (printf_loop r Policy.mutable (some text) (suc (suc rounds)) res.1)
            (rounds_enough r Policy.mutable text res.1 rounds ok refl memory fit.0.valid
              (omega (arith, fit.1)))
            λ b' q. (q.0, q.1 ∙ ap (λ t. t ++ text) fit.0.kept))

-- Where `snprintf` fails, as it does for a text that is longer than an `int` can say, `printf` takes the result -1 for a length: it drops the last byte of a
-- buffer that has one.
pub printf_failed :
    (r : Realloc) (len rounds : ℕ) (text : Option Bytes) (b : Buffer)
    → IsRealloc r
    → IsValid b
    → countable text ≡ none
    → b.size ≢ 0
    → b.size + len + 1 + chunk_size < size_mod
    → Returns
        (λ b'. contents b' ≡ take (b.size - 1) (contents b))
        (printf r Policy.mutable (suc rounds) len text b)
unfolding printf printf_loop resize
printf_failed r len rounds text b ok v long some_bytes h =
    rw (mod_small (b.size + len + 1) {m = size_mod} (omega arith), long)
      (Returns-bind (Reserved r Policy.mutable b (b.size + len + 1))
        (λ b'. contents b' ≡ take (b.size - 1) (contents b))
        (reserve r Policy.mutable (b.size + len + 1) b) _
        (reserve-Reserved r Policy.mutable b (b.size + len + 1) ok v (omega arith) (omega arith))
        λ res fit.
          rw
            (
              wrapped res.1.size (omega (arith, fit.size))
                  (omega (arith, fit.valid.within, fit.valid.bounded)),
              ge→ltb res.1.capacity (res.1.size - 1) (omega (arith, fit.valid.within)),
            )
            (sym (take-take (res.1.size - 1) res.1.size _ (omega arith))
              ∙ ap (take (res.1.size - 1)) fit.kept
              ∙ ap (λ k. take (k - 1) (contents b)) fit.size))
  where
    wrapped : (n : ℕ) → 1 ≤ n → n < size_mod → (n + size_mod - 1) % size_mod ≡ n - 1
    wrapped n pos lt = omega arith
