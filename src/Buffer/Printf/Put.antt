-- ===== src/Buffer/Printf/Put.antt =====
-- What `snprintf` leaves of the storage of a buffer.
use libxio.Base.{
  ℕ, zero, suc, ◌+◌, ◌-◌, ◌≤◌, ◌<◌, ◌≡◌, refl, sym, ap, ◌∙◌, [], ◌∷◌, ◌++◌, Bytes, length, take,
  drop, length-append, length-take, take-all, take-take, take-append_left, append_assoc, min,
  Returns, arith, le→leb,
}
use libxio.Memory.{Block, null, heap, freed, block_bytes}
use libxio.Buffer.{Buffer, contents}
use libxio.Buffer.Valid.{Owns, IsValid}
use libxio.Buffer.Append.{splice_bytes}
use libxio.Buffer.Printf.{snprintf}

-- What `snprintf` leaves of the storage: the bytes in front stay, and the text stands behind them if
-- it fits.
pub record Put (text : Bytes) (b : Buffer) (p : Block) : Type 0 where
  pub owned : Owns p b.capacity
  pub kept : take b.size (block_bytes p) ≡ contents b
  pub put :
      length text < b.capacity - b.size
      → take (b.size + length text) (block_bytes p) ≡ contents b ++ text

pub snprintf_block :
    (text : Bytes) (p : Block) (s c n : ℕ)
    → Owns p c
    → s ≤ c
    → c - s ≡ n
    → Returns (Put text (record { block = p; size = s; capacity = c })) (snprintf text p s n)
unfolding snprintf
snprintf_block text p s c zero o le e = record {
  owned = o;
  kept = refl;
  put = λ lt. absurd (omega arith);
}
snprintf_block text null s c (suc n) o le e = absurd (omega arith)
snprintf_block text freed s c (suc n) o le e = absurd o
snprintf_block text (heap m) s c (suc n) o le e = rw (le→leb _ _ fits) (record {
  owned = whole.1 ∙ o;
  kept =
      part s (omega arith)
      ∙ front s (take s m) xs (omega (arith, length-take s m))
      ∙ take-all s (take s m) (omega (arith, length-take s m));
  put = λ lt.
      part (s + length text) (omega (arith, count))
      ∙ ap (λ t. take (s + length text) (take s m ++ (t ++ (0 ∷ []))))
          (take-all n text (omega arith))
      ∙ ap (take (s + length text)) (sym (append_assoc (take s m) text (0 ∷ [])))
      ∙ front (s + length text) (take s m ++ text) (0 ∷ [])
          (omega (arith, length-append {0} (take s m) text, length-take s m))
      ∙ take-all (s + length text) (take s m ++ text)
          (omega (arith, length-append {0} (take s m) text, length-take s m));
})
  where
    xs : Bytes
    xs = take n text ++ (0 ∷ [])

    count : length xs ≡ min n (length text) + 1
    count = length-append {0} (take n text) (0 ∷ []) ∙ ap (λ k. k + 1) (length-take n text)

    fits : s + length xs ≤ length m
    fits = omega (arith, count)

    whole :
        (take (s + length xs) (take s m ++ (xs ++ drop (s + length xs) m)) ≡ take s m ++ xs)
        × (length (take s m ++ (xs ++ drop (s + length xs) m)) ≡ length m)
    whole = splice_bytes m xs s fits

    part :
        (k : ℕ)
        → k ≤ s + length xs
        → take k (take s m ++ (xs ++ drop (s + length xs) m)) ≡ take k (take s m ++ xs)
    part k h = sym (take-take k (s + length xs) _ h) ∙ ap (take k) whole.0

    front : (k : ℕ) (s t : Bytes) → k ≤ length s → take k (s ++ t) ≡ take k s
    front k s t h = take-append_left k s t h

-- A buffer whose storage `snprintf` has written to.
pub Put-IsValid :
    (text : Bytes) (b : Buffer) (p : Block)
    → IsValid b
    → Put text b p
    → IsValid (record b { block = p })
Put-IsValid text b p v k = record { owned = k.owned; within = v.within; bounded = v.bounded }
