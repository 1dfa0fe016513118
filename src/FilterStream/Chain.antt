-- ===== src/FilterStream/Chain.antt =====
-- What a chain of filters delivers: that of two filters is their composition, and from the third on
-- the output of an earlier one stands in front.
use libxio.Base.{
  ◌+◌, ◌<◌, ◌≡◌, refl, sym, ap, ◌∙◌, List, [], ◌∷◌, ◌++◌, Bytes, size_mod, length, Returns,
  Returns-bind, Returns-mono, ◌==◌, arith, Bool-cases, inl, inr, ==_iff, length-zero,
}
use libxio.Base.Int.{pos}
use libxio.Memory.{Realloc, IsRealloc, Refuses}
use libxio.Buffer.{Buffer, Policy, contents, chunk_size, empty_buffer, push_back}
use libxio.Buffer.Valid.{IsValid}
use libxio.Buffer.Append.{Pushed, push_back-Pushed, length-contents}
use libxio.Buffer.Capacity.{move_assign_lem}
use libxio.FilterStream.{Process, stages, deliver, process}

module _ (F : Type 0) (apply : Process F) (meaning : F → Bytes → Bytes) where
  -- As the interface says, a filter appends the processed data to the output.
  abbrev pub Appends : Type 0
  Appends =
      (f : F) (input : Bytes) (b : Buffer)
      → IsValid b
      → b.size + length (meaning f input) + chunk_size < size_mod
      → Returns (λ (_, b'). IsValid b' × (contents b' ≡ contents b ++ meaning f input))
          (apply f input b)

  -- The bytes in the result, when the filters left have each put theirs behind what the buffer held
  -- two filters earlier.
  abbrev pub leaked : List F → (result tmp : Bytes) → Bytes
  leaked [] result tmp = result
  leaked (g ∷ gs) result tmp = leaked gs (tmp ++ meaning g result) result

  -- All these bytes stay far from the end of `size_t`.
  abbrev pub Fits : List F → (result tmp : Bytes) → Type 0
  Fits [] result tmp = length result + chunk_size < size_mod
  Fits (g ∷ gs) result tmp =
      (length tmp + length (meaning g result) + chunk_size < size_mod)
      × Fits gs (tmp ++ meaning g result) result

  module _ (law : Appends) where
    stages_lem :
        (gs : List F) (result tmp : Buffer) (xs ys : Bytes)
        → IsValid result
        → IsValid tmp
        → contents result ≡ xs
        → contents tmp ≡ ys
        → Fits gs xs ys
        → Returns (λ b. IsValid b × (contents b ≡ leaked gs xs ys)) (stages F apply gs result tmp)
    unfolding stages
    stages_lem [] result tmp xs ys v w e q h = (v, e)
    stages_lem (g ∷ gs) result tmp xs ys v w e q h = rw e (
        Returns-bind (λ (_, b'). IsValid b' × (contents b' ≡ contents tmp ++ meaning g xs))
          (λ b. IsValid b × (contents b ≡ leaked (g ∷ gs) xs ys)) (apply g xs tmp) _
          (law g xs tmp w (omega (arith, length-contents tmp w, ap length q, h.0)))
          λ (_, b') (v', more).
            stages_lem gs b' result (ys ++ meaning g xs) xs v' v
              (more ∙ ap (λ t. t ++ meaning g xs) q) e h.1)

    module _ (r : Realloc) (ok : IsRealloc r) (memory : ¬ Refuses r) (output : Buffer)
        (w : IsValid output) where
      Behind : Bytes → Buffer → Type 0
      Behind xs b = IsValid b × (contents b ≡ contents output ++ xs)

      deliver_lem :
          (result : Buffer) (xs : Bytes)
          → IsValid result
          → contents result ≡ xs
          → output.size + length xs + chunk_size < size_mod
          → Returns (Behind xs) (deliver F apply r result output)
      unfolding deliver Behind
      deliver_lem result xs v e h = elim (Bool-cases (output.capacity == 0)) [
        | inl z ↦
            rw (z, move_assign_lem r output result w)
              (v, e ∙ ap (λ t. t ++ xs) (sym (nothing ((==_iff output.capacity 0).0 z))))
        | inr some_room ↦
            rw (some_room, e)
              (Returns-mono (Pushed r Policy.mutable output xs) (Behind xs)
                (push_back r Policy.mutable xs output)
                (push_back-Pushed r Policy.mutable xs output ok w h)
                λ b p. (p.valid, p.grows refl memory))
      ]
        where
          nothing : output.capacity ≡ 0 → contents output ≡ []
          nothing z =
              length-zero (contents output) (omega (arith, length-contents output w, w.within, z))

      -- `process` with two filters or more, into a valid buffer, while the allocator has memory and
      -- the sizes stay far from the end of `size_t`, commits no fault. It puts behind the output's
      -- bytes what `leaked` describes and returns the number of these bytes. With two filters that is
      -- what the second makes of the first's output, and with a third, that output stands in front of
      -- what the third makes.
      pub process-leaked :
          (f g : F) (gs : List F) (input : Bytes)
          → length (meaning f input) + chunk_size < size_mod
          → Fits (g ∷ gs) (meaning f input) []
          → output.size + length (leaked (g ∷ gs) (meaning f input) []) + chunk_size < size_mod
          → Returns
              (λ (n, b).
                (n ≡ pos (length (leaked (g ∷ gs) (meaning f input) [])))
                × IsValid b
                × (contents b ≡ contents output ++ leaked (g ∷ gs) (meaning f input) []))
              (process F apply r (f ∷ g ∷ gs) input output)
      unfolding process Behind
      process-leaked f g gs input h fits room =
          Returns-bind (λ (_, b). IsValid b × (contents b ≡ meaning f input)) _
            (apply f input empty_buffer) _
            (law f input empty_buffer
              (record { owned = refl; within = omega arith; bounded = omega arith })
              (omega (arith, h)))
            λ (_, b) (v, e).
              Returns-bind (λ c. IsValid c × (contents c ≡ leaked (g ∷ gs) (meaning f input) [])) _
                (stages F apply (g ∷ gs) b empty_buffer) _
                (stages_lem (g ∷ gs) b empty_buffer (meaning f input) [] v
                  (record { owned = refl; within = omega arith; bounded = omega arith }) e refl
                  fits)
                λ c (v', e').
                  Returns-bind (Behind (leaked (g ∷ gs) (meaning f input) [])) _
                    (deliver F apply r c output) _
                    (deliver_lem c (leaked (g ∷ gs) (meaning f input) []) v' e' room)
                    λ d (v'', e''). (ap pos (sym (length-contents c v') ∙ ap length e'), v'', e'')
