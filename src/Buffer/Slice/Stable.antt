-- ===== src/Buffer/Slice/Stable.antt =====
-- A slice keeps its bytes when its buffer moves to other storage, and what its shifts do.
use libxio.Base.{
  ℕ, ◌+◌, ◌-◌, ◌%◌, ◌≤◌, ◌<◌, ◌≡◌, ◌⊎◌, refl, sym, ap, ◌∙◌, [], ◌++◌, Bytes, size_mod, length, take,
  drop, length-append, drop-append_left, drop-take, take-take, take-append_left, fault, Fault,
  Returns, Returns-mono, Returns-bind, arith, inl, inr, le→leb, eq→==, gt→leb, ne→==, subst,
  take-nil, drop-nil, append-nil, length-drop,
}
use native.Mathlib.Nat.{sub-zero}
use libxio.Memory.{Block, null, heap, freed, block_bytes, Realloc, IsRealloc, Refuses}
use libxio.Buffer.{Buffer, Policy, contents, chunk_size, push_back}
use libxio.Buffer.Valid.{Owns, IsValid}
use libxio.Buffer.Append.{Pushed, push_back-Pushed, length-contents}
use libxio.BufferRef.{text}
use libxio.Buffer.Slice.{Store, put, slice_of, behind, slice_data, slice_ref_from, shl}

-- The bytes of a part of a valid buffer.
behind_lem :
    (p : Block) (s c offset size : ℕ)
    → Owns p c
    → s ≤ c
    → offset + size ≤ s
    → Returns
        (λ m. take size m ≡ take size (drop offset (take s (block_bytes p))))
        (behind p offset)
unfolding behind
behind_lem null s c offset size o le h = rw (eq→== offset 0 (omega arith)) (
    take-nil size
    ∙ sym (
        ap (λ t. take size (drop offset t)) (take-nil s)
        ∙ ap (take size) (drop-nil offset)
        ∙ take-nil size))
behind_lem freed s c offset size o le h = absurd o
behind_lem (heap m) s c offset size o le h = rw (le→leb offset (length m) (omega arith)) (
    sym (
      ap (take size) (drop-take offset s m)
      ∙ take-take size (s - offset) (drop offset m) (omega arith)))

-- What a slice shows of its buffer.
abbrev pub part : Buffer → (offset size : ℕ) → Bytes
part b offset size = take size (drop offset (contents b))

-- The whole slice as a view, of a slice inside a valid buffer.
pub slice_ref_from_lem :
    (st : Store) (p offset size : ℕ)
    → IsValid (st p)
    → offset + size ≤ (st p).size
    → Returns (λ v. text v ≡ part (st p) offset size) (slice_ref_from st (slice_of p offset size) 0)
unfolding slice_ref_from slice_data
slice_ref_from_lem st p offset size v h = rw (le→leb 0 size (omega arith)) (
    Returns-bind (λ m. take size m ≡ part (st p) offset size)
      (λ v. text v ≡ part (st p) offset size) (behind (st p).block offset) _
      (behind_lem (st p).block (st p).size (st p).capacity offset size v.owned v.within h)
      λ m e. ap (λ k. take k m) (sub-zero size) ∙ e)

part-append :
    (b b' : Buffer) (offset size : ℕ) (xs : Bytes)
    → IsValid b
    → offset + size ≤ b.size
    → contents b' ≡ contents b ++ xs
    → part b' offset size ≡ part b offset size
part-append b b' offset size xs v h e =
    ap (λ t. take size (drop offset t)) e
    ∙ ap (take size) (drop-append_left offset (contents b) xs (omega (arith, length-contents b v)))
    ∙ take-append_left size (drop offset (contents b)) xs
        (omega (arith, length-contents b v, length-drop {A = ℕ} offset (contents b)))

-- A slice inside a valid buffer shows the same bytes after an append to the buffer, under either
-- policy and far from the end of `size_t`, wherever the allocator puts the storage, and also if it
-- refuses.
pub push_back-slice :
    (r : Realloc) (e : Policy) (xs : Bytes) (st : Store) (p offset size : ℕ)
    → IsRealloc r
    → IsValid (st p)
    → offset + size ≤ (st p).size
    → (st p).size + length xs + chunk_size < size_mod
    → Returns
        (λ b'.
          Returns
            (λ v. text v ≡ part (st p) offset size)
            (slice_ref_from (put st p b') (slice_of p offset size) 0))
        (push_back r e xs (st p))
push_back-slice r e xs st p offset size ok v h room =
    Returns-mono (Pushed r e (st p) xs)
      (λ b'.
        Returns (λ v. text v ≡ part (st p) offset size)
          (slice_ref_from (put st p b') (slice_of p offset size) 0))
      (push_back r e xs (st p)) (push_back-Pushed r e xs (st p) ok v room)
      λ b' q. show b' q.valid (either b' q.bytes)
  where
    either :
        (b' : Buffer)
        → ((contents b' ≡ contents (st p) ++ xs)
            ⊎ ((contents b' ≡ contents (st p)) × ((e ≡ Policy.immutable) ⊎ Refuses r)))
        → (ys : Bytes) × (contents b' ≡ contents (st p) ++ ys)
    either b' (inl q) = (xs, q)
    either b' (inr q) = ([], q.0 ∙ sym (append-nil (contents (st p))))

    show :
        (b' : Buffer)
        → IsValid b'
        → ((ys : Bytes) × (contents b' ≡ contents (st p) ++ ys))
        → Returns
            (λ v. text v ≡ part (st p) offset size)
            (slice_ref_from (put st p b') (slice_of p offset size) 0)
    show b' v' (ys, q) =
        Returns-mono (λ v. text v ≡ part (put st p b' p) offset size)
          (λ v. text v ≡ part (st p) offset size)
          (slice_ref_from (put st p b') (slice_of p offset size) 0)
          (slice_ref_from_lem (put st p b') p offset size (subst IsValid (sym here) v')
            (subst (λ b. offset + size ≤ b.size) (sym here) longer))
          λ w t. t ∙ ap (λ b. part b offset size) here ∙ part-append (st p) b' offset size ys v h q
      where
        here : put st p b' p ≡ b'
        here = rw (eq→== p p refl) refl

        longer : offset + size ≤ b'.size
        longer = omega (
          arith,
          length-contents (st p) v,
          length-contents b' v',
          ap length q,
          length-append {0} (contents (st p)) ys,
        )

-- `shl` within the offset moves a slice to the left and keeps its size.
pub shl_lem :
    (st : Store) (p offset size value : ℕ)
    → IsValid (st p)
    → offset + size ≤ (st p).size
    → value ≤ offset
    → Returns
        (λ s'.
          (s' ≡ slice_of p (offset - value) size)
          × Returns (λ v. text v ≡ part (st p) (offset - value) size) (slice_ref_from st s' 0))
        (shl value (slice_of p offset size))
unfolding shl
shl_lem st p offset size value v h le =
    rw
      (
        le→leb 0 ((offset + size_mod - value) % size_mod) (omega arith),
        moved offset value le (omega (arith, v.within, v.bounded)),
      )
      (refl, slice_ref_from_lem st p (offset - value) size v (omega arith))
  where
    moved : (a b : ℕ) → b ≤ a → a < size_mod → (a + size_mod - b) % size_mod ≡ a - b
    moved a b le lt = omega arith

-- `shl` past the begin of the buffer passes its assertion, and the slice then points outside of the
-- storage.
pub shl_past :
    (st : Store) (p offset size value : ℕ)
    → IsValid (st p)
    → offset + size ≤ (st p).size
    → offset < value
    → (st p).capacity + value < size_mod
    → Returns
        (λ s'. slice_data st s' ≡ fault Fault.out_of_bounds)
        (shl value (slice_of p offset size))
unfolding shl slice_data
shl_past st p offset size value v h lt small =
    rw
      (
        le→leb 0 ((offset + size_mod - value) % size_mod) (omega arith),
        moved offset value lt (omega arith),
      )
      (outside (st p).block (st p).capacity (offset + size_mod - value) v.owned (omega arith))
  where
    moved : (a b : ℕ) → a < b → b < size_mod → (a + size_mod - b) % size_mod ≡ a + size_mod - b
    moved a b lt lt' = omega arith

    outside : (q : Block) (c i : ℕ) → Owns q c → c < i → behind q i ≡ fault Fault.out_of_bounds
    outside null c i o lt = rw (behind, ne→== i 0 (omega arith)) refl
    outside (heap m) c i o lt = rw (behind, gt→leb i (length m) (omega arith)) refl
    outside freed c i o lt = absurd o
