-- ===== src/BufferRef/Cut.antt =====
-- The functions that cut a view: `ref`, `split`, `chomp`, `trim`, and the tests of its ends.
use libxio.Base.{
  ℕ, zero, suc, ◌+◌, ◌-◌, ◌%◌, ◌≤◌, ◌<◌, ◌≡◌, ◌⊎◌, refl, sym, ap, subst, ◌∙◌, Option, none, some,
  [], ◌∷◌, ◌++◌, Bytes, size_mod, length, take, drop, get_elem?, done, Returns, Returns-bind, arith,
  inl, inr, ◌>>=◌, ◌==◌, ne→==, le→leb, mod_small, if◌then◌else◌, length-take, drop-take, take-take,
}
use libxio.BufferRef.{BufferRef, text, npos, ref, ref_from, find_char, split_char, null_ref}
use libxio.BufferRef.Inv.{IsView, FirstIn, encode}
use libxio.BufferRef.Find.{Holds, Finds, find_char-Finds}

-- `ref(offset, count)` inside the view is the view of `count` bytes from `offset` on.
pub ref_lem :
    (v : BufferRef) (offset count : ℕ)
    → IsView v
    → offset + count ≤ v.size
    → ref v offset count ≡ done (record { mem = drop offset v.mem; size = count })
unfolding ref
ref_lem v offset count ok h = rw (
  le→leb offset v.size (omega arith),
  ne→== count npos (omega (arith, ok.within, ok.bounded)),
  mod_small (offset + count) {m = size_mod} (omega (arith, ok.within, ok.bounded)),
  le→leb (offset + count) v.size h,
)

-- `ref(offset, npos)` is the rest of the view.
pub ref-npos :
    (v : BufferRef) (offset : ℕ)
    → offset ≤ v.size
    → ref v offset npos ≡ done (record { mem = drop offset v.mem; size = v.size - offset })
unfolding ref
ref-npos v offset h = rw (le→leb offset v.size h)

-- `ref(offset)` inside the view.
pub ref_from_lem :
    (v : BufferRef) (offset : ℕ)
    → offset ≤ v.size
    → ref_from v offset ≡ done (record { mem = drop offset v.mem; size = v.size - offset })
unfolding ref_from
ref_from_lem v offset h = rw (le→leb offset v.size h)

text_of_ref :
    (v : BufferRef) (offset count : ℕ)
    → offset + count ≤ v.size
    → text (record { mem = drop offset v.mem; size = count }) ≡ take count (drop offset (text v))
text_of_ref v offset count h = sym (
    ap (take count) (drop-take offset v.size v.mem)
    ∙ take-take count (v.size - offset) (drop offset v.mem) (omega arith))

-- The pieces of a text around an index.
around : (t : Bytes) (i c : ℕ) → get_elem? t i ≡ some c → take i t ++ (c ∷ drop (i + 1) t) ≡ t
around [] i c h = cc
around (x ∷ t) zero c h = cc
around (x ∷ t) (suc i) c h =
    ap (λ r. x ∷ r)
      (ap (λ k. take i t ++ (c ∷ k)) (ap (λ j. drop j (x ∷ t)) (step i)) ∙ around t i c h)
  where
    step : (a : ℕ) → suc a + 1 ≡ suc (a + 1)
    step a = omega arith

get_elem?-take : (n i : ℕ) (m : Bytes) → i < n → get_elem? (take n m) i ≡ get_elem? m i
get_elem?-take zero i m h = absurd (omega arith)
get_elem?-take (suc n) i [] h = refl
get_elem?-take (suc n) zero (x ∷ m) h = refl
get_elem?-take (suc n) (suc i) (x ∷ m) h = get_elem?-take n i m (omega arith)

-- A byte that a text does not hold.
abbrev pub Lacks : ℕ → Bytes → Type 0
Lacks c t = (j : ℕ) → j < length t → ¬ Holds t c j

-- The two views of a split: the text before the first delimiter and the text behind it, or the whole
-- text and nothing.
abbrev pub Splits : BufferRef → ℕ → BufferRef × BufferRef → Type 0
Splits v c (l, r) =
    ((text v ≡ text l ++ (c ∷ text r)) × Lacks c (text l))
    ⊎ (Lacks c (text v) × (text l ≡ text v) × (text r ≡ []))

module _ (v : BufferRef) (c : ℕ) (ok : IsView v) where
  none_before :
      (n : ℕ)
      → n ≤ v.size
      → ((j : ℕ) → 0 ≤ j → j < n → ¬ Holds v.mem c j)
      → Lacks c (take n (text v))
  none_before n le none_below j lt h =
      none_below j (omega arith) (omega (arith, length-take {0} n (text v))) (
        sym (get_elem?-take v.size j v.mem (omega (arith, length-take {0} n (text v))))
        ∙ sym (get_elem?-take n j (text v) (omega (arith, length-take {0} n (text v))))
        ∙ h)

  split_found :
      (i : ℕ)
      → i < v.size
      → Holds v.mem c i
      → ((j : ℕ) → 0 ≤ j → j < i → ¬ Holds v.mem c j)
      → Returns
          (Splits v c)
          (ref v 0 i >>= λ left. ref v ((i + 1) % size_mod) npos >>= λ right. done (left, right))
  split_found i lt found before =
      rw
        (
          ref_lem v 0 i ok (omega arith),
          mod_small (i + 1) {m = size_mod} (omega (arith, ok.within, ok.bounded)),
          ref-npos v (i + 1) (omega arith),
        )
        (inl (
          pieces,
          subst (Lacks c) (take-take i v.size v.mem (omega arith))
              (none_before i (omega arith) before),
        ))
    where
      pieces : text v ≡ take i v.mem ++ (c ∷ take (v.size - (i + 1)) (drop (i + 1) v.mem))
      pieces =
          sym (around (text v) i c (get_elem?-take v.size i v.mem lt ∙ found))
          ∙ ap (λ k. k ++ (c ∷ drop (i + 1) (text v))) (take-take i v.size v.mem (omega arith))
          ∙ ap (λ k. take i v.mem ++ (c ∷ k)) (drop-take (i + 1) v.size v.mem)

  -- `split(char)` commits no fault: it cuts a text at the first delimiter, which it drops, or gives the
  -- whole text and an empty view where there is none.
  pub split_char-Splits : Returns (Splits v c) (split_char v c)
  unfolding split_char
  split_char-Splits =
      Returns-bind (Finds (Holds v.mem c) 0 v.size) (Splits v c) (find_char v c 0) _
        (find_char-Finds v c 0 ok (omega arith)) λ i f. step i f.0 f.1 f.2
    where
      minus_zero : (n : ℕ) → n - 0 ≡ n
      minus_zero n = omega arith

      step :
          (i : ℕ) (o : Option ℕ)
          → i ≡ encode o
          → FirstIn (Holds v.mem c) 0 v.size o
          → Returns (Splits v c) (
              if i == npos
              then (ref_from v 0 >>= λ whole. done (whole, null_ref))
              else ref v 0 i >>= λ left.
                  ref v ((i + 1) % size_mod) npos >>= λ right. done (left, right))
      step i none e f =
          rw (e, ref_from_lem v 0 (omega arith))
            (inr (
              subst (Lacks c) (take-take v.size v.size v.mem (omega arith))
                  (none_before v.size (omega arith) f),
              ap (λ k. take k v.mem) (minus_zero v.size),
              refl,
            ))
      step i (some k) e f =
          rw (e, ne→== k npos (omega (arith, f.1, ok.within, ok.bounded)))
            (split_found k f.1 f.2 f.3)
