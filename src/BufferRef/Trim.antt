-- ===== src/BufferRef/Trim.antt =====
-- `trim`: what it cuts off a text, and what it makes of a blank one.
use libxio.Base.{
  ℕ, zero, suc, ◌+◌, ◌-◌, ◌%◌, ◌^◌, ◌≤◌, ◌<◌, ◌≡◌, ◌≢◌, ◌⊎◌, refl, sym, ap, subst, ◌∙◌, Bool, true,
  false, none, some, [], ◌∷◌, Bytes, size_mod, length, drop, get_elem?, Run, done, fault, Fault,
  Returns, Returns-bind, Returns-mono, arith, inl, inr, ◌>>=◌, le→leb, ne→==, Bool-cases,
  if◌then◌else◌,
}
use native.Mathlib.Decide.{ℕ_discrete, dec_lt}
use libxio.BufferRef.{BufferRef, npos, at, ref, is_space, trim_left, trim_right, trim}
use libxio.BufferRef.Inv.{
  IsView, FirstIn, LastIn, FirstIn-next, FirstIn-here, LastIn-next, LastIn-here, at-done,
}
use libxio.BufferRef.Cut.{ref_lem}

-- A byte that is no white space.
abbrev pub Ink : Bytes → ℕ → Type 0
Ink M j = (x : ℕ) × (get_elem? M j ≡ some x) × (is_space x ≡ false)

blank_at : (M : Bytes) (x i : ℕ) → get_elem? M i ≡ some x → is_space x ≡ true → ¬ Ink M i
blank_at M x i e s (y, f, n) = clash (ap is_space (same (sym e ∙ f))) s n
  where
    same : some x ≡ some y → x ≡ y
    same h = cc

    clash : {a b : Bool} → a ≡ b → a ≡ true → b ≡ false → ⊥
    clash h p q = cc

module _ (v : BufferRef) where
  abbrev pub LeftStop : (lo hi r : ℕ) → Type 0
  LeftStop lo hi r =
      FirstIn (Ink v.mem) lo hi (some r) ⊎ ((r ≡ hi) × FirstIn (Ink v.mem) lo hi none)

  abbrev pub RightStop : (q r : ℕ) → Type 0
  RightStop q r =
      LastIn (Ink v.mem) q (some r) ⊎ ((r ≡ 0) × ((j : ℕ) → 0 < j → j ≤ q → ¬ Ink v.mem j))

  left_on : (lo hi r : ℕ) → ¬ Ink v.mem lo → LeftStop (lo + 1) hi r → LeftStop lo hi r
  left_on lo hi r n (inl f) = inl (FirstIn-next (Ink v.mem) lo hi (some r) n f)
  left_on lo hi r n (inr f) = inr (f.0, FirstIn-next (Ink v.mem) lo hi none n f.1)

  trim_left_lem :
      (n left : ℕ)
      → left + n ≤ length v.mem
      → Returns (LeftStop left (left + n)) (trim_left v n left)
  unfolding trim_left
  trim_left_lem zero left h = inr (omega arith, λ j le lt. absurd (omega arith))
  trim_left_lem (suc n) left h =
      go (at-done v left (omega arith)) (trim_left_lem n (left + 1) (omega arith))
    where
      go :
          ((x : ℕ) × (at v left ≡ done x) × (get_elem? v.mem left ≡ some x))
          → Returns (LeftStop (left + 1) (left + 1 + n)) (trim_left v n (left + 1))
          → Returns
              (LeftStop left (left + suc n))
              (at v left >>= λ x. if is_space x then trim_left v n (left + 1) else done left)
      go (x, r, e) next = rw r (elim (Bool-cases (is_space x)) [
        | inl s ↦ rw s (
            Returns-mono (LeftStop (left + 1) (left + 1 + n)) (LeftStop left (left + suc n))
              (trim_left v n (left + 1)) next
              λ t f.
                left_on left (left + suc n) t (blank_at v.mem x left e s)
                  (subst (λ k. LeftStop (left + 1) k t) (omega arith) f))
        | inr k ↦ rw k (inl (FirstIn-here (Ink v.mem) left (left + suc n) (x, e, k) (omega arith)))
      ])

  right_on : (q r : ℕ) → ¬ Ink v.mem (suc q) → RightStop q r → RightStop (suc q) r
  right_on q r n (inl f) = inl (LastIn-next (Ink v.mem) q (some r) n f)
  right_on q r n (inr f) = inr (
    f.0,
    λ j pos le. elim (ℕ_discrete j (suc q)) [ yes e ↦ rw e n | no ne ↦ f.1 j pos (omega arith) ],
  )

  trim_right_lem : (q : ℕ) → q < length v.mem → Returns (RightStop q) (trim_right v q)
  unfolding trim_right
  trim_right_lem zero h = inr (refl, λ j pos le. absurd (omega arith))
  trim_right_lem (suc q) h = go (at-done v (suc q) h) (trim_right_lem q (omega arith))
    where
      go :
          ((x : ℕ) × (at v (suc q) ≡ done x) × (get_elem? v.mem (suc q) ≡ some x))
          → Returns (RightStop q) (trim_right v q)
          → Returns
              (RightStop (suc q))
              (at v (suc q) >>= λ x. if is_space x then trim_right v q else done (suc q))
      go (x, r, e) next = rw r (elim (Bool-cases (is_space x)) [
        | inl s ↦ rw s (
            Returns-mono (RightStop q) (RightStop (suc q)) (trim_right v q) next
              λ t f. right_on q t (blank_at v.mem x (suc q) e s) f)
        | inr k ↦ rw k (inl (LastIn-here (Ink v.mem) (suc q) (x, e, k)))
      ])

-- A trimmed view.
pub record Trimmed (v w : BufferRef) : Type 0 where
  pub left : ℕ
  pub starts : w.mem ≡ drop left v.mem
  pub filled : 0 < w.size
  pub within : left + w.size ≤ v.size
  pub before : (j : ℕ) → j < left → ¬ Ink v.mem j
  pub after : (j : ℕ) → left + w.size ≤ j → j < v.size → ¬ Ink v.mem j
  pub first : Ink v.mem left
  pub last : Ink v.mem (left + w.size - 1)

last_index : (n : ℕ) → n ≢ 0 → n < npos → (n + size_mod - 1) % size_mod ≡ n - 1
last_index n ne lt = omega arith

-- `trim` of a view that holds some byte other than white space commits no fault: it gives the part from
-- the first such byte to the last, and all that it cuts off is white space.
pub trim-Trimmed :
    (v : BufferRef) (k : ℕ) → IsView v → k < v.size → Ink v.mem k → Returns (Trimmed v) (trim v)
unfolding trim
trim-Trimmed v k ok lt ink =
    rw (last_index v.size (omega arith) (omega (arith, ok.within, ok.bounded))) (
      Returns-bind (LeftStop v 0 (0 + v.size)) (Trimmed v) (trim_left v v.size 0) _
        (trim_left_lem v v.size 0 (omega (arith, ok.within)))
        λ l f.
          Returns-bind (RightStop v (v.size - 1)) (Trimmed v) (trim_right v (v.size - 1)) _
            (trim_right_lem v (v.size - 1) (omega (arith, ok.within)))
            λ r g. cut l r (found_left l f) (found_right r g))
  where
    found_left :
        (l : ℕ)
        → LeftStop v 0 (0 + v.size) l
        → (l ≤ k) × Ink v.mem l × ((j : ℕ) → j < l → ¬ Ink v.mem j)
    found_left l (inl (lo, hi, i, before)) = (
      elim (dec_lt k l) [ yes p ↦ absurd (before k (omega arith) p ink) | no n ↦ omega arith ],
      i,
      λ j lt'. before j (omega arith) lt',
    )
    found_left l (inr f) = absurd (f.1 k (omega arith) (omega arith) ink)

    found_right :
        (r : ℕ)
        → RightStop v (v.size - 1) r
        → (k ≤ r) × (r < v.size) × Ink v.mem r × ((j : ℕ) → r < j → j < v.size → ¬ Ink v.mem j)
    found_right r (inl (le, i, after)) = (
      elim (dec_lt r k) [ yes p ↦ absurd (after k p (omega arith) ink) | no n ↦ omega arith ],
      omega arith,
      i,
      λ j l h. after j l (omega arith),
    )
    found_right r (inr (z, none_above)) = elim (dec_lt 0 k) [
      | yes p ↦ absurd (none_above k p (omega arith) ink)
      | no n ↦ (
        omega arith,
        omega arith,
        subst (Ink v.mem) (omega arith) ink,
        λ j l h. none_above j (omega arith) (omega arith),
      )
    ]

    cut :
        (l r : ℕ)
        → (l ≤ k) × Ink v.mem l × ((j : ℕ) → j < l → ¬ Ink v.mem j)
        → (k ≤ r) × (r < v.size) × Ink v.mem r × ((j : ℕ) → r < j → j < v.size → ¬ Ink v.mem j)
        → Returns (Trimmed v) (ref v l ((1 + r + size_mod - l) % size_mod))
    cut l r (le, first, before) (ge, small, last, after) =
        rw
          (
            count l r (omega arith) (omega (arith, ok.within, ok.bounded)),
            ref_lem v l (1 + r - l) ok (omega arith),
          )
          (record {
            left = l;
            starts = refl;
            filled = omega arith;
            within = omega arith;
            before = before;
            after = λ j h lt. after j (omega arith) lt;
            first = first;
            last = subst (Ink v.mem) (omega arith) last;
          })
      where
        count : (a b : ℕ) → a ≤ b → b < npos → (1 + b + size_mod - a) % size_mod ≡ 1 + b - a
        count a b h lt = omega arith

unwatched_ref :
    (v : BufferRef) (count : ℕ)
    → 3 ≤ v.size
    → v.size < npos
    → count ≡ 2 ^ 64 + 1 - v.size
    → ref v v.size count ≡ done (record { mem = drop v.size v.mem; size = count })
unfolding ref
unwatched_ref v count three lt e = rw (
  le→leb v.size v.size (omega arith),
  ne→== count npos (omega arith),
  le→leb ((v.size + count) % size_mod) v.size (omega arith),
)

-- A blank view of three bytes or more is trimmed to a view behind its end whose size has wrapped
-- round, far past the array.
pub trim_blank :
    (v : BufferRef)
    → IsView v
    → 3 ≤ v.size
    → ((j : ℕ) → j < v.size → ¬ Ink v.mem j)
    → trim v ≡ done (record { mem = drop v.size v.mem; size = 2 ^ 64 + 1 - v.size })
unfolding trim
trim_blank v ok three blank =
    rw
      (
        last_index v.size (omega arith) (omega (arith, ok.within, ok.bounded)),
        stop_left (trim_left v v.size 0) (trim_left_lem v v.size 0 (omega (arith, ok.within))),
        stop_right (trim_right v (v.size - 1))
            (trim_right_lem v (v.size - 1) (omega (arith, ok.within))),
        wrapped v.size three (omega (arith, ok.within, ok.bounded)),
      )
      (unwatched_ref v (2 ^ 64 + 1 - v.size) three (omega (arith, ok.within, ok.bounded)) refl)
  where
    stop_left : (m : Run ℕ) → Returns (LeftStop v 0 (0 + v.size)) m → m ≡ done v.size
    stop_left (fault e) h = absurd h
    stop_left (done l) (inl (lo, hi, i, _)) = absurd (blank l (omega arith) i)
    stop_left (done l) (inr (e, _)) = ap done (omega arith)

    stop_right : (m : Run ℕ) → Returns (RightStop v (v.size - 1)) m → m ≡ done 0
    stop_right (fault e) h = absurd h
    stop_right (done r) (inl (le, i, _)) = absurd (blank r (omega arith) i)
    stop_right (done r) (inr (e, _)) = ap done e

    wrapped : (n : ℕ) → 3 ≤ n → n < npos → (1 + 0 + size_mod - n) % size_mod ≡ 2 ^ 64 + 1 - n
    wrapped n h lt = omega arith

right_outside :
    (v : BufferRef) (q : ℕ)
    → length v.mem ≤ suc q
    → trim_right v (suc q) ≡ fault Fault.out_of_bounds
unfolding trim_right at
right_outside v q h = rw (get_elem?-none v.mem (suc q) h, at)
  where
    get_elem?-none : (m : Bytes) (i : ℕ) → length m ≤ i → get_elem? m i ≡ none
    get_elem?-none [] i le = refl
    get_elem?-none (x ∷ m) zero le = absurd (omega arith)
    get_elem?-none (x ∷ m) (suc i) le = get_elem?-none m i (omega arith)

-- An empty view is trimmed from the index before its first byte, which is outside every array.
pub trim_empty :
    (m : Bytes) → length m < npos → trim (record { mem = m; size = 0 }) ≡ fault Fault.out_of_bounds
unfolding trim trim_left
trim_empty m h = rw (right_outside (record { mem = m; size = 0 }) (npos - 1) (omega arith))
