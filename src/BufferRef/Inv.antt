-- ===== src/BufferRef/Inv.antt =====
-- The invariant of a view, and what a search promises.
use libxio.Base.{
  ℕ, zero, suc, ◌+◌, ◌≤◌, ◌<◌, ◌≡◌, ◌⊎◌, refl, ap, ◌∙◌, Option, none, some, List, [], ◌∷◌, length,
  drop, get_elem?, done, arith, inl, inr,
}
use libxio.BufferRef.{BufferRef, npos, at}
use native.Mathlib.Decide.{ℕ_discrete}

-- The view lies inside its array, and the array inside the address space.
pub record IsView (v : BufferRef) : Type 0 where
  pub within : v.size ≤ length v.mem
  pub bounded : length v.mem < npos

-- A search over the indices from `lo` up to `hi` found the first one at which `P` holds, or there
-- is none.
abbrev pub FirstIn : (ℕ → Type 0) → (lo hi : ℕ) → Option ℕ → Type 0
FirstIn P lo hi none = (j : ℕ) → lo ≤ j → j < hi → ¬ P j
FirstIn P lo hi (some r) = (lo ≤ r) × (r < hi) × P r × ((j : ℕ) → lo ≤ j → j < r → ¬ P j)

-- The same for a search downwards from `hi`.
abbrev pub LastIn : (ℕ → Type 0) → (hi : ℕ) → Option ℕ → Type 0
LastIn P hi none = (j : ℕ) → j ≤ hi → ¬ P j
LastIn P hi (some r) = (r ≤ hi) × P r × ((j : ℕ) → r < j → j ≤ hi → ¬ P j)

-- How a search returns that it found nothing.
abbrev pub encode : Option ℕ → ℕ
encode none = npos
encode (some i) = i

split_le : (lo j : ℕ) → lo ≤ j → (lo ≡ j) ⊎ (lo + 1 ≤ j)
split_le lo j h = elim (ℕ_discrete lo j) [ yes e ↦ inl e | no n ↦ inr (omega arith) ]

pub FirstIn-next :
    (P : ℕ → Type 0) (lo hi : ℕ) (o : Option ℕ)
    → ¬ P lo
    → FirstIn P (lo + 1) hi o
    → FirstIn P lo hi o
FirstIn-next P lo hi none n h =
    λ j le lt. elim (split_le lo j le) [ inl e ↦ rw (← e) n | inr up ↦ h j up lt ]
FirstIn-next P lo hi (some r) n h = (
  omega arith,
  h.1,
  h.2,
  λ j le lt. elim (split_le lo j le) [ inl e ↦ rw (← e) n | inr up ↦ h.3 j up lt ],
)

pub FirstIn-here : (P : ℕ → Type 0) (lo hi : ℕ) → P lo → lo < hi → FirstIn P lo hi (some lo)
FirstIn-here P lo hi p lt = (omega arith, lt, p, λ j le l. absurd (omega arith))

pub LastIn-next :
    (P : ℕ → Type 0) (hi : ℕ) (o : Option ℕ) → ¬ P (suc hi) → LastIn P hi o → LastIn P (suc hi) o
LastIn-next P hi none n h =
    λ j le. elim (ℕ_discrete j (suc hi)) [ yes e ↦ rw e n | no ne ↦ h j (omega arith) ]
LastIn-next P hi (some r) n h = (
  omega arith,
  h.1,
  λ j lt le. elim (ℕ_discrete j (suc hi)) [ yes e ↦ rw e n | no ne ↦ h.2 j lt (omega arith) ],
)

pub LastIn-here : (P : ℕ → Type 0) (hi : ℕ) → P hi → LastIn P hi (some hi)
LastIn-here P hi p = (omega arith, p, λ j lt le. absurd (omega arith))

-- One step into an array.
module _ {ℓ} {A : Type ℓ} where
  pub uncons :
      (i : ℕ) (M m : List A) (x : A)
      → x ∷ m ≡ drop i M
      → (get_elem? M i ≡ some x) × (m ≡ drop (i + 1) M)
  uncons zero [] m x h = cc
  uncons zero (y ∷ M) m x h = (cc, cc)
  uncons (suc i) [] m x h = cc
  uncons (suc i) (y ∷ M) m x h =
      ((uncons i M m x h).0, (uncons i M m x h).1 ∙ ap (λ k. drop k (y ∷ M)) (step i))
    where
      step : (a : ℕ) → suc (a + 1) ≡ suc a + 1
      step a = omega arith

  pub drop_end : (i : ℕ) (M : List A) → [] ≡ drop i M → length M ≤ i
  drop_end zero [] h = omega arith
  drop_end zero (y ∷ M) h = cc
  drop_end (suc i) [] h = omega arith
  drop_end (suc i) (y ∷ M) h = omega (arith, drop_end i M h)

  pub get_elem?-some : (i : ℕ) (M : List A) → i < length M → (x : A) × (get_elem? M i ≡ some x)
  get_elem?-some i [] h = absurd (omega arith)
  get_elem?-some zero (y ∷ M) h = (y, refl)
  get_elem?-some (suc i) (y ∷ M) h = get_elem?-some i M (omega arith)

-- A read inside the array.
pub at-done :
    (v : BufferRef) (i : ℕ)
    → i < length v.mem
    → (x : ℕ) × (at v i ≡ done x) × (get_elem? v.mem i ≡ some x)
unfolding at
at-done v i h = go (get_elem?-some i v.mem h)
  where
    go :
        ((x : ℕ) × (get_elem? v.mem i ≡ some x))
        → (x : ℕ) × (at v i ≡ done x) × (get_elem? v.mem i ≡ some x)
    go (x, e) = (x, rw (e, at), e)
