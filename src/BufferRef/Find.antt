-- ===== src/BufferRef/Find.antt =====
-- `find(char)`: the first place of a byte.
use libxio.Base.{
  ℕ, zero, suc, ◌+◌, ◌-◌, ◌%◌, ◌≤◌, ◌<◌, ◌≡◌, ◌≢◌, refl, sym, ap, subst, ◌∙◌, Bool, true, false,
  Option, none, some, [], ◌∷◌, Bytes, size_mod, length, drop, get_elem?, done, Returns,
  Returns-bind, Returns-mono, arith, inl, inr, ◌==◌, ==_iff, Bool-cases,
}
use libxio.BufferRef.{BufferRef, npos, memchr, find_char}
use libxio.BufferRef.Inv.{IsView, FirstIn, encode, FirstIn-next, FirstIn-here, uncons, drop_end}

-- A byte stands at an index.
abbrev pub Holds : Bytes → ℕ → ℕ → Type 0
Holds M c j = get_elem? M j ≡ some c

some_eq : {x c : ℕ} → some x ≡ some c → x ≡ c
some_eq h = cc

pub clash : {b : Bool} → b ≡ false → b ≡ true → ⊥
clash p q = cc

pub other_byte : (M : Bytes) (c x i : ℕ) → get_elem? M i ≡ some x → x ≢ c → ¬ Holds M c i
other_byte M c x i e n h = n (some_eq (sym e ∙ h))

memchr_lem :
    (c : ℕ) (M m : Bytes) (n i : ℕ)
    → m ≡ drop i M
    → i + n ≤ length M
    → Returns (FirstIn (Holds M c) i (i + n)) (memchr c m n i)
unfolding memchr
memchr_lem c M m zero i e h = λ j le lt. absurd (omega arith)
memchr_lem c M [] (suc n) i e h = absurd (omega (arith, drop_end i M e))
memchr_lem c M (x ∷ m) (suc n) i e h = elim (Bool-cases (x == c)) [
  | inl hit ↦ rw hit (
      FirstIn-here (Holds M c) i (i + suc n) ((uncons i M m x e).0 ∙ ap some ((==_iff x c).0 hit))
        (omega arith))
  | inr miss ↦ rw miss (
      Returns-mono (FirstIn (Holds M c) (i + 1) (i + 1 + n)) (FirstIn (Holds M c) i (i + suc n))
        (memchr c m n (i + 1)) (memchr_lem c M m n (i + 1) (uncons i M m x e).1 (omega arith))
        λ o f.
          FirstIn-next (Holds M c) i (i + suc n) o
            (other_byte M c x i (uncons i M m x e).0 (λ q. clash miss ((==_iff x c).1 q)))
            (rw (ends n i) f))
]
  where
    ends : (a b : ℕ) → b + suc a ≡ b + 1 + a
    ends a b = omega arith

-- What a search for `P` between `lo` and `hi` returns: the first index, or `npos` if there is none.
abbrev pub Finds : (ℕ → Type 0) → (lo hi : ℕ) → ℕ → Type 0
Finds P lo hi r = (o : Option ℕ) × (r ≡ encode o) × FirstIn P lo hi o

pub wrapped_sub : (a b : ℕ) → b ≤ a → a < npos → (a + size_mod - b) % size_mod ≡ a - b
wrapped_sub a b h lt = omega arith

-- `find(char, offset)` returns the first index of the byte in the view from `offset` on, or `npos`.
pub find_char-Finds :
    (v : BufferRef) (c offset : ℕ)
    → IsView v
    → offset ≤ v.size
    → Returns (Finds (Holds v.mem c) offset v.size) (find_char v c offset)
unfolding find_char
find_char-Finds v c offset ok h =
    rw (wrapped_sub v.size offset h (omega (arith, ok.within, ok.bounded))) (
      Returns-bind (FirstIn (Holds v.mem c) offset (offset + (v.size - offset)))
        (Finds (Holds v.mem c) offset v.size)
        (memchr c (drop offset v.mem) (v.size - offset) offset) _
        (memchr_lem c v.mem (drop offset v.mem) (v.size - offset) offset refl
          (omega (arith, ok.within)))
        λ o f. pack o (subst (λ k. FirstIn (Holds v.mem c) offset k o) (omega arith) f))
  where
    pack :
        (o : Option ℕ)
        → FirstIn (Holds v.mem c) offset v.size o
        → Returns
            (Finds (Holds v.mem c) offset v.size)
            (elim o [ none ↦ done npos | some i ↦ done i ])
    pack none f = (none, refl, f)
    pack (some i) f = (some i, refl, f)
