-- ===== src/BufferRef/Search.antt =====
-- `find` of a string of bytes returns the first place, for every view that leaves it enough to read.
use libxio.Base.{
  ℕ, suc, ◌+◌, ◌-◌, ◌≤◌, ◌<◌, ◌≡◌, ◌≢◌, ◌↔◌, refl, sym, subst, Bool, true, false, none, some, [],
  ◌∷◌, ◌++◌, Bytes, length, take, drop, Run, done, fault, Fault, Returns, Returns-bind,
  Returns-mono, arith, inl, inr, ◌==◌, ==_iff, ne→==, eq→==, drop-append_left, Bool-cases,
  if◌then◌else◌, length-drop,
}
use libxio.BufferRef.{npos, match_rest, find_loop, find}
use libxio.BufferRef.Inv.{FirstIn, FirstIn-next, FirstIn-here, uncons}
use libxio.BufferRef.Find.{clash, Finds, wrapped_sub}

-- The needle stands in a text at an index.
abbrev pub Occurs : Bytes → Bytes → ℕ → Type 0
Occurs needle t j = take (length needle) (drop j t) ≡ needle

-- No byte is NUL, as in the bytes of a C string.
abbrev pub NoNul : Bytes → Type 0
NoNul [] = Unit
NoNul (y ∷ ys) = (y ≢ 0) × NoNul ys

cons_eq : {a b : ℕ} {us vs : Bytes} → a ≡ b → us ≡ vs → a ∷ us ≡ b ∷ vs
cons_eq p q = cc

tail_eq : {a b : ℕ} {us vs : Bytes} → a ∷ us ≡ b ∷ vs → us ≡ vs
tail_eq p = cc

head_eq : {a b : ℕ} {us vs : Bytes} → a ∷ us ≡ b ∷ vs → a ≡ b
head_eq p = cc

match_rest_lem :
    (ys u w : Bytes) (t : ℕ)
    → NoNul ys
    → Returns
        (λ b. (b ≡ true) ↔ (take (length ys) u ≡ ys))
        (match_rest (u ++ (0 ∷ w)) (ys ++ (t ∷ [])) (length ys))
unfolding match_rest
match_rest_lem [] [] w t h = ((λ _. refl), λ _. refl)
match_rest_lem [] (x ∷ u) w t h = ((λ _. refl), λ _. refl)
match_rest_lem (y ∷ ys) [] w t h = rw (ne→== 0 y (λ e. h.0 (sym e))) ((λ e. cc), λ e. cc)
match_rest_lem (y ∷ ys) (x ∷ u) w t h = elim (Bool-cases (x == y)) [
  | inl same ↦ rw same (
      Returns-mono (λ b. (b ≡ true) ↔ (take (length ys) u ≡ ys))
        (λ b. (b ≡ true) ↔ (x ∷ take (length ys) u ≡ y ∷ ys))
        (match_rest (u ++ (0 ∷ w)) (ys ++ (t ∷ [])) (length ys)) (match_rest_lem ys u w t h.1)
        λ b f. ((λ e. cons_eq ((==_iff x y).0 same) (f.0 e)), λ e. f.1 (tail_eq e)))
  | inr other ↦ rw other ((λ e. cc), λ e. absurd (clash other ((==_iff x y).1 (head_eq e))))
]

module _ (y : ℕ) (ys T w : Bytes) (plain : NoNul ys) where
  -- one byte of the needle compared, then the others
  first_byte :
      (x i : ℕ) (u : Bytes)
      → x ∷ u ≡ drop i T
      → (Occurs (y ∷ ys) T i) ↔ ((x ≡ y) × (take (length ys) u ≡ ys))
  first_byte x i u e = rw (← e) ((λ h. (head_eq h, tail_eq h)), λ h. cons_eq h.0 h.1)

  find_next :
      (i n : ℕ) (next : Run ℕ)
      → Returns (Finds (Occurs (y ∷ ys) T) (i + 1) (i + 1 + n)) next
      → ¬ Occurs (y ∷ ys) T i
      → Returns (Finds (Occurs (y ∷ ys) T) i (i + suc n)) next
  find_next i n next found no_match =
      Returns-mono (Finds (Occurs (y ∷ ys) T) (i + 1) (i + 1 + n))
        (Finds (Occurs (y ∷ ys) T) i (i + suc n)) next found
        λ r f. (
          f.0,
          f.1,
          FirstIn-next (Occurs (y ∷ ys) T) i (i + suc n) f.0 no_match
              (subst (λ k. FirstIn (Occurs (y ∷ ys) T) (i + 1) k f.0) (omega arith) f.2),
        )

  find_hit :
      (i n : ℕ) (next : Run ℕ) (b : Bool)
      → ((b ≡ true) ↔ Occurs (y ∷ ys) T i)
      → Returns (Finds (Occurs (y ∷ ys) T) (i + 1) (i + 1 + n)) next
      → Returns (Finds (Occurs (y ∷ ys) T) i (i + suc n)) (if b then done i else next)
  find_hit i n next true same found =
      (some i, refl, FirstIn-here (Occurs (y ∷ ys) T) i (i + suc n) (same.0 refl) (omega arith))
  find_hit i n next false same found = find_next i n next found (λ o. clash refl (same.1 o))

  find_loop_lem :
      (u : Bytes) (i : ℕ)
      → u ≡ drop i T
      → Returns
          (Finds (Occurs (y ∷ ys) T) i (i + length u))
          (find_loop y (ys ++ (0 ∷ [])) (length ys) (u ++ (0 ∷ w)) (length u) i)
  unfolding find_loop
  find_loop_lem [] i e = (none, refl, λ j le lt. absurd (omega arith))
  find_loop_lem (x ∷ u) i e =
      let rest = find_loop_lem u (i + 1) (uncons i T u x e).1 in
      elim (Bool-cases (x == y)) [
        | inl first ↦ rw first (
            Returns-bind (λ b. (b ≡ true) ↔ (take (length ys) u ≡ ys))
              (Finds (Occurs (y ∷ ys) T) i (i + suc (length u)))
              (match_rest (u ++ (0 ∷ w)) (ys ++ (0 ∷ [])) (length ys)) _
              (match_rest_lem ys u w 0 plain)
              λ b f.
                find_hit i (length u) _ b
                  (
                    (λ h. (first_byte x i u e).1 ((==_iff x y).0 first, f.0 h)),
                    λ o. f.1 ((first_byte x i u e).0 o).1,
                  )
                  rest)
        | inr other ↦ rw other (
            find_next i (length u) _ rest
              (λ o. clash other ((==_iff x y).1 ((first_byte x i u e).0 o).0)))
      ]

-- `find(const char*, offset)` in a text behind which a NUL stands: the first index from `offset` on
-- at which the whole needle stands in the text, or `npos`; nothing behind the NUL is read.
pub find-Finds :
    (t w needle : Bytes) (offset : ℕ)
    → NoNul needle
    → needle ≢ []
    → offset ≤ length t
    → length t < npos
    → Returns
        (Finds (Occurs needle t) offset (length t))
        (find (record { mem = t ++ (0 ∷ w); size = length t }) needle offset)
unfolding find
find-Finds t w [] offset plain ne h lt = absurd (ne refl)
find-Finds t w (y ∷ ys) offset plain ne h lt =
    rw
      (
        wrapped_sub (length t) offset h lt,
        drop-append_left offset t (0 ∷ w) h,
        ← length-drop {0} offset t,
      )
      (Returns-mono (Finds (Occurs (y ∷ ys) t) offset (offset + length (drop offset t)))
        (Finds (Occurs (y ∷ ys) t) offset (length t))
        (find_loop y (ys ++ (0 ∷ [])) (length ys) (drop offset t ++ (0 ∷ w))
          (length (drop offset t)) offset)
        (find_loop_lem y ys t w plain.1 (drop offset t) offset refl)
        λ r f. (
          f.0,
          f.1,
          subst (λ k. FirstIn (Occurs (y ∷ ys) t) offset k f.0)
              (omega (arith, length-drop {0} offset t)) f.2,
        ))

match_rest_past_end :
    (ys : Bytes) (t : ℕ) → match_rest ys (ys ++ (t ∷ [])) (length ys) ≡ fault Fault.out_of_bounds
unfolding match_rest
match_rest_past_end [] t = refl
match_rest_past_end (y ∷ ys) t = rw (eq→== y y refl) (match_rest_past_end ys t)

-- In an array that ends with the needle, `find(const char*)` reads the byte behind the array.
pub find_past_end :
    (y : ℕ) (ys : Bytes)
    → length (y ∷ ys) < npos
    → find (record { mem = y ∷ ys; size = length (y ∷ ys) }) (y ∷ ys) 0 ≡ fault Fault.out_of_bounds
unfolding find find_loop
find_past_end y ys lt =
    rw (wrapped_sub (length (y ∷ ys)) 0 (omega arith) lt, length_suc)
      (rw (eq→== y y refl, match_rest_past_end ys 0))
  where
    length_suc : suc (length ys) - 0 ≡ suc (length ys)
    length_suc = omega arith
