-- ===== src/BufferRef/Rfind.antt =====
-- `rfind(char)`: the last place of a byte.
use libxio.Base.{
  ℕ, zero, suc, ◌-◌, ◌<◌, ◌≡◌, ◌≢◌, refl, ap, subst, ◌∙◌, Option, none, some, length, get_elem?,
  done, Returns, Returns-mono, arith, inl, inr, ◌>>=◌, ◌==◌, ==_iff, ne→==, Bool-cases,
  if◌then◌else◌,
}
use libxio.BufferRef.{BufferRef, npos, at, rfind_loop, rfind_char}
use libxio.BufferRef.Inv.{IsView, LastIn, encode, LastIn-next, LastIn-here, at-done}
use libxio.BufferRef.Find.{Holds, clash, other_byte, wrapped_sub}

rfind_loop_lem :
    (v : BufferRef) (c q : ℕ)
    → q < length v.mem
    → Returns (λ r. (o : Option ℕ) × (r ≡ encode o) × LastIn (Holds v.mem c) q o) (rfind_loop v c q)
unfolding rfind_loop
rfind_loop_lem v c zero h = go (at-done v 0 h)
  where
    go :
        ((x : ℕ) × (at v 0 ≡ done x) × (get_elem? v.mem 0 ≡ some x))
        → Returns
            (λ r. (o : Option ℕ) × (r ≡ encode o) × LastIn (Holds v.mem c) 0 o)
            (at v 0 >>= λ x. if x == c then done 0 else done npos)
    go (x, r, e) = rw r (elim (Bool-cases (x == c)) [
      | inl hit ↦
          rw hit (some 0, refl, LastIn-here (Holds v.mem c) 0 (e ∙ ap some ((==_iff x c).0 hit)))
      | inr miss ↦ rw miss (
        none,
        refl,
        λ j le.
            subst (λ k. ¬ Holds v.mem c k) (omega arith)
              (other_byte v.mem c x 0 e (λ q. clash miss ((==_iff x c).1 q))),
      )
    ])
rfind_loop_lem v c (suc q) h = go (at-done v (suc q) h) (rfind_loop_lem v c q (omega arith))
  where
    go :
        ((x : ℕ) × (at v (suc q) ≡ done x) × (get_elem? v.mem (suc q) ≡ some x))
        → Returns
            (λ r. (o : Option ℕ) × (r ≡ encode o) × LastIn (Holds v.mem c) q o)
            (rfind_loop v c q)
        → Returns
            (λ r. (o : Option ℕ) × (r ≡ encode o) × LastIn (Holds v.mem c) (suc q) o)
            (at v (suc q) >>= λ x. if x == c then done (suc q) else rfind_loop v c q)
    go (x, r, e) below = rw r (elim (Bool-cases (x == c)) [
      | inl hit ↦ rw hit (
        some (suc q),
        refl,
        LastIn-here (Holds v.mem c) (suc q) (e ∙ ap some ((==_iff x c).0 hit)),
      )
      | inr miss ↦ rw miss (
          Returns-mono (λ r. (o : Option ℕ) × (r ≡ encode o) × LastIn (Holds v.mem c) q o)
            (λ r. (o : Option ℕ) × (r ≡ encode o) × LastIn (Holds v.mem c) (suc q) o)
            (rfind_loop v c q) below
            λ r f. (
              f.0,
              f.1,
              LastIn-next (Holds v.mem c) q f.0
                  (other_byte v.mem c x (suc q) e (λ q. clash miss ((==_iff x c).1 q))) f.2,
            ))
    ])

-- `rfind(char)` returns the last index of the byte in a view that is not empty, or `npos`.
pub rfind_char_lem :
    (v : BufferRef) (c : ℕ)
    → IsView v
    → v.size ≢ 0
    → Returns
        (λ r. (o : Option ℕ) × (r ≡ encode o) × LastIn (Holds v.mem c) (v.size - 1) o)
        (rfind_char v c)
unfolding rfind_char
rfind_char_lem v c ok ne =
    rw
      (ne→== v.size 0 ne, wrapped_sub v.size 1 (omega arith) (omega (arith, ok.within, ok.bounded)))
      (rfind_loop_lem v c (v.size - 1) (omega (arith, ok.within)))
