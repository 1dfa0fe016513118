-- ===== src/BufferRef/Compare/Tested.antt =====
-- What `begins`, `ends` and `equals` say of the bytes of two views, and copies and hashes of equal
-- views.
use libxio.Base.{
  ℕ, zero, suc, ◌+◌, ◌-◌, ◌≤◌, ◌<◌, ◌≡◌, ◌↔◌, refl, sym, ap, ◌∙◌, Bool, true, false, [], ◌∷◌, ◌++◌,
  Bytes, length, take, drop, done, Returns, Returns-mono, ltb, leb, ◌==◌, arith, inl, inr,
  Bool-cases, ==_iff, leb→le, leb→gt, ltb→lt, ltb→ge, take-append-drop, take-take, drop-take,
  length-take, length-drop, length-append, take-append_left, take-all, append-nil, subst,
  drop-append_right, le→leb,
}
use native.Mathlib.Nat.{sub-zero}
use libxio.BufferRef.{BufferRef, text, mem_eq, begins, ends, equals}
use libxio.BufferRef.Inv.{IsView}
use libxio.BufferRef.Compare.{hash, copy, str, fnv_loop, equals_text}

-- `memcmp` over bytes that both arrays have.
pub mem_eq_lem :
    (m q : Bytes) (n : ℕ)
    → n ≤ length m
    → n ≤ length q
    → Returns (λ r. (r ≡ true) ↔ (take n m ≡ take n q)) (mem_eq m q n)
unfolding mem_eq
mem_eq_lem m q zero h h' = ((λ _. refl), λ _. refl)
mem_eq_lem [] q (suc n) h h' = absurd (omega arith)
mem_eq_lem (x ∷ m) [] (suc n) h h' = absurd (omega arith)
mem_eq_lem (x ∷ m) (y ∷ q) (suc n) h h' = elim (Bool-cases (x == y)) [
  | inl same ↦ rw same (
      Returns-mono (λ r. (r ≡ true) ↔ (take n m ≡ take n q))
        (λ r. (r ≡ true) ↔ (x ∷ take n m ≡ y ∷ take n q)) (mem_eq m q n)
        (mem_eq_lem m q n (omega arith) (omega arith))
        λ r f. ((λ e. cons ((==_iff x y).0 same) (f.0 e)), λ e. f.1 (tail e)))
  | inr other ↦ rw other ((λ e. cc), λ e. absurd (clash other ((==_iff x y).1 (head e))))
]
  where
    cons : {a b : ℕ} {s t : Bytes} → a ≡ b → s ≡ t → a ∷ s ≡ b ∷ t
    cons p r = cc

    tail : {a b : ℕ} {s t : Bytes} → a ∷ s ≡ b ∷ t → s ≡ t
    tail e = cc

    head : {a b : ℕ} {s t : Bytes} → a ∷ s ≡ b ∷ t → a ≡ b
    head e = cc

    clash : {b : Bool} → b ≡ false → b ≡ true → ⊥
    clash p r = cc

pub length-text : (v : BufferRef) → IsView v → length (text v) ≡ v.size
length-text v i = omega (arith, i.within, length-take {A = ℕ} v.size v.mem)

-- A list begins with another one.
abbrev pub Begins : Bytes → Bytes → Type 0
Begins s t = (r : Bytes) × (s ≡ t ++ r)

-- A list ends with another one.
abbrev pub Ends : Bytes → Bytes → Type 0
Ends s t = (r : Bytes) × (s ≡ r ++ t)

abbrev Decides : Type 0 → Bool → Type 0
Decides P r = (r ≡ true) ↔ P

false-Decides : (P : Type 0) → ¬ P → Decides P false
false-Decides P n = ((λ e. cc), λ p. absurd (n p))

-- `begins(const BufferRef&)` commits no fault and returns whether the text begins with the other one.
pub begins-Begins :
    (v w : BufferRef)
    → IsView v
    → IsView w
    → Returns (λ r. (r ≡ true) ↔ Begins (text v) (text w)) (begins v w)
unfolding begins
begins-Begins v w i j = elim (Bool-cases (leb w.size v.size)) [
  | inl le ↦ rw le (
      Returns-mono (Decides (take w.size v.mem ≡ take w.size w.mem))
        (Decides (Begins (text v) (text w))) (mem_eq v.mem w.mem w.size)
        (mem_eq_lem v.mem w.mem w.size (omega (arith, i.within, leb→le _ _ le)) j.within)
        λ r f. ((λ e. there (leb→le _ _ le) (f.0 e)), λ b. f.1 (back (leb→le _ _ le) b)))
  | inr gt ↦ rw gt (false-Decides _ (λ b. short (leb→gt _ _ gt) b))
]
  where
    there : w.size ≤ v.size → take w.size v.mem ≡ take w.size w.mem → Begins (text v) (text w)
    there le e = (
      drop w.size (text v),
      sym (take-append-drop w.size (text v))
          ∙ ap (λ t. t ++ drop w.size (text v)) (take-take w.size v.size v.mem le ∙ e),
    )

    back : w.size ≤ v.size → Begins (text v) (text w) → take w.size v.mem ≡ take w.size w.mem
    back le (r, e) =
        sym (take-take w.size v.size v.mem le)
        ∙ ap (take w.size) e
        ∙ take-append_left w.size (text w) r (omega (arith, length-text w j))
        ∙ take-all w.size (text w) (omega (arith, length-text w j))

    short : v.size < w.size → ¬ Begins (text v) (text w)
    short lt (r, e) =
        omega (arith, ap length e, length-append {0} (text w) r, length-text v i, length-text w j)

-- `equals(a, b)` commits no fault and returns whether the texts are equal.
pub equals_lem :
    (v w : BufferRef)
    → IsView v
    → IsView w
    → Returns (λ r. (r ≡ true) ↔ (text v ≡ text w)) (equals v w)
unfolding equals
equals_lem v w i j = elim (Bool-cases (v.size == w.size)) [
  | inl e ↦ rw e (
      Returns-mono (Decides (take v.size v.mem ≡ take v.size w.mem)) (Decides (text v ≡ text w))
        (mem_eq v.mem w.mem v.size)
        (mem_eq_lem v.mem w.mem v.size i.within (omega (arith, j.within, (==_iff _ _).0 e)))
        λ r f. (
          (λ q. f.0 q ∙ ap (λ k. take k w.mem) ((==_iff _ _).0 e)),
          λ q. f.1 (q ∙ ap (λ k. take k w.mem) (sym ((==_iff _ _).0 e))),
        ))
  | inr n ↦ rw n (false-Decides _ (λ q. differ n q))
]
  where
    differ : (v.size == w.size) ≡ false → ¬ (text v ≡ text w)
    differ n q = clash n ((==_iff _ _).1 (sym (length-text v i) ∙ ap length q ∙ length-text w j))
      where
        clash : {b : Bool} → b ≡ false → b ≡ true → ⊥
        clash p r = cc

-- `equals` of a view and a text.
pub equals_text_lem :
    (v : BufferRef) (s : Bytes)
    → IsView v
    → Returns (λ r. (r ≡ true) ↔ (text v ≡ s)) (equals_text v s)
unfolding equals_text
equals_text_lem v s i = elim (Bool-cases (v.size == length s)) [
  | inl e ↦ rw e (
      Returns-mono (Decides (take (length s) v.mem ≡ take (length s) s)) (Decides (text v ≡ s))
        (mem_eq v.mem s (length s))
        (mem_eq_lem v.mem s (length s) (omega (arith, i.within, (==_iff _ _).0 e)) (omega arith))
        λ r f. (
          (λ q. left ((==_iff _ _).0 e) ∙ f.0 q ∙ right),
          λ q. f.1 (sym (left ((==_iff _ _).0 e)) ∙ q ∙ sym right),
        ))
  | inr n ↦
      rw n (false-Decides _ (λ q. clash n ((==_iff _ _).1 (sym (length-text v i) ∙ ap length q))))
]
  where
    left : v.size ≡ length s → text v ≡ take (length s) v.mem
    left e = ap (λ k. take k v.mem) e

    right : take (length s) s ≡ s
    right = take-all (length s) s (omega arith)

    clash : {b : Bool} → b ≡ false → b ≡ true → ⊥
    clash p r = cc

-- `ends(const BufferRef&)` commits no fault and returns whether the text ends with the other one.
pub ends-Ends :
    (v w : BufferRef)
    → IsView v
    → IsView w
    → Returns (λ r. (r ≡ true) ↔ Ends (text v) (text w)) (ends v w)
unfolding ends
ends-Ends v w i j = elim (Bool-cases (w.size == 0)) [
  | inl e ↦ rw e ((λ _. all ((==_iff _ _).0 e)), λ _. refl)
  | inr n ↦ rw n (elim (Bool-cases (ltb v.size w.size)) [
    | inl lt ↦ rw lt (false-Decides _ (λ b. short (ltb→lt _ _ lt) b))
    | inr le ↦ rw le (
        Returns-mono (Decides (take w.size (drop (v.size - w.size) v.mem) ≡ take w.size w.mem))
          (Decides (Ends (text v) (text w))) (mem_eq (drop (v.size - w.size) v.mem) w.mem w.size)
          (mem_eq_lem (drop (v.size - w.size) v.mem) w.mem w.size
            (omega (arith, length-drop {A = ℕ} (v.size - w.size) v.mem, i.within, ltb→ge _ _ le))
            j.within)
          λ r f. (
            (λ q. there (ltb→ge _ _ le) (f.0 q)),
            λ b. f.1 (sym (tail_of (ltb→ge _ _ le)) ∙ back (ltb→ge _ _ le) b),
          ))
  ])
]
  where
    all : w.size ≡ 0 → Ends (text v) (text w)
    all e =
        (text v, sym (append-nil (text v)) ∙ ap (λ t. text v ++ t) (ap (λ k. take k w.mem) (sym e)))

    short : v.size < w.size → ¬ Ends (text v) (text w)
    short lt (r, e) =
        omega (arith, ap length e, length-append {0} r (text w), length-text v i, length-text w j)

    tail_of :
        w.size ≤ v.size
        → drop (v.size - w.size) (text v) ≡ take w.size (drop (v.size - w.size) v.mem)
    tail_of le =
        drop-take (v.size - w.size) v.size v.mem
        ∙ ap (λ k. take k (drop (v.size - w.size) v.mem)) (omega arith)

    there :
        w.size ≤ v.size
        → take w.size (drop (v.size - w.size) v.mem) ≡ take w.size w.mem
        → Ends (text v) (text w)
    there le q = (
      take (v.size - w.size) (text v),
      sym (take-append-drop (v.size - w.size) (text v))
          ∙ ap (λ t. take (v.size - w.size) (text v) ++ t) (tail_of le ∙ q),
    )

    back : w.size ≤ v.size → Ends (text v) (text w) → drop (v.size - w.size) (text v) ≡ text w
    back le (r, e) =
        ap (drop (v.size - w.size)) e
        ∙ drop-append_right (v.size - w.size) r (text w) (omega (arith, lengths r e))
        ∙ ap (λ k. drop k (text w)) (gap r (lengths r e))
      where
        lengths : (r : Bytes) → text v ≡ r ++ text w → v.size ≡ length r + w.size
        lengths r e =
            omega
              (arith, ap length e, length-append {0} r (text w), length-text v i, length-text w j)

        gap : (r : Bytes) → v.size ≡ length r + w.size → v.size - w.size - length r ≡ 0
        gap r h = omega arith

-- `str()` commits no fault and copies the text.
pub str_lem : (v : BufferRef) → IsView v → str v ≡ done (text v)
unfolding str copy
str_lem v i =
    rw (le→leb 0 v.size (omega arith), sub-zero v.size, le→leb v.size (length v.mem) i.within) refl

-- Views that `equals` calls equal have the same hash and the same copies.
pub hash-equals :
    (v w : BufferRef)
    → IsView v
    → IsView w
    → equals v w ≡ done true
    → (hash v ≡ hash w) × (str v ≡ str w)
unfolding hash
hash-equals v w i j h =
    (ap (λ t. fnv_loop t 2166136261) same, str_lem v i ∙ ap done same ∙ sym (str_lem w j))
  where
    same : text v ≡ text w
    same = (subst (Returns (λ r. (r ≡ true) ↔ (text v ≡ text w))) h (equals_lem v w i j)).0 refl
