-- ===== src/BufferRef/Compare/Cased.antt =====
-- What `iequals` and `toBool` say of the bytes of a view.
use libxio.Base.{
  ℕ, zero, suc, ◌≤◌, ◌≡◌, ◌≢◌, ◌⊎◌, ◌↔◌, refl, sym, ap, ◌∙◌, Bool, true, false, [], ◌∷◌, Bytes,
  length, take, map, done, Returns, Returns-mono, Returns-bind, ◌==◌, if◌then◌else◌, ne→==, arith,
  inl, inr, Bool-cases, ==_iff, length-map, take-all,
}
use libxio.Text.{codes, Lacks}
use libxio.BufferRef.{BufferRef, text}
use libxio.BufferRef.Inv.{IsView}
use libxio.BufferRef.Compare.{to_lower, case_eq, iequals, iequals_text, equals_text, to_bool}
use libxio.BufferRef.Compare.Tested.{length-text, equals_text_lem}

-- The bytes in front of the first NUL.
abbrev pub up_to_nul : Bytes → Bytes
up_to_nul [] = []
up_to_nul (x ∷ s) = let rest = x ∷ up_to_nul s in if x == 0 then [] else rest

-- The bytes in front of the first NUL, in lower case.
abbrev pub folded : Bytes → Bytes
folded s = map to_lower (up_to_nul s)

lower_nul : (x : ℕ) → x ≡ 0 → to_lower x ≡ 0
unfolding to_lower
lower_nul x h = ground arith

lower_other : (x : ℕ) → x ≢ 0 → to_lower x ≢ 0
unfolding to_lower
lower_other x h e = ground arith

-- `strncasecmp` over bytes that both arrays have.
pub case_eq_lem :
    (m q : Bytes) (n : ℕ)
    → n ≤ length m
    → n ≤ length q
    → Returns (λ r. (r ≡ true) ↔ (folded (take n m) ≡ folded (take n q))) (case_eq m q n)
unfolding case_eq
case_eq_lem m q zero h h' = ((λ _. refl), λ _. refl)
case_eq_lem [] q (suc n) h h' = absurd (omega arith)
case_eq_lem (x ∷ m) [] (suc n) h h' = absurd (omega arith)
case_eq_lem (x ∷ m) (y ∷ q) (suc n) h h' = elim (Bool-cases (x == 0)) [
  | inl ex ↦ elim (Bool-cases (y == 0)) [
    | inl ey ↦ rw (ex, ey, lower_eq (both ex ey)) ((λ _. refl), λ _. refl)
    | inr ny ↦
        rw (ex, ny, lower_ne (λ e. other y ny (sym e ∙ nul x ex))) ((λ e. cc), λ e. absurd (cc))
  ]
  | inr nx ↦ elim (Bool-cases (y == 0)) [
    | inl ey ↦ rw (nx, ey, lower_ne (λ e. other x nx (e ∙ nul y ey))) ((λ e. cc), λ e. absurd (cc))
    | inr ny ↦ elim (Bool-cases (to_lower x == to_lower y)) [
      | inl e ↦
          rw (nx, ny, e)
            (Returns-mono (λ r. (r ≡ true) ↔ (folded (take n m) ≡ folded (take n q)))
              (λ r. (r ≡ true) ↔ (to_lower x ∷ folded (take n m) ≡ to_lower y ∷ folded (take n q)))
              (case_eq m q n) (case_eq_lem m q n (omega arith) (omega arith))
              λ r f. ((λ t. cons ((==_iff _ _).0 e) (f.0 t)), λ t. f.1 (tail t)))
      | inr ne ↦ rw (nx, ny, ne) ((λ e. cc), λ e. absurd (clash ne ((==_iff _ _).1 (head e))))
    ]
  ]
]
  where
    clash : {b : Bool} → b ≡ false → b ≡ true → ⊥
    clash p r = cc

    lower_eq : to_lower x ≡ to_lower y → (to_lower x == to_lower y) ≡ true
    lower_eq = (==_iff _ _).1

    lower_ne : to_lower x ≢ to_lower y → (to_lower x == to_lower y) ≡ false
    lower_ne = ne→== _ _

    both : (x == 0) ≡ true → (y == 0) ≡ true → to_lower x ≡ to_lower y
    both ex ey = ap to_lower ((==_iff _ _).0 ex ∙ sym ((==_iff _ _).0 ey))

    nul : (z : ℕ) → (z == 0) ≡ true → to_lower z ≡ 0
    nul z e = lower_nul z ((==_iff _ _).0 e)

    other : (z : ℕ) → (z == 0) ≡ false → to_lower z ≢ 0
    other z n = lower_other z (λ e. clash n ((==_iff _ _).1 e))

    cons : {a b : ℕ} {s t : Bytes} → a ≡ b → s ≡ t → a ∷ s ≡ b ∷ t
    cons p r = cc

    tail : {a b : ℕ} {s t : Bytes} → a ∷ s ≡ b ∷ t → s ≡ t
    tail e = cc

    head : {a b : ℕ} {s t : Bytes} → a ∷ s ≡ b ∷ t → a ≡ b
    head e = cc

-- `iequals` of a view and a text commits no fault; it returns whether they are of one length and
-- equal, without regard to case, up to the first NUL.
pub iequals_text_lem :
    (v : BufferRef) (s : Bytes)
    → IsView v
    → Returns
        (λ r. (r ≡ true) ↔ ((v.size ≡ length s) × (folded (text v) ≡ folded s)))
        (iequals_text v s)
unfolding iequals_text
iequals_text_lem v s i = elim (Bool-cases (v.size == length s)) [
  | inl e ↦ rw e (
      Returns-mono (λ r. (r ≡ true) ↔ (folded (take (length s) v.mem) ≡ folded (take (length s) s)))
        (λ r. (r ≡ true) ↔ ((v.size ≡ length s) × (folded (text v) ≡ folded s)))
        (case_eq v.mem s (length s))
        (case_eq_lem v.mem s (length s) (omega (arith, i.within, (==_iff _ _).0 e)) (omega arith))
        λ r f. (
          (λ t. ((==_iff _ _).0 e, left ((==_iff _ _).0 e) ∙ f.0 t ∙ right)),
          λ t. f.1 (sym (left ((==_iff _ _).0 e)) ∙ t.1 ∙ sym right),
        ))
  | inr n ↦ rw n ((λ e. cc), λ t. absurd (clash n ((==_iff _ _).1 t.0)))
]
  where
    left : v.size ≡ length s → folded (text v) ≡ folded (take (length s) v.mem)
    left e = ap (λ k. folded (take k v.mem)) e

    right : folded (take (length s) s) ≡ folded s
    right = ap folded (take-all (length s) s (omega arith))

    clash : {b : Bool} → b ≡ false → b ≡ true → ⊥
    clash p r = cc

-- `iequals` of two views.
pub iequals_lem :
    (v w : BufferRef)
    → IsView v
    → IsView w
    → Returns
        (λ r. (r ≡ true) ↔ ((v.size ≡ w.size) × (folded (text v) ≡ folded (text w))))
        (iequals v w)
unfolding iequals
iequals_lem v w i j = elim (Bool-cases (v.size == w.size)) [
  | inl e ↦ rw e (
      Returns-mono (λ r. (r ≡ true) ↔ (folded (text v) ≡ folded (take v.size w.mem)))
        (λ r. (r ≡ true) ↔ ((v.size ≡ w.size) × (folded (text v) ≡ folded (text w))))
        (case_eq v.mem w.mem v.size)
        (case_eq_lem v.mem w.mem v.size i.within (omega (arith, j.within, (==_iff _ _).0 e)))
        λ r f. (
          (λ t. ((==_iff _ _).0 e, f.0 t ∙ same ((==_iff _ _).0 e))),
          λ t. f.1 (t.1 ∙ sym (same ((==_iff _ _).0 e))),
        ))
  | inr n ↦ rw n ((λ e. cc), λ t. absurd (clash n ((==_iff _ _).1 t.0)))
]
  where
    same : v.size ≡ w.size → folded (take v.size w.mem) ≡ folded (text w)
    same e = ap (λ k. folded (take k w.mem)) e

    clash : {b : Bool} → b ≡ false → b ≡ true → ⊥
    clash p r = cc

-- Text without a NUL is folded whole.
folded-full : (s : Bytes) → length s ≡ length (folded s) → folded s ≡ map to_lower s
folded-full [] h = refl
folded-full (x ∷ s) h = elim (Bool-cases (x == 0)) [
  | inl e ↦ absurd (stop e h)
  | inr n ↦ rw n (ap (λ t. to_lower x ∷ t) (folded-full s (rest n h)))
]
  where
    stop : (x == 0) ≡ true → ¬ (suc (length s) ≡ length (folded (x ∷ s)))
    stop e = rw e (λ q. omega arith)

    rest :
        (x == 0) ≡ false → suc (length s) ≡ length (folded (x ∷ s)) → length s ≡ length (folded s)
    rest n = rw n (λ q. omega arith)

folded-Lacks : (s : Bytes) → Lacks 0 (map to_lower s) → folded s ≡ map to_lower s
folded-Lacks [] h = refl
folded-Lacks (x ∷ s) h = elim (Bool-cases (x == 0)) [
  | inl e ↦ absurd (h.0 (lower_nul x ((==_iff _ _).0 e)))
  | inr n ↦ rw n (ap (λ t. to_lower x ∷ t) (folded-Lacks s h.1))
]

true_folded : folded (codes "true") ≡ codes "true"
unfolding to_lower
true_folded = refl

folded_true :
    (s : Bytes) → ((length s ≡ 4) × (folded s ≡ codes "true")) ↔ (map to_lower s ≡ codes "true")
folded_true s = (
  (λ h. sym (folded-full s (h.0 ∙ sym (ap length h.1))) ∙ h.1),
  λ h. (sym (length-map s to_lower) ∙ ap length h, folded-Lacks s (no_nul h) ∙ h),
)
  where
    no_nul : map to_lower s ≡ codes "true" → Lacks 0 (map to_lower s)
    no_nul h =
        rw h
          ((λ e. omega arith), ((λ e. omega arith), ((λ e. omega arith), ((λ e. omega arith), tt))))

-- `toBool` commits no fault; it returns whether the text is `true`, without regard to case, or `1`.
pub to_bool_lem :
    (v : BufferRef)
    → IsView v
    → Returns
        (λ r. (r ≡ true) ↔ ((map to_lower (text v) ≡ codes "true") ⊎ (text v ≡ codes "1")))
        (to_bool v)
unfolding to_bool
to_bool_lem v i =
    Returns-bind (λ r. (r ≡ true) ↔ (map to_lower (text v) ≡ codes "true"))
      (λ r. (r ≡ true) ↔ ((map to_lower (text v) ≡ codes "true") ⊎ (text v ≡ codes "1")))
      (iequals_text v (codes "true")) _
      (Returns-mono
        (λ r.
          (r ≡ true)
          ↔ ((v.size ≡ length (codes "true")) × (folded (text v) ≡ folded (codes "true"))))
        (λ r. (r ≡ true) ↔ (map to_lower (text v) ≡ codes "true")) (iequals_text v (codes "true"))
        (iequals_text_lem v (codes "true") i)
        λ r f. (
          (λ e. (folded_true (text v)).0 (length-text v i ∙ (f.0 e).0, (f.0 e).1 ∙ true_folded)),
          λ e. f.1 (back e),
        ))
      second
  where
    back :
        map to_lower (text v) ≡ codes "true"
        → (v.size ≡ 4) × (folded (text v) ≡ folded (codes "true"))
    back e =
        let h = (folded_true (text v)).1 e in (sym (length-text v i) ∙ h.0, h.1 ∙ sym true_folded)

    second :
        (a : Bool)
        → (a ≡ true) ↔ (map to_lower (text v) ≡ codes "true")
        → Returns
            (λ r. (r ≡ true) ↔ ((map to_lower (text v) ≡ codes "true") ⊎ (text v ≡ codes "1")))
            (if a then done true else equals_text v (codes "1"))
    second true h = ((λ _. inl (h.0 refl)), λ _. refl)
    second false h =
        Returns-mono (λ r. (r ≡ true) ↔ (text v ≡ codes "1"))
          (λ r. (r ≡ true) ↔ ((map to_lower (text v) ≡ codes "true") ⊎ (text v ≡ codes "1")))
          (equals_text v (codes "1")) (equals_text_lem v (codes "1") i)
          λ r f. ((λ e. inr (f.0 e)), λ o. f.1 (only_one o))
      where
        clash : false ≡ true → text v ≡ codes "1"
        clash e = cc

        only_one :
            (map to_lower (text v) ≡ codes "true") ⊎ (text v ≡ codes "1") → text v ≡ codes "1"
        only_one (inl t) = clash (h.1 t)
        only_one (inr o) = o
