-- ===== src/Text/Words.antt =====
-- `strcmp` as a test, and the words that successive calls of `strtok_r` return, with what they are of
-- a text that was joined of words.
use libxio.Base.{
  ℕ, ◌≡◌, ◌≢◌, refl, ap, ap₂, ◌∙◌, Bool, true, false, List, [], ◌∷◌, ◌++◌, Bytes, ◌==◌,
  if◌then◌else◌, ne→==, eq→==, ==_iff, Bool-cases, inl, inr,
}

-- `strcmp(a, b) == 0`.
unfoldable pub same : Bytes → Bytes → Bool
same [] [] = true
same [] (y ∷ t) = false
same (x ∷ s) [] = false
same (x ∷ s) (y ∷ t) = if x == y then same s t else false

pub same_refl : (s : Bytes) → same s s ≡ true
unfolding same
same_refl [] = refl
same_refl (x ∷ s) = rw (eq→== x x refl) (same_refl s)

pub same_sound : (s t : Bytes) → same s t ≡ true → s ≡ t
unfolding same
same_sound [] [] h = refl
same_sound [] (y ∷ t) h = absurd (cc)
same_sound (x ∷ s) [] h = absurd (cc)
same_sound (x ∷ s) (y ∷ t) h = elim (Bool-cases (x == y)) [
  | inl e ↦ ap₂ (λ a r. a ∷ r) ((==_iff x y).0 e) (same_sound s t (rest (x == y) (same s t) e h))
  | inr n ↦ absurd (none_left (x == y) (same s t) n h)
]
  where
    rest : (b c : Bool) → b ≡ true → (if b then c else false) ≡ true → c ≡ true
    rest true c e q = q
    rest false c e q = absurd (cc)

    none_left : (b c : Bool) → b ≡ false → (if b then c else false) ≡ true → ⊥
    none_left true c e q = absurd (cc)
    none_left false c e q = absurd (cc)

-- A word in front of words; an empty one does not count.
abbrev add : Bytes × List Bytes → List Bytes
add ([], ws) = ws
add (c ∷ w, ws) = (c ∷ w) ∷ ws

-- The bytes up to a separator, and the words behind it.
unfoldable pub split : ℕ → Bytes → Bytes × List Bytes
split sep [] = ([], [])
split sep (c ∷ s) = let r = split sep s in if c == sep then ([], add r) else (c ∷ r.0, r.1)

-- All that `strtok_r(s, sep, &save)` and then `strtok_r(nullptr, sep, &save)` return, up to null.
unfoldable pub tokens : ℕ → Bytes → List Bytes
unfolding split
tokens sep s = add (split sep s)

-- A byte does not occur.
abbrev pub Lacks : ℕ → Bytes → Type 0
Lacks sep [] = Unit
Lacks sep (c ∷ s) = (c ≢ sep) × Lacks sep s

pub Lacks-append : (sep : ℕ) (s t : Bytes) → Lacks sep s → Lacks sep t → Lacks sep (s ++ t)
Lacks-append sep [] t hs ht = ht
Lacks-append sep (c ∷ s) t hs ht = (hs.0, Lacks-append sep s t hs.1 ht)

split-word : (sep : ℕ) (w : Bytes) → Lacks sep w → split sep w ≡ (w, [])
unfolding split
split-word sep [] h = refl
split-word sep (c ∷ w) h = rw (ne→== c sep h.0, split-word sep w h.1) refl

split-append :
    (sep : ℕ) (w s : Bytes) → Lacks sep w → split sep (w ++ (sep ∷ s)) ≡ (w, tokens sep s)
unfolding split tokens
split-append sep [] s h = rw (eq→== sep sep refl) refl
split-append sep (c ∷ w) s h = rw (ne→== c sep h.0, split-append sep w s h.1) refl

-- A word that is not empty and has no separator.
abbrev pub Word : ℕ → Bytes → Type 0
Word sep [] = ⊥
Word sep (c ∷ w) = Lacks sep (c ∷ w)

pub Word-Lacks : (sep : ℕ) (w : Bytes) → Word sep w → Lacks sep w
Word-Lacks sep [] h = absurd h
Word-Lacks sep (c ∷ w) h = h

pub tokens-word : (sep : ℕ) (w : Bytes) → Word sep w → tokens sep w ≡ w ∷ []
unfolding tokens
tokens-word sep [] h = absurd h
tokens-word sep (c ∷ w) h = ap add (split-word sep (c ∷ w) h)

pub tokens-append :
    (sep : ℕ) (w s : Bytes) → Word sep w → tokens sep (w ++ (sep ∷ s)) ≡ w ∷ tokens sep s
unfolding tokens
tokens-append sep [] s h = absurd h
tokens-append sep (c ∷ w) s h = ap add (split-append sep (c ∷ w) s h)

-- Words with separators between them.
abbrev pub join : ℕ → List Bytes → Bytes
join sep [] = []
join sep (w ∷ []) = w
join sep (w ∷ (v ∷ ws)) = w ++ (sep ∷ join sep (v ∷ ws))

abbrev pub AllWord : ℕ → List Bytes → Type 0
AllWord sep [] = Unit
AllWord sep (w ∷ ws) = Word sep w × AllWord sep ws

pub tokens-join : (sep : ℕ) (ws : List Bytes) → AllWord sep ws → tokens sep (join sep ws) ≡ ws
unfolding tokens
tokens-join sep [] h = refl
tokens-join sep (w ∷ []) h = tokens-word sep w h.0
tokens-join sep (w ∷ (v ∷ ws)) h =
    tokens-append sep w (join sep (v ∷ ws)) h.0 ∙ ap (λ r. w ∷ r) (tokens-join sep (v ∷ ws) h.1)
