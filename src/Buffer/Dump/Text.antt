-- ===== src/Buffer/Dump/Text.antt =====
-- Texts that a line is made of have no NUL in them, so that they are printed whole.
use libxio.Base.{
  ℕ, zero, suc, ◌+◌, ◌/◌, ◌%◌, ◌≡◌, ◌≢◌, refl, sym, ap, ◌∙◌, [], ◌∷◌, ◌++◌, Bytes, take, drop,
  take-nil, done, ne→==, arith,
}
use libxio.Buffer.Dump.{hex_char, printed}
use libxio.Buffer.Dump.Laid.{columns}

pub take_plus : (m n : ℕ) (xs : Bytes) → take m xs ++ take n (drop m xs) ≡ take (m + n) xs
take_plus zero n xs = ap (λ k. take k xs) (omega arith)
take_plus (suc m) n [] = take-nil n ∙ sym (take-nil (suc m + n))
take_plus (suc m) n (x ∷ xs) = ap (λ t. x ∷ t) (take_plus m n xs) ∙ ap (λ k. take k (x ∷ xs)) next
  where
    next : suc (m + n) ≡ suc m + n
    next = omega arith

-- Three spaces.
abbrev pub separator : Bytes
separator = 32 ∷ 32 ∷ 32 ∷ []

abbrev pub NoNul : Bytes → Type 0
NoNul [] = Unit
NoNul (x ∷ xs) = (x ≢ 0) × NoNul xs

pub NoNul-append : (s t : Bytes) → NoNul s → NoNul t → NoNul (s ++ t)
NoNul-append [] t h k = k
NoNul-append (x ∷ s) t (n, h) k = (n, NoNul-append s t h k)

hex_char-nonzero : (n : ℕ) → hex_char n ≢ 0
hex_char-nonzero n = ground arith

pub columns-NoNul : (n : ℕ) (xs : Bytes) → NoNul (columns n xs)
columns-NoNul zero xs = tt
columns-NoNul (suc n) [] = (omega arith, (omega arith, (omega arith, columns-NoNul n [])))
columns-NoNul (suc n) (x ∷ xs) =
    (hex_char-nonzero (x / 16 % 16), (hex_char-nonzero (x % 16), (omega arith, columns-NoNul n xs)))

pub printed-text : (s t : Bytes) → NoNul s → printed (s ++ (0 ∷ t)) ≡ done s
unfolding printed
printed-text [] t h = refl
printed-text (x ∷ s) t (n, h) = rw (ne→== x 0 n, printed-text s t h)
