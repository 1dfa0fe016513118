-- ===== src/Buffer/Dump/Laid.antt =====
-- The lines of a dump, and that they fit into the array.
use libxio.Base.{
  ℕ, zero, suc, ◌+◌, ◌*◌, ◌/◌, ◌%◌, ◌≤◌, ◌≡◌, refl, subst, sym, ap, ◌∙◌, [], ◌∷◌, ◌++◌,
  append_assoc, Bytes, length, length-append, done, ◌>>=◌, Returns, Returns-bind, Returns-mono,
  arith,
}
use libxio.Buffer.Dump.{put, push, push_three, hex_char}

-- The array holds two frames, `hex` before the index `u` and `plain` from 54 to the index `v`.
pub record Framed (hex plain : Bytes) (u v : ℕ) (line : Bytes) : Type 0 where
  pub between : Bytes
  pub rest : Bytes
  pub cells : line ≡ hex ++ (between ++ (plain ++ rest))
  pub at_hex : u ≡ length hex
  pub at_plain : v ≡ 54 + length plain
  pub gap : length hex + length between ≡ 54
  pub left : length plain + length rest ≡ 17

put_at : (a : Bytes) (x c : ℕ) (b : Bytes) → put (length a) c (a ++ (x ∷ b)) ≡ done (a ++ (c ∷ b))
unfolding put
put_at [] x c b = refl
put_at (y ∷ a) x c b = rw (put_at a x c b)

push-hex :
    (hex plain : Bytes) (u v c : ℕ) (line : Bytes)
    → Framed hex plain u v line
    → suc (length hex) ≤ 54
    → Returns (λ (u', line'). Framed (hex ++ (c ∷ [])) plain u' v line') (push u c line)
unfolding push
push-hex hex plain u v c line f room = at_cell f.between f.rest f.cells f.gap f.left
  where
    at_cell :
        (between rest : Bytes)
        → line ≡ hex ++ (between ++ (plain ++ rest))
        → length hex + length between ≡ 54
        → length plain + length rest ≡ 17
        → Returns
            (λ (u', line'). Framed (hex ++ (c ∷ [])) plain u' v line')
            (put u c line >>= λ line'. done (u + 1, line'))
    at_cell [] rest e g l = absurd (omega arith)
    at_cell (x ∷ between) rest e g l =
        rw (e, f.at_hex, put_at hex x c (between ++ (plain ++ rest)))
          (record {
            between = between;
            rest = rest;
            cells = sym (append_assoc hex (c ∷ []) (between ++ (plain ++ rest)));
            at_hex = omega (arith, length-append hex (c ∷ []));
            at_plain = f.at_plain;
            gap = omega (arith, length-append hex (c ∷ []));
            left = l;
          })

-- The cells before the plain frame's free ones.
regrouped :
    (hex between plain rest : Bytes)
    → hex ++ (between ++ (plain ++ rest)) ≡ (hex ++ (between ++ plain)) ++ rest
regrouped hex between plain rest =
    ap (λ t. hex ++ t) (sym (append_assoc between plain rest))
    ∙ sym (append_assoc hex (between ++ plain) rest)

pub put-plain :
    (hex plain : Bytes) (u v c : ℕ) (line : Bytes)
    → Framed hex plain u v line
    → length plain ≤ 16
    → Returns
        (λ line'.
          (between : Bytes) × (rest : Bytes) × (line' ≡ hex ++ (between ++ (plain ++ (c ∷ rest))))
          × (length hex + length between ≡ 54)
          × (length plain + length (c ∷ rest) ≡ 17))
        (put v c line)
put-plain hex plain u v c line f room = at_cell f.between f.rest f.cells f.gap f.left
  where
    at_cell :
        (between rest : Bytes)
        → line ≡ hex ++ (between ++ (plain ++ rest))
        → length hex + length between ≡ 54
        → length plain + length rest ≡ 17
        → Returns
            (λ line'.
              (between : Bytes) × (rest : Bytes) × (line'
                ≡ hex ++ (between ++ (plain ++ (c ∷ rest))))
              × (length hex + length between ≡ 54)
              × (length plain + length (c ∷ rest) ≡ 17))
            (put v c line)
    at_cell between [] e g l = absurd (omega arith)
    at_cell between (x ∷ rest) e g l =
        rw
          (
            e ∙ regrouped hex between plain (x ∷ rest),
            place,
            put_at (hex ++ (between ++ plain)) x c rest,
          )
          (between, rest, sym (regrouped hex between plain (c ∷ rest)), g, l)
      where
        place : v ≡ length (hex ++ (between ++ plain))
        place =
            omega
              (arith, f.at_plain, length-append hex (between ++ plain), length-append between plain)

pub push-plain :
    (hex plain : Bytes) (u v c : ℕ) (line : Bytes)
    → Framed hex plain u v line
    → length plain ≤ 15
    → Returns (λ (v', line'). Framed hex (plain ++ (c ∷ [])) u v' line') (push v c line)
unfolding push
push-plain hex plain u v c line f room =
    Returns-bind _ (λ (v', line'). Framed hex (plain ++ (c ∷ [])) u v' line') (put v c line) _
      (put-plain hex plain u v c line f (omega arith))
      λ line' (between, rest, e, g, l). record {
        between = between;
        rest = rest;
        cells = e ∙ ap (λ t. hex ++ (between ++ t)) (sym (append_assoc plain (c ∷ []) rest));
        at_hex = f.at_hex;
        at_plain = omega (arith, f.at_plain, length-append plain (c ∷ []));
        gap = g;
        left = omega (arith, l, length-append plain (c ∷ []));
      }

pub push_three-hex :
    (hex plain : Bytes) (u v a b c : ℕ) (line : Bytes)
    → Framed hex plain u v line
    → length hex + 3 ≤ 54
    → Returns
        (λ (u', line'). Framed (hex ++ (a ∷ b ∷ c ∷ [])) plain u' v line')
        (push_three u a b c line)
unfolding push_three
push_three-hex hex plain u v a b c line f room =
    Returns-bind (λ (u', line'). Framed (hex ++ (a ∷ [])) plain u' v line')
      (λ (u', line'). Framed (hex ++ (a ∷ b ∷ c ∷ [])) plain u' v line') (push u a line) _
      (push-hex hex plain u v a line f (omega arith))
      λ one f1.
        Returns-bind (λ (u', line'). Framed ((hex ++ (a ∷ [])) ++ (b ∷ [])) plain u' v line')
          (λ (u', line'). Framed (hex ++ (a ∷ b ∷ c ∷ [])) plain u' v line') (push one.0 b one.1) _
          (push-hex (hex ++ (a ∷ [])) plain one.0 v b one.1 f1
            (omega (arith, length-append hex (a ∷ []))))
          λ two f2.
            Returns-mono
              (λ (u', line'). Framed (((hex ++ (a ∷ [])) ++ (b ∷ [])) ++ (c ∷ [])) plain u' v line')
              (λ (u', line'). Framed (hex ++ (a ∷ b ∷ c ∷ [])) plain u' v line')
              (push two.0 c two.1)
              (push-hex ((hex ++ (a ∷ [])) ++ (b ∷ [])) plain two.0 v c two.1 f2 (
                omega
                  (arith, length-append (hex ++ (a ∷ [])) (b ∷ []), length-append hex (a ∷ []))))
              λ three f3. subst (λ t. Framed t plain three.0 v three.1) joined f3
  where
    joined : ((hex ++ (a ∷ [])) ++ (b ∷ [])) ++ (c ∷ []) ≡ hex ++ (a ∷ b ∷ c ∷ [])
    joined =
        append_assoc (hex ++ (a ∷ [])) (b ∷ []) (c ∷ []) ∙ append_assoc hex (a ∷ []) (b ∷ c ∷ [])

-- The hex frame of a block: each byte's digits and a space, and spaces in the places behind.
abbrev pub columns : (places : ℕ) → Bytes → Bytes
columns zero xs = []
columns (suc n) [] = 32 ∷ 32 ∷ 32 ∷ columns n []
columns (suc n) (x ∷ xs) = hex_char (x / 16 % 16) ∷ hex_char (x % 16) ∷ 32 ∷ columns n xs

pub length-columns : (n : ℕ) (xs : Bytes) → length (columns n xs) ≡ n * 3
length-columns zero xs = refl
length-columns (suc n) [] = omega (arith, length-columns n [])
length-columns (suc n) (x ∷ xs) = omega (arith, length-columns n xs)
