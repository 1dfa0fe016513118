-- ===== src/Buffer/Dump/Lines.antt =====
-- What a dump prints, line by line.
use mathlib.Core.List.{map-append}
use libxio.Base.{
  ℕ, zero, suc, ◌+◌, ◌*◌, ◌/◌, ◌%◌, ◌≤◌, ◌≡◌, ◌≢◌, refl, subst, sym, ap, ◌∙◌, Bool, true, false,
  Bool-cases, inl, inr, List, [], ◌∷◌, ◌++◌, append-nil, append_assoc, map, Bytes, length, take,
  drop, length-append, Run, length-drop, take-nil, drop-nil, length-map, length-take, drop-drop,
  take-append-drop, length-zero, ◌>>=◌, Returns, Returns-bind, Returns-mono, arith,
}
use libxio.Buffer.Dump.{
  put, push, push_three, hex_char, heading, plain_char, block, blocks, dump_line, dump_lines, dump,
}
use libxio.Buffer.Dump.Laid.{Framed, put-plain, push-plain, push_three-hex, columns, length-columns}
use libxio.Buffer.Dump.Text.{take_plus, separator, NoNul, NoNul-append, columns-NoNul, printed-text}

module _ (is_print : ℕ → Bool) where
  -- The plain frame of some bytes.
  abbrev pub plain_text : Bytes → Bytes
  plain_text xs = map (plain_char is_print) xs

  block-Framed :
      (left : ℕ) (hex plain xs : Bytes) (u v : ℕ) (line : Bytes)
      → Framed hex plain u v line
      → length hex + left * 3 ≤ 54
      → length plain + left ≤ 16
      → Returns
          (λ (u', v', rest, line').
            (rest ≡ drop left xs)
            × Framed (hex ++ columns left xs) (plain ++ plain_text (take left xs)) u' v' line')
          (block is_print left u v xs line)
  unfolding block
  block-Framed zero hex plain xs u v line f hr pr = (
    refl,
    subst (λ h. Framed h (plain ++ []) u v line) (sym (append-nil hex))
        (subst (λ p. Framed hex p u v line) (sym (append-nil plain)) f),
  )
  block-Framed (suc left) hex plain [] u v line f hr pr =
      Returns-bind (λ (u', line'). Framed (hex ++ separator) plain u' v line') _
        (push_three u 32 32 32 line) _ (push_three-hex hex plain u v 32 32 32 line f (omega arith))
        λ (u', line') f1.
          Returns-mono _ _ (block is_print left u' v [] line')
            (block-Framed left (hex ++ separator) plain [] u' v line' f1
              (omega (arith, length-append hex separator)) (omega arith))
            λ (u'', v'', rest, line'') (r, g). (
              r ∙ drop-nil left,
              subst (λ h. Framed h (plain ++ []) u'' v'' line'')
                  (append_assoc hex separator (columns left []))
                  (subst
                    (λ t.
                      Framed ((hex ++ separator) ++ columns left []) (plain ++ plain_text t) u'' v''
                        line'')
                    (take-nil left) g),
            )
  block-Framed (suc left) hex plain (x ∷ xs) u v line f hr pr =
      Returns-bind (λ (u', line'). Framed (hex ++ cell) plain u' v line') _
        (push_three u (hex_char (x / 16 % 16)) (hex_char (x % 16)) 32 line) _
        (push_three-hex hex plain u v (hex_char (x / 16 % 16)) (hex_char (x % 16)) 32 line f
          (omega arith))
        λ (u', line1) f1.
          Returns-bind (λ (v', line'). Framed (hex ++ cell) (plain ++ shown) u' v' line') _
            (push v (plain_char is_print x) line1) _
            (push-plain (hex ++ cell) plain u' v (plain_char is_print x) line1 f1 (omega arith))
            λ (v', line2) f2.
              Returns-mono _ _ (block is_print left u' v' xs line2)
                (block-Framed left (hex ++ cell) (plain ++ shown) xs u' v' line2 f2
                  (omega (arith, length-append hex cell))
                  (omega (arith, length-append plain shown)))
                λ (u'', v'', rest, line'') (r, g). (
                  r,
                  subst (λ h. Framed h (plain ++ plain_text (x ∷ take left xs)) u'' v'' line'')
                      (append_assoc hex cell (columns left xs))
                      (subst (λ p. Framed ((hex ++ cell) ++ columns left xs) p u'' v'' line'')
                        (append_assoc plain shown (plain_text (take left xs))) g),
                )
    where
      cell : Bytes
      cell = hex_char (x / 16 % 16) ∷ hex_char (x % 16) ∷ 32 ∷ []

      shown : Bytes
      shown = plain_char is_print x ∷ []

  -- One round of the loop over blocks, and what goes on from there.
  block-then :
      {B : Type 0} (Q : B → Type 0) (next : ℕ → ℕ → Bytes → Bytes → Run B) (hex plain xs : Bytes)
      (u v : ℕ) (line : Bytes)
      → Framed hex plain u v line
      → length hex + 27 ≤ 54
      → length plain + 8 ≤ 16
      → ((u' v' : ℕ) (line' : Bytes)
          → Framed
              (hex ++ (columns 8 xs ++ separator))
              (plain ++ plain_text (take 8 xs))
              u'
              v'
              line'
          → Returns Q (next u' v' (drop 8 xs) line'))
      → Returns Q (
          block is_print 8 u v xs line >>= λ (u', v', rest, line1).
          push_three u' 32 32 32 line1 >>= λ (u'', line2). next u'' v' rest line2)
  block-then Q next hex plain xs u v line f hr pr goal =
      Returns-bind _ Q (block is_print 8 u v xs line) _
        (block-Framed 8 hex plain xs u v line f (omega arith) pr)
        λ (u', v', rest, line1) (r, g).
          Returns-bind
            (λ (u'', line2).
              Framed ((hex ++ columns 8 xs) ++ separator) (plain ++ plain_text (take 8 xs)) u'' v'
                line2)
            Q (push_three u' 32 32 32 line1) _
            (push_three-hex (hex ++ columns 8 xs) (plain ++ plain_text (take 8 xs)) u' v' 32 32 32
              line1 g (omega (arith, length-append hex (columns 8 xs), length-columns 8 xs)))
            λ (u'', line2) k.
              subst (λ t. Returns Q (next u'' v' t line2)) (sym r)
                (goal u'' v' line2 (
                  subst (λ h. Framed h (plain ++ plain_text (take 8 xs)) u'' v' line2)
                    (append_assoc hex (columns 8 xs) separator) k))

  -- The two frames that both blocks fill.
  abbrev hex_frame : Bytes → Bytes
  hex_frame xs = columns 8 xs ++ (separator ++ (columns 8 (drop 8 xs) ++ separator))

  length-hex_frame : (xs : Bytes) → length (hex_frame xs) ≡ 54
  length-hex_frame xs = omega (
    arith,
    length-append (columns 8 xs) (separator ++ (columns 8 (drop 8 xs) ++ separator)),
    length-append (columns 8 (drop 8 xs)) separator,
    length-columns 8 xs,
    length-columns 8 (drop 8 xs),
  )

  plain_halves :
      (xs : Bytes)
      → plain_text (take 8 xs) ++ plain_text (take 8 (drop 8 xs)) ≡ plain_text (take 16 xs)
  plain_halves xs =
      sym (map-append (plain_char is_print) (take 8 xs) (take 8 (drop 8 xs)))
      ∙ ap plain_text (take_plus 8 8 xs)

  both_blocks :
      (xs line : Bytes)
      → length line ≡ 71
      → Returns
          (λ (v', rest, line').
            (rest ≡ drop 16 xs)
            × ((u' : ℕ) × Framed (hex_frame xs) (plain_text (take 16 xs)) u' v' line'))
          (blocks is_print 2 0 54 xs line)
  unfolding blocks
  both_blocks xs line len =
      block-then _ _ [] [] xs 0 54 line start (omega arith) (omega arith) λ u1 v1 line1 f1.
        block-then _ _ (columns 8 xs ++ separator) (plain_text (take 8 xs)) (drop 8 xs) u1 v1 line1
          f1 (omega (arith, length-append (columns 8 xs) separator, length-columns 8 xs))
          (omega (arith, length-map (take 8 xs) (plain_char is_print), length-take 8 xs))
          λ u2 v2 line2 f2. (
            drop-drop 8 8 xs,
            (
              u2,
              subst (λ p. Framed (hex_frame xs) p u2 v2 line2) (plain_halves xs)
                  (subst
                    (λ h.
                      Framed h (plain_text (take 8 xs) ++ plain_text (take 8 (drop 8 xs))) u2 v2
                        line2)
                    (append_assoc (columns 8 xs) separator (columns 8 (drop 8 xs) ++ separator))
                    f2),
            ),
          )
    where
      start : Framed [] [] 0 54 line
      start = record {
        between = take 54 line;
        rest = drop 54 line;
        cells = sym (take-append-drop 54 line);
        at_hex = refl;
        at_plain = refl;
        gap = omega (arith, length-take 54 line);
        left = omega (arith, length-drop 54 line);
      }

  -- The line of the next sixteen bytes.
  abbrev pub line_text : Bytes → Bytes
  line_text xs = hex_frame xs ++ plain_text (take 16 xs)

  -- What the lines of a dump are.
  abbrev pub AreLines : Bytes → List Bytes → Type 0
  AreLines xs [] = xs ≡ []
  AreLines xs (t ∷ ts) = (xs ≢ []) × (t ≡ line_text xs) × AreLines (drop 16 xs) ts

  module _ (nul : is_print 0 ≡ false) where
    plain_char-nonzero : (x : ℕ) → plain_char is_print x ≢ 0
    plain_char-nonzero x e = elim (Bool-cases (is_print x)) [
      | inl y ↦ clash (sym (ap is_print (whole y)) ∙ y) nul
      | inr n ↦ absurd (dot n)
    ]
      where
        whole : is_print x ≡ true → x ≡ 0
        whole y = sym (rw y refl) ∙ e

        dot : is_print x ≡ false → ⊥
        dot n = let d : 46 ≡ 0 = sym (rw n refl) ∙ e in omega (arith, d)

        clash : {b : Bool} → b ≡ true → b ≡ false → ⊥
        clash p q = cc

    plain_text-NoNul : (xs : Bytes) → NoNul (plain_text xs)
    plain_text-NoNul [] = tt
    plain_text-NoNul (x ∷ xs) = (plain_char-nonzero x, plain_text-NoNul xs)

    dump_line_lem :
        (xs line : Bytes)
        → length line ≡ 71
        → Returns
            (λ (text, rest, line').
              (text ≡ line_text xs) × ((rest ≡ drop 16 xs) × (length line' ≡ 71)))
            (dump_line is_print xs line)
    unfolding dump_line
    dump_line_lem xs line len =
        Returns-bind _ _ (blocks is_print 2 0 54 xs line) _ (both_blocks xs line len)
          λ (v, rest, line1) (r, (u, f)).
            Returns-bind _ _ (put v 0 line1) _
              (put-plain (hex_frame xs) (plain_text (take 16 xs)) u v 0 line1 f
                (omega (arith, length-map (take 16 xs) (plain_char is_print), length-take 16 xs)))
              λ line2 (between, tail, e, g, l).
                rw
                  (
                    e,
                    length-zero between (omega (arith, g, length-hex_frame xs)),
                    sym (append_assoc (hex_frame xs) (plain_text (take 16 xs)) (0 ∷ tail)),
                    printed-text (line_text xs) tail (no_nul xs),
                  )
                  (
                    refl,
                    (
                      r,
                      omega (
                        arith,
                        l,
                        length-hex_frame xs,
                        length-append (line_text xs) (0 ∷ tail),
                        length-append (hex_frame xs) (plain_text (take 16 xs)),
                      ),
                    ),
                  )
      where
        no_nul : (xs : Bytes) → NoNul (line_text xs)
        no_nul xs =
            NoNul-append (hex_frame xs) (plain_text (take 16 xs))
              (NoNul-append (columns 8 xs) _ (columns-NoNul 8 xs) (
                NoNul-append separator _ spaces (
                  NoNul-append (columns 8 (drop 8 xs)) separator (columns-NoNul 8 (drop 8 xs))
                    spaces)))
              (plain_text-NoNul (take 16 xs))
          where
            spaces : NoNul separator
            spaces = (omega arith, (omega arith, (omega arith, tt)))

    dump_lines-AreLines :
        (fuel : ℕ) (xs line : Bytes)
        → length xs ≤ fuel
        → length line ≡ 71
        → Returns (AreLines xs) (dump_lines is_print fuel xs line)
    unfolding dump_lines
    dump_lines-AreLines fuel [] line le len = refl
    dump_lines-AreLines zero (x ∷ xs) line le len = absurd (omega arith)
    dump_lines-AreLines (suc fuel) (x ∷ xs) line le len =
        Returns-bind _ _ (dump_line is_print (x ∷ xs) line) _ (dump_line_lem (x ∷ xs) line len)
          λ (text, rest, line') (t, (r, len')).
            Returns-bind (AreLines rest) _ (dump_lines is_print fuel rest line') _
              (dump_lines-AreLines fuel rest line'
                (omega (arith, ap length r, length-drop 16 (x ∷ xs))) len')
              λ texts h. ((λ e. cc), t, subst (λ k. AreLines k texts) r h)

    -- `dump` of any bytes commits no fault, whatever the stack holds in the 71 bytes of the array of a
    -- line, where `isprint` refuses NUL: no line leaves its array. It prints the heading, and then a line
    -- for each sixteen bytes and one for the rest: the digits of each byte in two blocks of eight places,
    -- and behind them the bytes that can be printed, with dots for the others.
    pub dump-AreLines :
        (bytes description stack : Bytes)
        → length stack ≡ 71
        → Returns
            (λ (head, texts). (head ≡ heading description (length bytes)) × AreLines bytes texts)
            (dump is_print bytes description stack)
    unfolding dump
    dump-AreLines bytes description stack len =
        Returns-bind (AreLines bytes) _ (dump_lines is_print (length bytes) bytes stack) _
          (dump_lines-AreLines (length bytes) bytes stack (omega arith) len) λ texts h. (refl, h)
