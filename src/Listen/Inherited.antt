-- ===== src/Listen/Inherited.antt =====
-- What a process finds in the variable that its parent has joined of its servers' serializations.
use libxio.Base.{
  ℕ, ◌≡◌, refl, sym, subst, ap, ◌∙◌, true, false, some, List, [], ◌∷◌, ◌++◌, Bytes, map, length,
  ◌≤◌, ◌<◌, Run, done, lt→ltb, Bool-cases, inl, inr, arith, ◌≢◌, length-append, suc, ◌/◌, ◌==◌, ◌+◌,
  ◌%◌, ◌>>=◌,
}
use libxio.Base.Int.{ℤ, pos, negsuc}
use libxio.Decimal.{print_int, digits, max_digits}
use libxio.BufferRef.{int_max}
use libxio.BufferRef.Number.{magnitude, AllDigits, digits-AllDigits, print_pos, print_negsuc}
use libxio.BufferRef.{is_digit}
use libxio.Text.{
  tokens, atoi-print_int, Word, Lacks, Lacks-append, Word-Lacks, join, AllWord, tokens-join,
  tokens-append, tokens-word,
}
use libxio.Listen.{
  inherited_list, inherited_loop, inherited_fd, number, serialize_inet, serialize_unix, formatted,
  inet_line, unix_line,
}

-- A server that is handed down.
pub data Listener : Type 0 where
  inet : (address : Bytes) (port fd : ℤ) → Listener
  unix : (path : Bytes) (fd : ℤ) → Listener

abbrev pub descriptor : Listener → ℤ
descriptor (inet a p fd) = fd
descriptor (unix a fd) = fd

abbrev pub line : Listener → Bytes
line (inet a p fd) = inet_line a p fd
line (unix a fd) = unix_line a fd

unfoldable pub serialize : Listener → Run Bytes
unfolding serialize_inet serialize_unix
serialize (inet a p fd) = serialize_inet a p fd
serialize (unix a fd) = serialize_unix a fd

-- The address or path is not empty and has neither separator in it, the numbers are `int`s but not
-- the least, and the line fits into the buffer of `serialize`.
abbrev pub Plain : Listener → Type 0
Plain (inet a p fd) =
    Word b',' a
    × Word b';' a
    × (magnitude p ≤ int_max)
    × (magnitude fd ≤ int_max)
    × (length (inet_line a p fd) < 1024)
Plain (unix a fd) =
    Word b',' a × Word b';' a × (magnitude fd ≤ int_max) × (length (unix_line a fd) < 4096)

abbrev pub AllPlain : List Listener → Type 0
AllPlain [] = Unit
AllPlain (l ∷ ls) = Plain l × AllPlain ls

AllDigits-Lacks : (sep : ℕ) → is_digit sep ≡ false → (s : Bytes) → AllDigits s → Lacks sep s
AllDigits-Lacks sep out [] h = tt
AllDigits-Lacks sep out (c ∷ s) h =
    ((λ e. conflict c h.0 (ap is_digit e ∙ out)), AllDigits-Lacks sep out s h.1)
  where
    conflict : (d : ℕ) → is_digit d ≡ true → is_digit d ≡ false → ⊥
    conflict d a b = absurd (cc)

Word-append : (sep : ℕ) (w t : Bytes) → Word sep w → Lacks sep t → Word sep (w ++ t)
Word-append sep [] t h k = absurd h
Word-append sep (c ∷ w) t h k = (h.0, Lacks-append sep w t h.1 k)

Lacks-Word : (sep : ℕ) (s : Bytes) → 1 ≤ length s → Lacks sep s → Word sep s
Lacks-Word sep [] n h = absurd (omega arith)
Lacks-Word sep (c ∷ s) n h = h

length-digits : (n : ℕ) → 1 ≤ length (digits max_digits n)
unfolding digits
length-digits n = elim (Bool-cases (n / 10 == 0)) [
  | inl z ↦ rw z (omega arith)
  | inr k ↦ rw (k, length-append (digits 19 (n / 10)) ((b'0' + n % 10) ∷ [])) (omega arith)
]

-- A separator that no number contains.
abbrev Separator : ℕ → Type 0
Separator sep = (is_digit sep ≡ false) × (b'-' ≢ sep)

print_int-Word : (sep : ℕ) → Separator sep → (z : ℤ) → Word sep (print_int z)
print_int-Word sep out (pos n) = subst (Word sep) (sym (print_pos n)) (
    Lacks-Word sep (digits max_digits n) (length-digits n)
      (AllDigits-Lacks sep out.0 (digits max_digits n) (digits-AllDigits max_digits n)))
print_int-Word sep out (negsuc n) = subst (Word sep) (sym (print_negsuc n)) (
  out.1,
  AllDigits-Lacks sep out.0 (digits max_digits (suc n)) (digits-AllDigits max_digits (suc n)),
)

comma : Separator b','
unfolding is_digit
comma = (refl, λ e. absurd (omega arith))

semicolon : Separator b';'
unfolding is_digit
semicolon = (refl, λ e. absurd (omega arith))

-- The words of a line.
unfoldable pub words : Listener → List Bytes
words (inet a p fd) = a ∷ (print_int p ∷ (print_int fd ∷ []))
words (unix a fd) = a ∷ (print_int fd ∷ [])

pub tokens-line : (l : Listener) → Plain l → tokens b',' (line l) ≡ words l
unfolding words
tokens-line (inet a p fd) h =
    tokens-append b',' a (print_int p ++ (b',' ∷ print_int fd)) h.0
    ∙ ap (λ r. a ∷ r)
        (tokens-append b',' (print_int p) (print_int fd) (print_int-Word b',' comma p)
          ∙ ap (λ r. print_int p ∷ r)
              (tokens-word b',' (print_int fd) (print_int-Word b',' comma fd)))
tokens-line (unix a fd) h =
    tokens-append b',' a (print_int fd) h.0
    ∙ ap (λ r. a ∷ r) (tokens-word b',' (print_int fd) (print_int-Word b',' comma fd))

line-Word : (l : Listener) → Plain l → Word b';' (line l)
line-Word (inet a p fd) h = Word-append b';' a _ h.1 (
  (λ e. absurd (omega arith)),
  Lacks-append b';' (print_int p) _ (number_Lacks p) ((λ e. absurd (omega arith)), number_Lacks fd),
)
  where
    number_Lacks : (z : ℤ) → Lacks b';' (print_int z)
    number_Lacks z = Word-Lacks b';' (print_int z) (print_int-Word b';' semicolon z)
line-Word (unix a fd) h =
    Word-append b';' a _ h.1 (
      (λ e. absurd (omega arith)),
      Word-Lacks b';' (print_int fd) (print_int-Word b';' semicolon fd),
    )

AllPlain-AllWord : (ls : List Listener) → AllPlain ls → AllWord b';' (map line ls)
AllPlain-AllWord [] h = tt
AllPlain-AllWord (l ∷ ls) h = (line-Word l h.0, AllPlain-AllWord ls h.1)

serialize-Plain : (l : Listener) → Plain l → serialize l ≡ done (line l)
unfolding serialize serialize_inet serialize_unix formatted
serialize-Plain (inet a p fd) h = rw (lt→ltb (length (inet_line a p fd)) 1024 h.4) refl
serialize-Plain (unix a fd) h = rw (lt→ltb (length (unix_line a fd)) 4096 h.3) refl

-- The lines that a parent writes.
unfoldable pub serialize_all : List Listener → Run (List Bytes)
serialize_all [] = done []
serialize_all (l ∷ ls) = serialize l >>= λ s. serialize_all ls >>= λ ss. done (s ∷ ss)

pub serialize_all-Plain : (ls : List Listener) → AllPlain ls → serialize_all ls ≡ done (map line ls)
unfolding serialize_all
serialize_all-Plain [] h = refl
serialize_all-Plain (l ∷ ls) h = rw (serialize-Plain l h.0, serialize_all-Plain ls h.1) refl

inherited_fd-words : (l : Listener) → Plain l → inherited_fd (words l) ≡ done (descriptor l)
unfolding inherited_fd words number
inherited_fd-words (inet a p fd) h = atoi-print_int fd h.3
inherited_fd-words (unix a fd) h = atoi-print_int fd h.2

inherited_loop-lines :
    (ls : List Listener) → AllPlain ls → inherited_loop (map line ls) ≡ done (map descriptor ls)
unfolding inherited_loop
inherited_loop-lines [] h = refl
inherited_loop-lines (l ∷ ls) h =
    rw (tokens-line l h.0, inherited_fd-words l h.0, inherited_loop-lines ls h.1) refl

pub tokens-lines :
    (ls : List Listener) → AllPlain ls → tokens b';' (join b';' (map line ls)) ≡ map line ls
tokens-lines ls h = tokens-join b';' (map line ls) (AllPlain-AllWord ls h)

-- What a process that gets these servers from its parent reads.
abbrev pub passed_on : List Listener → Run (List ℤ)
passed_on ls = serialize_all ls >>= λ lines. inherited_list (some (join b';' lines))

-- The descriptors that `getInheritedSocketList` returns are those of the servers whose serializations
-- were joined by semicolons, in order.
pub inherited_list-serialize_all :
    (ls : List Listener) → AllPlain ls → passed_on ls ≡ done (map descriptor ls)
unfolding inherited_list
inherited_list-serialize_all ls h =
    rw (serialize_all-Plain ls h, tokens-lines ls h) (inherited_loop-lines ls h)
