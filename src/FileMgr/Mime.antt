-- ===== src/FileMgr/Mime.antt =====
-- What `get_mimetype` makes of a file's name.
use libxio.Base.{
  ℕ, zero, suc, ◌+◌, ◌-◌, ◌<◌, ◌≤◌, ◌≡◌, ◌≢◌, refl, sym, ap, ◌∙◌, Bool, true, false, not, ◌&&◌,
  Option, none, some, [], ◌∷◌, ◌++◌, Bytes, size_mod, length, length-append, replicate, drop,
  drop-append_right, ◌==◌, if◌then◌else◌, arith, ne→==, eq→==, ge→ltb, lt→ltb, append_assoc, inl,
  inr, Option-cases, ap₂,
}
use libxio.Text.{Lacks, Lacks-append}
use libxio.BufferRef.{npos}
use libxio.FileMgr.{Config, find, last_index, position, find_last_of, mime_loop, get_mimetype}
use mathlib.Core.List.{reverse, reverse-append, reverse-reverse}

last_index-Lacks : (c : ℕ) (s : Bytes) → Lacks c s → last_index c s ≡ none
unfolding last_index
last_index-Lacks c [] h = refl
last_index-Lacks c (x ∷ s) h = rw (last_index-Lacks c s h.1, ne→== x c h.0) refl

last_index-append :
    (c : ℕ) (s t : Bytes) → Lacks c t → last_index c (s ++ (c ∷ t)) ≡ some (length s)
unfolding last_index
last_index-append c [] t h = rw (last_index-Lacks c t h, eq→== c c refl) refl
last_index-append c (x ∷ s) t h = rw (last_index-append c s t h) refl

last_index-lt : (c : ℕ) (s : Bytes) (i : ℕ) → last_index c s ≡ some i → i < length s
unfolding last_index
last_index-lt c [] i h = absurd (cc)
last_index-lt c (x ∷ s) i h = go (last_index c s) (last_index-lt c s) refl h
  where
    go :
        (o : Option ℕ)
        → ((j : ℕ) → last_index c s ≡ some j → j < length s)
        → last_index c s ≡ o
        → (elim o [ some i ↦ some (suc i) | none ↦ if x == c then some 0 else none ]) ≡ some i
        → i < suc (length s)
    go (some j) ih e q = omega (arith, ih j e, some_lem q)
      where
        some_lem : {a b : ℕ} → some a ≡ some b → a ≡ b
        some_lem q = cc
    go none ih e q = ground arith

find_last_of-Lacks : (c : ℕ) (s : Bytes) → Lacks c s → find_last_of c s ≡ npos
unfolding find_last_of
find_last_of-Lacks c s h = ap position (last_index-Lacks c s h)

find_last_of-append : (c : ℕ) (s t : Bytes) → Lacks c t → find_last_of c (s ++ (c ∷ t)) ≡ length s
unfolding find_last_of
find_last_of-append c s t h = ap position (last_index-append c s t h)

find_last_of-le : (c : ℕ) (s : Bytes) → length s < size_mod → find_last_of c s ≤ npos
unfolding find_last_of
find_last_of-le c s small = elim (Option-cases (last_index c s)) [
  | inl e ↦ omega (arith, ap position e)
  | inr (i, e) ↦ omega (arith, ap position e, last_index-lt c s i e)
]

-- A name without a slash has the default type, whatever its extension is: the position of a slash
-- that is not there is the largest number.
pub get_mimetype-no_slash :
    (c : Config) (s : Bytes)
    → Lacks b'/' s
    → length s < size_mod
    → get_mimetype c s ≡ c.default_mimetype
unfolding get_mimetype
get_mimetype-no_slash c s h small =
    rw
      (
        find_last_of-Lacks b'/' s h,
        ge→ltb npos (find_last_of b'.' s) (find_last_of-le b'.' s small),
      )
      (never (not (find_last_of b'.' s == npos)) _ _)
  where
    never : (b : Bool) (x y : Bytes) → (if b && false then x else y) ≡ y
    never true x y = refl
    never false x y = refl

replicate-snoc : (n a : ℕ) → replicate n a ++ (a ∷ []) ≡ a ∷ replicate n a
replicate-snoc zero a = refl
replicate-snoc (suc n) a = ap (λ r. a ∷ r) (replicate-snoc n a)

reverse-replicate : (n a : ℕ) → reverse (replicate n a) ≡ replicate n a
reverse-replicate zero a = refl
reverse-replicate (suc n) a =
    reverse-append (a ∷ []) (replicate n a)
    ∙ ap (λ r. r ++ (a ∷ [])) (reverse-replicate n a)
    ∙ replicate-snoc n a

-- The tildes behind an extension are dropped until the table knows the rest.
module _ (c : Config) (e m : Bytes) (known : find e c.mimetypes ≡ some m) where
  known_loop : (r : Bytes) → reverse r ≡ e → e ≢ [] → mime_loop c r ≡ m
  unfolding mime_loop
  known_loop [] q ne = absurd (ne (sym q))
  known_loop (x ∷ r) q ne = rw (q, known) refl

  tildes_loop :
      (k : ℕ)
      → e ≢ []
      → ((j : ℕ) → j < k → find (e ++ replicate (suc j) b'~') c.mimetypes ≡ none)
      → mime_loop c (replicate k b'~' ++ reverse e) ≡ m
  unfolding mime_loop
  tildes_loop zero ne h = known_loop (reverse e) (reverse-reverse e) ne
  tildes_loop (suc k) ne h =
      rw (backwards, h k (omega arith)) (tildes_loop k ne (λ j lt. h j (omega arith)))
    where
      backwards : reverse (b'~' ∷ (replicate k b'~' ++ reverse e)) ≡ e ++ replicate (suc k) b'~'
      backwards =
          reverse-append (replicate (suc k) b'~') (reverse e)
          ∙ ap₂ (λ s t. s ++ t) (reverse-reverse e) (reverse-replicate (suc k) b'~')

  -- The type of a path with a slash in it, whose name behind the last slash has an extension that the
  -- table knows, with any number of tildes behind it that the table knows nothing of, is the one that
  -- the table gives. The extension is not
  -- empty and has no dot, and neither it nor the name has a slash; positions are below `npos`.
  pub get_mimetype_lem :
      (dir base : Bytes) (k : ℕ)
      → Lacks b'/' base
      → Lacks b'/' e
      → Lacks b'.' e
      → e ≢ []
      → ((j : ℕ) → j < k → find (e ++ replicate (suc j) b'~') c.mimetypes ≡ none)
      → length dir + length base + 2 < size_mod
      → get_mimetype c (dir ++ (b'/' ∷ (base ++ (b'.' ∷ (e ++ replicate k b'~'))))) ≡ m
  unfolding get_mimetype
  get_mimetype_lem dir base k hb he hd ne none_longer small =
      rw
        (
          slash,
          dot,
          ne→== (length head) npos (λ q. omega (arith, count)),
          lt→ltb (length dir) (length head) (omega (arith, count)),
        )
        (ap (λ s. mime_loop c (reverse s)) behind
          ∙ ap (mime_loop c) (
              reverse-append e (replicate k b'~')
              ∙ ap (λ s. s ++ reverse e) (reverse-replicate k b'~'))
          ∙ tildes_loop k ne none_longer)
    where
      ext : Bytes
      ext = e ++ replicate k b'~'

      tildes : (n d : ℕ) → b'~' ≢ d → Lacks d (replicate n b'~')
      tildes zero d h = tt
      tildes (suc n) d h = (h, tildes n d h)

      head : Bytes
      head = dir ++ (b'/' ∷ base)

      cut : dir ++ (b'/' ∷ (base ++ (b'.' ∷ ext))) ≡ head ++ (b'.' ∷ ext)
      cut = sym (append_assoc dir (b'/' ∷ base) (b'.' ∷ ext))

      slash : find_last_of b'/' (dir ++ (b'/' ∷ (base ++ (b'.' ∷ ext)))) ≡ length dir
      slash = find_last_of-append b'/' dir (base ++ (b'.' ∷ ext)) (
          Lacks-append b'/' base (b'.' ∷ ext) hb (
            (λ q. omega arith),
            Lacks-append b'/' e (replicate k b'~') he (tildes k b'/' (λ q. omega arith)),
          ))

      dot : find_last_of b'.' (dir ++ (b'/' ∷ (base ++ (b'.' ∷ ext)))) ≡ length head
      dot =
          ap (find_last_of b'.') cut
          ∙ find_last_of-append b'.' head ext
              (Lacks-append b'.' e (replicate k b'~') hd (tildes k b'.' (λ q. omega arith)))

      count : length head ≡ length dir + (length base + 1)
      count = omega (arith, length-append {0} dir (b'/' ∷ base))

      behind : drop (length head + 1) (dir ++ (b'/' ∷ (base ++ (b'.' ∷ ext)))) ≡ ext
      behind =
          ap (drop (length head + 1)) cut
          ∙ drop-append_right (length head + 1) head (b'.' ∷ ext) (omega arith)
          ∙ ap (λ n. drop n (b'.' ∷ ext)) (one (length head))
        where
          one : (n : ℕ) → n + 1 - n ≡ 1
          one n = omega arith
