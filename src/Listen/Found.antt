-- ===== src/Listen/Found.antt =====
-- The lookup of an inherited socket in what `serialize` wrote.
use libxio.Base.{
  ◌≡◌, ◌≢◌, ◌/◌, ◌%◌, ◌==◌, Run, done, refl, ap, ◌∙◌, false, Option, none, some, List, [], ◌∷◌,
  Bytes, map, if◌then◌else◌, Bool-cases, inl, inr,
}
use libxio.Base.Int.{ℤ, negsuc, same_int}
use libxio.Text.{atoi-print_int, same, same_sound, join}
use libxio.System.{Sys, Os, History, Answer, ok, error, ◌>>=◌, pure, from_run}
use libxio.System.Call.{stat}
use libxio.Listen.{number}
use libxio.Listen.Lookup.{
  checked, is_socket, inet_round, inet_loop, socket_inet, unix_round, unix_loop, socket_unix,
}
use libxio.Listen.Inherited.{
  Listener, inet, unix, Plain, AllPlain, line, words, tokens-line, tokens-lines, serialize_all,
  serialize_all-Plain,
}

-- The descriptor of the first TCP server with this address and port, and that of the first local one
-- with this path.
unfoldable pub inet_fd : List Listener → Bytes → ℤ → Option ℤ
unfolding same
inet_fd [] address port = none
inet_fd (inet a p fd ∷ ls) address port =
    let rest = inet_fd ls address port in
    if same a address then (if same_int p port then some fd else rest) else rest
inet_fd (unix a fd ∷ ls) address port = inet_fd ls address port

unfoldable pub unix_fd : List Listener → Bytes → Option ℤ
unfolding same
unix_fd [] path = none
unix_fd (inet a p fd ∷ ls) path = unix_fd ls path
unix_fd (unix a fd ∷ ls) path = let rest = unix_fd ls path in if same a path then some fd else rest

-- No local server has this text as its path, and no TCP server as its address.
abbrev pub NoPath : Bytes → List Listener → Type 0
NoPath s [] = Unit
NoPath s (inet a p fd ∷ ls) = NoPath s ls
NoPath s (unix a fd ∷ ls) = (a ≢ s) × NoPath s ls

abbrev pub NoAddress : Bytes → List Listener → Type 0
NoAddress s [] = Unit
NoAddress s (inet a p fd ∷ ls) = (a ≢ s) × NoAddress s ls
NoAddress s (unix a fd ∷ ls) = NoAddress s ls

-- What a lookup that found this is to return, by what the system says of the descriptor: the
-- descriptor if it is open and a socket, else -1. The file type of a socket is 014 in the upper bits.
abbrev pub described : ℤ → Answer → ℤ
described fd (error e) = negsuc 0
described fd (ok mode) = if mode / 4096 % 16 == 12 then fd else negsuc 0

abbrev pub verified : Option ℤ → Os → History → Run (ℤ × History)
verified none os h = done (negsuc 0, h)
verified (some fd) os h = done (described fd (os h (stat fd)), stat fd ∷ h)

checked_lem : (os : Os) (h : History) (fd : ℤ) → checked fd os h ≡ verified (some fd) os h
unfolding checked
checked_lem os h fd = settle (os h (stat fd))
  where
    settle :
        (a : Answer)
        → (elim a as (λ _. Sys ℤ) [
          | error e ↦ pure (negsuc 0)
          | ok mode ↦ if is_socket mode then pure fd else pure (negsuc 0)
        ])
            os
            (stat fd ∷ h)
          ≡ done (described fd a, stat fd ∷ h)
    settle (error e) = refl
    settle (ok mode) = elim (Bool-cases (mode / 4096 % 16 == 12)) [
      | inl y ↦ rw y refl
      | inr n ↦ rw n refl
    ]

differs : (a s : Bytes) → a ≢ s → same a s ≡ false
differs a s ne = elim (Bool-cases (same a s)) [ inl e ↦ absurd (ne (same_sound a s e)) | inr n ↦ n ]

-- One round on the words of a line.
module _ (os : Os) (h : History) (next : Sys ℤ) where
  inet_round-inet :
      (a : Bytes) (p fd : ℤ) (address : Bytes) (port : ℤ)
      → Plain (inet a p fd)
      → inet_round (words (inet a p fd)) address port next os h
        ≡ (if same a address then (if same_int p port then checked fd else next) else next) os h
  unfolding inet_round words number
  inet_round-inet a p fd address port plain = elim (Bool-cases (same a address)) [
    | inr n ↦ rw n refl
    | inl e ↦ elim (Bool-cases (same_int p port)) [
      | inr n ↦ rw (e, atoi-print_int p plain.2, n) refl
      | inl f ↦ rw (e, atoi-print_int p plain.2, f, atoi-print_int fd plain.3) refl
    ]
  ]

  inet_round-unix :
      (a : Bytes) (fd : ℤ) (address : Bytes) (port : ℤ)
      → a ≢ address
      → inet_round (words (unix a fd)) address port next os h ≡ next os h
  unfolding inet_round words
  inet_round-unix a fd address port ne = rw (differs a address ne) refl

  unix_round-unix :
      (a : Bytes) (fd : ℤ) (path : Bytes)
      → Plain (unix a fd)
      → unix_round (words (unix a fd)) path next os h
        ≡ (if same a path then checked fd else next) os h
  unfolding unix_round words number
  unix_round-unix a fd path plain = elim (Bool-cases (same a path)) [
    | inr n ↦ rw n refl
    | inl e ↦ rw (e, atoi-print_int fd plain.2) refl
  ]

  unix_round-inet :
      (a : Bytes) (p fd : ℤ) (path : Bytes)
      → a ≢ path
      → unix_round (words (inet a p fd)) path next os h ≡ next os h
  unfolding unix_round words
  unix_round-inet a p fd path ne = rw (differs a path ne) refl

module _ (os : Os) (h : History) where
  inet_loop-lines :
      (ls : List Listener) (address : Bytes) (port : ℤ)
      → AllPlain ls
      → NoPath address ls
      → inet_loop (map line ls) address port os h ≡ verified (inet_fd ls address port) os h
  unfolding inet_loop inet_fd
  inet_loop-lines [] address port plain far = refl
  inet_loop-lines (inet a p fd ∷ ls) address port plain far =
      rw
        (
          tokens-line (inet a p fd) plain.0,
          inet_round-inet os h (inet_loop (map line ls) address port) a p fd address port plain.0,
        )
        (elim (Bool-cases (same a address)) [
          | inr n ↦ rw n (inet_loop-lines ls address port plain.1 far)
          | inl e ↦ elim (Bool-cases (same_int p port)) [
            | inr n ↦ rw (e, n) (inet_loop-lines ls address port plain.1 far)
            | inl f ↦ rw (e, f) (checked_lem os h fd)
          ]
        ])
  inet_loop-lines (unix a fd ∷ ls) address port plain far =
      rw
        (
          tokens-line (unix a fd) plain.0,
          inet_round-unix os h (inet_loop (map line ls) address port) a fd address port far.0,
        )
        (inet_loop-lines ls address port plain.1 far.1)

  unix_loop-lines :
      (ls : List Listener) (path : Bytes)
      → AllPlain ls
      → NoAddress path ls
      → unix_loop (map line ls) path os h ≡ verified (unix_fd ls path) os h
  unfolding unix_loop unix_fd
  unix_loop-lines [] path plain far = refl
  unix_loop-lines (unix a fd ∷ ls) path plain far =
      rw
        (
          tokens-line (unix a fd) plain.0,
          unix_round-unix os h (unix_loop (map line ls) path) a fd path plain.0,
        )
        (elim (Bool-cases (same a path)) [
          | inr n ↦ rw n (unix_loop-lines ls path plain.1 far)
          | inl e ↦ rw e (checked_lem os h fd)
        ])
  unix_loop-lines (inet a p fd ∷ ls) path plain far =
      rw
        (
          tokens-line (inet a p fd) plain.0,
          unix_round-inet os h (unix_loop (map line ls) path) a p fd path far.0,
        )
        (unix_loop-lines ls path plain.1 far.1)

-- The lookup in the joined lines.
pub socket_inet-lines :
    (os : Os) (h : History) (ls : List Listener) (address : Bytes) (port : ℤ)
    → AllPlain ls
    → NoPath address ls
    → socket_inet (some (join b';' (map line ls))) address port os h
      ≡ verified (inet_fd ls address port) os h
unfolding socket_inet
socket_inet-lines os h ls address port plain far =
    ap (λ lines. inet_loop lines address port os h) (tokens-lines ls plain)
    ∙ inet_loop-lines os h ls address port plain far

-- In the joined serializations `getSocketInet` finds the first TCP server with the address and port,
-- and returns its descriptor if that is a socket, else -1; it returns -1 if there is no such server.
-- No local server's path may read like the address.
pub socket_inet-serialize_all :
    (os : Os) (h : History) (ls : List Listener) (address : Bytes) (port : ℤ)
    → AllPlain ls
    → NoPath address ls
    → (from_run (serialize_all ls) >>= λ lines. socket_inet (some (join b';' lines)) address port)
        os h
      ≡ verified (inet_fd ls address port) os h
socket_inet-serialize_all os h ls address port plain far =
    rw (serialize_all-Plain ls plain) (socket_inet-lines os h ls address port plain far)

-- The same for `getSocketUnix` and the first local server with the path; no TCP server's address may
-- read like the path.
pub socket_unix-serialize_all :
    (os : Os) (h : History) (ls : List Listener) (path : Bytes)
    → AllPlain ls
    → NoAddress path ls
    → (from_run (serialize_all ls) >>= λ lines. socket_unix (some (join b';' lines)) path) os h
      ≡ verified (unix_fd ls path) os h
unfolding socket_unix
socket_unix-serialize_all os h ls path plain far = rw (serialize_all-Plain ls plain) (
    ap (λ lines. unix_loop lines path os h) (tokens-lines ls plain)
    ∙ unix_loop-lines os h ls path plain far)
