-- ===== src/System.antt =====
-- The system calls of sockets and servers. The operating system is a parameter: a function from the
-- calls made so far and the next call to its result. So a run carries the calls as its state, and
-- what a method did to descriptors is read off them.
use Prim.Native.Nat.{bit_or}
use libxio.Base.{
  ap, Ensures, ◌≤◌, length-append, length-take, length-drop, le→leb, arith, Returns, ℕ, ◌+◌, ◌-◌,
  ◌*◌, ◌/◌, ◌%◌, ◌^◌, ◌≡◌, Bool, true, false, Option, none, some, List, [], ◌∷◌, ◌++◌, Bytes,
  length, take, drop, Run, done, fault, Fault, leb, ◌==◌, if◌then◌else◌,
}
use libxio.Base.Int.{ℤ, pos, negsuc}

-- Descriptors and addresses are those of the C calls; an address is the bytes of its `sockaddr`.
pub data Call : Type 0 where
  socket : (family type : ℕ) → Call
  connect : ℤ → Bytes → Call
  bind : ℤ → Bytes → Call
  listen : ℤ → (backlog : ℤ) → Call
  accept : ℤ → Call
  accept4 : ℤ → (mask : ℕ) → Call
  close : ℤ → Call
  get_fl : ℤ → Call
  set_fl : ℤ → (flags : ℕ) → Call
  get_fd : ℤ → Call
  set_fd : ℤ → (flags : ℕ) → Call
  set_option : ℤ → (level option : ℕ) → Call
  so_error : ℤ → Call
  stat : ℤ → Call
  is_inet : ℤ → (family : ℕ) → (port : ℤ) → Call
  is_unix : ℤ → (path : Bytes) → Call
  chmod : Bytes → Call
  unlink : Bytes → Call
  splice : (src dst : ℤ) → ℕ → Call
  send_file : (dst src : ℤ) → ℕ → Call
  read : ℤ → ℕ → Call
  write : ℤ → Bytes → Call
  watch_file : (path : Bytes) → Call
  unwatch_file : ℤ → Call

-- A result that is not negative, or -1 with `errno`.
pub data Answer : Type 0 where
  ok : ℕ → Answer
  error : ℕ → Answer

-- The calls made, the last first.
abbrev pub History : Type 0
History = List Call

abbrev pub Os : Type 0
Os = History → Call → Answer

-- Code that makes calls.
abbrev pub Sys : Type 0 → Type 0
Sys A = Os → History → Run (A × History)

infixl 5 ◌>>=◌ ◌>>◌
abbrev pub ◌>>=◌ : {A B : Type 0} → Sys A → (A → Sys B) → Sys B
◌>>=◌ m f os h = elim (m os h) [ done (a, h') ↦ f a os h' | fault e ↦ fault e ]

abbrev pub ◌>>◌ : {A B : Type 0} → Sys A → Sys B → Sys B
m >> k = m >>= λ _. k

abbrev pub pure : {A : Type 0} → A → Sys A
pure a os h = done (a, h)

abbrev pub stop : {A : Type 0} → Fault → Sys A
stop e os h = fault e

abbrev pub call : Call → Sys Answer
call c os h = done (os h c, c ∷ h)

abbrev pub from_run : {A : Type 0} → Run A → Sys A
from_run (done a) = pure a
from_run (fault e) = stop e

-- `assert(b)`.
abbrev pub assert : Bool → Sys (Unit {0})
assert true = pure tt
assert false = stop Fault.assert_failed

-- A call whose result is only tested for an error: `none`, or `errno`.
abbrev pub failure : Answer → Option ℕ
failure (ok n) = none
failure (error e) = some e

abbrev pub test : Call → Sys (Option ℕ)
test c = do a ← call c; pure (failure a)

-- Steps that each may fail, up to the first that does: `if (… < 0) goto syserr;` in a row.
abbrev pub Steps : Type 0 → Type 0
Steps S = List (S → Sys (Option ℕ × S))

abbrev pub carry : {S : Type 0} → (S → Sys (Option ℕ × S)) → Option ℕ × S → Sys (Option ℕ × S)
carry rest (none, s) = rest s
carry rest (some e, s) = pure (some e, s)

unfoldable pub attempt : {S : Type 0} → Steps S → S → Sys (Option ℕ × S)
attempt [] s = pure (none, s)
attempt (p ∷ ps) s = p s >>= carry (attempt ps)

-- A descriptor is valid if it is not negative.
abbrev pub is_fd : ℤ → Bool
is_fd (pos n) = true
is_fd (negsuc n) = false

-- An `int` result: -1 for an error.
abbrev pub result : Answer → ℤ
result (ok n) = pos n
result (error e) = negsuc 0

-- A bit of a mask: `flags & (1 << k)`, `flags & ~(1 << k)` and `mask | (1 << k)`.
abbrev pub has_bit : ℕ → ℕ → Bool
has_bit k flags = flags / 2 ^ k % 2 == 1

abbrev pub clear_bit : ℕ → ℕ → ℕ
clear_bit k flags = flags - flags / 2 ^ k % 2 * 2 ^ k

abbrev pub set_bit : ℕ → ℕ → ℕ
set_bit k flags = if has_bit k flags then flags else flags + 2 ^ k

-- `O_NONBLOCK` and `O_CLOEXEC` of Linux as bits, and `SOCK_NONBLOCK` and `SOCK_CLOEXEC`, which are
-- the same bits.
abbrev pub nonblock : ℕ
nonblock = 11

abbrev pub cloexec : ℕ
cloexec = 19

-- The word that `fcntl` returned; -1 has all bits set.
abbrev pub word : Answer → ℕ
word (ok n) = n
word (error e) = 2 ^ 32 - 1

-- `fcntl(fd, F_SETFL, fcntl(fd, F_GETFL) | flags)` and the same with `F_SETFD`.
unfoldable pub add_fl : ℤ → ℕ → Sys (Option ℕ)
add_fl fd flags = do old ← call (get_fl fd); test (set_fl fd (bit_or (word old) flags))

unfoldable pub add_fd : ℤ → ℕ → Sys (Option ℕ)
add_fd fd flags = do old ← call (get_fd fd); test (set_fd fd (bit_or (word old) flags))

-- `htons(port)` as it lies in memory.
abbrev pub port_bytes : ℤ → Bytes
port_bytes (pos n) = (n % 65536 / 256) ∷ (n % 256) ∷ []
port_bytes (negsuc n) = ((65535 - n % 65536) / 256) ∷ ((65535 - n % 65536) % 256) ∷ []

-- `memcpy(p + off, xs, length xs)` into an array with these bytes.
abbrev pub overlay : Bytes → ℕ → Bytes → Run Bytes
overlay m off xs =
    if leb (off + length xs) (length m)
    then done (take off m ++ (xs ++ drop (off + length xs) m))
    else fault Fault.out_of_bounds

-- The rule of sequence: what the first part returns, with the history then, is what the second part
-- starts from.
pub Returns-then :
    {A B : Type 0} (P : A × History → Type 0) (Q : B × History → Type 0) (m : Sys A) (f : A → Sys B)
    (os : Os) (h : History)
    → Returns P (m os h)
    → ((p : A × History) → P p → Returns Q (f p.0 os p.1))
    → Returns Q ((m >>= f) os h)
Returns-then P Q m f os h first rest = through (m os h) first
  where
    through :
        (r : Run (_ × History))
        → Returns P r
        → Returns Q (elim r [ done (a, h') ↦ f a os h' | fault e ↦ fault e ])
    through (done p) k = rest p k
    through (fault e) k = absurd k

-- `add_fl` where the system sets the flags.
abbrev pub flagged : ℤ → ℕ → Os → History → History
flagged fd flags os h = set_fl fd (bit_or (word (os h (get_fl fd))) flags) ∷ (get_fl fd ∷ h)

pub add_fl-set :
    (os : Os) (h : History) (fd : ℤ) (flags k : ℕ)
    → ((h' : History) (g : ℕ) → os h' (set_fl fd g) ≡ ok k)
    → add_fl fd flags os h ≡ done (none, flagged fd flags os h)
unfolding add_fl
add_fl-set os h fd flags k e =
    ap (λ a. done (failure a, flagged fd flags os h))
      (e (get_fl fd ∷ h) (bit_or (word (os h (get_fl fd))) flags))

pub bind-done :
    {A B : Type 0} (m : Sys A) (f : A → Sys B) (os : Os) (h : History) (a : A) (h' : History)
    → m os h ≡ done (a, h')
    → (m >>= f) os h ≡ f a os h'
bind-done m f os h a h' e = ap (λ r. elim r [ done (x, k) ↦ f x os k | fault d ↦ fault d ]) e

-- A copy within bounds keeps the length.
pub overlay-Returns :
    (m : Bytes) (off : ℕ) (xs : Bytes)
    → off + length xs ≤ length m
    → Returns (λ m'. length m' ≡ length m) (overlay m off xs)
overlay-Returns m off xs h = rw (le→leb (off + length xs) (length m) h) (
    omega (
      arith,
      length-append (take off m) (xs ++ drop (off + length xs) m),
      length-append xs (drop (off + length xs) m),
      length-take off m,
      length-drop (off + length xs) m,
    ))

-- A bit that was cleared stays clear when a lower one is cleared.
pub clear_bit_lem : (n : ℕ) → clear_bit nonblock n / 2 ^ nonblock % 2 ≡ 0
clear_bit_lem n = omega arith

clear_bit_above : (n : ℕ) → n / 2 ^ cloexec % 2 ≡ 0 → clear_bit nonblock n / 2 ^ cloexec % 2 ≡ 0
clear_bit_above n h = omega arith

pub clear_both : (n : ℕ) → clear_bit nonblock (clear_bit cloexec n) / 2 ^ cloexec % 2 ≡ 0
clear_both n = clear_bit_above (clear_bit cloexec n) (low n)
  where
    low : (m : ℕ) → clear_bit cloexec m / 2 ^ cloexec % 2 ≡ 0
    low m = omega arith

pub Ensures-then :
    {A B : Type 0} (P : A × History → Type 0) (Q : B × History → Type 0) (m : Sys A) (f : A → Sys B)
    (os : Os) (h : History)
    → Ensures P (m os h)
    → ((p : A × History) → P p → Ensures Q (f p.0 os p.1))
    → Ensures Q ((m >>= f) os h)
Ensures-then P Q m f os h first rest = through (m os h) first
  where
    through :
        (r : Run (_ × History))
        → Ensures P r
        → Ensures Q (elim r [ done (a, h') ↦ f a os h' | fault e ↦ fault e ])
    through (done p) k = rest p k
    through (fault e) k = tt
