-- ===== src/Listen/Tests.antt =====
-- Inherited sockets at concrete values, and the witnesses of the properties.
use libxio.Base.{
  ℕ, ◌≡◌, ◌≢◌, refl, Bool, true, false, some, List, [], ◌∷◌, Bytes, length, done, fault, Fault,
  ltb→lt, leb→le, ◌==◌, if◌then◌else◌, eq→==,
}
use libxio.Base.Int.{pos}
use libxio.Decimal.{print_int, digits}
use libxio.BufferRef.{int_max, is_digit}
use libxio.BufferRef.Numeral.{value, leading}
use libxio.Text.{codes, join, Word, Lacks}
use libxio.System.{Os, ok, ◌>>=◌, from_run}
use libxio.System.Call.{stat}
use libxio.Listen.{inet_line, unix_line}
use libxio.Listen.Lookup.{socket_inet}
use libxio.Listen.Inherited.{
  Listener, inet, unix, AllPlain, passed_on, serialize_all, inherited_list-serialize_all,
}
use libxio.Listen.Found.{verified, inet_fd, socket_inet-serialize_all}

-- A word that is not empty and lacks a byte, as a test.
lacks : ℕ → Bytes → Bool
lacks sep [] = true
lacks sep (c ∷ s) = if c == sep then false else lacks sep s

lacks-Lacks : (sep : ℕ) (s : Bytes) → lacks sep s ≡ true → Lacks sep s
unfolding lacks
lacks-Lacks sep [] h = tt
lacks-Lacks sep (c ∷ s) h = split_on (c == sep) refl h (lacks-Lacks sep s)
  where
    split_on :
        (b : Bool)
        → (c == sep) ≡ b
        → (if b then false else lacks sep s) ≡ true
        → (lacks sep s ≡ true → Lacks sep s)
        → Lacks sep (c ∷ s)
    split_on true e q k = absurd (cc)
    split_on false e q k = ((λ same. clash (eq→== c sep same) e), k q)
      where
        clash : {b : Bool} → b ≡ true → b ≡ false → ⊥
        clash x y = absurd (cc)

word : (sep c : ℕ) (s : Bytes) → lacks sep (c ∷ s) ≡ true → Word sep (c ∷ s)
word sep c s h = lacks-Lacks sep (c ∷ s) h

abbrev pub address : Bytes
address = codes "10.0.0.1"

abbrev pub path : Bytes
path = codes "/run/x"

abbrev pub both : List Listener
both = inet address (pos 80) (pos 5) ∷ (unix path (pos 6) ∷ [])

pub both-AllPlain : AllPlain both
unfolding lacks print_int digits
both-AllPlain = (
  (
    word b',' b'1' (codes "0.0.0.1") refl,
    word b';' b'1' (codes "0.0.0.1") refl,
    leb→le 80 int_max refl,
    leb→le 5 int_max refl,
    ltb→lt (length (inet_line address (pos 80) (pos 5))) 1024 refl,
  ),
  (
    (
      word b',' b'/' (codes "run/x") refl,
      word b';' b'/' (codes "run/x") refl,
      leb→le 6 int_max refl,
      ltb→lt (length (unix_line path (pos 6))) 4096 refl,
    ),
    tt,
  ),
)

inherited_list-serialize_all_example : passed_on both ≡ done (pos 5 ∷ (pos 6 ∷ []))
inherited_list-serialize_all_example = inherited_list-serialize_all both both-AllPlain

-- Every descriptor is that of a socket.
abbrev pub sockets_only : Os
sockets_only h c = ok 49152

pub elsewhere : path ≢ address
elsewhere e = absurd (cc)

socket_inet-serialize_all_example :
    (from_run (serialize_all both) >>= λ lines.
    socket_inet (some (join b';' lines)) address (pos 80))
      sockets_only []
    ≡ verified (inet_fd both address (pos 80)) sockets_only []
socket_inet-serialize_all_example =
    socket_inet-serialize_all sockets_only [] both address (pos 80) both-AllPlain (elsewhere, tt)

-- The lookup returns the descriptor, after one `fstat` of it.
found :
    socket_inet (some (codes "a,1,4;10.0.0.1,80,5")) address (pos 80) sockets_only []
    ≡ done (pos 5, stat (pos 5) ∷ [])
unfolding socket_inet value leading is_digit
found = refl

-- An entry that ends behind its port lacks the descriptor: a null pointer is followed.
cut_short :
    socket_inet (some (codes "10.0.0.1,80")) address (pos 80) sockets_only []
    ≡ fault Fault.null_pointer
unfolding socket_inet value leading is_digit
cut_short = refl
