-- ===== src/Listen.antt =====
-- The listening sockets that a process inherits: the text of the environment variable
-- `XZERO_LISTEN_FDS`, which lib/ServerSocket.cpp, lib/InetServer.cpp and lib/UnixServer.cpp read, and
-- which the two `serialize` write.
pub mod Lookup
pub mod Inherited
pub mod Found
pub mod Tests
use libxio.Base.{
  ℕ, Bool, true, false, Option, none, some, List, [], ◌∷◌, ◌++◌, Bytes, length, take, Run, done,
  fault, Fault, ltb, ◌==◌, ◌-◌, get_elem?, ◌>>=◌, if◌then◌else◌,
}
use libxio.Base.Int.{ℤ}
use libxio.Decimal.{print_int}
use libxio.Text.{tokens, atoi}

-- `strtok_r` for the k-th word of a line, whose result is used with no test for null.
abbrev pub field : List Bytes → ℕ → Run Bytes
field ws k = elim (get_elem? ws k) [ none ↦ fault Fault.null_pointer | some w ↦ done w ]

-- `atoi` of it.
unfoldable pub number : List Bytes → ℕ → Run ℤ
unfolding atoi
number ws k = field ws k >>= atoi

-- The descriptor is the third word of a TCP socket's line and the second of a local one's.
unfoldable pub inherited_fd : List Bytes → Run ℤ
unfolding atoi number
inherited_fd ws = elim (get_elem? ws 2) [ some w ↦ atoi w | none ↦ number ws 1 ]

unfoldable pub inherited_loop : List Bytes → Run (List ℤ)
unfolding inherited_fd
inherited_loop [] = done []
inherited_loop (t ∷ ts) =
    inherited_fd (tokens b',' t) >>= λ fd. inherited_loop ts >>= λ fds. done (fd ∷ fds)

-- `ServerSocket::getInheritedSocketList`; the argument is the variable's value, if it is set.
unfoldable pub inherited_list : Option Bytes → Run (List ℤ)
unfolding inherited_loop tokens
inherited_list none = done []
inherited_list (some e) = inherited_loop (tokens b';' e)

-- `snprintf(buf, cap, …)` and then `std::string(buf, n)` with the n bytes that there were to print:
-- a zero byte ends `buf`, and behind it lies what `buf` does not have.
unfoldable pub formatted : (cap : ℕ) → Bytes → Run Bytes
formatted cap s =
    if ltb (length s) cap
    then done s
    else if length s == cap
    then done (take (cap - 1) s ++ (0 ∷ []))
    else fault Fault.out_of_bounds

abbrev pub inet_line : Bytes → ℤ → ℤ → Bytes
inet_line address port fd = address ++ (b',' ∷ (print_int port ++ (b',' ∷ print_int fd)))

-- `InetServer::serialize` and `UnixServer::serialize`.
unfoldable pub serialize_inet : Bytes → ℤ → ℤ → Run Bytes
unfolding formatted
serialize_inet address port fd = formatted 1024 (inet_line address port fd)

abbrev pub unix_line : Bytes → ℤ → Bytes
unix_line path fd = path ++ (b',' ∷ print_int fd)

unfoldable pub serialize_unix : Bytes → ℤ → Run Bytes
unfolding formatted
serialize_unix path fd = formatted 4096 (unix_line path fd)
