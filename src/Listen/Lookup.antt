-- ===== src/Listen/Lookup.antt =====
-- `getSocketInet` of lib/InetServer.cpp and `getSocketUnix` of lib/UnixServer.cpp: the lookup of an
-- inherited socket by its address.
use libxio.Base.{
  ℕ, Bool, Option, none, some, List, [], ◌∷◌, Bytes, ◌==◌, ◌/◌, ◌%◌, not, if◌then◌else◌,
}
use libxio.Base.Int.{ℤ, negsuc, same_int}
use libxio.Text.{tokens, same}
use libxio.System.{Sys, ok, error, ◌>>=◌, pure, call, from_run}
use libxio.System.Call.{stat}
use libxio.Listen.{field, number}

-- `S_ISSOCK(st_mode)`.
abbrev pub is_socket : ℕ → Bool
is_socket mode = mode / 4096 % 16 == 12

-- `fstat` on the descriptor that was found; -1 unless it is a socket.
unfoldable pub checked : ℤ → Sys ℤ
checked fd = call (stat fd) >>= λ st. elim st [
  | error e ↦ pure (negsuc 0)
  | ok mode ↦ if is_socket mode then pure fd else pure (negsuc 0)
]

-- One round of the loop in `getSocketInet` on the words of a line; `next` are the rounds after it.
unfoldable pub inet_round : List Bytes → Bytes → ℤ → Sys ℤ → Sys ℤ
unfolding same number checked
inet_round ws address port next = from_run (field ws 0) >>= λ addr.
    if not (same addr address)
    then next
    else from_run (number ws 1) >>= λ p.
        if not (same_int p port) then next else from_run (number ws 2) >>= checked

unfoldable pub inet_loop : List Bytes → Bytes → ℤ → Sys ℤ
unfolding inet_round tokens
inet_loop [] address port = pure (negsuc 0)
inet_loop (t ∷ ts) address port =
    inet_round (tokens b',' t) address port (inet_loop ts address port)

unfoldable pub socket_inet : Option Bytes → Bytes → ℤ → Sys ℤ
unfolding inet_loop
socket_inet none address port = pure (negsuc 0)
socket_inet (some e) address port = inet_loop (tokens b';' e) address port

-- The same for `getSocketUnix`.
unfoldable pub unix_round : List Bytes → Bytes → Sys ℤ → Sys ℤ
unfolding same number checked
unix_round ws path next = from_run (field ws 0) >>= λ addr.
    if not (same addr path) then next else from_run (number ws 1) >>= checked

unfoldable pub unix_loop : List Bytes → Bytes → Sys ℤ
unfolding unix_round tokens
unix_loop [] path = pure (negsuc 0)
unix_loop (t ∷ ts) path = unix_round (tokens b',' t) path (unix_loop ts path)

unfoldable pub socket_unix : Option Bytes → Bytes → Sys ℤ
unfolding unix_loop
socket_unix none path = pure (negsuc 0)
socket_unix (some e) path = unix_loop (tokens b';' e) path
