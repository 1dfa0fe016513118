-- ===== src/Socket/Tests.antt =====
-- A client socket at concrete values, and the witnesses of the properties.
use libxio.Base.{
  none, ◌≢◌, Ensures, ℕ, zero, suc, ◌^◌, ◌≡◌, refl, Bool, true, false, some, [], ◌∷◌, replicate,
  fault, Fault, Returns,
}
use libxio.Base.Int.{pos}
use libxio.Address.{IpAddress, v4}
use libxio.System.{Os, History, ok, error, ◌>>=◌}
use libxio.System.Call.{socket, connect, so_error, write}
use libxio.Socket.{Socket, connecting, operational, new, new_with, on, timeout_event, connected_bit}
use libxio.Socket.Connect.{io, expired, fire_all, Settled, fire_all-on}
use libxio.Socket.Steps.{io_ready, plain, act}
use libxio.Socket.Lifecycle.{Moves, act-Moves}

-- Times are seconds here.
abbrev is_set : ℕ → Bool
is_set zero = false
is_set (suc n) = true

abbrev home : IpAddress
home = record { family = v4; buf = 127 ∷ (0 ∷ (0 ∷ (1 ∷ replicate 12 0))) }

-- The descriptor 5 is the next, connections are under way and then refused.
abbrev refusing : Os
refusing h (socket f t) = ok 5
refusing h (connect fd a) = error 115
refusing h (so_error fd) = ok 111
refusing h _ = ok 0

abbrev pending : Socket ℕ
pending = new_with 0 (pos 5) connecting

fire_all-on_example :
    Returns (Settled (io 2) refusing pending []) (
      (on (2 ^ connected_bit) 30 pending >>= fire_all (io 2 ∷ (expired ∷ (io 1 ∷ [])))) refusing [])
fire_all-on_example =
    fire_all-on (io 2) (expired ∷ (io 1 ∷ [])) refusing (2 ^ connected_bit) 30 pending [] refl refl
      refl

abbrev watched : Socket ℕ
watched = record (new_with 0 (pos 5) operational) { timer = some 30 }

-- A timeout on a socket that `watch` alone watches calls a handler that is not there.
no_handler : timeout_event watched refusing [] ≡ fault Fault.bad_call
unfolding timeout_event
no_handler = refl

abbrev after_open : Socket ℕ
after_open = record (new 0) { fd = pos 5; state = connecting }

abbrev open_calls : History
open_calls =
    connect (pos 5) (2 ∷ (0 ∷ (0 ∷ (80 ∷ (127 ∷ (0 ∷ (0 ∷ (1 ∷ replicate 8 0))))))))
    ∷ (socket 2 1 ∷ [])

-- A byte is written, and the socket closed.
abbrev write_calls : History
write_calls = write (pos 5) (1 ∷ []) ∷ open_calls

abbrev pending_watched : Socket ℕ
pending_watched = record pending { watcher = some (pos 5, 2) }

watching : pending_watched.watcher ≢ none
watching e = absurd (cc)

act-Moves_example :
    Ensures
      (λ p. Moves connecting p.0.state)
      (act is_set 115 (plain (io_ready 2)) pending_watched refusing [])
act-Moves_example = act-Moves is_set 115 refusing (plain (io_ready 2)) pending_watched [] watching
