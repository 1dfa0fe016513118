-- ===== src/SocketDriver/Tests.antt =====
-- The witness of the property of the factory.
use libxio.Base.{ℕ, ◌∷◌, ◌++◌, [], Returns, replicate}
use libxio.Base.Int.{pos}
use libxio.Address.{IpAddress, v6}
use libxio.System.{Os, ok, error}
use libxio.System.Call.{socket, connect}
use libxio.SocketDriver.{Created, create, create-Created}

-- Times are seconds here.
abbrev zero_span : ℕ
zero_span = 0

abbrev home : IpAddress
home = record { family = v6; buf = replicate 15 0 ++ (1 ∷ []) }

-- Every connection is refused.
abbrev refusing : Os
refusing h (socket f t) = ok 5
refusing h (connect fd a) = error 111
refusing h _ = ok 0

create-Created_example :
    Returns (Created zero_span refusing []) (create zero_span home (pos 80) refusing [])
create-Created_example = create-Created zero_span refusing [] home (pos 80)
