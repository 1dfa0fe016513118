-- ===== src/InetServer/Tests.antt =====
-- A TCP server at concrete values, and the witnesses of the properties.
use libxio.Base.{some, map, ◌^◌, refl, false, none, [], ◌∷◌, Bytes, replicate, Returns}
use libxio.Base.Int.{pos}
use libxio.Address.{IpAddress, v4, v6}
use libxio.Listen.Lookup.{socket_inet}
use libxio.System.{Os, Call, ok, error}
use libxio.System.Call.{socket}
use libxio.Server.{Process}
use libxio.Text.{join}
use libxio.Listen.Inherited.{line}
use libxio.Listen.Tests.{address, both}
use libxio.Server.Outcome.{Opened}
use libxio.InetServer.{InetServer, new_inet, base_of, open_inet}
use libxio.InetServer.Open.{Accounted, open_inet-Opened, open_inet-Accounted}

abbrev alone : Process
alone = record { listen_fds = none; sd_count = 0; strerror = λ e. [] }

abbrev under_systemd : Process
under_systemd = record { listen_fds = none; sd_count = 2; strerror = λ e. [] }

abbrev home : IpAddress
home = record { family = v4; buf = 127 ∷ (0 ∷ (0 ∷ (1 ∷ replicate 12 0))) }

abbrev home6 : IpAddress
home6 = record { family = v6; buf = replicate 16 0 }

abbrev no_text : IpAddress → Bytes
no_text a = []

-- The descriptor 5 is the next; systemd's descriptors are no sockets, and nothing fails.
abbrev five : Os
five h (socket f t) = ok 5
five h _ = ok 0

-- Nothing listens twice on the port.
abbrev taken : Os
taken h (socket f t) = ok 5
taken h (Call.bind fd a) = error 98
taken h _ = ok 0

abbrev server : InetServer
server = new_inet (pos 128)

open_inet-Opened_example :
    Returns
      (Opened base_of (2 ^ 11))
      (open_inet false no_text alone home (pos 80) (2 ^ 11) server five [])
unfolding socket_inet
open_inet-Opened_example =
    open_inet-Opened five false alone home (pos 80) (2 ^ 11) no_text server [] refl refl tt

open_inet-Accounted_example :
    Returns
      (Accounted taken false alone home (pos 80) (2 ^ 11) [])
      (open_inet false no_text alone home (pos 80) (2 ^ 11) server taken [])
open_inet-Accounted_example =
    open_inet-Accounted taken false alone home (pos 80) (2 ^ 11) no_text server [] refl refl refl
      refl refl

-- The child of a process that serves 10.0.0.1 at port 80 on descriptor 5.
abbrev child : Process
child = record { listen_fds = some (join b';' (map line both)); sd_count = 0; strerror = λ e. [] }

abbrev by_text : IpAddress → Bytes
by_text a = address
