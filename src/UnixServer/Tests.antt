-- ===== src/UnixServer/Tests.antt =====
-- A local server at concrete values, and the witnesses of the properties.
use libxio.Base.{◌^◌, refl, true, none, [], ◌∷◌, Bytes, Returns}
use libxio.Base.Int.{pos}
use libxio.Listen.Lookup.{socket_unix}
use libxio.System.{Os, ok}
use libxio.System.Call.{socket}
use libxio.Server.{Process}
use libxio.Server.Outcome.{Opened}
use libxio.UnixServer.{UnixServer, new_unix, base_of, open_unix}
use libxio.UnixServer.Open.{open_unix-Opened}

abbrev alone : Process
alone = record { listen_fds = none; sd_count = 0; strerror = λ e. [] }

abbrev five : Os
five h (socket f t) = ok 5
five h _ = ok 0

abbrev path : Bytes
path = b'/' ∷ (b'x' ∷ [])

open_unix-Opened_example :
    Returns
      (Opened base_of (2 ^ 11))
      (open_unix 36 alone path (2 ^ 11) (new_unix (pos 128)) five [])
unfolding socket_unix
open_unix-Opened_example =
    open_unix-Opened five 36 alone path (2 ^ 11) (new_unix (pos 128)) [] refl tt

abbrev server : UnixServer
server = record {
  base = record ((new_unix (pos 128)).base) { fd = pos 5; active = true };
  path = path;
}
