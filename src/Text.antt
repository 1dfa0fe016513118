-- ===== src/Text.antt =====
-- The functions of the C library on strings that lib/InetServer.cpp and its kin use: `strcmp`,
-- `strtok_r` and `atoi`.
use Prim.Native.Char.{code}
use Prim.Native.String
use Prim.Native.String.{String}
use libxio.Base.{[], ◌∷◌, Bytes}
mod Words
mod Numbers
unfoldable pub use Words.*
unfoldable pub use Numbers.*

-- The bytes of a literal in ASCII.
abbrev pub codes : String → Bytes
codes String.[] = []
codes (String.◌∷◌ c s) = code c ∷ codes s
