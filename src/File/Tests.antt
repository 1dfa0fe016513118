-- ===== src/File/Tests.antt =====
-- The watch of a file at concrete calls.
use libxio.Base.{[], ◌∷◌, ◌≡◌, refl, done}
use libxio.Base.Int.{pos, negsuc}
use libxio.System.{Os, ok, ◌>>=◌}
use libxio.System.Call.{watch_file, unwatch_file}
use libxio.File.{new, update_times, clear_cache, update_cache, added}

-- Each watch gets the number of those before it.
abbrev counting : Os
counting h c = ok (added h)

-- Of two watches the first one stays.
one_stays :
    (update_times 2 (new (97 ∷ [])) >>= clear_cache) counting []
    ≡ done (
      new (97 ∷ []),
      unwatch_file (pos 1)
          ∷ (watch_file (97 ∷ []) ∷ (watch_file (97 ∷ []) ∷ (unwatch_file (negsuc 0) ∷ []))),
    )
unfolding update_times update_cache clear_cache
one_stays = refl
