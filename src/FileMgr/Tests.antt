-- ===== src/FileMgr/Tests.antt =====
-- A cache of two paths, and the types of names.
use libxio.Base.{
  Run, suc, zero, ℕ, ◌<◌, ◌≡◌, refl, List, [], ◌∷◌, ◌++◌, Bytes, none, some, map, done, Returns,
  ◌>>=◌, replicate, arith,
}
use libxio.Base.Int.{negsuc}
use libxio.Text.{codes, same}
use libxio.FileMgr.{
  Config, Info, find, new_config, get_mimetype, queries, query, normalized, look_up, create, insert,
  is_valid,
}
use libxio.FileMgr.Cached.{AllRecent, queries-Recent}
use libxio.FileMgr.Mime.{get_mimetype_lem}

-- A file whose size grows with the time.
abbrev growing : Bytes → ℕ → Info
growing name now = record {
  mtime = now;
  size = now;
  ino = 3;
  inotify_id = negsuc 0;
  cached_at = now;
  etag = [];
  mimetype = [];
}

abbrev config : Config
config = record (new_config (codes "text/plain")) {
  mimetypes = (codes "html", codes "text/html") ∷ [];
}

-- Three queries for one path, the last when the object is too old.
abbrev asked : List (ℕ × Bytes)
asked = (0, codes "/a/b.html") ∷ ((5, codes "/a/b.html/") ∷ ((12, codes "/a/b.html") ∷ []))

queries-Recent_example :
    Returns (λ r. AllRecent growing config asked r.0) (queries growing config asked [])
queries-Recent_example =
    queries-Recent growing config 0 asked [] tt
      (omega arith, (λ e. cc), (omega arith, (λ e. cc), (omega arith, (λ e. cc), tt)))

abbrev ages : Run (List ℕ)
ages = do (fs, _) ← queries growing config asked []; done (map (λ fi. fi.size) fs)

html_known : find (codes "html") config.mimetypes ≡ some (codes "text/html")
unfolding find same
html_known = refl

no_longer : (j : ℕ) → j < 1 → find (codes "html" ++ replicate (suc j) b'~') config.mimetypes ≡ none
unfolding find same
no_longer zero h = refl
no_longer (suc j) h = absurd (omega arith)

get_mimetype_lem_example : get_mimetype config (codes "/a/b.html~") ≡ codes "text/html"
get_mimetype_lem_example =
    get_mimetype_lem config (codes "html") (codes "text/html") html_known (codes "/a") (codes "b") 1
      (omega arith) (omega arith) (omega arith) (λ e. cc) no_longer (omega arith)

-- The sizes show which object each query returns.
aged : ages ≡ done (0 ∷ (0 ∷ (12 ∷ [])))
unfolding queries query normalized look_up find create insert same is_valid
aged = refl
