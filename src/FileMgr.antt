-- ===== src/FileMgr.antt =====
-- The cache of file information, include/xio/FileMgr.h and lib/FileMgr.cpp (there under the name
-- `FileInfoService`), with the switch HAVE_SYS_INOTIFY_H off as lib/FileMgr.cpp sets it. The class of
-- the cached objects is not in the repository: its constructor is a parameter. Times are whole ticks.
pub mod Mime
pub mod Cached
mod Tests
use libxio.Base.{
  ℕ, zero, suc, ◌+◌, ◌-◌, ◌≡◌, Bool, true, false, ◌&&◌, ◌||◌, not, Option, none, some, List, [],
  ◌∷◌, ◌++◌, Bytes, length, take, drop, Run, done, fault, Fault, ◌>>=◌, ltb, ◌==◌, if◌then◌else◌,
}
use libxio.Base.Int.{ℤ, pos, negsuc}
use libxio.Decimal.{print_int}
use libxio.Text.{same}
use libxio.BufferRef.{npos}
use mathlib.Core.List.{reverse}

-- A `std::unordered_map` with strings for keys.
module _ {A : Type 0} where
  unfoldable pub find : Bytes → List (Bytes × A) → Option A
  find k [] = none
  find k ((j, a) ∷ m) = if same j k then some a else find k m

  unfoldable pub erase : Bytes → List (Bytes × A) → List (Bytes × A)
  erase k [] = []
  erase k ((j, a) ∷ m) = if same j k then erase k m else (j, a) ∷ erase k m

  unfoldable pub insert : Bytes → A → List (Bytes × A) → List (Bytes × A)
  unfolding erase
  insert k a m = (k, a) ∷ erase k m

-- `FileMgr::Config`.
pub record Config : Type 0 where
  pub consider_mtime : Bool
  pub consider_size : Bool
  pub consider_inode : Bool
  pub mimetypes : List (Bytes × Bytes)
  pub default_mimetype : Bytes
  pub cache_ttl : ℕ

-- `Config::Config()`, for the bytes of `text/plain`.
abbrev pub new_config : Bytes → Config
new_config text_plain = record {
  consider_mtime = true;
  consider_size = true;
  consider_inode = false;
  mimetypes = [];
  default_mimetype = text_plain;
  cache_ttl = 10;
}

-- What the manager reads and writes of a cached object.
pub record Info : Type 0 where
  pub mtime : ℕ
  pub size : ℕ
  pub ino : ℕ
  pub inotify_id : ℤ
  pub cached_at : ℕ
  pub etag : Bytes
  pub mimetype : Bytes

abbrev pub Cache : Type 0
Cache = List (Bytes × Info)

-- One field of `make_etag`: the separator, if it is not the first one, and the number.
unfoldable pub etag_field : Bool → ℕ → ℕ × Bytes → ℕ × Bytes
etag_field false n (count, s) = (count, s)
etag_field true n (zero, s) = (1, s ++ print_int (pos n))
etag_field true n (suc count, s) = (suc (suc count), s ++ (b'-' ∷ print_int (pos n)))

unfoldable pub make_etag : Config → Info → Bytes
unfolding etag_field
make_etag c fi =
    (etag_field c.consider_inode fi.ino
      (etag_field c.consider_size fi.size (etag_field c.consider_mtime fi.mtime (0, b'"' ∷ [])))).1
    ++ (b'"' ∷ [])

-- `find_last_of` for one byte: its last index, or `npos`.
unfoldable pub last_index : ℕ → Bytes → Option ℕ
last_index c [] = none
last_index c (x ∷ s) = elim (last_index c s) [
  | some i ↦ some (suc i)
  | none ↦ if x == c then some 0 else none
]

abbrev pub position : Option ℕ → ℕ
position none = npos
position (some i) = i

unfoldable pub find_last_of : ℕ → Bytes → ℕ
find_last_of c s = position (last_index c s)

-- `while (ext.size()) …` over an extension that is given backwards.
abbrev pub known_or : Option Bytes → Bytes → Bytes
known_or (some m) d = m
known_or none d = d

unfoldable pub mime_loop : Config → Bytes → Bytes
mime_loop c [] = c.default_mimetype
mime_loop c (x ∷ ext) =
    known_or (find (reverse (x ∷ ext)) c.mimetypes)
      (if not (x == b'~') then c.default_mimetype else mime_loop c ext)

unfoldable pub get_mimetype : Config → Bytes → Bytes
get_mimetype c filename =
    let dot = find_last_of b'.' filename in
    if not (dot == npos) && ltb (find_last_of b'/' filename) dot
    then mime_loop c (reverse (drop (dot + 1) filename))
    else c.default_mimetype

-- The byte before the end.
unfoldable pub last : Bytes → Option ℕ
last [] = none
last (x ∷ []) = some x
last (x ∷ (y ∷ s)) = last (y ∷ s)

-- The name without a slash at its end. The test reads the byte before the end.
unfoldable pub normalized : Bytes → Run Bytes
unfolding last
normalized s = elim (last s) [
  | none ↦ fault Fault.out_of_bounds
  | some x ↦ if x == b'/' then done (take (length s - 1) s) else done s
]

-- `isValid`.
abbrev pub watched : ℤ → Bool
watched (pos n) = ltb 0 n
watched (negsuc n) = false

unfoldable pub is_valid : Config → ℕ → Info → Bool
is_valid c now fi = watched fi.inotify_id || ltb now (fi.cached_at + c.cache_ttl)

-- `FileInfo(*this, filename)` at a time, as far as the manager reads it.
module _ (fresh : Bytes → ℕ → Info) where
  -- A new object, with the two fields that `query` sets; the ETag is made of it first.
  abbrev pub built : Config → Bytes → ℕ → Info
  built c filename now = record (fresh filename now) {
    mimetype = get_mimetype c filename;
    etag = make_etag c (record (fresh filename now) { mimetype = get_mimetype c filename });
  }

  -- `query`, from the creation of an object on.
  unfoldable pub create : Config → ℕ → Bytes → Cache → Info × Cache
  create c now filename cache = (built c filename now, insert filename (built c filename now) cache)

  -- `query` for a name without the slash at its end, and what the cache has for it.
  unfoldable pub look_up : Config → ℕ → Bytes → Cache → Option Info → Info × Cache
  look_up c now filename cache none = create c now filename cache
  look_up c now filename cache (some fi) =
      if is_valid c now fi then (fi, cache) else create c now filename (erase filename cache)

  unfoldable pub query : Config → ℕ → Bytes → Cache → Run (Info × Cache)
  query c now name cache = do
    filename ← normalized name
    done (look_up c now filename cache (find filename cache))

  -- Queries one after the other, each with its time.
  unfoldable pub queries : Config → List (ℕ × Bytes) → Cache → Run (List Info × Cache)
  queries c [] cache = done ([], cache)
  queries c ((now, name) ∷ qs) cache = do
    (fi, cache') ← query c now name cache
    (rest, last) ← queries c qs cache'
    done (fi ∷ rest, last)
