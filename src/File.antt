-- ===== src/File.antt =====
-- The watch on a file, lib/File.cpp: `inotify_` is the watch's number or -1.
mod Tests
use libxio.Base.{
  ℕ, zero, suc, ◌+◌, ◌≡◌, refl, ap, ◌∙◌, Bool, true, false, Option, none, some, [], ◌∷◌, ◌++◌,
  Bytes, Run, done, Returns, Returns-mono, Bool-cases, inl, inr, ◌==◌, if◌then◌else◌, arith,
}
use libxio.Base.Int.{ℤ, pos, negsuc}
use libxio.System.{
  Sys, Os, History, Call, Answer, ok, error, ◌>>=◌, ◌>>◌, pure, call, is_fd, result, Returns-then,
}
use libxio.System.Call.{watch_file, unwatch_file}

-- The fields that change: the path, and the watch.
pub record File : Type 0 where
  pub path : Bytes
  pub inotify : ℤ

abbrev pub new : Bytes → File
new path = record { path = path; inotify = negsuc 0 }

-- `updateCache`; it always returns false. The old watch is removed if its number is negative.
unfoldable pub add_watch : File → Sys File
add_watch f = call (watch_file f.path) >>= λ a. pure (record f { inotify = result a })

unfoldable pub update_cache : File → Sys File
unfolding add_watch
update_cache f =
    if is_fd f.inotify then add_watch f else (call (unwatch_file f.inotify) >> add_watch f)

-- `clearCache`, and the destructor, which does the same; `inotify_` is -1 or a watch.
unfoldable pub clear_cache : File → Sys File
clear_cache f =
    if is_fd f.inotify
    then call (unwatch_file f.inotify) >> pure (record f { inotify = negsuc 0 })
    else pure f

-- `updateCache` called n times.
unfoldable pub update_times : ℕ → File → Sys File
unfolding update_cache
update_times zero f = pure f
update_times (suc n) f = update_cache f >>= update_times n

-- How many watches were added, and how many removed.
abbrev adding : Call → Bool
adding (watch_file p) = true
adding _ = false

abbrev removing : Call → Bool
removing (unwatch_file wd) = is_fd wd
removing _ = false

abbrev pub added : History → ℕ
added [] = 0
added (c ∷ h) = if adding c then suc (added h) else added h

abbrev pub removed : History → ℕ
removed [] = 0
removed (c ∷ h) = if removing c then suc (removed h) else removed h

-- The system numbers the watches.
module _ (os : Os) (number : History → ℕ)
    (grants : (h : History) (path : Bytes) → os h (watch_file path) ≡ ok (number h)) where
  abbrev Watched : History → ℕ → File × History → Type 0
  Watched h n r = (is_fd r.0.inotify ≡ true) × (added r.1 ≡ added h + n) × (removed r.1 ≡ removed h)

  add_watch-Watched : (f : File) (h : History) → Returns (Watched h 1) (add_watch f os h)
  unfolding add_watch
  add_watch-Watched f h = (ap (λ a. is_fd (result a)) (grants h f.path), omega arith, refl)

  update_cache-Watched : (f : File) (h : History) → Returns (Watched h 1) (update_cache f os h)
  unfolding update_cache
  update_cache-Watched f h = elim (Bool-cases (is_fd f.inotify)) [
    | inl up ↦ rw up (add_watch-Watched f h)
    | inr down ↦ rw down (
      ap (λ a. is_fd (result a)) (grants (unwatch_file f.inotify ∷ h) f.path),
      omega arith,
      rw down refl,
    )
  ]

  update_times-Watched :
      (n : ℕ) (f : File) (h : History)
      → is_fd f.inotify ≡ true
      → Returns (Watched h n) (update_times n f os h)
  unfolding update_times
  update_times-Watched zero f h up = (up, omega arith, refl)
  update_times-Watched (suc n) f h up =
      Returns-then (Watched h 1) (Watched h (suc n)) (update_cache f) (update_times n) os h
        (update_cache-Watched f h)
        (λ r k.
          Returns-mono (Watched r.1 n) (Watched h (suc n)) (update_times n r.0 os r.1)
            (update_times-Watched n r.0 r.1 k.0)
            (λ r' k'. (k'.0, omega (arith, k'.1, k.1), k'.2 ∙ k.2)))

  clear_cache-Watched :
      (f : File) (h : History)
      → is_fd f.inotify ≡ true
      → Returns (λ r. (added r.1 ≡ added h) × (removed r.1 ≡ suc (removed h))) (clear_cache f os h)
  unfolding clear_cache
  clear_cache-Watched f h up = rw up (refl, rw up refl)

  -- A new file that is updated n + 1 times and then cleared or destroyed has added n + 1 watches and
  -- removed one of them: each update but the first leaves a watch behind.
  pub clear_cache-update_times :
      (n : ℕ) (path : Bytes)
      → Returns
          (λ r. (added r.1 ≡ suc n) × (removed r.1 ≡ 1))
          ((update_times (suc n) (new path) >>= clear_cache) os [])
  unfolding update_times
  clear_cache-update_times n path =
      Returns-then (Watched [] (suc n)) (λ r. (added r.1 ≡ suc n) × (removed r.1 ≡ 1))
        (update_times (suc n) (new path)) clear_cache os []
        (Returns-then (Watched [] 1) (Watched [] (suc n)) (update_cache (new path)) (update_times n)
          os [] (update_cache-Watched (new path) [])
          (λ r k.
            Returns-mono (Watched r.1 n) (Watched [] (suc n)) (update_times n r.0 os r.1)
              (update_times-Watched n r.0 r.1 k.0)
              (λ r' k'. (k'.0, omega (arith, k'.1, k.1), k'.2 ∙ k.2))))
        (λ r k.
          Returns-mono (λ r'. (added r'.1 ≡ added r.1) × (removed r'.1 ≡ suc (removed r.1)))
            (λ r'. (added r'.1 ≡ suc n) × (removed r'.1 ≡ 1)) (clear_cache r.0 os r.1)
            (clear_cache-Watched r.0 r.1 k.0) (λ r' c. (c.0 ∙ k.1 ∙ omega arith, c.1 ∙ ap suc k.2)))
