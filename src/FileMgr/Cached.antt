-- ===== src/FileMgr/Cached.antt =====
-- What `query` returns, and how old it may be.
use libxio.Base.{
  ℕ, zero, suc, ◌||◌, ◌+◌, ◌-◌, ◌<◌, ◌≤◌, ◌≡◌, ◌≢◌, ◌⊎◌, refl, sym, ap, ◌∙◌, true, false, Option,
  none, some, List, [], ◌∷◌, ◌++◌, Bytes, length, take, Run, done, fault, Returns, Returns-bind,
  ltb, ◌==◌, arith, Bool-cases, inl, inr, subst, ltb→lt, lt→ltb, take-append_left, take-all,
  length-append, done-injective,
}
use libxio.Base.Int.{ℤ, pos, negsuc}
use libxio.Text.{same, same_refl, same_sound}
use libxio.FileMgr.{
  Config, Info, Cache, find, erase, insert, is_valid, watched, last, normalized, built, create,
  look_up, query, queries,
}

-- The name under which `query` keeps a file: without one slash at its end.
abbrev value : Run Bytes → Bytes
value (done k) = k
value (fault e) = []

abbrev pub key : Bytes → Bytes
key s = value (normalized s)

last-some : (s : Bytes) → s ≢ [] → (x : ℕ) × (last s ≡ some x)
unfolding last
last-some [] ne = absurd (ne refl)
last-some (x ∷ []) ne = (x, refl)
last-some (x ∷ (y ∷ s)) ne = last-some (y ∷ s) (λ e. cc)

normalized-done : (s : Bytes) → s ≢ [] → normalized s ≡ done (key s)
unfolding normalized
normalized-done s ne = let (x, e) = last-some s ne in step x e
  where
    step : (x : ℕ) → last s ≡ some x → normalized s ≡ done (key s)
    step x e = elim (Bool-cases (x == b'/')) [
      | inl q ↦ rw (e, q, normalized) refl
      | inr q ↦ rw (e, q, normalized) refl
    ]

last-append : (s : Bytes) (c : ℕ) → last (s ++ (c ∷ [])) ≡ some c
unfolding last
last-append [] c = refl
last-append (x ∷ []) c = refl
last-append (x ∷ (y ∷ s)) c = last-append (y ∷ s) c

key-slash : (s : Bytes) → key (s ++ (b'/' ∷ [])) ≡ s
unfolding normalized
key-slash s =
    rw (last-append s b'/', normalized)
      (ap (λ n. take n (s ++ (b'/' ∷ []))) (length_one s)
        ∙ take-append_left (length s) s (b'/' ∷ []) (omega arith)
        ∙ take-all (length s) s (omega arith))
  where
    length_one : (s : Bytes) → length (s ++ (b'/' ∷ [])) - 1 ≡ length s
    length_one s = omega (arith, length-append {0} s (b'/' ∷ []))

-- Names that are not empty, at times that do not go back.
abbrev pub Asked : ℕ → List (ℕ × Bytes) → Type 0
Asked start [] = Unit
Asked start ((now, name) ∷ qs) = (start ≤ now) × (name ≢ []) × Asked now qs

module _ (fresh : Bytes → ℕ → Info) (c : Config) where
  -- Every entry was built for its key, not in the future.
  abbrev pub Dated : ℕ → Cache → Type 0
  Dated now [] = Unit
  Dated now ((k, fi) ∷ m) = ((t : ℕ) × (t ≤ now) × (fi ≡ built fresh c k t)) × Dated now m

  -- The identifier of a watch of the object is positive, or its own date is less than the time to live
  -- ago.
  abbrev pub Live : ℕ → Info → Type 0
  Live now fi = ((n : ℕ) × (fi.inotify_id ≡ pos (suc n))) ⊎ (now < fi.cached_at + c.cache_ttl)

  -- An object was built for the file, at this time, or earlier and is still live.
  abbrev pub Recent : Bytes → ℕ → Info → Type 0
  Recent name now fi = (t : ℕ) × (fi ≡ built fresh c name t) × (t ≤ now) × ((t ≡ now) ⊎ Live now fi)

  Dated-mono : (now now' : ℕ) (m : Cache) → now ≤ now' → Dated now m → Dated now' m
  Dated-mono now now' [] le d = tt
  Dated-mono now now' ((k, fi) ∷ m) le ((t, h, e), d) =
      ((t, omega arith, e), Dated-mono now now' m le d)

  Dated-erase : (now : ℕ) (k : Bytes) (m : Cache) → Dated now m → Dated now (erase k m)
  unfolding erase
  Dated-erase now k [] d = tt
  Dated-erase now k ((j, fi) ∷ m) d = elim (Bool-cases (same j k)) [
    | inl e ↦ rw e (Dated-erase now k m d.1)
    | inr n ↦ rw n (d.0, Dated-erase now k m d.1)
  ]

  find-Dated :
      (now : ℕ) (k : Bytes) (m : Cache) (fi : Info)
      → Dated now m
      → find k m ≡ some fi
      → (t : ℕ) × (t ≤ now) × (fi ≡ built fresh c k t)
  unfolding find
  find-Dated now k [] fi d h = absurd (cc)
  find-Dated now k ((j, gi) ∷ m) fi ((t, le, e), d) h = elim (Bool-cases (same j k)) [
    | inl q ↦ (t, le, sym (first q h) ∙ e ∙ ap (λ n. built fresh c n t) (same_sound j k q))
    | inr n ↦ find-Dated now k m fi d (rest n h)
  ]
    where
      first : same j k ≡ true → find k ((j, gi) ∷ m) ≡ some fi → gi ≡ fi
      first q = rw q (λ h. injective h)
        where
          injective : {a b : Info} → some a ≡ some b → a ≡ b
          injective h = cc

      rest : same j k ≡ false → find k ((j, gi) ∷ m) ≡ some fi → find k m ≡ some fi
      rest n = rw n (λ h. h)

  -- What `query` returns stands in the cache afterwards.
  find-look_up :
      (now : ℕ) (k : Bytes) (m : Cache) (o : Option Info)
      → find k m ≡ o
      → find k (look_up fresh c now k m o).1 ≡ some (look_up fresh c now k m o).0
  unfolding look_up create insert find
  find-look_up now k m none e = rw (same_refl k) refl
  find-look_up now k m (some fi) e = elim (Bool-cases (is_valid c now fi)) [
    | inl v ↦ rw v e
    | inr n ↦ rw (n, same_refl k) refl
  ]

  look_up-live :
      (now : ℕ) (k : Bytes) (m : Cache) (fi : Info)
      → now < fi.cached_at + c.cache_ttl
      → look_up fresh c now k m (some fi) ≡ (fi, m)
  unfolding look_up is_valid
  look_up-live now k m fi live = elim (Bool-cases (watched fi.inotify_id)) [
    | inl e ↦ rw e refl
    | inr e ↦ rw (e, lt→ltb _ _ live) refl
  ]

  -- A query that comes before the object of an earlier one has passed its time to live, with or
  -- without a slash behind the name, returns the same object and leaves the cache alone.
  pub query-query :
      (now now' : ℕ) (name : Bytes) (cache cache' : Cache) (fi : Info)
      → name ≢ []
      → query fresh c now name cache ≡ done (fi, cache')
      → now' < fi.cached_at + c.cache_ttl
      → (query fresh c now' name cache' ≡ done (fi, cache'))
        × (query fresh c now' (key name ++ (b'/' ∷ [])) cache' ≡ done (fi, cache'))
  unfolding query
  query-query now now' name cache cache' fi ne h live = (
    rw (normalized-done name ne) again,
    rw (normalized-done (key name ++ (b'/' ∷ [])) (slashed (key name)), key-slash (key name)) again,
  )
    where
      slashed : (s : Bytes) → s ++ (b'/' ∷ []) ≢ []
      slashed [] e = cc
      slashed (x ∷ s) e = cc

      pair : (fi, cache') ≡ look_up fresh c now (key name) cache (find (key name) cache)
      pair = done-injective (sym h ∙ first)
        where
          first :
              query fresh c now name cache
              ≡ done (look_up fresh c now (key name) cache (find (key name) cache))
          first = rw (normalized-done name ne) refl

      kept : find (key name) cache' ≡ some fi
      kept =
          subst (λ (r : Info × Cache). find (key name) r.1 ≡ some r.0) (sym pair)
            (find-look_up now (key name) cache (find (key name) cache) refl)

      again :
          done (look_up fresh c now' (key name) cache' (find (key name) cache')) ≡ done (fi, cache')
      again = rw kept (ap done (look_up-live now' (key name) cache' fi live))

  -- The results of queries in their order.
  abbrev pub AllRecent : List (ℕ × Bytes) → List Info → Type 0
  AllRecent [] [] = Unit
  AllRecent [] (fi ∷ fs) = ⊥
  AllRecent ((now, name) ∷ qs) [] = ⊥
  AllRecent ((now, name) ∷ qs) (fi ∷ fs) = Recent (key name) now fi × AllRecent qs fs

  is_valid-Live : (now : ℕ) (fi : Info) → is_valid c now fi ≡ true → Live now fi
  unfolding is_valid
  is_valid-Live now fi v = settle fi.inotify_id refl v
    where
      settle :
          (z : ℤ)
          → fi.inotify_id ≡ z
          → (watched z || ltb now (fi.cached_at + c.cache_ttl)) ≡ true
          → Live now fi
      settle (negsuc n) e h = inr (ltb→lt _ _ h)
      settle (pos zero) e h = inr (ltb→lt _ _ h)
      settle (pos (suc n)) e h = inl (n, e)

  look_up-Recent :
      (now : ℕ) (k : Bytes) (m : Cache) (o : Option Info)
      → Dated now m
      → find k m ≡ o
      → Recent k now (look_up fresh c now k m o).0 × Dated now (look_up fresh c now k m o).1
  unfolding look_up create insert
  look_up-Recent now k m none d e =
      ((now, refl, omega arith, inl refl), ((now, omega arith, refl), Dated-erase now k m d))
  look_up-Recent now k m (some fi) d e = go (find-Dated now k m fi d e)
    where
      go :
          ((t : ℕ) × (t ≤ now) × (fi ≡ built fresh c k t))
          → Recent k now (look_up fresh c now k m (some fi)).0
            × Dated now (look_up fresh c now k m (some fi)).1
      go (t, le, q) = elim (Bool-cases (is_valid c now fi)) [
        | inl v ↦ rw v ((t, q, le, inr (is_valid-Live now fi v)), d)
        | inr n ↦ rw n (
          (now, refl, omega arith, inl refl),
          ((now, omega arith, refl), Dated-erase now k (erase k m) (Dated-erase now k m d)),
        )
      ]

  -- In any sequence of queries for names that are not empty, at times that do not go back, each query
  -- commits no fault and returns an object that was built for its file: at this time, or earlier and
  -- then with the identifier of a watch that is positive or with a date of its own that is less than
  -- the time to live ago.
  pub queries-Recent :
      (start : ℕ) (qs : List (ℕ × Bytes)) (cache : Cache)
      → Dated start cache
      → Asked start qs
      → Returns (λ r. AllRecent qs r.0) (queries fresh c qs cache)
  unfolding queries query
  queries-Recent start [] cache d a = tt
  queries-Recent start ((now, name) ∷ qs) cache d (le, ne, a) = rw (normalized-done name ne) (
      Returns-bind (λ r. AllRecent qs r.0) (λ r. AllRecent ((now, name) ∷ qs) r.0)
        (queries fresh c qs (look_up fresh c now (key name) cache (find (key name) cache)).1) _
        (queries-Recent now qs _ step.1 a) λ r all. (step.0, all))
    where
      step :
          Recent (key name) now (look_up fresh c now (key name) cache (find (key name) cache)).0
          × Dated now (look_up fresh c now (key name) cache (find (key name) cache)).1
      step =
          look_up-Recent now (key name) cache (find (key name) cache)
            (Dated-mono start now cache le d) refl
