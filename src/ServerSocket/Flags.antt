-- ===== src/ServerSocket/Flags.antt =====
-- `setNonBlocking` and `setCloseOnExec` (lib/ServerSocket.cpp) against the tests of the same flags.
use libxio.Base.{
  ℕ, ◌≡◌, ◌⊎◌, refl, sym, ap, ◌∙◌, Bool, true, false, none, some, ◌∷◌, done, Returns, Returns-mono,
  arith, inl, inr, if◌then◌else◌,
}
use libxio.System.{
  Os, History, Call, Answer, ok, error, Sys, ◌>>=◌, pure, call, test, failure, word, has_bit,
  set_bit, clear_bit, nonblock,
}
use libxio.System.Call.{get_fl, set_fl, get_fd, set_fd}
use libxio.ServerSocket.{
  ServerSocket, set_non_blocking, is_non_blocking, set_close_on_exec, is_close_on_exec,
}

-- What `fcntl` documents of one word of flags of a descriptor, in which a bit may be changed: it has a
-- value after every sequence of calls, which one call returns. The other call, if it succeeds, sets
-- the bit; it ignores some of the other bits, so that only a word that agrees with the old one in
-- them is known to be the new value.
pub record IsWord (os : Os) (get : Call) (set : ℕ → Call) (bit : ℕ) (value : History → ℕ)
    : Type 0 where
  pub reads : (h : History) → os h get ≡ ok (value h)
  pub kept : (h : History) → value (get ∷ h) ≡ value h
  pub sets :
      (h : History) (g k : ℕ)
      → os h (set g) ≡ ok k
      → clear_bit bit g ≡ clear_bit bit (value h)
      → value (set g ∷ h) ≡ g
  pub fails : (h : History) (g e : ℕ) → os h (set g) ≡ error e → value (set g ∷ h) ≡ value h

-- The steps that the setters share: read the word, change it, write it.
abbrev change : Call → (ℕ → Call) → (ℕ → ℕ) → Sys Bool
change get set f = do
  old ← call get
  res ← test (set (f (word old)))
  pure (elim res [ none ↦ true | some e ↦ false ])

module _ (os : Os) (get : Call) (set : ℕ → Call) (bit : ℕ) (value : History → ℕ)
    (w : IsWord os get set bit value) where
  -- The word was changed, or the call failed and it was not.
  abbrev Changed : (ℕ → ℕ) → History → Bool × History → Type 0
  Changed f h r =
      ((r.0 ≡ true) × (value r.1 ≡ f (value h))) ⊎ ((r.0 ≡ false) × (value r.1 ≡ value h))

  change-Changed :
      (f : ℕ → ℕ)
      → ((n : ℕ) → clear_bit bit (f n) ≡ clear_bit bit n)
      → (h : History) → Returns (Changed f h) (change get set f os h)
  change-Changed f keeps h = rw (w.reads h) (settle (os (get ∷ h) (set (f (value h)))) refl)
    where
      settle :
          (a : Answer)
          → os (get ∷ h) (set (f (value h))) ≡ a
          → Changed f h
              (elim (failure a) [ none ↦ true | some e ↦ false ], set (f (value h)) ∷ (get ∷ h))
      settle (ok k) e = inl (
        refl,
        w.sets (get ∷ h) (f (value h)) k e (keeps (value h) ∙ ap (clear_bit bit) (sym (w.kept h))),
      )
      settle (error k) e = inr (refl, w.fails (get ∷ h) (f (value h)) k e ∙ w.kept h)

-- What setting and clearing one bit leave of a word.
abbrev ruled : Bool → ℕ → ℕ → ℕ
ruled enable k n = if enable then set_bit k n else clear_bit k n

ruled-nonblock :
    (enable : Bool) (n : ℕ)
    → (has_bit nonblock (ruled enable nonblock n) ≡ enable)
      × (clear_bit nonblock (ruled enable nonblock n) ≡ clear_bit nonblock n)
ruled-nonblock true n = (ground arith, ground arith)
ruled-nonblock false n = (ground arith, ground arith)

ruled-first :
    (enable : Bool) (n : ℕ)
    → (has_bit 0 (ruled enable 0 n) ≡ enable) × (clear_bit 0 (ruled enable 0 n) ≡ clear_bit 0 n)
ruled-first true n = (ground arith, ground arith)
ruled-first false n = (ground arith, ground arith)

module _ (os : Os) (s : ServerSocket) (value : History → ℕ) where
  -- A setter succeeded: the test then returns what was set, and the other flags are as before; or it
  -- failed, and all flags are as before.
  abbrev pub Set :
      (get : Call) (k : ℕ) (is_set : Sys Bool) → Bool → History → Bool × History → Type 0
  Set get k is_set enable h r =
      ((r.0 ≡ true)
        × (is_set os r.1 ≡ done (enable, get ∷ r.1))
        × (clear_bit k (value r.1) ≡ clear_bit k (value h)))
      ⊎ ((r.0 ≡ false) × (value r.1 ≡ value h))

  -- From a word that was changed by the rule to what the test sees.
  seen :
      (get : Call) (set : ℕ → Call) (k : ℕ) (is_set : Sys Bool) (enable : Bool) (h : History)
      → (w : IsWord os get set k value)
      → ((h' : History) → is_set os h' ≡ done (has_bit k (word (os h' get)), get ∷ h'))
      → ((n : ℕ)
          → (has_bit k (ruled enable k n) ≡ enable)
            × (clear_bit k (ruled enable k n) ≡ clear_bit k n))
      → (r : Bool × History) → Changed os get set k value w (ruled enable k) h r
      → Set get k is_set enable h r
  seen get set k is_set enable h w tested rule r (inr c) = inr c
  seen get set k is_set enable h w tested rule r (inl c) = inl (
    c.0,
    tested r.1
        ∙ ap (λ a. done (has_bit k (word a), get ∷ r.1)) (w.reads r.1)
        ∙ ap (λ n. done (has_bit k n, get ∷ r.1)) c.1
        ∙ ap (λ b. done (b, get ∷ r.1)) (rule (value h)).0,
    ap (clear_bit k) c.1 ∙ (rule (value h)).1,
  )

  -- After `setNonBlocking`, as `fcntl` documents a change of one status flag, `isNonBlocking` returns what was
  -- set, and the other flags are as before; or the call failed, and all flags are as before.
  pub set_non_blocking-Set :
      IsWord os (get_fl s.fd) (set_fl s.fd) nonblock value
      → (enable : Bool) (h : History)
      → Returns
          (Set (get_fl s.fd) nonblock (is_non_blocking s) enable h)
          (set_non_blocking enable s os h)
  unfolding set_non_blocking is_non_blocking
  set_non_blocking-Set w enable h =
      Returns-mono
        (Changed os (get_fl s.fd) (set_fl s.fd) nonblock value w (ruled enable nonblock) h)
        (Set (get_fl s.fd) nonblock (is_non_blocking s) enable h) (set_non_blocking enable s os h)
        (change-Changed os (get_fl s.fd) (set_fl s.fd) nonblock value w (ruled enable nonblock)
          (λ n. (ruled-nonblock enable n).1) h)
        (seen (get_fl s.fd) (set_fl s.fd) nonblock (is_non_blocking s) enable h w (λ h'. refl)
          (ruled-nonblock enable))

  -- `setCloseOnExec` and `isCloseOnExec` in the same way, as `fcntl` documents the descriptor's flags.
  pub set_close_on_exec-Set :
      IsWord os (get_fd s.fd) (set_fd s.fd) 0 value
      → (enable : Bool) (h : History)
      → Returns
          (Set (get_fd s.fd) 0 (is_close_on_exec s) enable h)
          (set_close_on_exec enable s os h)
  unfolding set_close_on_exec is_close_on_exec
  set_close_on_exec-Set w enable h =
      Returns-mono (Changed os (get_fd s.fd) (set_fd s.fd) 0 value w (ruled enable 0) h)
        (Set (get_fd s.fd) 0 (is_close_on_exec s) enable h) (set_close_on_exec enable s os h)
        (change-Changed os (get_fd s.fd) (set_fd s.fd) 0 value w (ruled enable 0)
          (λ n. (ruled-first enable n).1) h)
        (seen (get_fd s.fd) (set_fd s.fd) 0 (is_close_on_exec s) enable h w (λ h'. refl)
          (ruled-first enable))
