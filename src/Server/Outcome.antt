-- ===== src/Server/Outcome.antt =====
-- What `open` of either kind of server leaves behind, from what its steps keep.
use libxio.Base.{
  ℕ, ◌+◌, ◌^◌, ◌≡◌, refl, sym, ap, ap₂, ◌∙◌, Bool, true, false, Option, none, some, Returns,
  Returns-mono, if◌then◌else◌, ◌==◌,
}
use libxio.Base.Int.{negsuc}
use libxio.System.{
  Sys, Os, History, ◌>>=◌, pure, is_fd, has_bit, clear_bit, nonblock, cloexec, clear_bit_lem,
  clear_both, Steps, attempt, Returns-then,
}
use libxio.ServerSocket.{ServerSocket, start}
use libxio.Server.{Process, finish, give_up, set_flags, step, complete}
use libxio.Server.Rules.{
  sockets, own, Balanced, Keeps, AllKeep, attempt-AllKeep, Finished, finish-Finished,
}

bare_nonblock : (n : ℕ) → has_bit nonblock (clear_bit nonblock (clear_bit cloexec n)) ≡ false
bare_nonblock n = ap (λ k. k == 1) (clear_bit_lem (clear_bit cloexec n))

bare_cloexec : (n : ℕ) → has_bit cloexec (clear_bit nonblock (clear_bit cloexec n)) ≡ false
bare_cloexec n = ap (λ k. k == 1) (clear_both n)

-- `typeMask_`, which `accept4` puts on clients, has the two bits that were asked for, and `flags_`,
-- which clients get where there is no `accept4`, has neither.
pub record Flagged (asked flags type_mask : ℕ) : Type 0 where
  pub mask_nonblock : has_bit nonblock type_mask ≡ has_bit nonblock asked
  pub mask_cloexec : has_bit cloexec type_mask ≡ has_bit cloexec asked
  pub flags_nonblock : has_bit nonblock flags ≡ false
  pub flags_cloexec : has_bit cloexec flags ≡ false

pub set_flags-Flagged :
    (asked : ℕ) (b : ServerSocket)
    → Flagged asked (set_flags asked b).flags (set_flags asked b).type_mask
unfolding set_flags
set_flags-Flagged asked b = record {
  mask_nonblock = low (has_bit cloexec asked) (has_bit nonblock asked);
  mask_cloexec = high (has_bit cloexec asked) (has_bit nonblock asked);
  flags_nonblock = bare_nonblock asked;
  flags_cloexec = bare_cloexec asked;
}
  where
    low :
        (c n : Bool)
        → has_bit nonblock ((if c then 2 ^ cloexec else 0) + (if n then 2 ^ nonblock else 0)) ≡ n
    low true true = refl
    low true false = refl
    low false true = refl
    low false false = refl

    high :
        (c n : Bool)
        → has_bit cloexec ((if c then 2 ^ cloexec else 0) + (if n then 2 ^ nonblock else 0)) ≡ c
    high true true = refl
    high true false = refl
    high false true = refl
    high false false = refl

-- With the same two fields.
Flagged-same :
    (asked flags mask flags' mask' : ℕ)
    → flags' ≡ flags
    → mask' ≡ mask
    → Flagged asked flags mask
    → Flagged asked flags' mask'
Flagged-same asked flags mask flags' mask' e m f = record {
  mask_nonblock = ap (has_bit nonblock) m ∙ f.mask_nonblock;
  mask_cloexec = ap (has_bit cloexec) m ∙ f.mask_cloexec;
  flags_nonblock = ap (has_bit nonblock) e ∙ f.flags_nonblock;
  flags_cloexec = ap (has_bit cloexec) e ∙ f.flags_cloexec;
}

-- Open and watched if it returned true, and closed and not watched if it returned false, with these
-- flags.
abbrev pub Opened : {S : Type 0} → (S → ServerSocket) → ℕ → (Bool × S) × History → Type 0
Opened base asked r =
    (is_fd (base r.0.1).fd ≡ r.0.0)
    × ((base r.0.1).active ≡ r.0.0)
    × Flagged asked (base r.0.1).flags (base r.0.1).type_mask

-- A server with this base, of either kind.
module _ {S : Type 0} (base : S → ServerSocket) (put : ServerSocket → S → S)
    (base-put : (b : ServerSocket) (s : S) → base (put b s) ≡ b) (os : Os) where
  module _ (s₀ : S) (h₀ : History) where
    -- The descriptor, the flags and the watcher are as at the start, and no descriptor was made or
    -- closed.
    abbrev pub Ready : S → History → Type 0
    Ready s h =
        ((base s).fd ≡ (base s₀).fd)
        × ((base s).active ≡ (base s₀).active)
        × ((base s).flags ≡ (base s₀).flags)
        × Balanced os h₀ h
        × ((base s).type_mask ≡ (base s₀).type_mask)

    pub step-Keeps :
        (f : ServerSocket → Sys (Option ℕ))
        → ((b : ServerSocket) (h : History) → Returns (λ r. Balanced os h r.1) (f b os h))
        → Keeps os Ready (step base f)
    step-Keeps f quiet s h i =
        Returns-then (λ r. Balanced os h r.1) (λ r. Ready r.0.1 r.1) (f (base s))
          (λ res. pure (res, s)) os h (quiet (base s) h)
          (λ r q. (
            i.0,
            i.1,
            i.2,
            (q.0 ∙ i.3.0, λ x. ((q.1 x).0 ∙ (i.3.1 x).0, (q.1 x).1 ∙ (i.3.1 x).1)),
            i.4,
          ))

  pub start_Ready : (s : S) (h : History) → Ready s h s h
  start_Ready s h = (refl, refl, refl, (refl, λ x. (refl, refl)), refl)

  -- The outcome of `open` with a valid descriptor: the server ends open and watched, or closed.
  abbrev pub Outcome : S → History → (Bool × S) × History → Type 0
  Outcome s h r = Finished os (base s) h ((r.0.0, base r.0.1), r.1)

  pub complete-Finished :
      (p : Process) (steps : Steps S) (s : S) (h : History)
      → AllKeep os (Ready s h) steps
      → is_fd (base s).fd ≡ true
      → (base s).active ≡ false
      → Returns (Outcome s h) (complete base put p steps s os h)
  unfolding complete
  complete-Finished p steps s h keep up off =
      Returns-then (λ r. Ready s h r.0.1 r.1) (Outcome s h) (attempt steps s)
        (λ res. finish p res.0 (base res.1) >>= λ fin. pure (fin.0, put fin.1 res.1)) os h
        (attempt-AllKeep os (Ready s h) steps keep s h (start_Ready s h))
        (λ r i.
          Returns-then (Finished os (base r.0.1) r.1) (Outcome s h) (finish p r.0.0 (base r.0.1))
            (λ fin. pure (fin.0, put fin.1 r.0.1)) os r.1
            (finish-Finished os p r.0.0 (base r.0.1) r.1 (ap is_fd i.0 ∙ up) (i.1 ∙ off))
            (λ q f. rw (base-put q.0.1 r.0.1) (
              f.0,
              f.1,
              f.2 ∙ i.3.0,
              (λ x. (
                (f.3 x).0 ∙ (i.3.1 x).0,
                (f.3 x).1 ∙ ap₂ (λ c fd. c + own x fd) (i.3.1 x).1 i.0,
              )),
              f.4 ∙ i.2,
              f.5 ∙ i.4,
            )))

  pub complete-Opened :
      (p : Process) (steps : Steps S) (s : S) (h : History)
      → AllKeep os (Ready s h) steps
      → is_fd (base s).fd ≡ true
      → (base s).active ≡ false
      → (asked : ℕ) → Flagged asked (base s).flags (base s).type_mask
      → Returns (Opened base asked) (complete base put p steps s os h)
  complete-Opened p steps s h keep up off asked flagged =
      Returns-mono (Outcome s h) (Opened base asked) (complete base put p steps s os h)
        (complete-Finished p steps s h keep up off)
        (λ r f. (sym f.0, f.1, Flagged-same asked _ _ _ _ f.4 f.5 flagged))

-- The descriptor is the one that the steps began with if `open` returned true, else -1; and no other
-- was made.
module _ {S : Type 0} (base : S → ServerSocket) (put : ServerSocket → S → S)
    (base-put : (b : ServerSocket) (s : S) → base (put b s) ≡ b) (os : Os) where
  abbrev pub Adopts : S → History → (Bool × S) × History → Type 0
  Adopts s h r =
      ((base r.0.1).fd ≡ (if r.0.0 then (base s).fd else negsuc 0))
      × (sockets os r.1 ≡ sockets os h)

  finish-fd :
      (p : Process) (res : Option ℕ) (b : ServerSocket) (h : History)
      → is_fd b.fd ≡ true
      → b.active ≡ false
      → Returns
          (λ r. (r.0.1.fd ≡ (if r.0.0 then b.fd else negsuc 0)) × (sockets os r.1 ≡ sockets os h))
          (finish p res b os h)
  unfolding finish start give_up
  finish-fd p none b h up off = rw (up, off) (refl, refl)
  finish-fd p (some e) b h up off = rw up (refl, refl)

  pub complete-Adopts :
      (p : Process) (steps : Steps S) (s : S) (h : History)
      → AllKeep os (Ready base put base-put os s h) steps
      → is_fd (base s).fd ≡ true
      → (base s).active ≡ false
      → Returns (Adopts s h) (complete base put p steps s os h)
  unfolding complete
  complete-Adopts p steps s h keep up off =
      Returns-then (λ r. Ready base put base-put os s h r.0.1 r.1) (Adopts s h) (attempt steps s)
        (λ res. finish p res.0 (base res.1) >>= λ fin. pure (fin.0, put fin.1 res.1)) os h
        (attempt-AllKeep os (Ready base put base-put os s h) steps keep s h
          (start_Ready base put base-put os s h))
        (λ r i.
          Returns-then
            (λ q.
              (q.0.1.fd ≡ (if q.0.0 then (base r.0.1).fd else negsuc 0))
              × (sockets os q.1 ≡ sockets os r.1))
            (Adopts s h) (finish p r.0.0 (base r.0.1)) (λ fin. pure (fin.0, put fin.1 r.0.1)) os r.1
            (finish-fd p r.0.0 (base r.0.1) r.1 (ap is_fd i.0 ∙ up) (i.1 ∙ off))
            (λ q f.
              rw (base-put q.0.1 r.0.1)
                (f.0 ∙ ap (λ fd. if q.0.0 then fd else negsuc 0) i.0, f.1 ∙ i.3.0)))
