-- ===== src/Server/Rules.antt =====
-- Rules for the steps of `open`: what each step keeps, all keep; and what the labels behind them do
-- with descriptors.
use libxio.Base.{
  ℕ, zero, suc, ◌+◌, ◌≡◌, refl, sym, ap, ◌∙◌, Bool, true, false, Option, none, some, [], ◌∷◌, ◌++◌,
  Bool-cases, inl, inr, Run, done, fault, Returns, Returns-mono, arith, if◌then◌else◌,
}
use libxio.Base.Int.{ℤ, pos, negsuc, same_int}
use libxio.System.{
  Sys, Os, History, Call, Answer, ok, error, pure, from_run, is_fd, Steps, attempt, carry, call,
  ◌>>◌, Returns-then,
}
use libxio.System.Call.{socket, close}
use libxio.ServerSocket.{ServerSocket, start}
use libxio.Server.{Process, finish, give_up, sd_next, sd_loop}

-- How many descriptors the system has made for the process with `socket`; and, of one descriptor, how
-- often the system has made it and how often the process has closed it.
abbrev pub made : Call → Answer → Bool
made (socket f t) (ok n) = true
made _ _ = false

abbrev pub sockets : Os → History → ℕ
sockets os [] = 0
sockets os (c ∷ h) = if made c (os h c) then suc (sockets os h) else sockets os h

abbrev pub made_as : ℤ → Call → Answer → Bool
made_as x (socket f t) (ok n) = same_int (pos n) x
made_as x _ _ = false

abbrev pub opens : ℤ → Os → History → ℕ
opens x os [] = 0
opens x os (c ∷ h) = if made_as x c (os h c) then suc (opens x os h) else opens x os h

abbrev closing : ℤ → Call → Bool
closing x (close fd) = same_int fd x
closing x _ = false

abbrev pub closes : ℤ → History → ℕ
closes x [] = 0
closes x (c ∷ h) = if closing x c then suc (closes x h) else closes x h

-- How often an object that keeps `fd`, or -1 for none, keeps a descriptor.
abbrev pub own : (x fd : ℤ) → ℕ
own x (pos n) = if same_int (pos n) x then 1 else 0
own x (negsuc n) = 0

pub closes-own :
    (x fd : ℤ) (h : History) → is_fd fd ≡ true → closes x (close fd ∷ h) ≡ closes x h + own x fd
closes-own x (negsuc n) h up = absurd (cc)
closes-own x (pos n) h up = elim (Bool-cases (same_int (pos n) x)) [
  | inl e ↦ rw e (omega arith)
  | inr e ↦ rw e (omega arith)
]

-- A call of `socket` that makes a descriptor, and one that fails.
pub opens-made :
    (x : ℤ) (os : Os) (h : History) (f t n : ℕ)
    → os h (socket f t) ≡ ok n
    → opens x os (socket f t ∷ h) ≡ opens x os h + own x (pos n)
opens-made x os h f t n given =
    ap (λ y. if made_as x (socket f t) y then suc (opens x os h) else opens x os h) given
    ∙ count (same_int (pos n) x)
  where
    count :
        (b : Bool)
        → (if b then suc (opens x os h) else opens x os h) ≡ opens x os h + (if b then 1 else 0)
    count true = omega arith
    count false = omega arith

pub opens-refused :
    (x : ℤ) (os : Os) (h : History) (f t e : ℕ)
    → os h (socket f t) ≡ error e
    → opens x os (socket f t ∷ h) + closes x h ≡ closes x h + opens x os h + 0
opens-refused x os h f t e given =
    ap (λ y. (if made_as x (socket f t) y then suc (opens x os h) else opens x os h) + closes x h)
      given
    ∙ omega arith

module _ (os : Os) where
  -- The counts did not change.
  abbrev pub Balanced : History → History → Type 0
  Balanced h h' =
      (sockets os h' ≡ sockets os h)
      × ((x : ℤ) → (opens x os h' ≡ opens x os h) × (closes x h' ≡ closes x h))

  module _ {S : Type 0} (Inv : S → History → Type 0) where
    abbrev pub Keeps : (S → Sys (Option ℕ × S)) → Type 0
    Keeps p = (s : S) (h : History) → Inv s h → Returns (λ r. Inv r.0.1 r.1) (p s os h)

    abbrev pub AllKeep : Steps S → Type 0
    AllKeep [] = Unit
    AllKeep (p ∷ ps) = Keeps p × AllKeep ps

    pub AllKeep-append : (ps qs : Steps S) → AllKeep ps → AllKeep qs → AllKeep (ps ++ qs)
    AllKeep-append [] qs h k = k
    AllKeep-append (p ∷ ps) qs h k = (h.0, AllKeep-append ps qs h.1 k)

    pub attempt-AllKeep : (ps : Steps S) → AllKeep ps → Keeps (attempt ps)
    unfolding attempt
    attempt-AllKeep [] k s h i = i
    attempt-AllKeep (p ∷ ps) k s h i =
        Returns-then (λ r. Inv r.0.1 r.1) (λ r. Inv r.0.1 r.1) (p s) (carry (attempt ps)) os h
          (k.0 s h i) (after (attempt-AllKeep ps k.1))
      where
        after :
            Keeps (attempt ps)
            → (r : (Option ℕ × S) × History) → Inv r.0.1 r.1
            → Returns (λ r'. Inv r'.0.1 r'.1) (carry (attempt ps) r.0 os r.1)
        after rest ((none, s'), h') j = rest s' h' j
        after rest ((some e, s'), h') j = j

  -- Behind the steps: with a valid descriptor and the watcher stopped, either the socket ends open and
  -- watched and the counts are as they were, or it ends without a descriptor and the one that it had
  -- was closed.
  abbrev pub Finished : ServerSocket → History → (Bool × ServerSocket) × History → Type 0
  Finished s h r =
      (r.0.0 ≡ is_fd r.0.1.fd)
      × (r.0.1.active ≡ r.0.0)
      × (sockets os r.1 ≡ sockets os h)
      × ((x : ℤ)
          → (opens x os r.1 ≡ opens x os h)
            × (closes x r.1 + own x r.0.1.fd ≡ closes x h + own x s.fd))
      × (r.0.1.flags ≡ s.flags)
      × (r.0.1.type_mask ≡ s.type_mask)

  give_up-Finished :
      (s : ServerSocket) (h : History)
      → is_fd s.fd ≡ true
      → s.active ≡ false
      → Returns (Finished s h) (give_up s os h)
  unfolding give_up
  give_up-Finished s h up off = through (is_fd s.fd) up
    where
      through :
          (b : Bool)
          → b ≡ true
          → Returns (Finished s h) (
              (if b
                  then call (close s.fd) >> pure (false, record s { fd = negsuc 0 })
                  else pure (false, s))
                os h)
      through true e =
          (refl, off, refl, (λ x. (refl, omega (arith, closes-own x s.fd h up))), refl, refl)
      through false e = absurd (cc)

  pub finish-Finished :
      (p : Process) (res : Option ℕ) (s : ServerSocket) (h : History)
      → is_fd s.fd ≡ true
      → s.active ≡ false
      → Returns (Finished s h) (finish p res s os h)
  unfolding finish start
  finish-Finished p none s h up off =
      rw (up, off) (sym up, refl, refl, (λ x. (refl, refl)), refl, refl)
  finish-Finished p (some e) s h up off =
      give_up-Finished (record s { error_text = p.strerror e }) h up off

  -- A run without calls.
  pub from_run-Returns :
      {A : Type 0} (P : A → Type 0) (r : Run A) (h : History)
      → Returns P r
      → Returns (λ p. P p.0 × (p.1 ≡ h)) (from_run r os h)
  from_run-Returns P (done a) h k = (k, refl)
  from_run-Returns P (fault e) h k = k

  -- The search among systemd's descriptors ends, and behind the last one if none matches.
  pub sd_loop-Returns :
      (matches : ℤ → Sys Bool)
      → ((fd : ℤ) (h : History) → Returns (λ _. Unit {0}) (matches fd os h))
      → (n fd : ℕ) (h : History) → Returns (λ _. Unit {0}) (sd_loop matches n fd os h)
  unfolding sd_loop
  sd_loop-Returns matches total zero fd h = tt
  sd_loop-Returns matches total (suc n) fd h =
      Returns-then (λ _. Unit) (λ _. Unit) (matches (pos fd))
        (sd_next fd (sd_loop matches n (suc fd))) os h (total (pos fd) h)
        (λ r u. after (λ h'. sd_loop-Returns matches total n (suc fd) h') r)
    where
      after :
          ((h' : History) → Returns (λ _. Unit {0}) (sd_loop matches n (suc fd) os h'))
          → (r : Bool × History)
          → Returns (λ _. Unit {0}) (sd_next fd (sd_loop matches n (suc fd)) r.0 os r.1)
      after rest (true, h') = tt
      after rest (false, h') = rest h'

  pub sd_loop-none :
      (matches : ℤ → Sys Bool)
      → ((fd : ℤ) (h : History) → Returns (λ r. r.0 ≡ false) (matches fd os h))
      → (n fd : ℕ) (h : History) → Returns (λ r. r.0 ≡ (false, fd + n)) (sd_loop matches n fd os h)
  unfolding sd_loop
  sd_loop-none matches no_match zero fd h = ap (λ k. (false, k)) (omega arith)
  sd_loop-none matches no_match (suc n) fd h =
      Returns-then (λ r. r.0 ≡ false) (λ r. r.0 ≡ (false, fd + suc n)) (matches (pos fd))
        (sd_next fd (sd_loop matches n (suc fd))) os h (no_match (pos fd) h)
        (λ r e. after (λ h'. sd_loop-none matches no_match n (suc fd) h') r.1 e)
    where
      after :
          ((h' : History)
            → Returns (λ r. r.0 ≡ (false, suc fd + n)) (sd_loop matches n (suc fd) os h'))
          → {b : Bool} (h' : History) → b ≡ false
          → Returns
              (λ r. r.0 ≡ (false, fd + suc n))
              (sd_next fd (sd_loop matches n (suc fd)) b os h')
      after rest h' e = rw e (
          Returns-mono (λ r. r.0 ≡ (false, suc fd + n)) (λ r. r.0 ≡ (false, fd + suc n))
            (sd_loop matches n (suc fd) os h') (rest h')
            (λ r k. k ∙ ap (λ m. (false, m)) (omega arith)))
