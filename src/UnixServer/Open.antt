-- ===== src/UnixServer/Open.antt =====
-- What `UnixServer::open` leaves behind, whether it returns true or false.
use libxio.Base.{
  ℕ, ◌≡◌, refl, Bool, true, false, not, Option, none, some, [], ◌∷◌, Bytes, length, leb, ltb,
  Returns, if◌then◌else◌, Bool-cases, inl, inr, ◌==◌,
}
use libxio.Base.Int.{ℤ, pos}
use libxio.Listen.Lookup.{socket_unix}
use libxio.System.{
  Os, History, Call, Answer, ok, error, ◌>>=◌, pure, test, failure, is_fd, add_fl, attempt,
  Returns-then,
}
use libxio.System.Call.{bind, listen, socket}
use libxio.ServerSocket.{ServerSocket, listening, listen_with}
use libxio.Server.{Process, set_flags, finish, give_up, sd_loop, sd_start, complete, step}
use libxio.Server.Outcome
use libxio.Server.Rules.{Balanced, Keeps, AllKeep, sd_loop-Returns}
use libxio.Server.Outcome.{Flagged, set_flags-Flagged, Opened, step-Keeps, complete-Opened}
use libxio.UnixServer.{
  UnixServer, base_of, put_base, with_flags, bound, bind_unix, path_max, listen_step, setup_steps,
  with_fd, stream, af_unix, created, c_str, matches_unix, searched, looked_up, open_new,
  open_systemd, open_unix,
}

module _ (os : Os) (s₀ : UnixServer) (h₀ : History) where
  abbrev Ready : UnixServer → History → Type 0
  Ready = Outcome.Ready base_of put_base (λ b s. refl) os s₀ h₀

  with_flags-Keeps : (flags : ℕ) → Keeps os Ready (step base_of (with_flags flags))
  unfolding add_fl
  with_flags-Keeps flags =
      step-Keeps base_of put_base (λ b s. refl) os s₀ h₀ (with_flags flags)
        (λ b h. fl (not (flags == 0)) b h)
    where
      fl :
          (c : Bool) (b : ServerSocket) (h : History)
          → Returns (λ r. Balanced os h r.1) ((if c then add_fl b.fd flags else pure none) os h)
      fl true b h = (refl, λ x. (refl, refl))
      fl false b h = (refl, λ x. (refl, refl))

  bind_unix-Keeps : (long : ℕ) (path : Bytes) → Keeps os Ready (bind_unix long path)
  unfolding bind_unix
  bind_unix-Keeps long path s h i = through (leb path_max (length path))
    where
      after : (res : Option ℕ) → Ready (bound path s res).1 h
      after none = i
      after (some e) = i

      through :
          (c : Bool)
          → Returns
              (λ r. Ready r.0.1 r.1)
              ((if c
                  then pure (some long, s)
                  else (test (bind s.base.fd (af_unix ∷ (0 ∷ c_str path))) >>= λ res.
                      pure (bound path s res)))
                os h)
      through true = i
      through false = after (failure (os h (bind s.base.fd (af_unix ∷ (0 ∷ c_str path)))))

  listen_step-Keeps : Keeps os Ready listen_step
  unfolding listen_step listen_with
  listen_step-Keeps s h i = after (failure (os h (listen s.base.fd size))) size
    where
      size : ℤ
      size = if is_fd s.base.backlog then s.base.backlog else s.base.backlog

      after : (res : Option ℕ) (n : ℤ) → Ready (record s { base = (listening s.base n res).1 }) h
      after none n = i
      after (some e) n = i

  setup_steps-AllKeep :
      (long : ℕ) (path : Bytes) (flags : ℕ) → AllKeep os Ready (setup_steps long path flags)
  unfolding setup_steps
  setup_steps-AllKeep long path flags =
      (with_flags-Keeps flags, (bind_unix-Keeps long path, (listen_step-Keeps, ((λ s h i. i), tt))))

module _ (os : Os) (long : ℕ) (p : Process) (path : Bytes) (flags : ℕ) where
  open_new-Opened :
      (s : UnixServer) (h : History)
      → s.base.active ≡ false
      → Flagged flags s.base.flags s.base.type_mask
      → Returns (Opened base_of flags) (open_new long p path flags s os h)
  unfolding open_new attempt complete finish give_up
  open_new-Opened s h off flagged = through (os h c)
    where
      c : Call
      c = socket af_unix stream

      through :
          (r : Answer) → Returns (Opened base_of flags) (created long p path flags s r os (c ∷ h))
      through (ok n) =
          complete-Opened base_of put_base (λ b s'. refl) os p (setup_steps long path flags)
            (with_fd (pos n) s) (c ∷ h)
            (setup_steps-AllKeep os (with_fd (pos n) s) (c ∷ h) long path flags) refl off flags
            flagged
      through (error x) = (refl, off, flagged)

  flagged-Opened :
      (s : UnixServer) (h : History)
      → is_fd s.base.fd ≡ true
      → s.base.active ≡ false
      → Flagged flags s.base.flags s.base.type_mask
      → Returns
          (Opened base_of flags)
          (complete base_of put_base p (step base_of (with_flags flags) ∷ []) s os h)
  flagged-Opened s h up off flagged =
      complete-Opened base_of put_base (λ b s'. refl) os p (step base_of (with_flags flags) ∷ []) s
        h (with_flags-Keeps os s h flags, tt) up off flags flagged

  open_systemd-Opened :
      (s : UnixServer) (h : History)
      → s.base.active ≡ false
      → Flagged flags s.base.flags s.base.type_mask
      → Returns (Opened base_of flags) (open_systemd p path flags s os h)
  unfolding open_systemd give_up
  open_systemd-Opened s h off flagged =
      Returns-then (λ _. Unit) (Opened base_of flags)
        (sd_loop (matches_unix path) p.sd_count sd_start) (searched p path flags s) os h
        (sd_loop-Returns os (matches_unix path) (λ fd h'. tt) p.sd_count sd_start h)
        (λ r u. after r)
    where
      after :
          (r : (Bool × ℕ) × History)
          → Returns (Opened base_of flags) (searched p path flags s r.0 os r.1)
      after ((true, fd), h') = flagged-Opened (with_fd (pos fd) s) h' refl off flagged
      after ((false, fd), h') = (refl, off, flagged)

  -- If the lookup among the inherited sockets returns, `open` on a server that is not watched returns,
  -- on every way that the system's answers lead, with a path of any length: the server is open and
  -- watched if it returned true, closed and not watched if it returned false. In both cases
  -- `typeMask_`, which `accept4` puts on clients, has the bits `O_NONBLOCK` and `O_CLOEXEC` that were
  -- asked for, and `flags_`, which clients get where there is no `accept4`, has neither.
  pub open_unix-Opened :
      (s : UnixServer) (h : History)
      → s.base.active ≡ false
      → Returns (λ _. Unit {0}) (socket_unix p.listen_fds (c_str path) os h)
      → Returns (Opened base_of flags) (open_unix long p path flags s os h)
  unfolding open_unix looked_up set_flags
  open_unix-Opened s h off found =
      Returns-then (λ _. Unit) (Opened base_of flags) (socket_unix p.listen_fds (c_str path))
        (looked_up long p path flags s') os h found (λ r u. after r)
    where
      s' : UnixServer
      s' = record s { base = set_flags flags s.base }

      flagged : Flagged flags (set_flags flags s.base).flags (set_flags flags s.base).type_mask
      flagged = set_flags-Flagged flags s.base

      off' : (set_flags flags s.base).active ≡ false
      off' = off

      after :
          (r : ℤ × History)
          → Returns (Opened base_of flags) (looked_up long p path flags s' r.0 os r.1)
      after r = elim (Bool-cases (is_fd r.0)) [
        | inl up ↦ rw up (flagged-Opened (with_fd r.0 s') r.1 up off' flagged)
        | inr absent ↦ rw absent (elim (Bool-cases (ltb 0 p.sd_count)) [
          | inl passed ↦ rw passed (open_systemd-Opened (with_fd r.0 s') r.1 off' flagged)
          | inr alone ↦ rw alone (open_new-Opened (with_fd r.0 s') r.1 off' flagged)
        ])
      ]
