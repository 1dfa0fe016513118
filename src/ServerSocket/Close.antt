-- ===== src/ServerSocket/Close.antt =====
-- `stop`, `close` and the destructor of a listening socket, and the flags of its descriptor.
use libxio.Base.{
  ℕ, zero, suc, ◌≡◌, refl, ap, sym, ◌∙◌, Bool, true, false, not, ◌∷◌, done, if◌then◌else◌,
  Bool-cases, inl, inr,
}
use libxio.Base.Int.{negsuc}
use libxio.System.{Sys, Os, History, ◌>>=◌, pure, is_fd, bind-done}
use libxio.System.Call.{close}
use libxio.ServerSocket.{ServerSocket, halt, close_open, close_socket, destroy, is_open}

-- `close` called n times.
unfoldable pub close_times : ℕ → ServerSocket → Sys ServerSocket
unfolding close_socket
close_times zero s = pure s
close_times (suc n) s = close_socket s >>= close_times n

-- What is left of a socket that was closed or destroyed.
abbrev pub closed : ServerSocket → ServerSocket
closed s = record s { fd = if is_fd s.fd then negsuc 0 else s.fd; active = false }

halt-active : (s : ServerSocket) → halt s ≡ record s { active = false }
unfolding halt
halt-active s = through s.active refl
  where
    through :
        (b : Bool)
        → s.active ≡ b
        → (if not b then s else record s { active = false }) ≡ record s { active = false }
    through true e = refl
    through false e = ap (λ c. record s { active = c }) e

module _ (os : Os) where
  pub close_socket-shut :
      (s : ServerSocket) (h : History) → is_fd s.fd ≡ false → close_socket s os h ≡ done (s, h)
  unfolding close_socket
  close_socket-shut s h e = ap (λ b. (if not b then pure s else close_open s) os h) e

  pub close_socket-open :
      (s : ServerSocket) (h : History)
      → is_fd s.fd ≡ true
      → close_socket s os h ≡ done (record s { fd = negsuc 0; active = false }, close s.fd ∷ h)
  unfolding close_socket
  close_socket-open s h e =
      ap (λ b. (if not b then pure s else close_open s) os h) e
      ∙ ap (λ (t : ServerSocket). done (record t { fd = negsuc 0 }, close s.fd ∷ h)) (halt-active s)

  close_times-shut :
      (n : ℕ) (s : ServerSocket) (h : History)
      → is_fd s.fd ≡ false
      → close_times n s os h ≡ done (s, h)
  unfolding close_times
  close_times-shut zero s h e = refl
  close_times-shut (suc n) s h e =
      bind-done (close_socket s) (close_times n) os h s h (close_socket-shut s h e)
      ∙ close_times-shut n s h e

  destroy-shut :
      (s : ServerSocket) (h : History)
      → is_fd s.fd ≡ false
      → destroy s os h ≡ done (record s { active = false }, h)
  unfolding destroy
  destroy-shut s h e =
      ap (λ t. (if is_open t then close_socket t else pure t) os h) (halt-active s)
      ∙ ap (λ b. (if b then close_socket t else pure t) os h) e
    where
      t : ServerSocket
      t = record s { active = false }

  destroy-open :
      (s : ServerSocket) (h : History)
      → is_fd s.fd ≡ true
      → destroy s os h ≡ done (record s { fd = negsuc 0; active = false }, close s.fd ∷ h)
  unfolding destroy
  destroy-open s h e =
      ap (λ t. (if is_open t then close_socket t else pure t) os h) (halt-active s)
      ∙ ap (λ b. (if b then close_socket t else pure t) os h) e
      ∙ close_socket-open t h e
    where
      t : ServerSocket
      t = record s { active = false }

  -- However often a socket is closed before it is destroyed, the system is asked once to close its
  -- descriptor if it is open, and never if it is not; it ends closed and with its watcher stopped.
  pub destroy-close_times :
      (n : ℕ) (s : ServerSocket) (h : History)
      → (close_times n s >>= destroy) os h
        ≡ done (closed s, if is_fd s.fd then close s.fd ∷ h else h)
  unfolding close_times
  destroy-close_times n s h = elim (Bool-cases (is_fd s.fd)) [
    | inr shut ↦
        bind-done (close_times n s) destroy os h s h (close_times-shut n s h shut)
        ∙ destroy-shut s h shut
        ∙ ap
            (λ b. done (
              record s { fd = if b then negsuc 0 else s.fd; active = false },
              if b then close s.fd ∷ h else h,
            ))
            (sym shut)
    | inl up ↦
        opened n up
        ∙ ap
            (λ b. done (
              record s { fd = if b then negsuc 0 else s.fd; active = false },
              if b then close s.fd ∷ h else h,
            ))
            (sym up)
  ]
    where
      s' : ServerSocket
      s' = record s { fd = negsuc 0; active = false }

      opened :
          (m : ℕ)
          → is_fd s.fd ≡ true
          → (close_times m s >>= destroy) os h ≡ done (s', close s.fd ∷ h)
      opened zero up = destroy-open s h up
      opened (suc m) up =
          bind-done (close_times (suc m) s) destroy os h s' (close s.fd ∷ h) (
            bind-done (close_socket s) (close_times m) os h s' (close s.fd ∷ h)
              (close_socket-open s h up)
            ∙ close_times-shut m s' (close s.fd ∷ h) refl)
          ∙ destroy-shut s' (close s.fd ∷ h) refl
