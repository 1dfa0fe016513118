-- ===== src/Socket/Close.antt =====
-- `Socket::close` and the destructor, called again.
use libxio.Base.{ℕ, zero, suc, ◌≡◌, refl, ap, ◌∙◌, true, ◌∷◌, ◌++◌, replicate, done, if◌then◌else◌}
use libxio.System.{Sys, Os, History, ◌>>=◌, ◌>>◌, pure, call, is_fd, bind-done}
use libxio.System.Call.{close}
use libxio.Socket.{Socket, closed, close_socket}

module _ {Span : Type 0} where
  -- `close` called n times, the last time perhaps by the destructor.
  unfoldable pub closed_times : ℕ → Socket Span → Sys (Socket Span)
  unfolding close_socket
  closed_times zero s = pure s
  closed_times (suc n) s = close_socket s >>= closed_times n

  pub close_once :
      (os : Os) (s : Socket Span) (h : History)
      → is_fd s.fd ≡ true
      → close_socket s os h ≡ done (record s { state = closed }, close s.fd ∷ h)
  unfolding close_socket
  close_once os s h up =
      ap (λ b. (if b then call (close s.fd) >> pure (record s { state = closed }) else pure s) os h)
        up

  -- Each call of `close` on a socket with a descriptor asks the system to close this descriptor, also
  -- where an earlier call has closed it, since `close` does not forget it. The watcher and the timer
  -- run on.
  pub closed_times_lem :
      (n : ℕ) (os : Os) (s : Socket Span) (h : History)
      → is_fd s.fd ≡ true
      → closed_times (suc n) s os h
        ≡ done (record s { state = closed }, replicate n (close s.fd) ++ (close s.fd ∷ h))
  unfolding closed_times
  closed_times_lem zero os s h up =
      bind-done (close_socket s) pure os h (record s { state = closed }) (close s.fd ∷ h)
        (close_once os s h up)
  closed_times_lem (suc n) os s h up =
      bind-done (close_socket s) (closed_times (suc n)) os h (record s { state = closed })
        (close s.fd ∷ h) (close_once os s h up)
      ∙ closed_times_lem n os (record s { state = closed }) (close s.fd ∷ h) up
      ∙ ap (λ k. done (record s { state = closed }, k)) (replicate_end n)
    where
      replicate_end :
          (m : ℕ)
          → replicate m (close s.fd) ++ (close s.fd ∷ (close s.fd ∷ h))
            ≡ close s.fd ∷ (replicate m (close s.fd) ++ (close s.fd ∷ h))
      replicate_end zero = refl
      replicate_end (suc m) = ap (λ r. close s.fd ∷ r) (replicate_end m)
