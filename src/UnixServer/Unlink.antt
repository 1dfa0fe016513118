-- ===== src/UnixServer/Unlink.antt =====
-- `UnixServer::close`, which removes the path of the socket.
use libxio.Base.{
  ℕ, zero, suc, ◌≡◌, ◌≢◌, refl, ap, ◌∙◌, true, false, ◌∷◌, ◌++◌, length, replicate, done,
  if◌then◌else◌, ◌==◌, ne→==,
}
use libxio.Base.Int.{negsuc}
use libxio.System.{Sys, Os, History, Call, ◌>>=◌, ◌>>◌, pure, call, is_fd, bind-done}
use libxio.System.Call.{close, unlink}
use libxio.ServerSocket.{ServerSocket, close_socket}
use libxio.ServerSocket.Close.{close_socket-open, close_socket-shut}
use libxio.UnixServer.{UnixServer, close_unix, c_str}

-- `close` called n times.
unfoldable pub close_times : ℕ → UnixServer → Sys UnixServer
unfolding close_unix
close_times zero s = pure s
close_times (suc n) s = close_unix s >>= close_times n

module _ (os : Os) where
  close_unix-done :
      (s : UnixServer) (h h' : History) (b : ServerSocket)
      → length s.path ≢ 0
      → close_socket s.base os h ≡ done (b, h')
      → close_unix s os h ≡ done (record s { base = b }, unlink (c_str s.path) ∷ h')
  unfolding close_unix
  close_unix-done s h h' b named e =
      bind-done (close_socket s.base)
        (λ b'.
          if length s.path == 0
          then pure (record s { base = b' })
          else (call (unlink (c_str s.path)) >> pure (record s { base = b' })))
        os h b h' e
      ∙ ap
          (λ c.
            (if c
                then pure (record s { base = b })
                else (call (unlink (c_str s.path)) >> pure (record s { base = b })))
              os h')
          (ne→== (length s.path) 0 named)

  close_times-shut :
      (n : ℕ) (s : UnixServer) (h : History)
      → length s.path ≢ 0
      → is_fd s.base.fd ≡ false
      → close_times n s os h ≡ done (s, replicate n (unlink (c_str s.path)) ++ h)
  unfolding close_times
  close_times-shut zero s h named shut = refl
  close_times-shut (suc n) s h named shut =
      bind-done (close_unix s) (close_times n) os h s (unlink (c_str s.path) ∷ h)
        (close_unix-done s h h s.base named (close_socket-shut os s.base h shut))
      ∙ close_times-shut n s (unlink (c_str s.path) ∷ h) named shut
      ∙ ap (λ k. done (s, k)) (replicate_end n (unlink (c_str s.path)) h)
    where
      replicate_end :
          (m : ℕ) (c : Call) (k : History) → replicate m c ++ (c ∷ k) ≡ c ∷ (replicate m c ++ k)
      replicate_end zero c k = refl
      replicate_end (suc m) c k = ap (λ r. c ∷ r) (replicate_end m c k)

  -- Each further call of `close` on a server with a path removes the path again, whatever stands
  -- there by then; the descriptor is closed by the first call only.
  pub close_times-open :
      (n : ℕ) (s : UnixServer) (h : History)
      → length s.path ≢ 0
      → is_fd s.base.fd ≡ true
      → close_times (suc n) s os h
        ≡ done (
          record s { base = record (s.base) { fd = negsuc 0; active = false } },
          replicate n (unlink (c_str s.path)) ++ (unlink (c_str s.path) ∷ (close s.base.fd ∷ h)),
        )
  unfolding close_times
  close_times-open n s h named up =
      bind-done (close_unix s) (close_times n) os h s'
        (unlink (c_str s.path) ∷ (close s.base.fd ∷ h))
        (close_unix-done s h (close s.base.fd ∷ h) s'.base named (close_socket-open os s.base h up))
      ∙ close_times-shut n s' (unlink (c_str s.path) ∷ (close s.base.fd ∷ h)) named refl
    where
      s' : UnixServer
      s' = record s { base = record (s.base) { fd = negsuc 0; active = false } }
