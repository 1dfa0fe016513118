-- ===== src/InetServer/Keep.antt =====
-- The steps of `InetServer::open` change neither the descriptor nor the watcher.
use libxio.Base.{
  ℕ, ◌^◌, ◌≡◌, refl, Bool, true, false, Option, none, some, [], ◌∷◌, ◌++◌, length, Returns,
  if◌then◌else◌,
}
use libxio.Base.Int.{ℤ}
use libxio.Address.{IpAddress, v4}
use libxio.Address.Sockaddr.{sockaddr, sockaddr-Returns}
use libxio.System.{
  Os, History, ◌>>=◌, pure, test, from_run, is_fd, has_bit, nonblock, cloexec, add_fl, add_fd,
  Returns-then, failure,
}
use libxio.System.Call.{bind, listen}
use libxio.ServerSocket.{ServerSocket, listening, listen_with}
use libxio.Server.Outcome
use libxio.Server.Rules.{Balanced, Keeps, AllKeep, AllKeep-append, from_run-Returns}
use libxio.Server.Outcome.{Outcome, Opened, step-Keeps, complete-Finished, complete-Opened}
use libxio.InetServer.{
  InetServer, base_of, put_base, option, sol_socket, so_reuseaddr, sol_tcp, tcp_quickack,
  tcp_defer_accept, flag_steps, tcp_steps, ask_reuse, reuse_step, non_block, close_exec, bound,
  bind_inet, listen_step, setup_steps,
}

module _ (os : Os) (s₀ : InetServer) (h₀ : History) where
  abbrev pub Ready : InetServer → History → Type 0
  Ready = Outcome.Ready base_of put_base (λ b s. refl) os s₀ h₀

  option-Keeps : (level name : ℕ) → Keeps os Ready (option level name)
  option-Keeps level name s h i = i

  pub flag_steps-AllKeep : (flags : ℕ) → AllKeep os Ready (flag_steps flags)
  unfolding flag_steps add_fl add_fd
  flag_steps-AllKeep flags = (
    step-Keeps base_of put_base (λ b s. refl) os s₀ h₀ (non_block flags)
        (λ b h. fl (has_bit nonblock flags) b h),
    (
      step-Keeps base_of put_base (λ b s. refl) os s₀ h₀ (close_exec flags)
          (λ b h. fd_flags (has_bit cloexec flags) b h),
      tt,
    ),
  )
    where
      fl :
          (c : Bool) (b : ServerSocket) (h : History)
          → Returns
              (λ r. Balanced os h r.1)
              ((if c then add_fl b.fd (2 ^ nonblock) else pure none) os h)
      fl true b h = (refl, λ x. (refl, refl))
      fl false b h = (refl, λ x. (refl, refl))

      fd_flags :
          (c : Bool) (b : ServerSocket) (h : History)
          → Returns (λ r. Balanced os h r.1) ((if c then add_fd b.fd 1 else pure none) os h)
      fd_flags true b h = (refl, λ x. (refl, refl))
      fd_flags false b h = (refl, λ x. (refl, refl))

  pub tcp_steps-AllKeep : (defer : Bool) → AllKeep os Ready (tcp_steps defer)
  unfolding tcp_steps
  tcp_steps-AllKeep true =
      (option-Keeps sol_tcp tcp_quickack, (option-Keeps sol_tcp tcp_defer_accept, tt))
  tcp_steps-AllKeep false = (option-Keeps sol_tcp tcp_quickack, tt)

  reuse_step-Keeps : Keeps os Ready reuse_step
  unfolding reuse_step
  reuse_step-Keeps s h i = through s.reuse_port
    where
      through :
          (c : Bool)
          → Returns (λ r. Ready r.0.1 r.1) ((if c then ask_reuse s else pure (none, s)) os h)
      through true = i
      through false = i

  bind_inet-Keeps : (a : IpAddress) (port : ℤ) → a.family ≡ v4 → Keeps os Ready (bind_inet a port)
  unfolding bind_inet
  bind_inet-Keeps a port e s h i =
      Returns-then (λ p. (length p.0 ≡ 16) × (p.1 ≡ h)) (λ r. Ready r.0.1 r.1)
        (from_run (sockaddr a port))
        (λ sin. test (bind s.base.fd sin) >>= λ res. pure (bound a port s res)) os h
        (from_run-Returns os (λ m. length m ≡ 16) (sockaddr a port) h (sockaddr-Returns a port e))
        (λ r k. after (failure (os r.1 (bind s.base.fd r.0))) r.1 k.1)
    where
      after : (res : Option ℕ) (h' : History) → h' ≡ h → Ready (bound a port s res).1 h'
      after none h' k = rw k i
      after (some e') h' k = rw k i

  listen_step-Keeps : Keeps os Ready listen_step
  unfolding listen_step listen_with
  listen_step-Keeps s h i = after (failure (os h (listen s.base.fd size))) size
    where
      size : ℤ
      size = if is_fd s.base.backlog then s.base.backlog else s.base.backlog

      after : (res : Option ℕ) (n : ℤ) → Ready (record s { base = (listening s.base n res).1 }) h
      after none n = i
      after (some e) n = i

  pub setup_steps-AllKeep :
      (defer : Bool) (a : IpAddress) (port : ℤ) (flags : ℕ)
      → a.family ≡ v4
      → AllKeep os Ready (setup_steps defer a port flags)
  unfolding setup_steps
  setup_steps-AllKeep defer a port flags e =
      AllKeep-append os Ready (flag_steps flags)
        (option sol_socket so_reuseaddr
          ∷ (reuse_step ∷ (tcp_steps defer ++ (bind_inet a port ∷ (listen_step ∷ [])))))
        (flag_steps-AllKeep flags)
        (
          option-Keeps sol_socket so_reuseaddr,
          (
            reuse_step-Keeps,
            AllKeep-append os Ready (tcp_steps defer) (bind_inet a port ∷ (listen_step ∷ []))
                (tcp_steps-AllKeep defer) (bind_inet-Keeps a port e, (listen_step-Keeps, tt)),
          ),
        )
