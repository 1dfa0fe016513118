-- ===== src/ServerSocket/Accept.antt =====
-- The acceptance of the clients that wait on a listening socket.
use libxio.Base.{
  ℕ, zero, suc, ◌+◌, ◌-◌, ◌≡◌, ◌≢◌, refl, sym, ◌∙◌, Bool, true, false, Option, none, some, List, [],
  ◌∷◌, ◌++◌, map, length, min, get_elem?, take, drop, drop-get_elem?, drop-get_none, Returns,
  Returns-mono, ◌==◌, if◌then◌else◌, not, ◌&&◌, Bool-cases, Option-cases, inl, inr, eq→==, ne→==,
  arith, append_assoc, append-nil,
}
use libxio.Base.Int.{ℤ, pos, same_int, same_int_refl}
use libxio.System.{
  Os, History, Call, Answer, ok, error, ◌>>=◌, pure, add_fl, add_fl-set, flagged, bind-done,
  Returns-then,
}
use libxio.System.Call.{accept, accept4, set_fl}
use libxio.ServerSocket.{
  ServerSocket, Build, Errors, Accepted, client, failed, Calls, accept_fd, settle, settled_with,
  accept_one, report, handle_one, accept_loop, go_on, accept_ready,
}

-- The calls that take a client off the queue of this descriptor, and how many were made.
abbrev is_accept : ℤ → Call → Bool
is_accept fd (accept d) = same_int fd d
is_accept fd (accept4 d m) = same_int fd d
is_accept fd _ = false

abbrev pub accepts : ℤ → History → ℕ
accepts fd [] = 0
accepts fd (c ∷ h) = if is_accept fd c then suc (accepts fd h) else accepts fd h

-- `EAGAIN` once the queue is empty.
abbrev pub reply : Errors → Option ℕ → Answer
reply codes (some n) = ok n
reply codes none = error codes.eagain

-- The system hands out the clients in order, each once, and sets the flags of each.
pub record Queue (os : Os) (codes : Errors) (s : ServerSocket) (clients : List ℕ) : Type 0 where
  pub accept_reply :
      (h : History) → os h (accept s.fd) ≡ reply codes (get_elem? clients (accepts s.fd h))
  pub accept4_reply :
      (h : History)
      → os h (accept4 s.fd s.type_mask) ≡ reply codes (get_elem? clients (accepts s.fd h))
  pub set_reply : (h : History) (n flags : ℕ) → os h (set_fl (pos n) flags) ≡ ok 0
  pub eagain_enosys : codes.eagain ≢ codes.enosys

module _ (os : Os) (b : Build) (codes : Errors) (s : ServerSocket) (clients : List ℕ) where
  -- The outcome of one acceptance after k clients were taken.
  abbrev Taken : ℕ → Accepted × History → Type 0
  Taken k p =
      (p.0 ≡ (elim (get_elem? clients k) [ some n ↦ client n | none ↦ failed codes.eagain ]))
      × (accepts s.fd p.1 ≡ suc k)

  -- One round calls back with the next client, if there is one.
  abbrev Called : ℕ → Calls → (Bool × Calls) × History → Type 0
  Called k log p =
      (p.0 ≡ (elim (get_elem? clients k) [
        | some n ↦ (true, log ++ (some n ∷ []))
        | none ↦ (false, log)
      ]))
      × (accepts s.fd p.1 ≡ suc k)

  -- n rounds call back with the next clients, up to n, and ask once more if there are fewer.
  abbrev pub Served : ℕ → ℕ → Calls → Calls × History → Type 0
  Served n k log p =
      (p.0 ≡ log ++ map some (take n (drop k clients)))
      × (accepts s.fd p.1 ≡ k + min n (suc (length clients - k)))

  module _ (q : Queue os codes s clients) where
    accept_fd-Queue :
        (h : History)
        → Returns
            (λ p.
              (p.0.1 ≡ reply codes (get_elem? clients (accepts s.fd h)))
              × (accepts s.fd p.1 ≡ suc (accepts s.fd h)))
            (accept_fd b codes s os h)
    unfolding accept_fd
    accept_fd-Queue h = elim (Bool-cases b.with_accept4) [
      | inr old ↦ rw old (q.accept_reply h, rw (same_int_refl s.fd) refl)
      | inl new ↦ elim (Option-cases (get_elem? clients (accepts s.fd h))) [
        | inr (n, e) ↦ rw (new, q.accept4_reply h, e) (refl, rw (same_int_refl s.fd) refl)
        | inl e ↦
            rw (new, q.accept4_reply h, e, ne→== codes.eagain codes.enosys q.eagain_enosys)
              (refl, rw (same_int_refl s.fd) refl)
      ]
    ]

    accept_one-Queue : (h : History) → Returns (Taken (accepts s.fd h)) (accept_one b codes s os h)
    unfolding accept_one settle settled_with
    accept_one-Queue h =
        Returns-then
          (λ p.
            (p.0.1 ≡ reply codes (get_elem? clients (accepts s.fd h)))
            × (accepts s.fd p.1 ≡ suc (accepts s.fd h)))
          (Taken (accepts s.fd h)) (accept_fd b codes s) (λ r. settle s r.0 r.1) os h
          (accept_fd-Queue h) after
      where
        settled :
            (given : Bool) (n : ℕ) (h' : History)
            → accepts s.fd h' ≡ suc (accepts s.fd h)
            → get_elem? clients (accepts s.fd h) ≡ some n
            → Returns (Taken (accepts s.fd h)) (settle s given (ok n) os h')
        settled given n h' count e = elim (Bool-cases (not given && not (s.flags == 0))) [
          | inr plain ↦ rw (plain, e) (refl, count)
          | inl flags ↦
              rw
                (
                  flags,
                  bind-done (add_fl (pos n) s.flags) (settled_with n) os h' none
                      (flagged (pos n) s.flags os h')
                      (add_fl-set os h' (pos n) s.flags 0 (λ h'' g. q.set_reply h'' n g)),
                  e,
                )
                (refl, count)
        ]

        after :
            (p : (Bool × Answer) × History)
            → (p.0.1 ≡ reply codes (get_elem? clients (accepts s.fd h)))
              × (accepts s.fd p.1 ≡ suc (accepts s.fd h))
            → Returns (Taken (accepts s.fd h)) (settle s p.0.0 p.0.1 os p.1)
        after p k = elim (Option-cases (get_elem? clients (accepts s.fd h))) [
          | inl e ↦ rw (k.0, e) (rw e refl, k.1)
          | inr (n, e) ↦ rw (k.0, e) (settled p.0.0 n p.1 k.1 e)
        ]

    handle_one-Queue :
        (h : History) (log : Calls)
        → Returns (Called (accepts s.fd h) log) (handle_one b codes s log os h)
    unfolding handle_one report
    handle_one-Queue h log =
        Returns-then (Taken (accepts s.fd h)) (Called (accepts s.fd h) log) (accept_one b codes s)
          (report codes log) os h (accept_one-Queue h) after
      where
        after :
            (p : Accepted × History)
            → Taken (accepts s.fd h) p
            → Returns (Called (accepts s.fd h) log) (report codes log p.0 os p.1)
        after p k = elim (Option-cases (get_elem? clients (accepts s.fd h))) [
          | inr (n, e) ↦ rw (k.0, e) (rw e refl, k.1)
          | inl e ↦
              rw (k.0, e)
                (elim (Bool-cases (codes.eagain == codes.eintr)) [
                  | inl eq ↦ rw eq (rw e refl, k.1)
                  | inr ne ↦ rw (ne, eq→== codes.eagain codes.eagain refl) (rw e refl, k.1)
                ])
        ]

    accept_loop-step :
        (n : ℕ)
        → ((h : History) (log : Calls)
            → Returns (Served n (accepts s.fd h) log) (accept_loop n b codes s log os h))
        → (h : History) (log : Calls)
        → Returns (Served (suc n) (accepts s.fd h) log) (accept_loop (suc n) b codes s log os h)
    unfolding accept_loop go_on
    accept_loop-step n rest h log =
        Returns-then (Called k log) (Served (suc n) k log) (handle_one b codes s log)
          (go_on (accept_loop n b codes s)) os h (handle_one-Queue h log) after
      where
        k : ℕ
        k = accepts s.fd h

        further :
            (m : ℕ) (h' : History)
            → accepts s.fd h' ≡ suc k
            → get_elem? clients k ≡ some m
            → Returns (Served (suc n) k log) (accept_loop n b codes s (log ++ (some m ∷ [])) os h')
        further m h' count e =
            Returns-mono (Served n (accepts s.fd h') (log ++ (some m ∷ []))) (Served (suc n) k log)
              (accept_loop n b codes s (log ++ (some m ∷ [])) os h')
              (rest h' (log ++ (some m ∷ [])))
              (λ x served. (
                served.0
                    ∙ append_assoc log (some m ∷ [])
                        (map some (take n (drop (accepts s.fd h') clients)))
                    ∙ rw (count, (drop-get_elem? clients k m e).0) refl,
                omega (arith, served.1, count, (drop-get_elem? clients k m e).1),
              ))

        after :
            (p : (Bool × Calls) × History)
            → Called k log p
            → Returns (Served (suc n) k log) (go_on (accept_loop n b codes s) p.0 os p.1)
        after p c = elim (Option-cases (get_elem? clients k)) [
          | inr (m, e) ↦ rw (c.0, e) (further m p.1 c.1 e)
          | inl e ↦
              rw (c.0, e, (drop-get_none clients k e).0)
                (sym (append-nil log), omega (arith, c.1, (drop-get_none clients k e).1))
        ]

    accept_loop-Queue :
        (n : ℕ) (h : History) (log : Calls)
        → Returns (Served n (accepts s.fd h) log) (accept_loop n b codes s log os h)
    unfolding accept_loop
    accept_loop-Queue zero h log = (sym (append-nil log), omega arith)
    accept_loop-Queue (suc n) h log = accept_loop-step n (accept_loop-Queue n) h log

    handle_one-Served :
        (h : History) (log : Calls)
        → Returns
            (Served 1 (accepts s.fd h) log)
            ((handle_one b codes s log >>= λ res. pure res.1) os h)
    handle_one-Served h log =
        Returns-then (Called k log) (Served 1 k log) (handle_one b codes s log) (λ res. pure res.1)
          os h (handle_one-Queue h log) after
      where
        k : ℕ
        k = accepts s.fd h

        after : (p : (Bool × Calls) × History) → Called k log p → Served 1 k log (p.0.1, p.1)
        after p c = elim (Option-cases (get_elem? clients k)) [
          | inr (m, e) ↦
              rw (c.0, e, (drop-get_elem? clients k m e).0)
                (refl, omega (arith, c.1, (drop-get_elem? clients k m e).1))
          | inl e ↦
              rw (c.0, e, (drop-get_none clients k e).0)
                (sym (append-nil log), omega (arith, c.1, (drop-get_none clients k e).1))
        ]

    -- With clients that wait and none of them refused, one event calls back with exactly the next of
    -- them in order, one client without multi-accept and the set number with it, or as many as there
    -- are, and never for an error. `accept` is called once more only if the clients ran out.
    pub accept_ready-Queue :
        (h : History) (log : Calls)
        → Returns
            (Served (if b.with_multi_accept then s.multi_accept else 1) (accepts s.fd h) log)
            (accept_ready b codes s log os h)
    unfolding accept_ready
    accept_ready-Queue h log = ready b.with_multi_accept
      where
        ready :
            (multi : Bool)
            → Returns (Served (if multi then s.multi_accept else 1) (accepts s.fd h) log) (
                (if multi
                    then accept_loop s.multi_accept b codes s log
                    else (handle_one b codes s log >>= λ res. pure res.1))
                  os h)
        ready true = accept_loop-Queue s.multi_accept h log
        ready false = handle_one-Served h log
