-- ===== src/ServerSocket/Tests.antt =====
-- A listening socket at concrete values, and the witnesses of the properties.
use libxio.Base.{
  ℕ, ◌+◌, ◌^◌, if◌then◌else◌, ◌≡◌, refl, true, false, some, List, [], ◌∷◌, done, Returns, get_elem?,
  arith,
}
use libxio.Base.Int.{pos}
use libxio.System
use libxio.System.{History, nonblock, has_bit, set_bit, clear_bit, Os, ok, ◌>>=◌, add_fl}
use libxio.System.Call.{accept, accept4, close, get_fl, set_fl}
use libxio.ServerSocket.{
  ServerSocket, new, Build, Errors, set_non_blocking, is_non_blocking, accept_ready, destroy,
}
use libxio.ServerSocket.Accept.{Queue, reply, accepts, Served, accept_ready-Queue}
use libxio.ServerSocket.Flags.{IsWord, Set, set_non_blocking-Set}
use libxio.ServerSocket.Close.{close_times, closed, destroy-close_times}

abbrev listener : ServerSocket
listener = record (new (pos 128)) { fd = pos 3; flags = 1024; multi_accept = 2; active = true }

abbrev linux : Errors
linux = record { eintr = 4; eagain = 11; enosys = 38 }

abbrev build : Build
build = record { with_accept4 = false; with_multi_accept = true }

abbrev three : List ℕ
three = 7 ∷ (8 ∷ (9 ∷ []))

-- Three clients wait on the descriptor.
abbrev waiting : Os
waiting h (accept fd) = reply linux (get_elem? three (accepts (pos 3) h))
waiting h (accept4 fd m) = reply linux (get_elem? three (accepts (pos 3) h))
waiting h _ = ok 0

waiting-Queue : Queue waiting linux listener three
waiting-Queue = record {
  accept_reply = λ h. refl;
  accept4_reply = λ h. refl;
  set_reply = λ h n flags. refl;
  eagain_enosys = λ e. absurd (omega arith);
}

accept_ready-Queue_example :
    Returns
      (Served waiting build linux listener three 2 0 [])
      (accept_ready build linux listener [] waiting [])
accept_ready-Queue_example =
    accept_ready-Queue waiting build linux listener three waiting-Queue [] []

destroy-close_times_example :
    (close_times 2 listener >>= destroy) waiting [] ≡ done (closed listener, close (pos 3) ∷ [])
destroy-close_times_example = destroy-close_times waiting 2 listener []

-- The callbacks of the event, and the calls it made.
two_accepted :
    accept_ready build linux listener [] waiting []
    ≡ done (
      some 7 ∷ (some 8 ∷ []),
      set_fl (pos 8) 1024
          ∷ (get_fl (pos 8)
              ∷ (accept (pos 3)
                  ∷ (set_fl (pos 7) 1024 ∷ (get_fl (pos 7) ∷ (accept (pos 3) ∷ []))))),
    )
unfolding accept_ready add_fl
two_accepted = refl

-- The status flags after some calls, and a system that keeps them: `fcntl` changes `O_NONBLOCK` alone.
abbrev status : History → ℕ
status [] = 2
status (set_fl fd g ∷ h) =
    if has_bit nonblock g then set_bit nonblock (status h) else clear_bit nonblock (status h)
status (_ ∷ h) = status h

abbrev keeping : Os
keeping h (get_fl fd) = ok (status h)
keeping h _ = ok 0

keeping-IsWord : IsWord keeping (get_fl (pos 3)) (set_fl (pos 3)) nonblock status
keeping-IsWord = record {
  reads = λ h. refl;
  kept = λ h. refl;
  sets = λ h g k e same. one_bit g (status h) same;
  fails = λ h g e q. absurd (clash q);
}
  where
    clash : {a b : ℕ} → ok a ≡ System.error b → ⊥
    clash q = cc

    one_bit :
        (g n : ℕ)
        → clear_bit nonblock g ≡ clear_bit nonblock n
        → (if has_bit nonblock g then set_bit nonblock n else clear_bit nonblock n) ≡ g
    one_bit g n same = ground (arith, same)

-- The access mode stays, whatever is asked for.
status_kept : status (set_fl (pos 3) (2 ^ 11) ∷ []) ≡ 2 + 2 ^ 11
status_kept = refl

set_non_blocking-Set_example :
    Returns
      (Set keeping listener status (get_fl (pos 3)) nonblock (is_non_blocking listener) true [])
      (set_non_blocking true listener keeping [])
set_non_blocking-Set_example = set_non_blocking-Set keeping listener status keeping-IsWord true []
