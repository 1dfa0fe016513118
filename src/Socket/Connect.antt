-- ===== src/Socket/Connect.antt =====
-- A connection in progress: what `on` and the first event make of it.
use libxio.Base.{
  ℕ, zero, suc, ◌^◌, ◌≡◌, refl, ap, sym, subst, ◌∙◌, Bool, true, false, Option, none, some, List,
  [], ◌∷◌, ◌++◌, done, Returns, if◌then◌else◌,
}
use libxio.Base.Int.{ℤ}
use libxio.System.{
  Sys, Os, History, Answer, ok, error, ◌>>=◌, pure, is_fd, has_bit, bind-done, Returns-then,
}
use libxio.System.Call.{close, so_error}
use libxio.Socket.Close.{close_once}
use libxio.Socket.{
  Socket, State, closed, connecting, operational, on, watch_mode, io_event, timeout_event,
  on_connect_complete, settle, callback, halt, connected_bit, timeout_bit,
}

-- What the event loop reports: input or output with its events, or the end of the time.
pub data Event : Type 0 where
  io : ℕ → Event
  expired : Event

-- The state, the calls to the system and the mode of the one call of the handler, by the first event
-- and the system's answer about the connection.
abbrev pub final_state : Event → Answer → State
final_state (io r) (ok zero) = operational
final_state (io r) _ = closed
final_state expired a = connecting

abbrev pub final_history : Event → Answer → ℤ → History → History
final_history (io r) (ok zero) fd h = so_error fd ∷ h
final_history (io r) _ fd h = close fd ∷ (so_error fd ∷ h)
final_history expired a fd h = h

abbrev pub reported : Event → ℕ
reported (io r) = 2 ^ connected_bit
reported expired = 2 ^ timeout_bit

abbrev running : {A : Type 0} → Option A → Bool
running none = false
running (some a) = true

module _ {Span : Type 0} where
  -- An event reaches the socket only while its watcher or its timer runs.
  unfoldable pub fire : Event → Socket Span → Sys (Socket Span)
  unfolding io_event timeout_event
  fire (io r) s = if running s.watcher then io_event r s else pure s
  fire expired s = if running s.timer then timeout_event s else pure s

  unfoldable pub fire_all : List Event → Socket Span → Sys (Socket Span)
  unfolding fire
  fire_all [] s = pure s
  fire_all (e ∷ es) s = fire e s >>= fire_all es

  -- Neither the watcher nor the timer runs.
  abbrev pub Idle : Socket Span → Type 0
  Idle s = (s.watcher ≡ none) × (s.timer ≡ none)

  fire-Idle :
      (e : Event) (os : Os) (s : Socket Span) (h : History) → Idle s → fire e s os h ≡ done (s, h)
  unfolding fire
  fire-Idle (io r) os s h i = ap (λ w. (if running w then io_event r s else pure s) os h) i.0
  fire-Idle expired os s h i = ap (λ w. (if running w then timeout_event s else pure s) os h) i.1

  fire_all-Idle :
      (es : List Event) (os : Os) (s : Socket Span) (h : History)
      → Idle s
      → fire_all es s os h ≡ done (s, h)
  unfolding fire_all
  fire_all-Idle [] os s h i = refl
  fire_all-Idle (e ∷ es) os s h i =
      bind-done (fire e s) (fire_all es) os h s h (fire-Idle e os s h i) ∙ fire_all-Idle es os s h i

  abbrev pub Settled : Event → Os → Socket Span → History → Socket Span × History → Type 0
  Settled e os s h r =
      Idle r.0
      × (r.0.calls ≡ s.calls ++ (reported e ∷ []))
      × (r.0.state ≡ final_state e (os h (so_error s.fd)))
      × (r.1 ≡ final_history e (os h (so_error s.fd)) s.fd h)

  -- A socket that waits for its connection, as `on` leaves it.
  abbrev waiting : ℕ → Span → Socket Span → Socket Span
  waiting mode span s = record s {
    handler = true;
    timeout = span;
    timer = some span;
    watcher = some (s.fd, watch_mode mode);
    state = connecting;
  }

  fire-waiting :
      (e : Event) (os : Os) (mode : ℕ) (span : Span) (s : Socket Span) (h : History)
      → is_fd s.fd ≡ true
      → Returns (Settled e os s h) (fire e (waiting mode span s) os h)
  unfolding fire io_event timeout_event on_connect_complete halt callback
  fire-waiting expired os mode span s h up = ((refl, refl), refl, refl, refl)
  fire-waiting (io r) os mode span s h up = through (os h (so_error s.fd))
    where
      s' : Socket Span
      s' = record (waiting mode span s) { watcher = none; timer = none }

      c : History
      c = so_error s.fd ∷ h

      through :
          (a : Answer)
          → Returns
              (λ x.
                Idle x.0
                × (x.0.calls ≡ s.calls ++ (reported (io r) ∷ []))
                × (x.0.state ≡ final_state (io r) a)
                × (x.1 ≡ final_history (io r) a s.fd h))
              ((settle s' a >>= λ s''. pure (callback (2 ^ connected_bit) s'')) os c)
      through (ok zero) = ((refl, refl), refl, refl, refl)
      through (ok (suc n)) = rw (Returns, close_once os s' c up) ((refl, refl), refl, refl, refl)
      through (error n) = rw (Returns, close_once os s' c up) ((refl, refl), refl, refl, refl)

  -- A connecting socket that `on` watches calls its handler exactly once, whatever events follow:
  -- with `CONNECTED` if the first is from the watcher, and it is then operational, or, on an error,
  -- closed with one call of `close`; with `TIMEOUT` if the first is from the timer, and it then still
  -- connects and its descriptor is open. In each case the watcher and the timer are stopped.
  pub fire_all-on :
      (e : Event) (es : List Event) (os : Os) (mode : ℕ) (span : Span) (s : Socket Span)
      (h : History)
      → is_fd s.fd ≡ true
      → s.state ≡ connecting
      → has_bit timeout_bit mode ≡ false
      → Returns (Settled e os s h) ((on mode span s >>= fire_all (e ∷ es)) os h)
  unfolding on fire_all
  fire_all-on e es os mode span s h up now asked = rw asked (
      subst
        (λ st.
          Returns (Settled e os s h)
            ((fire e (record (waiting mode span s) { state = st }) >>= fire_all es) os h))
        (sym now)
        (Returns-then (Settled e os s h) (Settled e os s h) (fire e (waiting mode span s))
          (fire_all es) os h (fire-waiting e os mode span s h up)
          (λ r k. rw (fire_all-Idle es os r.0 r.1 k.0) k)))
