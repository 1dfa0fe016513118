-- ===== src/Splicing/Forwarded.antt =====
-- What the proxy forwards.
use libxio.Base.{
  ℕ, zero, suc, ◌+◌, ◌-◌, ◌≤◌, ◌<◌, ◌≡◌, ◌≢◌, refl, sym, ap, ap₂, ◌∙◌, Option, some, [], ◌++◌,
  append_assoc, Bytes, size_mod, length, take, drop, take-append-drop, length-drop, length-take,
  mod_small, arith,
}
use libxio.Base.Int.{ℤ}
use libxio.Kernel.{Kernel, IsKernel, Moved}
use libxio.Pipe.{Pipe, filled, add_size}
use libxio.Splicing.{send_pipe, go_on, proxy}

module _ (k : Kernel) (law : IsKernel k) where
  open k use {State}
  open law use {held, peer}

  -- The three places that bytes pass are different ones, and a call of `splice` between two of them
  -- leaves the third alone.
  pub record IsApart (client backend : ℤ) (p : Pipe) : Type 0 where
    pub ends : peer p.write_fd ≡ p.read_fd
    pub from_client : client ≢ p.read_fd
    pub to_backend : p.read_fd ≢ peer backend
    pub backend_kept :
        (n : ℕ) (s : State)
        → held (k.splice client p.write_fd n s).1 (peer backend) ≡ held s (peer backend)
    pub client_kept :
        (n : ℕ) (s : State) → held (k.splice p.read_fd backend n s).1 client ≡ held s client

  client_apart :
      (client backend : ℤ) (p : Pipe) → IsApart client backend p → client ≢ peer p.write_fd
  client_apart client backend p a e = a.from_client (e ∙ a.ends)

  -- All the bytes on their way, those that came first in front.
  abbrev pub on_the_way : ℤ → ℤ → Pipe → State → Bytes
  on_the_way client backend p s = held s (peer backend) ++ (held s p.read_fd ++ held s client)

  -- A call of `splice`, whatever it returns, moves bytes from the front of one place behind the other.
  spliced :
      (src dst : ℤ) (n : ℕ) (s : State) (rv : Moved) (s' : State)
      → src ≢ peer dst
      → k.splice src dst n s ≡ (rv, s')
      → held s' (peer dst) ++ held s' src ≡ held s (peer dst) ++ held s src
  spliced src dst n s (Moved.failed e) s' ne q =
      ap₂ (λ a b. a ++ b) (law.splice_fails src dst n s s' e q).1
        (law.splice_fails src dst n s s' e q).0
  spliced src dst n s (Moved.moved m) s' ne q =
      let moves = law.splice_moves src dst n s s' m ne q in
      ap₂ (λ a b. a ++ b) moves.3 moves.2
      ∙ append_assoc (held s (peer dst)) (take m (held s src)) (drop m (held s src))
      ∙ ap (λ t. held s (peer dst) ++ t) (take-append-drop m (held s src))

  -- A pipe with the same ends.
  abbrev SameEnds : Pipe → Pipe → Type 0
  SameEnds p p' = (p'.read_fd ≡ p.read_fd) × (p'.write_fd ≡ p.write_fd)

  -- The backend has room: a call that asks for all that is in the pipe moves all of it.
  abbrev pub HasRoom : (backend : ℤ) → Pipe → Type 0
  HasRoom backend p =
      (n : ℕ) (s : State)
      → length (held s p.read_fd) ≤ n
      → held (k.splice p.read_fd backend n s).1 p.read_fd ≡ []

  -- What the loop leaves of a start: no byte is in the pipe, what has left the client is with the
  -- backend, in order, and the count of the pipe has grown by it.
  abbrev pub Forwarded : ℤ → ℤ → Pipe → State → Pipe × State → Type 0
  Forwarded client backend p s (p', s') =
      (p'.read_fd ≡ p.read_fd)
      × (held s' p.read_fd ≡ [])
      × (held s' (peer backend) ++ held s' client ≡ held s (peer backend) ++ held s client)
      × (p'.size + length (held s' client) ≡ p.size + length (held s client))

  abbrev Passed : ℤ → ℤ → Pipe → State → Pipe × State → Type 0
  Passed client backend p s (p', s') =
      (p'.read_fd ≡ p.read_fd)
      × (held s' p.read_fd ≡ [])
      × (on_the_way client backend p s' ≡ on_the_way client backend p s)
      × (p'.size + length (held s' client) ≡ p.size + length (held s client))

  module _ (client backend : ℤ) where
    sent_on :
        (p : Pipe) (n : ℕ) (s : State)
        → IsApart client backend p
        → on_the_way client backend p (send_pipe k backend p n s).1 ≡ on_the_way client backend p s
    unfolding send_pipe
    sent_on p n s a =
        ap
          (λ t.
            held (k.splice p.read_fd backend n s).1 (peer backend)
            ++ (held (k.splice p.read_fd backend n s).1 p.read_fd ++ t))
          (a.client_kept n s)
        ∙ sym (
            append_assoc (held (k.splice p.read_fd backend n s).1 (peer backend))
              (held (k.splice p.read_fd backend n s).1 p.read_fd) (held s client))
        ∙ ap (λ t. t ++ held s client)
            (spliced p.read_fd backend n s (k.splice p.read_fd backend n s).0
              (k.splice p.read_fd backend n s).1 a.to_backend refl)
        ∙ append_assoc (held s (peer backend)) (held s p.read_fd) (held s client)

    taken_in :
        (p : Pipe) (s s' : State) (rv : Moved)
        → IsApart client backend p
        → k.splice client p.write_fd 1024 s ≡ (rv, s')
        → on_the_way client backend p s' ≡ on_the_way client backend p s
    taken_in p s s' rv a q =
        ap₂ (λ x y. x ++ y)
          (sym (ap (λ (r : Moved × State). held r.1 (peer backend)) q) ∙ a.backend_kept 1024 s)
          (sym (ap (λ e. held s' e ++ held s' client) a.ends)
            ∙ spliced client p.write_fd 1024 s rv s' (client_apart client backend p a) q
            ∙ ap (λ e. held s e ++ held s client) a.ends)

    -- What a read into an empty pipe leaves there.
    came_in :
        (p : Pipe) (s s' : State) (m : ℕ)
        → IsApart client backend p
        → held s p.read_fd ≡ []
        → k.splice client p.write_fd 1024 s ≡ (Moved.moved m, s')
        → held s' p.read_fd ≡ take m (held s client)
    came_in p s s' m a dry q =
        sym (ap (λ d. held s' d) a.ends)
        ∙ (law.splice_moves client p.write_fd 1024 s s' m (client_apart client backend p a) q).3
        ∙ ap (λ d. held s d ++ take m (held s client)) a.ends
        ∙ ap (λ t. t ++ take m (held s client)) dry

    -- What one round and those behind it leave.
    abbrev Ends : ℕ → Pipe → State → Option (Pipe × State) → Type 0
    Ends rounds p s o = (r : Pipe × State) × (o ≡ some r) × Passed client backend p s r

    round :
        (rounds : ℕ) (p : Pipe) (s s' : State) (rv : Moved)
        → IsApart client backend p
        → HasRoom backend p
        → held s p.read_fd ≡ []
        → length (held s client) < suc rounds
        → p.size + length (held s client) < size_mod
        → k.splice client p.write_fd 1024 s ≡ (rv, s')
        → ((p' : Pipe) (s'' : State)
            → IsApart client backend p'
            → HasRoom backend p'
            → held s'' p'.read_fd ≡ []
            → length (held s'' client) < rounds
            → p'.size + length (held s'' client) < size_mod
            → Ends rounds p' s'' (proxy k rounds client backend p' s''))
        → Ends rounds p s (go_on k (proxy k rounds client backend) backend (rv, filled rv p, s'))
    unfolding go_on
    round rounds p s s' (Moved.failed e) a room dry h small q ih = (
      (p, s'),
      refl,
      (
        refl,
        sym (ap (λ d. held s' d) a.ends)
            ∙ (law.splice_fails client p.write_fd 1024 s s' e q).1
            ∙ ap (λ d. held s d) a.ends
            ∙ dry,
        taken_in p s s' (Moved.failed e) a q,
        ap (λ t. p.size + length t) (law.splice_fails client p.write_fd 1024 s s' e q).0,
      ),
    )
    round rounds p s s' (Moved.moved zero) a room dry h small q ih = (
      (add_size 0 p, s'),
      refl,
      (
        refl,
        came_in p s s' 0 a dry q ∙ take_none,
        taken_in p s s' (Moved.moved 0) a q,
        omega (arith, gone),
      ),
    )
      where
        take_none : take 0 (held s client) ≡ []
        take_none = refl

        gone : length (held s' client) ≡ length (held s client)
        gone =
            ap length
              (law.splice_moves client p.write_fd 1024 s s' 0 (client_apart client backend p a) q).2
    round rounds p s s' (Moved.moved (suc m)) a room dry h small q ih = (
      rest.0,
      rest.1,
      (
        rest.2.0,
        rest.2.1,
        rest.2.2 ∙ sent_on p1 p1.size s' a1 ∙ taken_in p s s' (Moved.moved (suc m)) a q,
        omega (arith, rest.2.3, gone, there, moves.1),
      ),
    )
      where
        moves :
            (suc m ≤ 1024)
            × (suc m ≤ length (held s client))
            × (held s' client ≡ drop (suc m) (held s client))
            × (held s' (peer p.write_fd) ≡ held s (peer p.write_fd) ++ take (suc m) (held s client))
        moves =
            law.splice_moves client p.write_fd 1024 s s' (suc m) (client_apart client backend p a) q

        p1 : Pipe
        p1 = add_size (suc m) p

        a1 : IsApart client backend p1
        a1 = record {
          ends = a.ends;
          from_client = a.from_client;
          to_backend = a.to_backend;
          backend_kept = a.backend_kept;
          client_kept = a.client_kept;
        }

        gone :
            length (held (send_pipe k backend p1 p1.size s').1 client)
            ≡ length (held s client) - suc m
        gone =
            ap length (a.client_kept p1.size s')
            ∙ ap length moves.2
            ∙ length-drop (suc m) (held s client)

        there : p1.size ≡ p.size + suc m
        there = mod_small (p.size + suc m) (omega (arith, moves.1))

        empty : held (send_pipe k backend p1 p1.size s').1 p.read_fd ≡ []
        empty = room p1.size s' (
            omega (
              arith,
              there,
              ap length (came_in p s s' (suc m) a dry q),
              length-take (suc m) (held s client),
            ))

        rest :
            Ends rounds p1
              (send_pipe k backend p1 p1.size s').1
              (proxy k rounds client backend p1 (send_pipe k backend p1 p1.size s').1)
        rest =
            ih p1 (send_pipe k backend p1 p1.size s').1 a1 room empty (omega (arith, gone, moves.1))
              (omega (arith, gone, there, moves.1))

    proxy-Passed :
        (rounds : ℕ) (p : Pipe) (s : State)
        → IsApart client backend p
        → HasRoom backend p
        → held s p.read_fd ≡ []
        → length (held s client) < rounds
        → p.size + length (held s client) < size_mod
        → Ends rounds p s (proxy k rounds client backend p s)
    unfolding proxy
    proxy-Passed zero p s a room dry h small = absurd (omega arith)
    proxy-Passed (suc rounds) p s a room dry h small =
        round rounds p s (k.splice client p.write_fd 1024 s).1 (k.splice client p.write_fd 1024 s).0
          a room dry h small refl (proxy-Passed rounds)

    -- From an empty pipe, where client, pipe and backend are apart, the backend has room and the count of
    -- the pipe stays in `size_t`, the loop of the proxy ends within one round more than the client has
    -- bytes. The pipe is then empty: all bytes that have left the client are with the backend, in order,
    -- behind those that it had. The count of the pipe has grown by all of them.
    pub proxy-Forwarded :
        (rounds : ℕ) (p : Pipe) (s : State)
        → IsApart client backend p
        → HasRoom backend p
        → held s p.read_fd ≡ []
        → length (held s client) < rounds
        → p.size + length (held s client) < size_mod
        → (r : Pipe × State) × (proxy k rounds client backend p s ≡ some r)
          × Forwarded client backend p s r
    proxy-Forwarded rounds p s a room dry h small =
        let (r, e, (same, empty, way, count)) = proxy-Passed rounds p s a room dry h small in
        (
          r,
          e,
          (
            same,
            empty,
            sym (ap (λ t. held r.1 (peer backend) ++ (t ++ held r.1 client)) empty)
                ∙ way
                ∙ ap (λ t. held s (peer backend) ++ (t ++ held s client)) dry,
            count,
          ),
        )
