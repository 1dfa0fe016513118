-- ===== src/Splicing/Tests.antt =====
-- Concrete runs of the proxy.
use libxio.Base.{
  ℕ, ◌≤◌, ◌≡◌, refl, sym, ap, ◌∙◌, some, [], ◌∷◌, ◌++◌, Bytes, length, take, drop, take-min,
  drop-min, drop-all, min, arith, ◌==◌, if◌then◌else◌,
}
use libxio.Base.Int.{ℤ, pos, negsuc}
use libxio.Kernel.{Kernel, IsKernel, Moved, Received}
use libxio.Pipe.{Pipe}
use libxio.Splicing.{go_on, proxy}
use libxio.Splicing.Forwarded.{IsApart, Forwarded, proxy-Forwarded}

-- A client at the descriptor 6, a pipe of 3 and 4, and a backend that is written to at 7.
data Place : Type 0 where
  client : Place
  between : Place
  backend : Place
  nowhere : Place

abbrev Places : Type 0
Places = Bytes × Bytes × Bytes

abbrev place : ℤ → Place
place (pos n) =
    if n == 6
    then Place.client
    else if n == 3
    then Place.between
    else if n == 8
    then Place.backend
    else Place.nowhere
place (negsuc n) = Place.nowhere

abbrev behind : ℤ → ℤ
behind (pos n) = if n == 4 then pos 3 else if n == 7 then pos 8 else pos 9
behind (negsuc n) = pos 9

abbrev content : Place → Places → Bytes
content Place.client (c, p, b) = c
content Place.between (c, p, b) = p
content Place.backend (c, p, b) = b
content Place.nowhere (c, p, b) = []

abbrev hop : (src dst : Place) → ℕ → Places → Moved × Places
hop Place.client Place.between n (c, p, b) =
    (Moved.moved (min n (length c)), (drop n c, p ++ take n c, b))
hop Place.between Place.backend n (c, p, b) =
    (Moved.moved (min n (length p)), (c, drop n p, b ++ take n p))
hop Place.client Place.client n s = (Moved.failed 22, s)
hop Place.client Place.backend n s = (Moved.failed 22, s)
hop Place.client Place.nowhere n s = (Moved.failed 22, s)
hop Place.between Place.client n s = (Moved.failed 22, s)
hop Place.between Place.between n s = (Moved.failed 22, s)
hop Place.between Place.nowhere n s = (Moved.failed 22, s)
hop Place.backend d n s = (Moved.failed 22, s)
hop Place.nowhere d n s = (Moved.failed 22, s)

abbrev places : Kernel
places = record {
  State = Places;
  read = λ fd n s. (Received.failed 11, s);
  write = λ fd xs s. (Moved.failed 32, s);
  splice = λ src dst n s. hop (place src) (place (behind dst)) n s;
  tee = λ src dst n s. (Moved.failed 22, s);
}

hop_law :
    (a b : Place) (n : ℕ) (s s' : Places) (m : ℕ)
    → hop a b n s ≡ (Moved.moved m, s')
    → (m ≤ n)
      × (m ≤ length (content a s))
      × (content a s' ≡ drop m (content a s))
      × (content b s' ≡ content b s ++ take m (content a s))
hop_law Place.client Place.between n (c, p, b) s' m e =
    let len : min n (length c) ≡ m = cc in
    (
      omega (arith, len),
      omega (arith, len),
      sym (ap (λ (r : Moved × Places). r.1.0) e) ∙ sym (drop-min n c) ∙ ap (λ k. drop k c) len,
      sym (ap (λ (r : Moved × Places). r.1.1) e)
          ∙ ap (λ t. p ++ t) (sym (take-min n c) ∙ ap (λ k. take k c) len),
    )
hop_law Place.between Place.backend n (c, p, b) s' m e =
    let len : min n (length p) ≡ m = cc in
    (
      omega (arith, len),
      omega (arith, len),
      sym (ap (λ (r : Moved × Places). r.1.1) e) ∙ sym (drop-min n p) ∙ ap (λ k. drop k p) len,
      sym (ap (λ (r : Moved × Places). r.1.2) e)
          ∙ ap (λ t. b ++ t) (sym (take-min n p) ∙ ap (λ k. take k p) len),
    )
hop_law Place.client Place.client n s s' m e = absurd (cc)
hop_law Place.client Place.backend n s s' m e = absurd (cc)
hop_law Place.client Place.nowhere n s s' m e = absurd (cc)
hop_law Place.between Place.client n s s' m e = absurd (cc)
hop_law Place.between Place.between n s s' m e = absurd (cc)
hop_law Place.between Place.nowhere n s s' m e = absurd (cc)
hop_law Place.backend d n s s' m e = absurd (cc)
hop_law Place.nowhere d n s s' m e = absurd (cc)

hop_keeps :
    (a b : Place) (n : ℕ) (s s' : Places) (x : ℕ) → hop a b n s ≡ (Moved.failed x, s') → s' ≡ s
hop_keeps Place.client Place.between n (c, p, b) s' x e = absurd (cc)
hop_keeps Place.between Place.backend n (c, p, b) s' x e = absurd (cc)
hop_keeps Place.client Place.client n s s' x e = sym (ap (λ (r : Moved × Places). r.1) e)
hop_keeps Place.client Place.backend n s s' x e = sym (ap (λ (r : Moved × Places). r.1) e)
hop_keeps Place.client Place.nowhere n s s' x e = sym (ap (λ (r : Moved × Places). r.1) e)
hop_keeps Place.between Place.client n s s' x e = sym (ap (λ (r : Moved × Places). r.1) e)
hop_keeps Place.between Place.between n s s' x e = sym (ap (λ (r : Moved × Places). r.1) e)
hop_keeps Place.between Place.nowhere n s s' x e = sym (ap (λ (r : Moved × Places). r.1) e)
hop_keeps Place.backend d n s s' x e = sym (ap (λ (r : Moved × Places). r.1) e)
hop_keeps Place.nowhere d n s s' x e = sym (ap (λ (r : Moved × Places). r.1) e)

none_got :
    (s s' : Places) (x : ℕ) (xs : Bytes)
    → ◌≡◌ {A = Received × Places} (Received.failed x, s) (Received.got xs, s')
    → ⊥
none_got s s' x xs e = cc

none_moved :
    (s s' : Places) (x n : ℕ) → ◌≡◌ {A = Moved × Places} (Moved.failed x, s) (Moved.moved n, s') → ⊥
none_moved s s' x n e = cc

abbrev places-IsKernel : IsKernel places
places-IsKernel = record {
  held = λ s fd. content (place fd) s;
  peer = behind;
  read_takes = λ fd n s s' xs e. absurd (none_got s s' 11 xs e);
  read_fails =
      λ fd n s s' x e. ap (content (place fd)) (sym (ap (λ (r : Received × Places). r.1) e));
  write_puts = λ fd xs s s' n e. absurd (none_moved s s' 32 n e);
  write_fails =
      λ fd xs s s' x e. ap (content (place (behind fd))) (sym (ap (λ (r : Moved × Places). r.1) e));
  splice_moves = λ src dst n s s' m apart e. hop_law (place src) (place (behind dst)) n s s' m e;
  splice_fails = λ src dst n s s' x e.
      let same = hop_keeps (place src) (place (behind dst)) n s s' x e in
      (ap (content (place src)) same, ap (content (place (behind dst))) same);
  tee_copies = λ src dst n s s' m apart e. absurd (none_moved s s' 22 m e);
  tee_fails = λ src dst n s s' x e.
      let same = sym (ap (λ (r : Moved × Places). r.1) e) in
      (ap (content (place src)) same, ap (content (place (behind dst))) same);
}

abbrev empty_pipe : Pipe
empty_pipe = record { read_fd = pos 3; write_fd = pos 4; size = 0 }

apart : IsApart places places-IsKernel (pos 6) (pos 7) empty_pipe
apart = record {
  ends = refl;
  from_client = λ e. cc;
  to_backend = λ e. cc;
  backend_kept = λ n s. refl;
  client_kept = λ n s. refl;
}

-- Three bytes reach the backend, and the pipe still counts them.
proxy3 :
    proxy places 2 (pos 6) (pos 7) empty_pipe (1 ∷ 2 ∷ 3 ∷ [], [], 9 ∷ [])
    ≡ some (record { read_fd = pos 3; write_fd = pos 4; size = 3 }, ([], [], 9 ∷ 1 ∷ 2 ∷ 3 ∷ []))
unfolding proxy go_on
proxy3 = refl

proxy-Forwarded_example :
    (r : Pipe × Places) × (proxy places 4 (pos 6) (pos 7) empty_pipe (1 ∷ 2 ∷ 3 ∷ [], [], 9 ∷ [])
      ≡ some r)
    × Forwarded places places-IsKernel (pos 6) (pos 7) empty_pipe (1 ∷ 2 ∷ 3 ∷ [], [], 9 ∷ []) r
proxy-Forwarded_example =
    proxy-Forwarded places places-IsKernel (pos 6) (pos 7) 4 empty_pipe (1 ∷ 2 ∷ 3 ∷ [], [], 9 ∷ [])
      apart (λ n s le. drop-all n s.1 le) refl (omega arith) (omega arith)
