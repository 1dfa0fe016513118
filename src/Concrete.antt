-- ===== src/Concrete.antt =====
-- An allocator and kernels by which the parameters of the model are instantiated in the tests.
use libxio.Base.{
  ℕ, zero, suc, ◌≤◌, min, ◌≡◌, ◌≢◌, refl, sym, ap, ◌∙◌, Bool, true, false, some, [], ◌∷◌, ◌++◌,
  Bytes, length, take, drop, replicate, length-take, length-append, length-replicate, take-take,
  take-append_left, take-append-drop, take-min, drop-min, arith, take-all, ◌==◌, if◌then◌else◌,
}
use libxio.Base.Int.{ℤ, pos, negsuc}
use libxio.Memory.{Realloc, IsRealloc, Refuses}
use libxio.Kernel.{Kernel, IsKernel, Moved, Received}

-- An allocator that always has memory, and clears what is new.
abbrev pub plain_realloc : Realloc
plain_realloc m n = some (take n (m ++ replicate n 0))

pub plain_realloc-IsRealloc : IsRealloc plain_realloc
plain_realloc-IsRealloc = record { sized = sized_of; keeps = keeps_of }
  where
    bytes_of : {a b : Bytes} → some a ≡ some b → a ≡ b
    bytes_of h = cc

    sized_of : (m : Bytes) (n : ℕ) {m' : Bytes} → plain_realloc m n ≡ some m' → length m' ≡ n
    sized_of m n e =
        ap length (sym (bytes_of e))
        ∙ length-take n (m ++ replicate n 0)
        ∙ omega (arith, length-append m (replicate n 0), length-replicate {A = ℕ} n 0)

    keeps_of :
        (m : Bytes) (n k : ℕ) {m' : Bytes}
        → plain_realloc m n ≡ some m'
        → k ≤ n
        → k ≤ length m
        → take k m' ≡ take k m
    keeps_of m n k e le le' =
        ap (take k) (sym (bytes_of e))
        ∙ take-take k n (m ++ replicate n 0) le
        ∙ take-append_left k m (replicate n 0) le'

pub plain_realloc-grants : ¬ Refuses plain_realloc
plain_realloc-grants (m, n, e) = cc

-- Two pipes: that of the descriptors 3 and 4, and one behind every other descriptor.
abbrev pub TwoPipes : Type 0
TwoPipes = Bytes × Bytes

abbrev first : ℤ → Bool
first (pos n) = n == 3
first (negsuc n) = false

abbrev pub read_end : ℤ → ℤ
read_end (pos n) = if n == 4 then pos 3 else pos 5
read_end (negsuc n) = pos 5

abbrev queue : Bool → TwoPipes → Bytes
queue true (p, q) = p
queue false (p, q) = q

abbrev read_queue : Bool → ℕ → TwoPipes → Received × TwoPipes
read_queue true n (p, q) = (Received.got (take n p), (drop n p, q))
read_queue false n (p, q) = (Received.got (take n q), (p, drop n q))

abbrev write_queue : Bool → Bytes → TwoPipes → Moved × TwoPipes
write_queue true xs (p, q) = (Moved.moved (length xs), (p ++ xs, q))
write_queue false xs (p, q) = (Moved.moved (length xs), (p, q ++ xs))

abbrev splice_queues : (src dst : Bool) → ℕ → TwoPipes → Moved × TwoPipes
splice_queues true false n (p, q) = (Moved.moved (min n (length p)), (drop n p, q ++ take n p))
splice_queues false true n (p, q) = (Moved.moved (min n (length q)), (p ++ take n q, drop n q))
splice_queues true true n s = (Moved.failed 22, s)
splice_queues false false n s = (Moved.failed 22, s)

abbrev tee_queues : (src dst : Bool) → ℕ → TwoPipes → Moved × TwoPipes
tee_queues true false n (p, q) = (Moved.moved (min n (length p)), (p, q ++ take n p))
tee_queues false true n (p, q) = (Moved.moved (min n (length q)), (p ++ take n q, q))
tee_queues true true n s = (Moved.failed 22, s)
tee_queues false false n s = (Moved.failed 22, s)

abbrev pub two_pipes : Kernel
two_pipes = record {
  State = TwoPipes;
  read = λ fd n s. read_queue (first fd) n s;
  write = λ fd xs s. write_queue (first (read_end fd)) xs s;
  splice = λ src dst n s. splice_queues (first src) (first (read_end dst)) n s;
  tee = λ src dst n s. tee_queues (first src) (first (read_end dst)) n s;
}

pub read_law :
    (a : Bool) (n : ℕ) (s s' : TwoPipes) (xs : Bytes)
    → read_queue a n s ≡ (Received.got xs, s')
    → (length xs ≤ n) × (queue a s ≡ xs ++ queue a s')
read_law true n (p, q) s' xs e =
    let same : take n p ≡ xs = cc in
    let rest : drop n p ≡ s'.0 = ap (λ (r : Received × TwoPipes). r.1.0) e in
    (
      omega (arith, ap length same, length-take n p),
      sym (take-append-drop n p) ∙ ap (λ t. t ++ drop n p) same ∙ ap (λ t. xs ++ t) rest,
    )
read_law false n (p, q) s' xs e =
    let same : take n q ≡ xs = cc in
    let rest : drop n q ≡ s'.1 = ap (λ (r : Received × TwoPipes). r.1.1) e in
    (
      omega (arith, ap length same, length-take n q),
      sym (take-append-drop n q) ∙ ap (λ t. t ++ drop n q) same ∙ ap (λ t. xs ++ t) rest,
    )

pub read_works :
    (a : Bool) (n : ℕ) (s s' : TwoPipes) (x : ℕ) → read_queue a n s ≡ (Received.failed x, s') → ⊥
read_works true n (p, q) s' x e = cc
read_works false n (p, q) s' x e = cc

pub write_law :
    (a : Bool) (xs : Bytes) (s s' : TwoPipes) (n : ℕ)
    → write_queue a xs s ≡ (Moved.moved n, s')
    → (n ≤ length xs) × (queue a s' ≡ queue a s ++ take n xs)
write_law true xs (p, q) s' n e =
    let len : length xs ≡ n = cc in
    (
      omega (arith, len),
      sym (ap (λ (r : Moved × TwoPipes). r.1.0) e)
          ∙ ap (λ t. p ++ t) (sym (take-all n xs (omega (arith, len)))),
    )
write_law false xs (p, q) s' n e =
    let len : length xs ≡ n = cc in
    (
      omega (arith, len),
      sym (ap (λ (r : Moved × TwoPipes). r.1.1) e)
          ∙ ap (λ t. q ++ t) (sym (take-all n xs (omega (arith, len)))),
    )

pub write_works :
    (a : Bool) (xs : Bytes) (s s' : TwoPipes) (x : ℕ)
    → write_queue a xs s ≡ (Moved.failed x, s')
    → ⊥
write_works true xs (p, q) s' x e = cc
write_works false xs (p, q) s' x e = cc

pub splice_law :
    (a b : Bool) (n : ℕ) (s s' : TwoPipes) (m : ℕ)
    → splice_queues a b n s ≡ (Moved.moved m, s')
    → (m ≤ n)
      × (m ≤ length (queue a s))
      × (queue a s' ≡ drop m (queue a s))
      × (queue b s' ≡ queue b s ++ take m (queue a s))
splice_law true true n s s' m e = absurd (cc)
splice_law false false n s s' m e = absurd (cc)
splice_law true false n (p, q) s' m e =
    let len : min n (length p) ≡ m = cc in
    (
      omega (arith, len),
      omega (arith, len),
      sym (ap (λ (r : Moved × TwoPipes). r.1.0) e) ∙ sym (drop-min n p) ∙ ap (λ k. drop k p) len,
      sym (ap (λ (r : Moved × TwoPipes). r.1.1) e)
          ∙ ap (λ t. q ++ t) (sym (take-min n p) ∙ ap (λ k. take k p) len),
    )
splice_law false true n (p, q) s' m e =
    let len : min n (length q) ≡ m = cc in
    (
      omega (arith, len),
      omega (arith, len),
      sym (ap (λ (r : Moved × TwoPipes). r.1.1) e) ∙ sym (drop-min n q) ∙ ap (λ k. drop k q) len,
      sym (ap (λ (r : Moved × TwoPipes). r.1.0) e)
          ∙ ap (λ t. p ++ t) (sym (take-min n q) ∙ ap (λ k. take k q) len),
    )

pub splice_keeps :
    (a b : Bool) (n : ℕ) (s s' : TwoPipes) (x : ℕ)
    → splice_queues a b n s ≡ (Moved.failed x, s')
    → s' ≡ s
splice_keeps true true n s s' x e = sym (ap (λ (r : Moved × TwoPipes). r.1) e)
splice_keeps false false n s s' x e = sym (ap (λ (r : Moved × TwoPipes). r.1) e)
splice_keeps true false n (p, q) s' x e = absurd (cc)
splice_keeps false true n (p, q) s' x e = absurd (cc)

pub tee_law :
    (a b : Bool) (n : ℕ) (s s' : TwoPipes) (m : ℕ)
    → tee_queues a b n s ≡ (Moved.moved m, s')
    → (m ≤ n)
      × (m ≤ length (queue a s))
      × (queue a s' ≡ queue a s)
      × (queue b s' ≡ queue b s ++ take m (queue a s))
tee_law true true n s s' m e = absurd (cc)
tee_law false false n s s' m e = absurd (cc)
tee_law true false n (p, q) s' m e =
    let len : min n (length p) ≡ m = cc in
    (
      omega (arith, len),
      omega (arith, len),
      sym (ap (λ (r : Moved × TwoPipes). r.1.0) e),
      sym (ap (λ (r : Moved × TwoPipes). r.1.1) e)
          ∙ ap (λ t. q ++ t) (sym (take-min n p) ∙ ap (λ k. take k p) len),
    )
tee_law false true n (p, q) s' m e =
    let len : min n (length q) ≡ m = cc in
    (
      omega (arith, len),
      omega (arith, len),
      sym (ap (λ (r : Moved × TwoPipes). r.1.1) e),
      sym (ap (λ (r : Moved × TwoPipes). r.1.0) e)
          ∙ ap (λ t. p ++ t) (sym (take-min n q) ∙ ap (λ k. take k q) len),
    )

pub tee_keeps :
    (a b : Bool) (n : ℕ) (s s' : TwoPipes) (x : ℕ)
    → tee_queues a b n s ≡ (Moved.failed x, s')
    → s' ≡ s
tee_keeps true true n s s' x e = sym (ap (λ (r : Moved × TwoPipes). r.1) e)
tee_keeps false false n s s' x e = sym (ap (λ (r : Moved × TwoPipes). r.1) e)
tee_keeps true false n (p, q) s' x e = absurd (cc)
tee_keeps false true n (p, q) s' x e = absurd (cc)

abbrev pub two_pipes-IsKernel : IsKernel two_pipes
two_pipes-IsKernel = record {
  held = λ s fd. queue (first fd) s;
  peer = read_end;
  read_takes = λ fd n s s' xs e. read_law (first fd) n s s' xs e;
  read_fails = λ fd n s s' x e. absurd (read_works (first fd) n s s' x e);
  write_puts = λ fd xs s s' n e. write_law (first (read_end fd)) xs s s' n e;
  write_fails = λ fd xs s s' x e. absurd (write_works (first (read_end fd)) xs s s' x e);
  splice_moves =
      λ src dst n s s' m apart e. splice_law (first src) (first (read_end dst)) n s s' m e;
  splice_fails = λ src dst n s s' x e.
      let same = splice_keeps (first src) (first (read_end dst)) n s s' x e in
      (ap (queue (first src)) same, ap (queue (first (read_end dst))) same);
  tee_copies = λ src dst n s s' m apart e. tee_law (first src) (first (read_end dst)) n s s' m e;
  tee_fails = λ src dst n s s' x e.
      let same = tee_keeps (first src) (first (read_end dst)) n s s' x e in
      (ap (queue (first src)) same, ap (queue (first (read_end dst))) same);
}

-- A read of the first pipe hands over what it holds.
pub two_pipes-yields :
    (n : ℕ) (s : TwoPipes)
    → n ≢ 0
    → queue true s ≢ []
    → (x : ℕ) × (xs : Bytes) × (s' : TwoPipes) × (two_pipes.read (pos 3) n s
        ≡ (Received.got (x ∷ xs), s'))
two_pipes-yields zero s ne some_held = absurd (ne refl)
two_pipes-yields (suc n) ([], q) ne some_held = absurd (some_held refl)
two_pipes-yields (suc n) (x ∷ p, q) ne some_held = (x, take n p, (drop n p, q), refl)

-- A kernel in which every read finds no bytes.
abbrev pub dry : Kernel
dry = record {
  State = Unit {0};
  read = λ fd n s. (Received.failed 11, s);
  write = λ fd xs s. (Moved.failed 32, s);
  splice = λ src dst n s. (Moved.failed 11, s);
  tee = λ src dst n s. (Moved.failed 11, s);
}
