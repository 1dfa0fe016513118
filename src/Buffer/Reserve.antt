-- ===== src/Buffer/Reserve.antt =====
-- What `reserve` (lib/Buffer.cpp and include/xio/Buffer.h) does to a valid buffer.
use libxio.Base.{
  ℕ, ◌+◌, ◌≤◌, ◌<◌, ◌≡◌, ◌≢◌, ◌⊎◌, refl, ◌∙◌, Bool, true, false, size_mod, length-take, take-all,
  Returns, ltb, arith, Bool-cases, inl, inr, ne→==, ltb→lt, ltb→ge, leb→le, le→leb, Returns-mono,
}
use libxio.Memory.{block_bytes, Realloc, IsRealloc, Refuses}
use libxio.Buffer.{Buffer, Policy, contents, chunk_size, set_capacity, reserve}
use libxio.Buffer.Inv.{Fitted, set_capacity-Fitted}
use libxio.Buffer.Valid.{IsValid}

-- What `reserve(n)` leaves.
pub record Reserved (r : Realloc) (e : Policy) (b : Buffer) (n : ℕ) (res : Bool × Buffer)
    : Type 0 where
  pub valid : IsValid res.1
  pub kept : contents res.1 ≡ contents b
  pub size : res.1.size ≡ b.size
  pub room : res.0 ≡ true → n ≤ res.1.capacity
  pub refused : res.0 ≡ false → (e ≡ Policy.immutable) ⊎ Refuses r
  pub enough : n ≤ b.capacity → (res.0 ≡ true) × (res.1 ≡ b)

-- `reserve(n)` for some bytes, under either policy, on a valid buffer and far from the end of
-- `size_t`, commits no fault. The buffer stays valid, with its bytes and its size; on success there
-- is room for `n` bytes, and where there was room before nothing changes. It fails only if the buffer
-- is fixed or the allocator refuses.
pub reserve-Reserved :
    (r : Realloc) (e : Policy) (b : Buffer) (n : ℕ)
    → IsRealloc r
    → IsValid b
    → n ≢ 0
    → n + chunk_size < size_mod
    → Returns (Reserved r e b n) (reserve r e n b)
unfolding reserve
reserve-Reserved r Policy.immutable b n ok v pos h = record {
  valid = v;
  kept = refl;
  size = refl;
  room = λ e. leb→le _ _ e;
  refused = λ _. inl refl;
  enough = λ le. (le→leb _ _ le, refl);
}
reserve-Reserved r Policy.mutable b n ok v pos h = elim (Bool-cases (ltb b.capacity n)) [
  | inl lt ↦ rw lt (
      Returns-mono (Fitted r b n) (Reserved r Policy.mutable b n) (set_capacity r n b)
        (set_capacity-Fitted r ok b v n pos h)
        λ res fit. record {
          valid = fit.valid;
          kept =
              fit.kept
              ∙ take-all n (contents b) (
                  omega (arith, v.within, length-take b.size (block_bytes b.block), ltb→lt _ _ lt));
          size = omega (arith, fit.size, v.within, ltb→lt _ _ lt);
          room = fit.room;
          refused = λ e. inr (fit.refused e);
          enough = λ le. absurd (omega (arith, ltb→lt _ _ lt));
        })
  | inr ge ↦
      rw (ge, ne→== n 0 pos)
        (record {
          valid = v;
          kept = refl;
          size = refl;
          room = λ _. ltb→ge _ _ ge;
          refused = λ e. cc;
          enough = λ _. (refl, refl);
        })
]
