-- ===== src/ReadLoop/Room.antt =====
-- The room that the read loop makes before each round.
use libxio.Base.{
  ℕ, ◌+◌, ◌-◌, ◌*◌, ◌≤◌, ◌<◌, ◌≡◌, refl, Bool, true, size_mod, Returns, Returns-mono, ltb, ltb→ge,
  Bool-cases, arith, inl, inr,
}
use libxio.Memory.{Realloc, IsRealloc}
use libxio.Buffer.{Buffer, Policy, contents, reserve}
use libxio.Buffer.Valid.{IsValid}
use libxio.Buffer.Reserve.{Reserved, reserve-Reserved}
use libxio.ReadLoop.{next_capacity, free_bytes, make_room}

-- The sizes of the loop stay in `size_t`.
abbrev pub Small : ℕ → Type 0
Small n = n * 2 + 8192 < size_mod

pub record Roomy (b : Buffer) (res : Bool × Buffer) : Type 0 where
  pub valid : IsValid res.1
  pub kept : contents res.1 ≡ contents b
  pub size : res.1.size ≡ b.size
  pub room : res.0 ≡ true → res.1.size + 256 ≤ res.1.capacity

pub free_bytes_lem : (b : Buffer) → IsValid b → free_bytes b ≡ b.capacity - b.size
free_bytes_lem b v = omega arith

pub make_room-Roomy :
    (r : Realloc) (b : Buffer)
    → IsRealloc r
    → IsValid b
    → Small b.size
    → Returns (Roomy b) (make_room r b)
unfolding make_room
make_room-Roomy r b ok v h =
    rw (free_bytes_lem b v) (elim (Bool-cases (ltb (b.capacity - b.size) 256)) [
      | inl tight ↦ rw tight (
          Returns-mono (Reserved r Policy.mutable b (next_capacity b.size)) (Roomy b)
            (reserve r Policy.mutable (next_capacity b.size) b)
            (reserve-Reserved r Policy.mutable b (next_capacity b.size) ok v (omega arith)
              (omega arith))
            λ res fit. record {
              valid = fit.valid;
              kept = fit.kept;
              size = fit.size;
              room = λ e. omega (arith, fit.size, fit.room e);
            })
      | inr loose ↦ rw loose (record {
        valid = v;
        kept = refl;
        size = refl;
        room = λ _. omega (arith, v.within, ltb→ge _ _ loose);
      })
    ])
