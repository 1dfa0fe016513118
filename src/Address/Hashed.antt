-- ===== src/Address/Hashed.antt =====
-- Equality of addresses, and that equal ones have the same hash, as unordered containers ask.
use libxio.Base.{
  ℕ, ◌≤◌, ◌≡◌, ◌⊎◌, ◌↔◌, refl, sym, ap, ◌∙◌, Bool, true, false, ◌||◌, [], ◌∷◌, ◌++◌, Bytes, length,
  take, drop, take-take, take-append_left, length-append, length-take, length-drop, Run, done,
  fault, Returns, Returns-mono, ◌==◌, ◌>>=◌, if◌then◌else◌, arith, inl, inr, Bool-cases, ==_iff,
}
use libxio.BufferRef.{mem_eq}
use libxio.BufferRef.Compare.Tested.{mem_eq_lem}
use Prim.Native.Nat.{bit_xor}
use libxio.Base.Int.{ℤ}
use libxio.Address.{
  SocketSpec, Kind, spec_equals, equals_as, hash_as, spec_hash, IpAddress, v4, v6, size, equals,
  hash, hash_bytes, copy_assign,
}

-- An address of one of the two families, with its array.
pub record IsAddress (a : IpAddress) : Type 0 where
  pub family : (a.family ≡ v4) ⊎ (a.family ≡ v6)
  pub array : length a.buf ≡ 16

four : (a : IpAddress) → 4 ≤ size a
four a = elim (Bool-cases (a.family == v4)) [
  | inl e ↦ rw e (omega arith)
  | inr e ↦ rw e (omega arith)
]

at_most : (a : IpAddress) → size a ≤ 16
at_most a = elim (Bool-cases (a.family == v4)) [
  | inl e ↦ rw e (omega arith)
  | inr e ↦ rw e (omega arith)
]

known : (a : IpAddress) → IsAddress a → ((a.family == v4) || (a.family == v6)) ≡ true
known a v = by_family v.family
  where
    by_family : (a.family ≡ v4) ⊎ (a.family ≡ v6) → ((a.family == v4) || (a.family == v6)) ≡ true
    by_family (inl e) = rw e
    by_family (inr e) = rw e

-- `operator==` of two addresses commits no fault and holds exactly if they have the same family and
-- the same bytes, as many as the family has.
pub equals_lem :
    (a b : IpAddress)
    → IsAddress a
    → IsAddress b
    → Returns
        (λ r. (r ≡ true) ↔ ((a.family ≡ b.family) × (take (size a) a.buf ≡ take (size a) b.buf)))
        (equals a b)
unfolding equals
equals_lem a b v w = elim (Bool-cases (a.family == b.family)) [
  | inl same ↦
      rw (same, known a v)
        (Returns-mono (λ r. (r ≡ true) ↔ (take (size a) a.buf ≡ take (size a) b.buf))
          (λ r. (r ≡ true) ↔ ((a.family ≡ b.family) × (take (size a) a.buf ≡ take (size a) b.buf)))
          (mem_eq a.buf b.buf (size a))
          (mem_eq_lem a.buf b.buf (size a) (omega (arith, at_most a, v.array))
            (omega (arith, at_most a, w.array)))
          λ r f. ((λ e. ((==_iff a.family b.family).0 same, f.0 e)), λ e. f.1 e.1))
  | inr other ↦ rw other ((λ e. cc), λ e. absurd (clash other ((==_iff a.family b.family).1 e.0)))
]
  where
    clash : {b : Bool} → b ≡ false → b ≡ true → ⊥
    clash p r = cc

hash_bytes-take : (m : Bytes) → hash_bytes (take 4 m) ≡ hash_bytes m
unfolding hash_bytes
hash_bytes-take [] = refl
hash_bytes-take (w ∷ []) = refl
hash_bytes-take (w ∷ x ∷ []) = refl
hash_bytes-take (w ∷ x ∷ y ∷ []) = refl
hash_bytes-take (w ∷ x ∷ y ∷ z ∷ m) = refl

-- Addresses that compare equal have the same hash.
pub hash-equals :
    (a b : IpAddress) → IsAddress a → IsAddress b → equals a b ≡ done true → hash a ≡ hash b
unfolding hash
hash-equals a b v w e =
    sym (hash_bytes-take a.buf)
    ∙ ap hash_bytes (
        sym (take-take 4 (size a) a.buf (four a))
        ∙ ap (take 4) (same (equals a b) e (equals_lem a b v w))
        ∙ take-take 4 (size a) b.buf (four a))
    ∙ hash_bytes-take b.buf
  where
    same :
        (m : Run Bool)
        → m ≡ done true
        → Returns
            (λ r.
              (r ≡ true) ↔ ((a.family ≡ b.family) × (take (size a) a.buf ≡ take (size a) b.buf)))
            m
        → take (size a) a.buf ≡ take (size a) b.buf
    same (done r) q f = (f.0 (bool q)).1
      where
        bool : {x y : Bool} → done x ≡ done y → x ≡ y
        bool h = cc
    same (fault x) q f = absurd f

-- Assigning an address to another, of either family, gives an address that compares equal to it.
pub equals-copy_assign :
    (v a : IpAddress)
    → IsAddress v
    → length a.buf ≡ 16
    → IsAddress (copy_assign v a) × (equals (copy_assign v a) v ≡ done true)
unfolding copy_assign
equals-copy_assign v a ok h = (valid, equal (equals copy v) (equals_lem copy v valid ok))
  where
    copy : IpAddress
    copy = record { family = v.family; buf = take (size v) v.buf ++ drop (size v) a.buf }

    valid : IsAddress copy
    valid = record {
      family = ok.family;
      array =
          length-append (take (size v) v.buf) (drop (size v) a.buf)
          ∙ omega
              (arith, length-take (size v) v.buf, length-drop (size v) a.buf, ok.array, at_most v);
    }

    same_bytes : take (size v) copy.buf ≡ take (size v) v.buf
    same_bytes =
        take-append_left (size v) (take (size v) v.buf) (drop (size v) a.buf)
          (omega (arith, length-take (size v) v.buf, ok.array, at_most v))
        ∙ take-take (size v) (size v) v.buf (omega arith)

    equal :
        (m : Run Bool)
        → Returns
            (λ r.
              (r ≡ true) ↔ ((v.family ≡ v.family) × (take (size v) copy.buf ≡ take (size v) v.buf)))
            m
        → m ≡ done true
    equal (done r) f = ap done (f.1 (refl, same_bytes))
    equal (fault x) f = absurd f

-- Specifications that compare equal have the same hash, if the strings that the library compares as
-- equal are so.
pub spec_hash-spec_equals :
    (string_eq : Bytes → Bytes → Bool) (int_eq : ℤ → ℤ → Bool) (hash_size : ℕ → ℕ)
    (hash_string : Bytes → ℕ) (a b : SocketSpec)
    → ((x y : Bytes) → string_eq x y ≡ true → x ≡ y)
    → IsAddress a.ipaddr
    → IsAddress b.ipaddr
    → spec_equals string_eq int_eq a b ≡ done true
    → spec_hash hash_size hash_string a ≡ spec_hash hash_size hash_string b
unfolding spec_equals spec_hash equals_as hash_as
spec_hash-spec_equals string_eq int_eq hash_size hash_string a b sound v w e =
    by_kind a.type b.type e
  where
    guarded :
        (c : Bool)
        → (if c then equals a.ipaddr b.ipaddr else done false) ≡ done true
        → equals a.ipaddr b.ipaddr ≡ done true
    guarded true q = q
    guarded false q = absurd (cc)

    by_kind :
        (s t : Kind)
        → equals_as string_eq int_eq s t a b ≡ done true
        → hash_as hash_size hash_string s a ≡ hash_as hash_size hash_string t b
    by_kind Kind.unknown t h = absurd (cc)
    by_kind Kind.local Kind.unknown h = absurd (cc)
    by_kind Kind.local Kind.inet h = absurd (cc)
    by_kind Kind.local Kind.local h =
        ap (λ x. done (bit_xor (hash_size 1) (hash_string x))) (sound a.local b.local (bool h))
      where
        bool : {x : Bool} → done x ≡ done true → x ≡ true
        bool q = cc
    by_kind Kind.inet Kind.unknown h = absurd (cc)
    by_kind Kind.inet Kind.local h = absurd (cc)
    by_kind Kind.inet Kind.inet h =
        ap (λ m. m >>= λ x. done (bit_xor (hash_size 2) x))
          (hash-equals a.ipaddr b.ipaddr v w (guarded (int_eq a.port b.port) h))
