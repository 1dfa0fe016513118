-- ===== src/Address/Tests.antt =====
-- The theorems on addresses, at 192.168.0.1 and a specification with it.
use libxio.Base.{
  ℕ, ◌≡◌, refl, Bool, true, false, inl, [], ◌∷◌, Bytes, length, replicate, done, ◌==◌, ◌&&◌, ==_iff,
}
use libxio.Base.Int.{ℤ, pos, negsuc}
use libxio.BufferRef.{mem_eq}
use libxio.Address.{IpAddress, Kind, SocketSpec, equals, spec_equals, equals_as, spec_hash}
use libxio.Address.Sockaddr.{sockaddr}
use libxio.Address.Sockaddr.Filled.{sockaddr_lem}
use libxio.Address.Hashed.{IsAddress, spec_hash-spec_equals}

abbrev string_eq : Bytes → Bytes → Bool
string_eq [] [] = true
string_eq [] (y ∷ ys) = false
string_eq (x ∷ xs) [] = false
string_eq (x ∷ xs) (y ∷ ys) = (x == y) && string_eq xs ys

string_eq_sound : (xs ys : Bytes) → string_eq xs ys ≡ true → xs ≡ ys
string_eq_sound [] [] h = refl
string_eq_sound [] (y ∷ ys) h = absurd (cc)
string_eq_sound (x ∷ xs) [] h = absurd (cc)
string_eq_sound (x ∷ xs) (y ∷ ys) h = both (x == y) refl h (string_eq_sound xs ys)
  where
    cons : {a b : ℕ} {s t : Bytes} → a ≡ b → s ≡ t → a ∷ s ≡ b ∷ t
    cons p q = cc

    both :
        (c : Bool)
        → (x == y) ≡ c
        → (c && string_eq xs ys) ≡ true
        → (string_eq xs ys ≡ true → xs ≡ ys)
        → x ∷ xs ≡ y ∷ ys
    both true e q rec = cons ((==_iff x y).0 e) (rec q)
    both false e q rec = absurd (cc)

abbrev int_eq : ℤ → ℤ → Bool
int_eq (pos a) (pos b) = a == b
int_eq (negsuc a) (negsuc b) = a == b
int_eq (pos a) (negsuc b) = false
int_eq (negsuc a) (pos b) = false

-- The twelve bytes behind an IPv4 address do not matter.
abbrev router : IpAddress
router = record {
  family = 2;
  buf = 192 ∷ 168 ∷ 0 ∷ 1 ∷ 0 ∷ 0 ∷ 0 ∷ 0 ∷ 0 ∷ 0 ∷ 0 ∷ 0 ∷ 0 ∷ 0 ∷ 0 ∷ 0 ∷ [];
}

abbrev router_again : IpAddress
router_again = record {
  family = 2;
  buf = 192 ∷ 168 ∷ 0 ∷ 1 ∷ 9 ∷ 9 ∷ 9 ∷ 9 ∷ 9 ∷ 9 ∷ 9 ∷ 9 ∷ 9 ∷ 9 ∷ 9 ∷ 9 ∷ [];
}

router-IsAddress : IsAddress router
router-IsAddress = record { family = inl refl; array = refl }

router_again-IsAddress : IsAddress router_again
router_again-IsAddress = record { family = inl refl; array = refl }

abbrev web : IpAddress → SocketSpec
web a = record { type = Kind.inet; ipaddr = a; local = []; port = pos 80 }

same_web : spec_equals string_eq int_eq (web router) (web router_again) ≡ done true
unfolding spec_equals equals_as equals mem_eq
same_web = refl

sockaddr_lem_example :
    sockaddr router (pos 80)
    ≡ done (0 ∷ (0 ∷ (0 ∷ (80 ∷ (192 ∷ (168 ∷ (0 ∷ (1 ∷ replicate 8 0))))))))
sockaddr_lem_example = sockaddr_lem router (pos 80) refl

spec_hash-spec_equals_example :
    spec_hash (λ n. n) length (web router) ≡ spec_hash (λ n. n) length (web router_again)
spec_hash-spec_equals_example =
    spec_hash-spec_equals string_eq int_eq (λ n. n) length (web router) (web router_again)
      string_eq_sound router-IsAddress router_again-IsAddress same_web
