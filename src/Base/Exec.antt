-- ===== src/Base/Exec.antt =====
-- Code whose behaviour C++ may leave undefined: a run either ends with a value, or with the fault
-- that it commits first.
use mathlib.Core.Path.{◌≡◌}
use mathlib.Core.Bool.{Bool, true, false}

pub data Fault : Type 0 where
  out_of_bounds use_after_free assert_failed int_overflow : Fault
  -- a null pointer was followed, or an empty `std::function` called
  null_pointer bad_call : Fault
  -- A loop of the model made more rounds than it was given.
  out_of_fuel : Fault

pub data Run {ℓ} (A : Type ℓ) : Type ℓ where
  done : A → Run A
  fault : Fault → Run A

infixl 5 ◌>>=◌ ◌>>◌
abbrev pub ◌>>=◌ {ℓ κ} : {A : Type ℓ} {B : Type κ} → Run A → (A → Run B) → Run B
done a >>= f = f a
fault e >>= f = fault e

abbrev pub ◌>>◌ {ℓ κ} : {A : Type ℓ} {B : Type κ} → Run A → Run B → Run B
m >> k = m >>= λ _. k

-- `assert(b)`.
abbrev pub assert : Bool → Run (Unit {0})
assert true = done tt
assert false = fault assert_failed

-- A run that ends with a value for which the predicate holds.
abbrev pub Returns : {A : Type 0} → (A → Type 0) → Run A → Type 0
Returns P (done a) = P a
Returns P (fault e) = ⊥

pub done-injective : {A : Type 0} {a b : A} → done a ≡ done b → a ≡ b
done-injective h = cc

-- The rules of consequence and of sequence; the runs and predicates are written, since `Returns`
-- computes.
pub Returns-mono :
    {A : Type 0} (P Q : A → Type 0) (r : Run A) → Returns P r → ((a : A) → P a → Q a) → Returns Q r
Returns-mono P Q (done a) h k = k a h
Returns-mono P Q (fault e) h k = h

pub Returns-bind :
    {A B : Type 0} (P : A → Type 0) (Q : B → Type 0) (r : Run A) (f : A → Run B)
    → Returns P r
    → ((a : A) → P a → Returns Q (f a))
    → Returns Q (r >>= f)
Returns-bind P Q (done a) f h k = k a h
Returns-bind P Q (fault e) f h k = absurd h

-- A run that ends with such a value if it ends with one.
abbrev pub Ensures : {A : Type 0} → (A → Type 0) → Run A → Type 0
Ensures P (done a) = P a
Ensures P (fault e) = Unit

pub Returns-Ensures : {A : Type 0} (P : A → Type 0) (r : Run A) → Returns P r → Ensures P r
Returns-Ensures P (done a) h = h
Returns-Ensures P (fault e) h = tt

-- Two facts of one run.
pub Returns-and :
    {A : Type 0} (P Q : A → Type 0) (r : Run A)
    → Returns P r
    → Returns Q r
    → Returns (λ a. P a × Q a) r
Returns-and P Q (done a) p q = (p, q)
Returns-and P Q (fault e) p q = p
