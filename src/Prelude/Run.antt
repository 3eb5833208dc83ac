-- ===== src/Prelude/Run.antt =====
-- What a piece of the program comes to: a value, or the ways in which it yields none.
use niba.Prelude.{◌≡◌, refl, Bool, Option, none, some, if◌then◌else◌, not, ◌&&◌}

-- `undefined`: the code has no defined behaviour there (it divides by zero, reads past a vector).
-- `asserted`: BOOST_ASSERT stops the process. `thrown`: an exception, which a caller may catch.
pub data Fault : Type 0 where
  undefined asserted thrown : Fault

pub data Run {ℓ} (A : Type ℓ) : Type ℓ where
  done : A → Run A
  fault : Fault → Run A
  out_of_fuel : Run A

infixl 5 ◌>>=◌ ◌>>◌
abbrev pub ◌>>=◌ {ℓ κ} : {A : Type ℓ} {B : Type κ} → Run A → (A → Run B) → Run B
done a >>= f = f a
fault e >>= f = fault e
out_of_fuel >>= f = out_of_fuel

abbrev pub ◌>>◌ {ℓ} : {B : Type ℓ} → Run (Unit {0}) → Run B → Run B
m >> k = m >>= λ _. k

abbrev pub or_fault {ℓ} : {A : Type ℓ} → Option A → Fault → Run A
or_fault none e = fault e
or_fault (some a) e = done a

-- BOOST_ASSERT, which a build with NDEBUG (`enabled` false) compiles to nothing.
abbrev pub boost_assert : Bool → Bool → Run (Unit {0})
boost_assert enabled condition = if enabled && not condition then fault asserted else done tt

-- Inversion of a successful bind.
pub >>=-eq-done {ℓ κ} :
    {A : Type ℓ} {B : Type κ} (m : Run A) (f : A → Run B) {b : B}
    → (m >>= f) ≡ done b
    → (a : A) × (m ≡ done a) × (f a ≡ done b)
>>=-eq-done (done a) f h = (a, refl, h)
>>=-eq-done (fault e) f h = cc
>>=-eq-done out_of_fuel f h = cc

pub done-injective {ℓ} : {A : Type ℓ} {a b : A} → done a ≡ done b → a ≡ b
done-injective h = cc

-- Two continuations of one step: if the first yields `b`, the second yields `c`.
pub >>=-transfer {ℓ κ μ} :
    {A : Type ℓ} {B : Type κ} {C : Type μ} (m : Run A) (f : A → Run B) (g : A → Run C) {b : B}
    {c : C}
    → ((a : A) → f a ≡ done b → g a ≡ done c)
    → (m >>= f) ≡ done b
    → (m >>= g) ≡ done c
>>=-transfer (done a) f g k h = k a h
>>=-transfer (fault e) f g k h = cc
>>=-transfer out_of_fuel f g k h = cc

pub >>=-of_done {ℓ κ} :
    {A : Type ℓ} {B : Type κ} (m : Run A) (f : A → Run B) {a : A} → m ≡ done a → (m >>= f) ≡ f a
>>=-of_done m f h = rw h
