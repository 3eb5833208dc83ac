-- ===== src/Prelude/Exec/Keeps.antt =====
-- What holds of the state after code has run, whether it yields a value or faults.
use niba.Prelude.{Bool, true, false, if◌then◌else◌}
use niba.Prelude.Run.{Run, done, fault, out_of_fuel}
use niba.Prelude.Exec.{Exec, ◌>>=◌}

module _ {W : Type 0} where
  -- From every state with `P`, code leaves a state with `P`.
  abbrev pub Keeps : {A : Type 0} → (W → Type 0) → Exec W A → Type 0
  Keeps P m = (w : W) → P w → P ((m w).1)

  after :
      {A B : Type 0} (P : W → Type 0) (f : A → Exec W B)
      → ((a : A) → Keeps P (f a))
      → (r : Run A × W) → P r.1
      → P (
          (elim r.0 as (λ _. Run B × W) [
            | done a ↦ f a r.1
            | fault e ↦ (fault e, r.1)
            | out_of_fuel ↦ (out_of_fuel, r.1)
          ]).1)
  after P f k (done a, w) p = k a w p
  after P f k (fault e, w) p = p
  after P f k (out_of_fuel, w) p = p

  pub Keeps-bind :
      {A B : Type 0} (P : W → Type 0) (m : Exec W A) (f : A → Exec W B)
      → Keeps P m
      → ((a : A) → Keeps P (f a))
      → Keeps P (m >>= f)
  Keeps-bind P m f h k w p = after P f k (m w) (h w p)

  pub Keeps-if :
      {A : Type 0} (P : W → Type 0) (b : Bool) (m n : Exec W A)
      → Keeps P m
      → Keeps P n
      → Keeps P (if b then m else n)
  Keeps-if P true m n h k = h
  Keeps-if P false m n h k = k
