-- ===== src/Prelude/Draws/Yields.antt =====
-- Partial correctness of code over a random source, one rule for each way to build it.
use mathlib.Core.Path.{subst}
use niba.Prelude.{◌≡◌, refl, Bool, true, false, if◌then◌else◌}
use niba.Prelude.Run.{Run, done}
use niba.Prelude.Draws.{Draws, lift, ◌>>=◌, >>=-eq-done, lift-eq-done}

-- Whatever `m` yields satisfies `P`.
pub record Yields {R A : Type 0} (P : A → Type 0) (m : Draws R A) : Type 0 where
  pub at : (r : R) (a : A) (r' : R) → m r ≡ done (a, r') → P a

module _ {R A : Type 0} (P : A → Type 0) where
  pub Yields-lift : (m : Run A) → ((a : A) → m ≡ done a → P a) → Yields {R = R} P (lift m)
  Yields-lift m h = record { at = λ r a r' e. h a (lift-eq-done m e).0 }

  pub Yields-pure : (a : A) → P a → Yields {R = R} P (lift (done a))
  Yields-pure a h = Yields-lift (done a) (λ b e. subst P (cc) h)

  pub Yields-if :
      (b : Bool) (m n : Draws R A)
      → (b ≡ true → Yields P m)
      → (b ≡ false → Yields P n)
      → Yields P (if b then m else n)
  Yields-if true m n hm hn = hm refl
  Yields-if false m n hm hn = hn refl

module _ {R A B : Type 0} where
  pub Yields-bind :
      (Q : A → Type 0) (P : B → Type 0) (m : Draws R A) (f : A → Draws R B)
      → Yields Q m
      → ((a : A) → Q a → Yields P (f a))
      → Yields P (m >>= f)
  Yields-bind Q P m f hm hf = record {
    at = λ r b r₂ e.
        let (a, r₁, e₁, e₂) = >>=-eq-done m f e in (hf a (hm.at r a r₁ e₁)).at r₁ b r₂ e₂;
  }

  -- Behind a step that draws nothing, its value is known.
  pub Yields-bind-lift :
      (P : B → Type 0) (m : Run A) (f : A → Draws R B)
      → ((a : A) → m ≡ done a → Yields P (f a))
      → Yields P (lift m >>= f)
  Yields-bind-lift P m f hf =
      Yields-bind (λ a. m ≡ done a) P (lift m) f (Yields-lift _ m (λ a e. e)) hf

  -- Behind a step of which nothing is known.
  pub Yields-bind-any :
      (P : B → Type 0) (m : Draws R A) (f : A → Draws R B)
      → ((a : A) → Yields P (f a))
      → Yields P (m >>= f)
  Yields-bind-any P m f hf =
      Yields-bind (λ _. Unit {0}) P m f (record { at = λ _ _ _ _. tt }) (λ a _. hf a)
