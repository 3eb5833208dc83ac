-- ===== src/Prelude/Draws/Ends.antt =====
-- Total correctness of code over a random source: it yields a value, from the source as it is.
use niba.Prelude.{◌≡◌, ◌∙◌}
use niba.Prelude.Run.{Run, done}
use niba.Prelude.Draws.{Draws, lift, ◌>>=◌, lift-of_done, >>=-of_done}

-- From `r`, `m` yields a value that satisfies `P` with the source that it leaves.
abbrev pub Ends : {R A : Type 0} → (A → R → Type 0) → Draws R A → R → Type 0
Ends {R} {A} P m r = (a : A) × (r' : R) × (m r ≡ done (a, r')) × P a r'

module _ {R A : Type 0} (P : A → R → Type 0) where
  pub Ends-lift : (m : Run A) (a : A) (r : R) → m ≡ done a → P a r → Ends P (lift m) r
  Ends-lift m a r e p = (a, r, lift-of_done m r e, p)

module _ {R A B : Type 0} (Q : A → R → Type 0) (P : B → R → Type 0) where
  pub Ends-bind :
      (m : Draws R A) (f : A → Draws R B) (r : R)
      → Ends Q m r
      → ((a : A) (r' : R) → Q a r' → Ends P (f a) r')
      → Ends P (m >>= f) r
  Ends-bind m f r (a, r₁, e, q) k =
      let (b, r₂, e₂, p) = k a r₁ q in (b, r₂, >>=-of_done m f e ∙ e₂, p)

module _ {R A B : Type 0} (P : B → R → Type 0) where
  -- Behind a step that draws nothing.
  pub Ends-bind-lift :
      (m : Run A) (a : A) (f : A → Draws R B) (r : R)
      → m ≡ done a
      → Ends P (f a) r
      → Ends P (lift m >>= f) r
  Ends-bind-lift m a f r e (b, r₂, e₂, p) =
      (b, r₂, >>=-of_done (lift m) f (lift-of_done m r e) ∙ e₂, p)
