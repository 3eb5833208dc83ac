-- ===== src/Prelude/Draws.antt =====
-- Code that draws from a random source: the source is threaded through.
pub mod Yields
pub mod Ends
use niba.Prelude.{◌≡◌, refl}
use niba.Prelude.Run.{Run, done, fault, out_of_fuel}
use niba.Prelude.Int.{ℤ}

abbrev pub Draws : Type 0 → Type 0 → Type 0
Draws R A = R → Run (A × R)

-- The call operator of `rng_server` and `rng_client`: a number between two bounds.
abbrev pub Rng : Type 0 → Type 0
Rng R = ℤ → ℤ → Draws R ℤ

module _ {R : Type 0} where
  -- Code that draws nothing.
  pub lift : {A : Type 0} → Run A → Draws R A
  lift m r = elim m [ done a ↦ done (a, r) | fault e ↦ fault e | out_of_fuel ↦ out_of_fuel ]

  abbrev pub pure : {A : Type 0} → A → Draws R A
  pure a = lift (done a)

  -- To unfold this opens `lift` too.
  infixl 5 ◌>>=◌
  unfoldable pub ◌>>=◌ : {A B : Type 0} → Draws R A → (A → Draws R B) → Draws R B
  unfolding lift
  ◌>>=◌ m f r = elim (m r) [ done (a, r') ↦ f a r' | fault e ↦ fault e | out_of_fuel ↦ out_of_fuel ]

  -- Inversion of code that yields a value.
  pub lift-eq-done :
      {A : Type 0} (m : Run A) {r : R} {b : A} {r' : R}
      → lift m r ≡ done (b, r')
      → (m ≡ done b) × (r ≡ r')
  unfolding lift
  lift-eq-done (done a) h = (cc, cc)
  lift-eq-done (fault e) h = cc
  lift-eq-done out_of_fuel h = cc

  pub >>=-eq-done :
      {A B : Type 0} (m : Draws R A) (f : A → Draws R B) {r : R} {b : B} {r₂ : R}
      → (m >>= f) r ≡ done (b, r₂)
      → (a : A) × (r₁ : R) × (m r ≡ done (a, r₁)) × (f a r₁ ≡ done (b, r₂))
  unfolding ◌>>=◌
  >>=-eq-done {A} {B} m f {r} {b} {r₂} h = split (m r) refl h
    where
      split :
          (x : Run (A × R))
          → m r ≡ x
          → (elim x [ done (a, r') ↦ f a r' | fault e ↦ fault e | out_of_fuel ↦ out_of_fuel ])
            ≡ done (b, r₂)
          → (a : A) × (r₁ : R) × (m r ≡ done (a, r₁)) × (f a r₁ ≡ done (b, r₂))
      split (done (a, r')) e h' = (a, r', e, h')
      split (fault x) e h' = cc
      split out_of_fuel e h' = cc

  -- The converses.
  pub >>=-of_done :
      {A B : Type 0} (m : Draws R A) (f : A → Draws R B) {r : R} {a : A} {r₁ : R}
      → m r ≡ done (a, r₁)
      → (m >>= f) r ≡ f a r₁
  unfolding ◌>>=◌
  >>=-of_done m f h = rw (h, ◌>>=◌)

  pub lift-of_done : {A : Type 0} (m : Run A) {a : A} (r : R) → m ≡ done a → lift m r ≡ done (a, r)
  unfolding lift
  lift-of_done m r h = rw h
