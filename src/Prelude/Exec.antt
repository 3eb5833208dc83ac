-- ===== src/Prelude/Exec.antt =====
-- Code over a state `W` that may throw: what was written before a throw stays written.
pub mod Keeps
use niba.Prelude.{◌≡◌, refl, ap}
use niba.Prelude.Run.{Run, done, fault, out_of_fuel}

abbrev pub Exec : Type 0 → Type 0 → Type 0
Exec W A = W → Run A × W

module _ {W : Type 0} where
  infixl 5 ◌>>=◌ ◌>>◌
  abbrev pub ◌>>=◌ : {A B : Type 0} → Exec W A → (A → Exec W B) → Exec W B
  ◌>>=◌ m f w =
      let (r, w') = m w in
      elim r [ done a ↦ f a w' | fault e ↦ (fault e, w') | out_of_fuel ↦ (out_of_fuel, w') ]

  abbrev pub ◌>>◌ : {B : Type 0} → Exec W (Unit {0}) → Exec W B → Exec W B
  m >> k = m >>= λ _. k

  abbrev pub pure : {A : Type 0} → A → Exec W A
  pure a w = (done a, w)

  abbrev pub lift : {A : Type 0} → Run A → Exec W A
  lift r w = (r, w)

  abbrev pub gets : {A : Type 0} → (W → A) → Exec W A
  gets f w = (done (f w), w)

  abbrev pub modify_state : (W → W) → Exec W (Unit {0})
  modify_state f w = (done tt, f w)

  eq-done_split :
      {A B : Type 0} (m : Run A × W) (f : A → Exec W B) {b : B} {v : W} (r : Run A × W)
      → m ≡ r
      → (elim r.0 as (λ _. Run B × W) [
        | done a ↦ f a r.1
        | fault e ↦ (fault e, r.1)
        | out_of_fuel ↦ (out_of_fuel, r.1)
      ])
        ≡ (done b, v)
      → (a : A) × (u : W) × (m ≡ (done a, u)) × (f a u ≡ (done b, v))
  eq-done_split m f (done a, u) e k = (a, u, e, k)
  eq-done_split m f (fault x, u) e k = cc
  eq-done_split m f (out_of_fuel, u) e k = cc

  -- Inversion of a successful bind.
  pub >>=-eq-done :
      {A B : Type 0} (m : Exec W A) (f : A → Exec W B) (w : W) {b : B} {v : W}
      → (m >>= f) w ≡ (done b, v)
      → (a : A) × (u : W) × (m w ≡ (done a, u)) × (f a u ≡ (done b, v))
  >>=-eq-done m f w h = eq-done_split (m w) f (m w) refl h

  -- What a bind makes of the step before it.
  abbrev pub after : {A B : Type 0} → (A → Exec W B) → Run A × W → Run B × W
  after {A} {B} f p = elim p.0 as (λ _. Run B × W) [
    | done a ↦ f a p.1
    | fault e ↦ (fault e, p.1)
    | out_of_fuel ↦ (out_of_fuel, p.1)
  ]

  pub >>=-after :
      {A B : Type 0} (m : Exec W A) (f : A → Exec W B) (w : W) {p : Run A × W}
      → m w ≡ p
      → (m >>= f) w ≡ after f p
  >>=-after m f w h = ap (after f) h
