-- ===== src/Fight/Fuel.antt =====
-- The fuel that stands in for the unbounded loop of `fight::go`, in shared/fight.cpp.
use niba.Prelude.{
  ℕ, zero, suc, ◌≤◌, arith, ◌≡◌, refl, ap, ◌∙◌, sym, Bool, true, false, inl, inr, Bool-cases,
}
use niba.Prelude.Run.{done, out_of_fuel}
use niba.Prelude.Draws.{Rng, ◌>>=◌, pure, lift, lift-eq-done, >>=-eq-done, >>=-of_done}
use niba.Prelude.Double.{Double}
use niba.Fight.Rounds.{Fight, Battle, is_over, turn, loop, go}

module _ (d : Double) (asserts : Bool) {R : Type 0} (rng : Rng R) where
  pub loop-over : (fuel : ℕ) (b : Battle) → is_over b ≡ true → loop d asserts rng fuel b ≡ pure b
  unfolding loop
  loop-over zero b h = rw h refl
  loop-over (suc fuel) b h = rw h refl

  pub loop-suc :
      (fuel : ℕ) (b : Battle)
      → is_over b ≡ false
      → loop d asserts rng (suc fuel) b ≡ (turn d asserts rng b >>= loop d asserts rng fuel)
  unfolding loop
  loop-suc fuel b h = rw h refl

  loop-zero : (b : Battle) → is_over b ≡ false → loop d asserts rng 0 b ≡ lift out_of_fuel
  unfolding loop
  loop-zero b h = rw h refl

  loop-more_fuel :
      (fuel more : ℕ) (b : Battle) (r r' : R) (b' : Battle)
      → fuel ≤ more
      → loop d asserts rng fuel b r ≡ done (b', r')
      → loop d asserts rng more b r ≡ done (b', r')
  loop-more_fuel zero more b r r' b' l h = elim (Bool-cases (is_over b)) [
    | inl over ↦ ap (λ m. m r) (loop-over more b over ∙ sym (loop-over 0 b over)) ∙ h
    | inr going ↦
        let (e, q) = lift-eq-done out_of_fuel (ap (λ m. m r) (sym (loop-zero b going)) ∙ h) in cc
  ]
  loop-more_fuel (suc fuel) zero b r r' b' l h = grind arith
  loop-more_fuel (suc fuel) (suc more) b r r' b' l h = elim (Bool-cases (is_over b)) [
    | inl over ↦ ap (λ m. m r) (loop-over (suc more) b over ∙ sym (loop-over (suc fuel) b over)) ∙ h
    | inr going ↦
        let (c, r₁, e, k) =
          >>=-eq-done (turn d asserts rng b) (loop d asserts rng fuel)
            (ap (λ m. m r) (sym (loop-suc fuel b going)) ∙ h) in
        ap (λ m. m r) (loop-suc more b going)
        ∙ >>=-of_done (turn d asserts rng b) (loop d asserts rng more) e
        ∙ loop-more_fuel fuel more c r₁ r' b' (omega arith) k
  ]

  -- The fuel does not matter once it is enough: with more of it a fight that returns is the same.
  pub go-more_fuel :
      (fuel more : ℕ) (f : Fight) (r r' : R) (o : ℕ × Fight)
      → fuel ≤ more
      → go d asserts rng fuel f r ≡ done (o, r')
      → go d asserts rng more f r ≡ done (o, r')
  unfolding go
  go-more_fuel fuel more f r r' o l h =
      let (b, r₁, e, k) = >>=-eq-done (loop d asserts rng fuel _) _ h in
      >>=-of_done (loop d asserts rng more _) _ (loop-more_fuel fuel more _ r r₁ b l e) ∙ k
