-- ===== src/Fight/Alive/Winner.antt =====
-- What `fight::go` of shared/fight.cpp returns.
use niba.Prelude.{
  ℕ, zero, suc, ◌+◌, ◌<◌, ◌≡◌, refl, Bool, true, false, ◌==◌, ◌⊎◌, inl, inr, arith, if◌then◌else◌,
  Bool-cases,
}
use niba.Prelude.Draws.{Rng}
use niba.Prelude.Draws.Yields.{Yields, Yields-lift, Yields-pure, Yields-if, Yields-bind}
use niba.Prelude.Double.{Double}
use niba.Fight.Rounds.{Battle, Fight, is_over, loop, go}
use niba.Fight.Alive.{all_vitals, living, NumberedFrom}
use niba.Fight.Alive.Turns.{Inv, turn-Inv}

-- What `go` starts from: everybody who takes part is alive and counted, and carries the number of
-- its place, and somebody takes part.
pub record IsReady (f : Fight) : Type 0 where
  pub friends_alive : f.friends ≡ living true (all_vitals f.all)
  pub enemies_alive : f.enemies ≡ living false (all_vitals f.all)
  pub someone : 0 < f.friends + f.enemies
  pub numbered : NumberedFrom 0 (all_vitals f.all)

abbrev pub Won : ℕ × Fight → Type 0
Won (w, f) =
    ((w ≡ 0) × (living false (all_vitals f.all) ≡ 0) × (0 < living true (all_vitals f.all)))
    ⊎ ((w ≡ 1) × (living true (all_vitals f.all) ≡ 0) × (0 < living false (all_vitals f.all)))

Inv-Won :
    (b : Battle) (f : Fight)
    → Inv b
    → is_over b ≡ true
    → Won (if b.alive1 == 0 then 0 else 1, record f { all = b.fighters; elapsed_ticks = b.elapsed })
Inv-Won b f inv over = elim (Bool-cases (b.alive1 == 0)) [
  | inl e ↦ rw e (inl (refl, ground arith, ground arith))
  | inr e ↦ rw e (inr (refl, ground arith, ground arith))
]

module _ (d : Double) (asserts : Bool) {R : Type 0} (rng : Rng R) where
  loop-Inv :
      (fuel : ℕ) (b : Battle)
      → Inv b
      → Yields (λ b'. Inv b' × (is_over b' ≡ true)) (loop d asserts rng fuel b)
  unfolding loop
  loop-Inv zero b inv =
      Yields-if _ (is_over b) _ _ (λ over. Yields-pure _ b (inv, over))
        (λ _. Yields-lift _ _ (λ a e. cc))
  loop-Inv (suc fuel) b inv =
      Yields-if _ (is_over b) _ _ (λ over. Yields-pure _ b (inv, over))
        (λ going.
          Yields-bind Inv _ _ _ (turn-Inv d asserts rng b inv going)
            (λ b' inv'. loop-Inv fuel b' inv'))

  -- From a fight in which everybody is alive, `go`, where it returns, names the side of which
  -- somebody is left, and nobody is left of the other.
  pub go-Won : (fuel : ℕ) (f : Fight) → IsReady f → Yields Won (go d asserts rng fuel f)
  unfolding go
  go-Won fuel f ready =
      Yields-bind (λ b. Inv b × (is_over b ≡ true)) _ _ _
        (loop-Inv fuel _ (record {
          friends_counted = ready.friends_alive;
          enemies_counted = ready.enemies_alive;
          someone = ready.someone;
          numbered = ready.numbered;
        }))
        λ b ended. Yields-pure _ _ (Inv-Won b f ended.0 ended.1)
