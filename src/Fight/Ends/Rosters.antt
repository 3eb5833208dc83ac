-- ===== src/Fight/Ends/Rosters.antt =====
-- A fight from its constructor to its end: `fight::fight` and `fight::go`, shared/fight.cpp.
use niba.Prelude.{
  ℕ, suc, ◌+◌, ◌≤◌, ◌<◌, ◌≡◌, Bool, List, [], ◌∷◌, map, length, All, All-append, Bool-cases, inl,
  inr,
}
use niba.Prelude.Run.{done}
use niba.Prelude.Draws.{Rng}
use niba.Prelude.Double.{Double}
use niba.Fight.Fighter.{Fightable}
use niba.Fight.Rounds.{Fight, go}
use niba.Fight.Start.{set_team, number_from, slower, insert_by_speed, sort_by_speed, new_fight}
use niba.Fight.Fuel.{go-more_fuel}
use niba.Fight.Alive.Winner.{Won}
use niba.Fight.Alive.Ready.{IsAlive, new_fight-IsReady}
use niba.Fight.Ends.{IsFit, Deals}
use niba.Fight.Ends.Finish.{go-Ends}

module _ (P : Fightable → Type 0) (fit : IsFit P) where
  All-set_team : (t : ℕ) (fs : List Fightable) → All P fs → All P (map (set_team t) fs)
  All-set_team t [] all = tt
  All-set_team t (f ∷ fs) all = (fit.teamed t f all.0, All-set_team t fs all.1)

  All-number_from : (i : ℕ) (fs : List Fightable) → All P fs → All P (number_from i fs)
  unfolding number_from
  All-number_from i [] all = tt
  All-number_from i (f ∷ fs) all = (fit.numbered i f all.0, All-number_from (suc i) fs all.1)

  All-insert : (f : Fightable) (gs : List Fightable) → P f → All P gs → All P (insert_by_speed f gs)
  unfolding insert_by_speed
  All-insert f [] p all = (p, tt)
  All-insert f (g ∷ gs) p all = elim (Bool-cases (slower f g)) [
    | inl e ↦ rw e (p, all)
    | inr e ↦ rw e (all.0, All-insert f gs p all.1)
  ]

  All-sort : (fs : List Fightable) → All P fs → All P (sort_by_speed fs)
  unfolding sort_by_speed
  All-sort [] all = tt
  All-sort (f ∷ fs) all = All-insert f (sort_by_speed fs) all.0 (All-sort fs all.1)

  All-new_fight :
      (friends enemies : List Fightable)
      → All P friends
      → All P enemies
      → All P (new_fight friends enemies).all
  unfolding new_fight
  All-new_fight friends enemies h k = All-number_from 0 _ (
      All-sort _ (
        All-number_from 0 _
          (All-append P _ _ (All-set_team 0 friends h) (All-set_team 1 enemies k))))

  -- A fight ends: there is a fuel so that with it, and with any more, the fight returns one and the
  -- same outcome, which names the side of which somebody is left, nobody being left of the other. The
  -- fighters are above 0 hp and at least one in all; they are of a kind whose speed is above 0 and
  -- whose threat is not negative, kept by what a fight does to a fighter; and every attack within the
  -- kind deals a damage from 0 to below 2^31, where a 0 takes some of a patience that the random
  -- source has.
  pub fight_ends :
      (d : Double) (asserts : Bool) {R : Type 0} (rng : Rng R) (patience : R → ℕ)
      → Deals P d asserts rng patience
      → (friends enemies : List Fightable) (r : R) → All P friends
      → All P enemies
      → All IsAlive friends
      → All IsAlive enemies
      → 0 < length friends + length enemies
      → (fuel : ℕ) × (outcome : ℕ × Fight) × (r' : R) × ((more : ℕ)
          → fuel ≤ more
          → go d asserts rng more (new_fight friends enemies) r ≡ done (outcome, r'))
        × Won outcome
  fight_ends d asserts rng patience deals friends enemies r h k hf he some_fighter =
      let (fuel, (outcome, r', e, won)) =
        go-Ends P fit d asserts rng patience deals (new_fight friends enemies) r
          (new_fight-IsReady friends enemies hf he some_fighter)
          (All-new_fight friends enemies h k) in
      (
        fuel,
        outcome,
        r',
        λ more enough.
            go-more_fuel d asserts rng fuel more (new_fight friends enemies) r r' outcome enough e,
        won,
      )
