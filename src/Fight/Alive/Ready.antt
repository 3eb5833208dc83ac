-- ===== src/Fight/Alive/Ready.antt =====
-- The constructor of `fight`, in shared/fight.cpp, and the state in which it leaves the fighters.
use niba.Prelude.{
  ℕ, suc, ◌+◌, ◌<◌, ◌≡◌, refl, ◌∙◌, Bool, true, false, not, ◌==◌, List, [], ◌∷◌, ◌++◌, map, arith,
  length, All, Bool-cases, inl, inr,
}
use niba.Prelude.Run.{done}
use niba.Prelude.Draws.{Rng}
use niba.Prelude.Double.{Double}
use niba.Fight.Fighter.{Fightable, is_down}
use niba.Fight.Rounds.{Fight, go}
use niba.Fight.Start.{set_team, number_from, slower, insert_by_speed, sort_by_speed, new_fight}
use niba.Fight.Alive.{all_vitals, living, NumberedFrom}
use niba.Fight.Alive.Winner.{IsReady, Won, go-Won}

abbrev pub IsAlive : Fightable → Type 0
IsAlive f = is_down f ≡ false

number_from-NumberedFrom :
    (i : ℕ) (fs : List Fightable) → NumberedFrom i (all_vitals (number_from i fs))
unfolding number_from
number_from-NumberedFrom i [] = tt
number_from-NumberedFrom i (f ∷ fs) = (refl, number_from-NumberedFrom (suc i) fs)

living-number_from :
    (s : Bool) (i : ℕ) (fs : List Fightable)
    → living s (all_vitals (number_from i fs)) ≡ living s (all_vitals fs)
unfolding living number_from
living-number_from s i [] = refl
living-number_from s i (f ∷ fs) = omega (arith, living-number_from s (suc i) fs)

living-insert :
    (s : Bool) (f : Fightable) (gs : List Fightable)
    → living s (all_vitals (insert_by_speed f gs)) ≡ living s (all_vitals (f ∷ gs))
unfolding living insert_by_speed
living-insert s f [] = refl
living-insert s f (g ∷ gs) = elim (Bool-cases (slower f g)) [
  | inl e ↦ rw e
  | inr e ↦ rw e (omega (arith, living-insert s f gs))
]

living-sort :
    (s : Bool) (fs : List Fightable)
    → living s (all_vitals (sort_by_speed fs)) ≡ living s (all_vitals fs)
unfolding sort_by_speed living
living-sort s [] = refl
living-sort s (f ∷ fs) = living-insert s f (sort_by_speed fs) ∙ omega (arith, living-sort s fs)

living-append :
    (s : Bool) (fs gs : List Fightable)
    → living s (all_vitals (fs ++ gs)) ≡ living s (all_vitals fs) + living s (all_vitals gs)
unfolding living
living-append s [] gs = omega arith
living-append s (f ∷ fs) gs = omega (arith, living-append s fs gs)

-- All of one team, alive: one side has them all, the other nobody.
living-team :
    (t : ℕ) (fs : List Fightable)
    → All IsAlive fs
    → (living (t == 0) (all_vitals (map (set_team t) fs)) ≡ length fs)
      × (living (not (t == 0)) (all_vitals (map (set_team t) fs)) ≡ 0)
unfolding living set_team
living-team t [] h = (refl, refl)
living-team t (f ∷ fs) h = ground (arith, living-team t fs h.1)

new_fight-living :
    (s : Bool) (friends enemies : List Fightable)
    → living s (all_vitals (new_fight friends enemies).all)
      ≡ living s (all_vitals (map (set_team 0) friends))
        + living s (all_vitals (map (set_team 1) enemies))
unfolding new_fight
new_fight-living s friends enemies =
    living-number_from s 0 _ ∙ living-sort s _ ∙ living-number_from s 0 _ ∙ living-append s _ _

pub new_fight-IsReady :
    (friends enemies : List Fightable)
    → All IsAlive friends
    → All IsAlive enemies
    → 0 < length friends + length enemies
    → IsReady (new_fight friends enemies)
unfolding new_fight
new_fight-IsReady friends enemies hf he some_fighter = record {
  friends_alive = omega (
    arith,
    new_fight-living true friends enemies,
    living-team 0 friends hf,
    living-team 1 enemies he,
  );
  enemies_alive = omega (
    arith,
    new_fight-living false friends enemies,
    living-team 0 friends hf,
    living-team 1 enemies he,
  );
  someone = some_fighter;
  numbered = number_from-NumberedFrom 0 _;
}

-- Where all fighters of both sides have more than 0 hp at the start, there is at least one fighter in
-- all, and the fight returns: it names a side, all fighters of the losing side are down at its end, and
-- one of the winning side is not.
pub fight_has_winner :
    (d : Double) (asserts : Bool) {R : Type 0} (rng : Rng R) (fuel : ℕ)
    (friends enemies : List Fightable) (r r' : R) (outcome : ℕ × Fight)
    → All IsAlive friends
    → All IsAlive enemies
    → 0 < length friends + length enemies
    → go d asserts rng fuel (new_fight friends enemies) r ≡ done (outcome, r')
    → Won outcome
fight_has_winner d asserts rng fuel friends enemies r r' outcome hf he some_fighter h =
    (go-Won d asserts rng fuel (new_fight friends enemies)
        (new_fight-IsReady friends enemies hf he some_fighter)).at
      r outcome r' h
