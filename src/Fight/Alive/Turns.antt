-- ===== src/Fight/Alive/Turns.antt =====
-- One turn of `fight::go`, in shared/fight.cpp, and the counts of the two sides.
use mathlib.Core.Path.{subst}
use niba.Prelude.{
  ℕ, zero, suc, ◌+◌, ◌<◌, ◌≡◌, refl, ap, ◌∙◌, sym, Bool, true, false, not, ◌&&◌, ◌==◌, Option, none,
  some, List, [], ◌∷◌, arith, if◌then◌else◌, get_elem?, modify,
}
use niba.Prelude.Int.{ℤ}
use niba.Prelude.Word.{add_int}
use niba.Prelude.Run.{done, done-injective}
use niba.Prelude.Draws.{Rng}
use niba.Prelude.Draws.Yields.{Yields, Yields-pure, Yields-bind, Yields-bind-lift, Yields-bind-any}
use niba.Prelude.Double.{Double}
use niba.Fight.Fighter.{Fightable, is_down, pick_magic_idx}
use niba.Fight.Clock.{at}
use niba.Fight.Rounds.{
  Battle, heat, spend_mp, lose_hp, rest, count_down, is_over, use_magic, attack, turn,
}
use niba.Fight.Alive.{
  Vitals, vitals, all_vitals, is_dead, counts, living, AliveAt, NumberedFrom, NumberedFrom-get,
  vitals-modify, get_elem?-vitals, alive_from-AliveAt,
}
use niba.Fight.Alive.Passes.{next_to_act-All, advance-All, advance-vitals}

abbrev pub vitals_of : Battle → List Vitals
vitals_of b = all_vitals b.fighters

-- The counts of `go` are the numbers of the living, one side at least has somebody left, and each
-- fighter carries the number of its place.
pub record Inv (b : Battle) : Type 0 where
  pub friends_counted : b.alive0 ≡ living true (vitals_of b)
  pub enemies_counted : b.alive1 ≡ living false (vitals_of b)
  pub someone : 0 < b.alive0 + b.alive1
  pub numbered : NumberedFrom 0 (vitals_of b)

lose_hp-numbered :
    (i t : ℕ) (fs : List Fightable) (dmg : ℤ)
    → NumberedFrom i (all_vitals fs)
    → NumberedFrom i (all_vitals (modify fs t (lose_hp dmg)))
unfolding lose_hp
lose_hp-numbered i t [] dmg h = tt
lose_hp-numbered i zero (f ∷ fs) dmg h = h
lose_hp-numbered i (suc t) (f ∷ fs) dmg h = (h.0, lose_hp-numbered (suc i) t fs dmg h.1)

-- The fighter that is hit was alive: its side loses one if it is down now, and none otherwise.
abbrev loss : Bool → Fightable → ℕ
loss friend f = if is_down f && (if friend then f.team == 0 else not (f.team == 0)) then 1 else 0

hit_count :
    (s : Bool) (f : Fightable) (dmg : ℤ)
    → is_down f ≡ false
    → (if counts s (vitals (lose_hp dmg f)) then 1 else 0) + loss s (lose_hp dmg f)
      ≡ (if counts s (vitals f) then 1 else 0)
unfolding lose_hp
hit_count true f dmg up = ground arith
hit_count false f dmg up = ground arith

living-lose_hp :
    (s : Bool) (t : ℕ) (fs : List Fightable) (dmg : ℤ) {v : Vitals} {hurt : Fightable}
    → get_elem? (all_vitals fs) t ≡ some v
    → is_dead v ≡ false
    → at (modify fs t (lose_hp dmg)) t ≡ done hurt
    → living s (all_vitals (modify fs t (lose_hp dmg))) + loss s hurt ≡ living s (all_vitals fs)
unfolding living
living-lose_hp s t [] dmg e up e' = cc
living-lose_hp s zero (f ∷ fs) dmg {v} {hurt} e up e' =
    let up' : is_down f ≡ false = ground arith in
    let same : lose_hp dmg f ≡ hurt = done-injective e' in
    rw (← same) (omega (arith, hit_count s f dmg up'))
living-lose_hp s (suc t) (f ∷ fs) dmg e up e' = omega (arith, living-lose_hp s t fs dmg e up e')

pub spent-vitals :
    (fs : List Fightable) (a k : ℕ) (cost : ℤ)
    → all_vitals (modify (modify fs a (heat k)) a (spend_mp cost)) ≡ all_vitals fs
unfolding heat spend_mp
spent-vitals fs a k cost =
    vitals-modify (modify fs a (heat k)) a (spend_mp cost) (λ f. refl)
    ∙ vitals-modify fs a (heat k) (λ f. refl)

-- The count goes down with the living.
count_down-Inv :
    (b : Battle) (hurt : Fightable) (fs : List Fightable)
    → Inv b
    → is_over b ≡ false
    → ((s : Bool) → living s (all_vitals fs) + loss s hurt ≡ living s (vitals_of b))
    → NumberedFrom 0 (all_vitals fs)
    → Inv (count_down hurt (record b { fighters = fs }))
unfolding count_down
count_down-Inv b hurt fs inv going lost numbered = record {
  friends_counted = ground (arith, lost true);
  enemies_counted = ground (arith, lost false);
  someone = ground arith;
  numbered = ground arith;
}

pub rest-vitals : (f : Fightable) → vitals (rest f) ≡ vitals f
unfolding rest
rest-vitals f = refl

module _ (d : Double) (asserts : Bool) {R : Type 0} (rng : Rng R) where
  use_magic-vitals :
      (fs : List Fightable) (a t : ℕ) (picked : Option ℕ)
      → Yields
          (λ (r : ℤ × List Fightable). all_vitals r.1 ≡ all_vitals fs)
          (use_magic d asserts rng fs a t picked)
  unfolding use_magic
  use_magic-vitals fs a t none = Yields-bind-any _ _ _ λ attacker.
      Yields-bind-any _ _ _ λ defender. Yields-bind-any _ _ _ λ dmg. Yields-pure _ (dmg, fs) refl
  use_magic-vitals fs a t (some k) = Yields-bind-any _ _ _ λ attacker.
      Yields-bind-any _ _ _ λ chosen. Yields-bind-any _ _ _ λ defender.
        Yields-bind-any _ _ _ λ dmg. Yields-pure _ _ (spent-vitals fs a k chosen.real_magic.mp_cost)

  attack-Inv :
      (b : Battle) (a t : ℕ)
      → Inv b
      → is_over b ≡ false
      → AliveAt (vitals_of b) t
      → Yields Inv (attack d asserts rng b a t)
  unfolding attack
  attack-Inv b a t inv going (v, found, up) = Yields-bind-any _ _ _ λ attacker.
      Yields-bind _ _ _ _ (use_magic-vitals b.fighters a t (pick_magic_idx attacker))
        λ (dmg, fs) same. Yields-bind-lift _ _ _ λ hurt e.
          let rested = vitals-modify (modify fs t (lose_hp dmg)) a rest rest-vitals in
          Yields-pure _ _ (
            count_down-Inv b hurt (modify (modify fs t (lose_hp dmg)) a rest) inv going
              (λ s.
                ap (λ (vs : List Vitals). living s vs + loss s hurt) rested
                ∙ living-lose_hp s t fs dmg (ap (λ (vs : List Vitals). get_elem? vs t) same ∙ found)
                    up e
                ∙ ap (living s) same)
              (subst (NumberedFrom 0) (sym rested)
                (lose_hp-numbered 0 t fs dmg (subst (NumberedFrom 0) (sym same) inv.numbered))))

  pub turn-Inv : (b : Battle) → Inv b → is_over b ≡ false → Yields Inv (turn d asserts rng b)
  unfolding turn
  turn-Inv b inv going =
      let living_idx = alive_from-AliveAt b.fighters in
      Yields-bind-lift _ _ _ λ acts e. Yields-bind-lift _ _ _ λ attacker e'.
        Yields-bind-lift _ _ _ λ moved e''. Yields-bind-any _ _ _ λ u.
          let alive_acts : AliveAt (vitals_of b) acts.1 =
            next_to_act-All (AliveAt (vitals_of b)) b.fighters _ living_idx e in
          let its_place : attacker.idx ≡ acts.1 =
            NumberedFrom-get 0 acts.1 (vitals_of b) inv.numbered
              (get_elem?-vitals b.fighters acts.1 e')
            ∙ omega arith in
          let same = advance-vitals attacker.team acts.0 _ b.fighters _ e'' in
          let target : AliveAt (vitals_of b) moved.1.1 =
            advance-All (AliveAt (vitals_of b)) attacker.team acts.0 _ b.fighters _
              (subst (AliveAt (vitals_of b)) (sym its_place) alive_acts) living_idx e'' in
          attack-Inv (record b { fighters = moved.0; elapsed = add_int b.elapsed acts.0 }) acts.1
            moved.1.1
            (record {
              friends_counted = inv.friends_counted ∙ ap (living true) (sym same);
              enemies_counted = inv.enemies_counted ∙ ap (living false) (sym same);
              someone = inv.someone;
              numbered = subst (NumberedFrom 0) (sym same) inv.numbered;
            })
            going (subst (λ (vs : List Vitals). AliveAt vs moved.1.1) (sym same) target)
