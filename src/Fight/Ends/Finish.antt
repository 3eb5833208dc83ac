-- ===== src/Fight/Ends/Finish.antt =====
-- The loop of `fight::go`, in shared/fight.cpp: why it comes to an end.
use mathlib.Core.Path.{subst}
use niba.Prelude.{
  ℕ, zero, suc, ◌≤◌, ◌<◌, ◌≡◌, refl, ap, ◌∙◌, sym, Bool, true, false, not, ◌==◌, inl, inr, some,
  List, arith, get_elem?, All, Bool-cases,
}
use niba.Prelude.Int.{negsuc}
use niba.Prelude.Word.{add_int}
use niba.Prelude.Run.{done, boost_assert}
use niba.Prelude.Draws.{Rng, >>=-of_done, lift-of_done}
use niba.Prelude.Draws.Ends.{Ends, Ends-lift, Ends-bind, Ends-bind-lift}
use niba.Prelude.Double.{Double}
use niba.Fight.Fighter.{Fightable}
use niba.Fight.Clock.{alive_from}
use niba.Fight.Rounds.{Fight, Battle, is_over, attack, turn, loop, go}
use niba.Fight.Fuel.{loop-over, loop-suc}
use niba.Fight.Alive.{
  Vitals, vitals, all_vitals, is_dead, living, AliveAt, NumberedFrom-get, get_elem?-vitals,
  alive_from-AliveAt,
}
use niba.Fight.Alive.Passes.{next_to_act-All, advance-All, advance-vitals}
use niba.Fight.Alive.Turns.{vitals_of, Inv, turn-Inv}
use niba.Fight.Alive.Winner.{IsReady, Won, go-Won}
use niba.Fight.Ends.{IsFit, vigor, Deals}
use niba.Fight.Ends.Acting.{SideAt, at-vitals, alive_from-SideAt, next_to_act-done}
use niba.Fight.Ends.Targets.{EnemyAt, SideAt-EnemyAt, advance-done}
use niba.Fight.Ends.Strikes.{Wears, attack-Ends}

-- While the loop goes on, both sides have somebody left.
both_living : (b : Battle) (side : Bool) → Inv b → is_over b ≡ false → 0 < living side (vitals_of b)
both_living b true inv going = ground (arith, inv.friends_counted)
both_living b false inv going = ground (arith, inv.enemies_counted)

some-injective : {A : Type 0} {a b : A} → some a ≡ some b → a ≡ b
some-injective h = cc

eq_self : (n : ℕ) → (n == n) ≡ true
eq_self n = ground arith

quiet : (asserts : Bool) → boost_assert asserts (not false) ≡ done tt
quiet true = refl
quiet false = refl

-- The target is another fighter than the attacker.
other_fighter :
    (asserts : Bool) (vs : List Vitals) (i j : ℕ) (v : Vitals)
    → get_elem? vs i ≡ some v
    → EnemyAt vs v.1 j
    → boost_assert asserts (not (j == i)) ≡ done tt
other_fighter asserts vs i j v here (w, there, enemy) = elim (Bool-cases (j == i)) [
  | inl same ↦
      let j_is_i : j ≡ i = ground (arith, same) in
      let w_is_v : some w ≡ some v = sym there ∙ ap (get_elem? vs) j_is_i ∙ here in
      let k : (w.1 == v.1) ≡ true =
        ap (λ (x : Vitals). x.1 == v.1) (some-injective w_is_v) ∙ eq_self v.1 in
      cc
  | inr other ↦ rw other (quiet asserts)
]

module _ (P : Fightable → Type 0) (fit : IsFit P) (d : Double) (asserts : Bool) {R : Type 0}
    (rng : Rng R) (patience : R → ℕ) (deals : Deals P d asserts rng patience) where
  turn-Ends :
      (b : Battle) (r : R)
      → Inv b
      → is_over b ≡ false
      → All P b.fighters
      → Ends
          (λ b' r'. All P b'.fighters × Wears patience (vitals_of b) r b' r')
          (turn d asserts rng b)
          r
  unfolding turn
  turn-Ends b r inv going all =
      let vs = vitals_of b in
      let is = alive_from 0 b.fighters in
      let alive = alive_from-AliveAt b.fighters in
      let (acts, e) =
        next_to_act-done P fit b.fighters all (SideAt true vs) is alive
          (alive_from-SideAt true b.fighters (both_living b true inv going)) in
      let acting : AliveAt vs acts.1 = next_to_act-All (AliveAt vs) b.fighters is alive e in
      let (attacker, e', shown) = at-vitals b.fighters acts.1 acting.1 in
      let here = get_elem?-vitals b.fighters acts.1 e' in
      let its_place : attacker.idx ≡ acts.1 =
        NumberedFrom-get 0 acts.1 vs inv.numbered here ∙ omega arith in
      let enemies = SideAt-EnemyAt vs attacker.team is (
        alive_from-SideAt (not (attacker.team == 0)) b.fighters
          (both_living b (not (attacker.team == 0)) inv going)) in
      let (moved, e'', all', target) =
        advance-done vs attacker.team P fit acts.0 is b.fighters (negsuc 0, attacker.idx) refl all
          alive (inr (refl, enemies)) in
      let same = advance-vitals attacker.team acts.0 is b.fighters _ e'' in
      let (v, found, up) : AliveAt vs moved.1.1 =
        advance-All (AliveAt vs) attacker.team acts.0 is b.fighters _
          (subst (AliveAt vs) (sym its_place) acting) alive e'' in
      let (defender, k, shown') =
        at-vitals moved.0 moved.1.1
          (ap (λ (ws : List Vitals). get_elem? ws moved.1.1) same ∙ found) in
      let (again, k', shown'') =
        at-vitals moved.0 acts.1 (ap (λ (ws : List Vitals). get_elem? ws acts.1) same ∙ here) in
      Ends-bind-lift _ _ _ _ r e (
        Ends-bind-lift _ _ _ _ r e' (
          Ends-bind-lift _ _ _ _ r e'' (
            Ends-bind-lift _ _ _ _ r
              (other_fighter asserts vs attacker.idx moved.1.1 (vitals attacker)
                (ap (get_elem? vs) its_place ∙ here) target)
              (subst
                (λ (ws : List Vitals).
                  Ends (λ b' r'. All P b'.fighters × Wears patience ws r b' r')
                    (attack d asserts rng
                      (record b { fighters = moved.0; elapsed = add_int b.elapsed acts.0 }) acts.1
                      moved.1.1)
                    r)
                same
                (attack-Ends P fit d asserts rng patience deals
                  (record b { fighters = moved.0; elapsed = add_int b.elapsed acts.0 }) acts.1
                  moved.1.1 again defender r all' k' k (ap is_dead shown' ∙ up))))))

  -- With some fuel the loop comes to its end from here.
  abbrev Ending : Battle → R → Type 0
  Ending b r =
      Inv b
      → All P b.fighters
      → (fuel : ℕ) × Ends (λ b' r'. is_over b' ≡ true) (loop d asserts rng fuel b) r

  -- It does if it does after each turn that wears the fighters.
  Ending-turn :
      (b : Battle) (r : R)
      → ((b' : Battle) (r' : R) → Wears patience (vitals_of b) r b' r' → Ending b' r')
      → Ending b r
  Ending-turn b r later inv all = elim (Bool-cases (is_over b)) [
    | inl over ↦
        (0, (b, r, ap (λ m. m r) (loop-over d asserts rng 0 b over) ∙ lift-of_done _ r refl, over))
    | inr going ↦
        let (b₁, r₁, e, (all₁, wears)) = turn-Ends b r inv going all in
        let inv₁ = (turn-Inv d asserts rng b inv going).at r b₁ r₁ e in
        let (fuel, (b₂, r₂, e', over)) = later b₁ r₁ wears inv₁ all₁ in
        (
          suc fuel,
          (
            b₂,
            r₂,
            ap (λ m. m r) (loop-suc d asserts rng fuel b going)
                ∙ >>=-of_done (turn d asserts rng b) (loop d asserts rng fuel) e
                ∙ e',
            over,
          ),
        )
  ]

  loop-Ending :
      (v p : ℕ) (b : Battle) (r : R) → vigor (vitals_of b) ≤ v → patience r ≤ p → Ending b r
  loop-Ending zero zero b r lv lp = Ending-turn b r λ b' r' wears. absurd (omega arith)
  loop-Ending zero (suc p) b r lv lp =
      Ending-turn b r λ b' r' wears. loop-Ending zero p b' r' (omega arith) (omega arith)
  loop-Ending (suc v) zero b r lv lp =
      Ending-turn b r λ b' r' wears. loop-Ending v (patience r') b' r' (omega arith) (omega arith)
  loop-Ending (suc v) (suc p) b r lv lp = Ending-turn b r λ b' r' wears. elim wears [
    | inl less ↦ loop-Ending v (patience r') b' r' (omega arith) (omega arith)
    | inr drawn ↦ loop-Ending (suc v) p b' r' (omega arith) (omega arith)
  ]

  go-returns :
      (f : Fight) (r : R)
      → IsReady f
      → All P f.all
      → (fuel : ℕ) × Ends (λ o r'. Unit {0}) (go d asserts rng fuel f) r
  unfolding go
  go-returns f r ready all =
      let (fuel, ends) =
        loop-Ending (vigor (all_vitals f.all)) (patience r)
          (record {
            alive0 = f.friends;
            alive1 = f.enemies;
            fighters = f.all;
            elapsed = f.elapsed_ticks;
          })
          r (omega arith) (omega arith)
          (record {
            friends_counted = ready.friends_alive;
            enemies_counted = ready.enemies_alive;
            someone = ready.someone;
            numbered = ready.numbered;
          })
          all in
      (
        fuel,
        Ends-bind (λ b r'. is_over b ≡ true) _ _ _ r ends λ b r' over. Ends-lift _ _ _ r' refl tt,
      )

  pub go-Ends :
      (f : Fight) (r : R)
      → IsReady f
      → All P f.all
      → (fuel : ℕ) × Ends (λ o r'. Won o) (go d asserts rng fuel f) r
  go-Ends f r ready all =
      let (fuel, (o, r', e, _)) = go-returns f r ready all in
      (fuel, (o, r', e, (go-Won d asserts rng fuel f ready).at r o r' e))
