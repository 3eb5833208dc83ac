-- ===== src/Fight/Ends/Strikes.antt =====
-- The attack of a turn of `fight::go`, in shared/fight.cpp, and the hp that it leaves.
use mathlib.Core.Path.{subst}
use niba.Prelude.{
  ℕ, zero, suc, ◌+◌, ◌-◌, ◌≤◌, ◌<◌, ◌≡◌, refl, ap, ◌∙◌, sym, Bool, true, false, ◌⊎◌, inl, inr, some,
  none, Option, List, [], ◌∷◌, arith, get_elem?, modify, All, All-get_elem?, All-modify, Bool-cases,
  if◌then◌else◌,
}
use niba.Prelude.Int.{ℤ, pos, negsuc, pos_part, ◌-ℤ◌, leb_ℤ}
use niba.Prelude.Word.{sub_int, sub_int-eq, IsInt}
use niba.Prelude.Run.{done, done-injective, or_fault, undefined}
use niba.Prelude.Draws.{Rng}
use niba.Prelude.Draws.Ends.{Ends, Ends-lift, Ends-bind, Ends-bind-lift}
use niba.Prelude.Double.{Double}
use niba.Fight.Fighter.{
  Fightable, MagicEx, stats_of, is_down, is_usable, first_usable, pick_magic_idx,
}
use niba.Fight.Damage.{default_magic}
use niba.Fight.Clock.{at}
use niba.Fight.Rounds.{Battle, lose_hp, rest, count_down, use_magic, attack}
use niba.Fight.Alive.{Vitals, all_vitals, is_dead, get_elem?-vitals, vitals-modify}
use niba.Fight.Alive.Turns.{vitals_of, spent-vitals, rest-vitals}
use niba.Fight.Ends.{IsFit, vigor, Struck, Deals}
use niba.Fight.Ends.Acting.{at-vitals, at-some}

first_usable-get :
    (mp : ℤ) (i : ℕ) (ms : List MagicEx) {k : ℕ}
    → first_usable mp i ms ≡ some k
    → (j : ℕ) × (mex : MagicEx) × (k ≡ i + j) × (get_elem? ms j ≡ some mex)
unfolding first_usable
first_usable-get mp i [] h = cc
first_usable-get mp i (m ∷ ms) {k} h = elim (Bool-cases (is_usable mp m)) [
  | inl e ↦
      let k' : (if true then some i else first_usable mp (suc i) ms) ≡ some k =
        subst (λ b. (if b then some i else first_usable mp (suc i) ms) ≡ some k) e h in
      let i' : i ≡ k = cc in (0, m, omega arith, refl)
  | inr e ↦
      let (j, mex, k', found) =
        first_usable-get mp (suc i) ms
          (subst (λ b. (if b then some i else first_usable mp (suc i) ms) ≡ some k) e h) in
      (suc j, mex, omega (arith, k'), found)
]

-- The magic that is picked is there.
pick_magic_idx-get :
    (f : Fightable) (k : ℕ)
    → pick_magic_idx f ≡ some k
    → (mex : MagicEx) × (get_elem? f.magics k ≡ some mex)
unfolding pick_magic_idx
pick_magic_idx-get f k h =
    let (j, mex, e, found) = first_usable-get (stats_of f).mp 0 f.magics h in
    (mex, ap (λ i. get_elem? f.magics i) (omega (arith, e)) ∙ found)

in_range : (h : ℤ) (n : ℕ) → IsInt h → leb_ℤ h (pos 0) ≡ false → n < 2147483648 → IsInt (h -ℤ pos n)
unfolding ◌-ℤ◌
in_range (pos m) n i up l = ground arith
in_range (negsuc m) n i up l = ground arith

above : (h : ℤ) (n : ℕ) → leb_ℤ h (pos 0) ≡ false → pos_part (h -ℤ pos n) ≡ pos_part h - n
unfolding ◌-ℤ◌
above (pos m) n up = ground arith
above (negsuc m) n up = ground arith

positive_part : (h : ℤ) → leb_ℤ h (pos 0) ≡ false → 0 < pos_part h
positive_part h up = ground arith

pos_part-sub_int :
    (h : ℤ) (n : ℕ)
    → IsInt h
    → leb_ℤ h (pos 0) ≡ false
    → n < 2147483648
    → pos_part (sub_int h (pos n)) ≡ pos_part h - n
pos_part-sub_int h n i up l =
    ap pos_part (sub_int-eq h (pos n) (in_range h n i up l)) ∙ above h n up

-- A hit takes from the hp that is left, and all the more so if it is above 0.
lose_hp-vigor :
    (fs : List Fightable) (t n : ℕ) {f : Fightable}
    → at fs t ≡ done f
    → IsInt (stats_of f).hp
    → is_down f ≡ false
    → n < 2147483648
    → (vigor (all_vitals (modify fs t (lose_hp (pos n)))) ≤ vigor (all_vitals fs))
      × (0 < n → vigor (all_vitals (modify fs t (lose_hp (pos n)))) < vigor (all_vitals fs))
unfolding vigor lose_hp
lose_hp-vigor [] t n e i up l = cc
lose_hp-vigor (g ∷ fs) zero n {f} e i up l =
    let same : f ≡ g = sym (done-injective e) in
    let up' : leb_ℤ (stats_of g).hp (pos 0) ≡ false = subst (λ x. is_down x ≡ false) same up in
    let less =
      pos_part-sub_int (stats_of g).hp n (subst (λ x. IsInt (stats_of x).hp) same i) up' l in
    let positive = positive_part (stats_of g).hp up' in
    (omega (arith, less), λ p. omega (arith, less, positive))
lose_hp-vigor (g ∷ fs) (suc t) n e i up l =
    let (le, lt) = lose_hp-vigor fs t n e i up l in (omega (arith, le), λ p. omega (arith, lt p))

at-modify :
    (fs : List Fightable) (i : ℕ) (k : Fightable → Fightable) {f : Fightable}
    → at fs i ≡ done f
    → at (modify fs i k) i ≡ done (k f)
at-modify [] i k e = cc
at-modify (g ∷ fs) zero k e = ap (λ x. done (k x)) (done-injective e)
at-modify (g ∷ fs) (suc i) k e = at-modify fs i k e

count_down-fighters : (f : Fightable) (b : Battle) → (count_down f b).fighters ≡ b.fighters
unfolding count_down
count_down-fighters f b = ground arith

-- Hp is lost; if none is, the source's patience has gone down.
abbrev pub Wears : {R : Type 0} → (R → ℕ) → List Vitals → R → Battle → R → Type 0
Wears patience vs r b' r' =
    (vigor (vitals_of b') < vigor vs)
    ⊎ ((vigor (vitals_of b') ≤ vigor vs) × (patience r' < patience r))

module _ (P : Fightable → Type 0) (fit : IsFit P) (d : Double) (asserts : Bool) {R : Type 0}
    (rng : Rng R) (patience : R → ℕ) (deals : Deals P d asserts rng patience) where
  abbrev StruckWith : List Fightable → R → ℤ × List Fightable → R → Type 0
  StruckWith fs r (dmg, fs') r' =
      Struck patience r dmg r' × All P fs' × (all_vitals fs' ≡ all_vitals fs)

  use_magic-Ends :
      (fs : List Fightable) (a t : ℕ) (picked : Option ℕ) (attacker defender : Fightable) (r : R)
      → All P fs
      → at fs a ≡ done attacker
      → at fs t ≡ done defender
      → ((k : ℕ) → picked ≡ some k → (mex : MagicEx) × (get_elem? attacker.magics k ≡ some mex))
      → Ends (StruckWith fs r) (use_magic d asserts rng fs a t picked) r
  unfolding use_magic
  use_magic-Ends fs a t none attacker defender r all e e' there = Ends-bind-lift _ _ _ _ r e (
      Ends-bind-lift _ _ _ _ r e' (
        Ends-bind (Struck patience r) _ _ _ r
          (deals attacker defender default_magic (All-get_elem? P fs a (at-some fs a e) all)
            (All-get_elem? P fs t (at-some fs t e') all) (inl refl) r)
          λ dmg r' struck. Ends-lift _ _ _ r' refl (struck, all, refl)))
  use_magic-Ends fs a t (some k) attacker defender r all e e' there =
      let (mex, found) = there k refl in
      Ends-bind-lift _ _ _ _ r e (
        Ends-bind-lift _ _ _ _ r (ap (λ (o : Option MagicEx). or_fault o undefined) found) (
          Ends-bind-lift _ _ _ _ r e' (
            Ends-bind (Struck patience r) _ _ _ r
              (deals attacker defender mex.real_magic (All-get_elem? P fs a (at-some fs a e) all)
                (All-get_elem? P fs t (at-some fs t e') all) (inr (k, mex, found, refl)) r)
              λ dmg r' struck. Ends-lift _ _ _ r' refl (
                struck,
                All-modify P _ (fit.spent mex.real_magic.mp_cost) _ a
                    (All-modify P _ (fit.heated k) fs a all),
                spent-vitals fs a k mex.real_magic.mp_cost,
              ))))

  hit-Wears :
      (fs : List Fightable) (a t : ℕ) (r r' : R) {defender : Fightable} (dmg : ℤ) (b' : Battle)
      → at fs t ≡ done defender
      → IsInt (stats_of defender).hp
      → is_down defender ≡ false
      → Struck patience r dmg r'
      → b'.fighters ≡ modify (modify fs t (lose_hp dmg)) a rest
      → Wears patience (all_vitals fs) r b' r'
  hit-Wears fs a t r r' dmg b' e i up (n, is_n, l, goes_down) same =
      let left =
        ap (λ (gs : List Fightable). vigor (all_vitals gs)) same
        ∙ ap vigor (vitals-modify (modify fs t (lose_hp dmg)) a rest rest-vitals)
        ∙ ap (λ z. vigor (all_vitals (modify fs t (lose_hp z)))) is_n in
      let (le, lt) = lose_hp-vigor fs t n e i up l in
      elim goes_down [
        | inl positive ↦ inl (omega (arith, left, lt positive))
        | inr drawn ↦ inr (omega (arith, left, le), drawn)
      ]

  pub attack-Ends :
      (b : Battle) (a t : ℕ) (attacker defender : Fightable) (r : R)
      → All P b.fighters
      → at b.fighters a ≡ done attacker
      → at b.fighters t ≡ done defender
      → is_down defender ≡ false
      → Ends
          (λ b' r'. All P b'.fighters × Wears patience (vitals_of b) r b' r')
          (attack d asserts rng b a t)
          r
  unfolding attack
  attack-Ends b a t attacker defender r all e e' up = Ends-bind-lift _ _ _ _ r e (
      Ends-bind (StruckWith b.fighters r) _ _ _ r
        (use_magic-Ends b.fighters a t (pick_magic_idx attacker) attacker defender r all e e'
          (λ k. pick_magic_idx-get attacker k))
        λ (dmg, fs) r' (struck, all', same).
          let found = get_elem?-vitals b.fighters t e' in
          let (f, k, shown) =
            at-vitals fs t (ap (λ (vs : List Vitals). get_elem? vs t) same ∙ found) in
          let hit : Battle = record b { fighters = modify (modify fs t (lose_hp dmg)) a rest } in
          let b' : Battle = count_down (lose_hp dmg f) hit in
          let fought = count_down-fighters (lose_hp dmg f) hit in
          Ends-bind-lift _ _ _ _ r' (at-modify fs t (lose_hp dmg) k) (
            Ends-lift _ _ b' r' refl (
              subst (All P) (sym fought)
                  (All-modify P _ fit.rested _ a (All-modify P _ (fit.hurt dmg) fs t all')),
              subst (λ vs. Wears patience vs r b' r') same
                  (hit-Wears fs a t r r' dmg b' k
                    (fit.bounded f (All-get_elem? P fs t (at-some fs t k) all'))
                    (ap is_dead shown ∙ up) struck fought),
            )))
