-- ===== src/Fight/Damage.antt =====
-- `fightable::damage_calc` of shared/fight.cpp, over any `double` and any random source.
use niba.Prelude.{ℕ, Bool, not, ◌==◌, if◌then◌else◌}
use niba.Prelude.Int.{ℤ, pos, leb_ℤ}
use niba.Prelude.Word.{add_int}
use niba.Prelude.Run.{Run, done, or_fault, boost_assert, undefined}
use niba.Prelude.Draws.{Draws, Rng, ◌>>=◌, pure, lift}
use niba.Prelude.Double.{Double}
use niba.Structs.{BattleStats, Magic, no_stats}
use niba.Fight.Fighter.{Fightable, stats_of}

abbrev pub default_magic : Magic
default_magic = record {
  magic_id = pos 0;
  name = "default";
  active = pos 1;
  multiplier = pos 100;
  inner_damage = pos 0;
  cd = pos 0;
  mp_cost = pos 0;
  inner_property = b'j';
  description = "";
  stats = no_stats;
}

-- The enumerators of `property`, `char` codes; a `char` that is none of them is `other`.
pub data Property : Type 0 where
  gold wood water fire earth other : Property

unfoldable pub property_of : ℕ → Property
property_of c =
    if c == b'j'
    then gold
    else if c == b'm'
    then wood
    else if c == b's'
    then water
    else if c == b'h'
    then fire
    else if c == b't'
    then earth
    else other

module _ (d : Double) (asserts : Bool) where
  open d use {Real, of_int, decimal, add, sub, mul, div, to_int}

  abbrev pub hundred : Real
  hundred = decimal 100 0

  -- `static_cast<int>(accuracy * (100.0 / (accuracy + defender accuracy)))`
  unfoldable pub accuracy_calc : BattleStats → BattleStats → Run ℤ
  accuracy_calc s t =
      or_fault
        (to_int (mul (of_int s.accuracy) (div hundred (of_int (add_int s.accuracy t.accuracy)))))
        undefined

  unfoldable pub resistance : Property → BattleStats → Real
  resistance gold t = div (of_int t.gold_res) hundred
  resistance wood t = div (of_int t.wood_res) hundred
  resistance water t = div (of_int t.water_res) hundred
  resistance fire t = div (of_int t.fire_res) hundred
  resistance earth t = div (of_int t.earth_res) hundred
  resistance other t = decimal 10 1

  -- The sum that is returned once the attack has landed with `physical_damage`.
  unfoldable pub landed : BattleStats → Magic → BattleStats → ℤ → Real
  landed s m t physical_damage =
      add
        (mul (mul (of_int physical_damage) (div (of_int m.multiplier) hundred))
          (sub (of_int (pos 1)) (div (of_int t.defence) (add (of_int t.defence) hundred))))
        (mul
          (mul (of_int m.inner_damage) (add (of_int (pos 1)) (div (of_int s.inner_power) hundred)))
          (sub (of_int (pos 1)) (resistance (property_of m.inner_property) t)))

  -- The assertion of the `default` case of the switch.
  unfoldable pub known_property : Magic → Run (Unit {0})
  known_property m = elim (property_of m.inner_property) [
    | other ↦ boost_assert asserts (not (m.inner_property == 0))
    | _ ↦ done tt
  ]

  module _ {R : Type 0} (rng : Rng R) where
    -- What an attack that is not evaded draws and deals.
    unfoldable pub hit : Fightable → Magic → Fightable → Draws R ℤ
    hit attacker m defender = do
      physical_damage ← rng (stats_of attacker).attack_min (stats_of attacker).attack_max
      _ ← lift (known_property m)
      lift (
          or_fault (to_int (landed (stats_of attacker) m (stats_of defender) physical_damage))
            undefined)

    unfoldable pub damage_calc : Fightable → Magic → Fightable → Draws R ℤ
    damage_calc attacker m defender = do
      accuracy ← lift (accuracy_calc (stats_of attacker) (stats_of defender))
      roll ← rng (pos 0) (pos 99)
      if leb_ℤ accuracy roll then pure (pos 0) else hit attacker m defender
