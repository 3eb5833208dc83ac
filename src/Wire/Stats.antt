-- ===== src/Wire/Stats.antt =====
-- The JSON of `battlestats`, an object of its 24 members, by shared/structs.h.
use niba.Prelude.{◌≡◌, [], ◌∷◌}
use niba.Prelude.Run.{Run, done, ◌>>=◌}
use niba.Structs.{BattleStats}
use niba.Wire.{JsonLib, IsLawful}
use niba.Wire.Members.{get_to}

module _ {Real : Type 0} (J : JsonLib Real) where
  open J use {Json, object, number, get_number}

  unfoldable pub stats_json : BattleStats → Json
  stats_json s = object (
      ("hp", number s.hp)
      ∷ ("mp", number s.mp)
      ∷ ("attack_min", number s.attack_min)
      ∷ ("attack_max", number s.attack_max)
      ∷ ("inner_power", number s.inner_power)
      ∷ ("accuracy", number s.accuracy)
      ∷ ("evasion", number s.evasion)
      ∷ ("speed", number s.speed)
      ∷ ("defence", number s.defence)
      ∷ ("crit_chance", number s.crit_chance)
      ∷ ("crit_damage", number s.crit_damage)
      ∷ ("reduce_def", number s.reduce_def)
      ∷ ("reduce_def_perc", number s.reduce_def_perc)
      ∷ ("hp_regen", number s.hp_regen)
      ∷ ("mp_regen", number s.mp_regen)
      ∷ ("gold_res", number s.gold_res)
      ∷ ("wood_res", number s.wood_res)
      ∷ ("water_res", number s.water_res)
      ∷ ("fire_res", number s.fire_res)
      ∷ ("earth_res", number s.earth_res)
      ∷ ("hp_on_hit", number s.hp_on_hit)
      ∷ ("hp_steal", number s.hp_steal)
      ∷ ("mp_on_hit", number s.mp_on_hit)
      ∷ ("mp_steal", number s.mp_steal)
      ∷ [])

  unfoldable pub get_stats : Json → Run BattleStats
  get_stats j = do
    hp' ← get_to J get_number j "hp"
    mp' ← get_to J get_number j "mp"
    attack_min' ← get_to J get_number j "attack_min"
    attack_max' ← get_to J get_number j "attack_max"
    inner_power' ← get_to J get_number j "inner_power"
    accuracy' ← get_to J get_number j "accuracy"
    evasion' ← get_to J get_number j "evasion"
    speed' ← get_to J get_number j "speed"
    defence' ← get_to J get_number j "defence"
    crit_chance' ← get_to J get_number j "crit_chance"
    crit_damage' ← get_to J get_number j "crit_damage"
    reduce_def' ← get_to J get_number j "reduce_def"
    reduce_def_perc' ← get_to J get_number j "reduce_def_perc"
    hp_regen' ← get_to J get_number j "hp_regen"
    mp_regen' ← get_to J get_number j "mp_regen"
    gold_res' ← get_to J get_number j "gold_res"
    wood_res' ← get_to J get_number j "wood_res"
    water_res' ← get_to J get_number j "water_res"
    fire_res' ← get_to J get_number j "fire_res"
    earth_res' ← get_to J get_number j "earth_res"
    hp_on_hit' ← get_to J get_number j "hp_on_hit"
    hp_steal' ← get_to J get_number j "hp_steal"
    mp_on_hit' ← get_to J get_number j "mp_on_hit"
    mp_steal' ← get_to J get_number j "mp_steal"
    done (record {
      hp = hp';
      mp = mp';
      attack_min = attack_min';
      attack_max = attack_max';
      inner_power = inner_power';
      accuracy = accuracy';
      evasion = evasion';
      speed = speed';
      defence = defence';
      crit_chance = crit_chance';
      crit_damage = crit_damage';
      reduce_def = reduce_def';
      reduce_def_perc = reduce_def_perc';
      hp_regen = hp_regen';
      mp_regen = mp_regen';
      gold_res = gold_res';
      wood_res = wood_res';
      water_res = water_res';
      fire_res = fire_res';
      earth_res = earth_res';
      hp_on_hit = hp_on_hit';
      hp_steal = hp_steal';
      mp_on_hit = mp_on_hit';
      mp_steal = mp_steal';
    })

  module _ (lawful : IsLawful J) where
    pub get_stats-json : (s : BattleStats) → get_stats (stats_json s) ≡ done s
    unfolding get_stats stats_json get_to
    get_stats-json s = simp (lawful.at-object, lawful.get_number-number)
