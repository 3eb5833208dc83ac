-- ===== src/Structs.antt =====
-- The structs of shared/structs.h, and shared/global_defs.h and shared/sessiondata.h. An `int` is an
-- integer, a `char` its code, and a `double` the type `Real` of a `Double`.
use niba.Prelude.{ℕ, String, List, Option}
use niba.Prelude.Int.{ℤ, pos}
use niba.Prelude.Word.{add_int}
use niba.Prelude.Double.{Double}

pub record BattleStats : Type 0 where
  pub hp : ℤ
  pub mp : ℤ
  pub attack_min : ℤ
  pub attack_max : ℤ
  pub inner_power : ℤ
  pub accuracy : ℤ
  pub evasion : ℤ
  pub speed : ℤ
  pub defence : ℤ
  pub crit_chance : ℤ
  pub crit_damage : ℤ
  pub reduce_def : ℤ
  pub reduce_def_perc : ℤ
  pub hp_regen : ℤ
  pub mp_regen : ℤ
  pub gold_res : ℤ
  pub wood_res : ℤ
  pub water_res : ℤ
  pub fire_res : ℤ
  pub earth_res : ℤ
  pub hp_on_hit : ℤ
  pub hp_steal : ℤ
  pub mp_on_hit : ℤ
  pub mp_steal : ℤ

-- `battlestats{}`
abbrev pub no_stats : BattleStats
no_stats = record {
  hp = pos 0;
  mp = pos 0;
  attack_min = pos 0;
  attack_max = pos 0;
  inner_power = pos 0;
  accuracy = pos 0;
  evasion = pos 0;
  speed = pos 0;
  defence = pos 0;
  crit_chance = pos 0;
  crit_damage = pos 0;
  reduce_def = pos 0;
  reduce_def_perc = pos 0;
  hp_regen = pos 0;
  mp_regen = pos 0;
  gold_res = pos 0;
  wood_res = pos 0;
  water_res = pos 0;
  fire_res = pos 0;
  earth_res = pos 0;
  hp_on_hit = pos 0;
  hp_steal = pos 0;
  mp_on_hit = pos 0;
  mp_steal = pos 0;
}

-- `operator+=`, field by field.
unfoldable pub add_stats : BattleStats → BattleStats → BattleStats
add_stats a b = record {
  hp = add_int a.hp b.hp;
  mp = add_int a.mp b.mp;
  attack_min = add_int a.attack_min b.attack_min;
  attack_max = add_int a.attack_max b.attack_max;
  inner_power = add_int a.inner_power b.inner_power;
  accuracy = add_int a.accuracy b.accuracy;
  evasion = add_int a.evasion b.evasion;
  speed = add_int a.speed b.speed;
  defence = add_int a.defence b.defence;
  crit_chance = add_int a.crit_chance b.crit_chance;
  crit_damage = add_int a.crit_damage b.crit_damage;
  reduce_def = add_int a.reduce_def b.reduce_def;
  reduce_def_perc = add_int a.reduce_def_perc b.reduce_def_perc;
  hp_regen = add_int a.hp_regen b.hp_regen;
  mp_regen = add_int a.mp_regen b.mp_regen;
  gold_res = add_int a.gold_res b.gold_res;
  wood_res = add_int a.wood_res b.wood_res;
  water_res = add_int a.water_res b.water_res;
  fire_res = add_int a.fire_res b.fire_res;
  earth_res = add_int a.earth_res b.earth_res;
  hp_on_hit = add_int a.hp_on_hit b.hp_on_hit;
  hp_steal = add_int a.hp_steal b.hp_steal;
  mp_on_hit = add_int a.mp_on_hit b.mp_on_hit;
  mp_steal = add_int a.mp_steal b.mp_steal;
}

-- `operator*=`, field by field.
unfoldable pub scale_stats : (d : Double) → BattleStats → d.Real → BattleStats
scale_stats d a multiplier = record {
  hp = scaled a.hp;
  mp = scaled a.mp;
  attack_min = scaled a.attack_min;
  attack_max = scaled a.attack_max;
  inner_power = scaled a.inner_power;
  accuracy = scaled a.accuracy;
  evasion = scaled a.evasion;
  speed = scaled a.speed;
  defence = scaled a.defence;
  crit_chance = scaled a.crit_chance;
  crit_damage = scaled a.crit_damage;
  reduce_def = scaled a.reduce_def;
  reduce_def_perc = scaled a.reduce_def_perc;
  hp_regen = scaled a.hp_regen;
  mp_regen = scaled a.mp_regen;
  gold_res = scaled a.gold_res;
  wood_res = scaled a.wood_res;
  water_res = scaled a.water_res;
  fire_res = scaled a.fire_res;
  earth_res = scaled a.earth_res;
  hp_on_hit = scaled a.hp_on_hit;
  hp_steal = scaled a.hp_steal;
  mp_on_hit = scaled a.mp_on_hit;
  mp_steal = scaled a.mp_steal;
}
  where
    scaled : ℤ → ℤ
    scaled member = d.lround (d.mul (d.of_int member) multiplier)

pub record Attributes : Type 0 where
  pub strength : ℤ
  pub dexterity : ℤ
  pub physique : ℤ
  pub spirit : ℤ

pub record Character : Type 0 where
  pub name : String
  pub character_id : ℤ
  pub description : String
  pub attrs : Attributes
  pub stats : BattleStats
  pub equipments : List ℤ
  pub active_magic : List ℤ

pub record Player : Type 0 where
  pub name : String
  pub gender : ℕ
  pub attrs : Attributes

pub record Magic : Type 0 where
  pub magic_id : ℤ
  pub name : String
  pub active : ℤ
  pub multiplier : ℤ
  pub inner_damage : ℤ
  pub cd : ℤ
  pub mp_cost : ℤ
  pub inner_property : ℕ
  pub description : String
  pub stats : BattleStats

-- An enumeration whose values are those of `int`, with or without a name.
pub record EquipmentType : Type 0 where
  pub underlying : ℤ

abbrev pub head : EquipmentType
head = record { underlying = pos 0 }

abbrev pub armor : EquipmentType
armor = record { underlying = pos 1 }

abbrev pub boots : EquipmentType
boots = record { underlying = pos 2 }

abbrev pub gloves : EquipmentType
gloves = record { underlying = pos 3 }

abbrev pub belt : EquipmentType
belt = record { underlying = pos 4 }

abbrev pub amulet : EquipmentType
amulet = record { underlying = pos 5 }

abbrev pub ring : EquipmentType
ring = record { underlying = pos 6 }

abbrev pub weapon : EquipmentType
weapon = record { underlying = pos 7 }

pub record Equipment : Type 0 where
  pub equipment_id : ℤ
  pub static_id : ℤ
  pub name : String
  pub description : String
  pub type : EquipmentType
  pub stats : BattleStats
  pub item_level : ℤ
  pub required_level : ℤ

pub record Map (Real : Type 0) : Type 0 where
  pub map_id : ℤ
  pub name : String
  pub description : String
  pub elite_prob : Real
  pub boss_prob : Real
  pub boss_id : ℤ
  pub enemies : List ℤ
  pub open_maps : List ℤ
  pub is_open : ℤ

pub record PlayerData : Type 0 where
  pub magics : List Magic
  pub equips : List Equipment
  pub equipped_magic_ids : List ℤ
  pub avail_map_ids : List ℤ

pub data GameState : Type 0 where
  prelogin createchar ingame : GameState

-- A point of time is its count of nanoseconds.
pub record SessionState : Type 0 where
  pub state : GameState
  pub userid : Option String
  pub player : Option Player
  pub session_data : PlayerData
  pub current_time : ℤ
  pub earliest_time : ℤ
