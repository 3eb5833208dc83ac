-- ===== src/Tests.antt =====
-- Test data: a `double` of whole numbers, an environment, fighters and sessions.
mod Fights
mod Endings
mod Protocol
mod Magics
mod Json
mod Exchanges
mod Servers
mod Queues
mod Stores
mod Lessons
mod Clients
mod Commands
mod Pacing
mod Settings
mod Loading
use niba.Prelude.{
  ℕ, zero, suc, ◌+◌, ◌*◌, ◌/◌, String, Bool, true, false, Option, none, some, List, [], ◌∷◌,
  if◌then◌else◌,
}
use niba.Prelude.Int.{ℤ, pos, negsuc, ◌+ℤ◌, ◌-ℤ◌, ◌*ℤ◌}
use niba.Prelude.Word.{div_int}
use niba.Prelude.Run.{Run, done, fault, out_of_fuel}
use niba.Prelude.Double.{Double}
use niba.Structs.{
  BattleStats, no_stats, Attributes, Character, Player, Magic, PlayerData, SessionState, ingame,
}
use niba.GameData.{StaticData}
use niba.Fight.Fighter.{Fightable}
use niba.Server.World.{DbAccessor, Env, World}

abbrev power_of_ten : ℕ → ℕ
power_of_ten zero = 1
power_of_ten (suc n) = 10 * power_of_ten n

abbrev quotient_or_zero : Option ℤ → ℤ
quotient_or_zero none = pos 0
quotient_or_zero (some q) = q

-- Whole numbers in place of `double`: every operation rounds towards zero.
abbrev pub whole : Double
whole = record {
  Real = ℤ;
  of_int = λ a. a;
  decimal = λ m e. pos (m / power_of_ten e);
  add = ◌+ℤ◌;
  sub = ◌-ℤ◌;
  mul = ◌*ℤ◌;
  div = λ a b. quotient_or_zero (div_int a b);
  to_int = some;
  lround = λ a. a;
}

abbrev pub nobody : Character
nobody = record {
  name = "nobody";
  character_id = pos 7;
  description = "";
  attrs = record { strength = pos 0; dexterity = pos 0; physique = pos 0; spirit = pos 0 };
  stats = record no_stats {
    hp = pos 5;
    attack_min = pos 6;
    attack_max = pos 6;
    speed = pos 10;
    accuracy = pos 10;
  };
  equipments = [];
  active_magic = [];
}

abbrev pub fighter : Fightable
fighter = record { char_data = nobody; idx = 0; team = 0; progress = pos 0; magics = [] }

abbrev pub least : ℕ → ℤ → ℤ → ℤ × ℕ
least e lower upper = (lower, suc e)

abbrev pub no_data : PlayerData
no_data = record { magics = []; equips = []; equipped_magic_ids = []; avail_map_ids = [] }

abbrev pub player : Player
player = record {
  name = "niba";
  gender = b'm';
  attrs = record { strength = pos 1; dexterity = pos 2; physique = pos 1; spirit = pos 1 };
}

abbrev pub session : SessionState
session = record {
  state = ingame;
  userid = some "niba";
  player = some player;
  session_data = no_data;
  current_time = pos 0;
  earliest_time = pos 0;
}

-- A store that takes everything, and holds no data.
abbrev accepting : DbAccessor (Unit {0})
accepting = record {
  login = λ id password s. (done true, s);
  logout = λ id s. (done true, s);
  create_user = λ id password s. (done true, s);
  get_char = λ id s. (done (some player), s);
  get_aux = λ name s. (done no_data, s);
  create_char = λ id p s. (done true, s);
  create_magic = λ name m s. (done true, s);
  fuse_magic = λ name m id ids s. (done true, s);
  equip_magics = λ name ids s. (done true, s);
}

abbrev pub env : Env
env = record {
  double = whole;
  asserts = true;
  Store = Unit {0};
  db = accepting;
  Engine = ℕ;
  uniform = least;
  weighted_rand = λ attrs e. (0, suc e);
  tables = record { characters = (pos 7, nobody) ∷ []; magics = []; equips = []; maps = [] };
  expired = λ s. false;
  self = 1;
  fuel = 20;
  delay_factor = pos 1;
}

-- The value of code that yields one; `other` where it yields none.
abbrev pub value_or {ℓ} : {A : Type ℓ} → A → Run A → A
value_or other (done a) = a
value_or other (fault e) = other
value_or other out_of_fuel = other

abbrev pub world : World (Unit {0}) ℕ
world = record { session = session; store = tt; engine = 0; sessions = []; sent = [] }
