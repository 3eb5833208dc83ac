-- ===== src/Message.antt =====
-- The messages of shared/message.h: one record to a struct, `success` being the member of
-- `base_message`. A member that no constructor sets is part of a request only later.
pub mod Validate
pub mod States
pub mod Loadout
pub mod Newcomers
use niba.Prelude.{Bool, String, List, Option}
use niba.Prelude.Int.{ℤ}
use niba.Structs.{Character, Magic, Equipment, Map, Player, PlayerData}
use niba.GameData.{StaticData}

pub record MessageRegistration : Type 0 where
  pub success : Bool
  pub id : String
  pub password : String

pub record MessageLogin : Type 0 where
  pub success : Bool
  pub id : String
  pub password : String
  pub player : Option Player
  pub player_data : Option PlayerData

-- `characters`, `magics`, `equips` and `maps` are the four tables.
pub record MessageGetdata (Real : Type 0) : Type 0 where
  pub success : Bool
  pub tables : StaticData Real

pub record MessageFight : Type 0 where
  pub success : Bool
  pub enemyid : ℤ
  pub generated : List ℤ

pub record MessageCreatechar : Type 0 where
  pub success : Bool
  pub player : Player
  pub player_data : PlayerData

pub record MessageLearnmagic : Type 0 where
  pub success : Bool
  pub static_id : ℤ
  pub magic : Magic

pub record MessageFusemagic : Type 0 where
  pub success : Bool
  pub primary_magic_id : ℤ
  pub secondary_magic_id : ℤ
  pub magic : Magic

pub record MessageReordermagic : Type 0 where
  pub success : Bool
  pub equipped_magic_ids : List ℤ

pub record MessageEcho : Type 0 where
  pub success : Bool
  pub echo_str : String
  pub sender : String

pub record MessageSend : Type 0 where
  pub success : Bool
  pub name : String
  pub message : String

-- The constructors with arguments. `fresh` has the members that they do not set.
abbrev pub message_registration : MessageRegistration → String → String → MessageRegistration
message_registration fresh id password = record fresh { id = id; password = password }

abbrev pub message_login : MessageLogin → String → String → MessageLogin
message_login fresh id password = record fresh { id = id; password = password }

abbrev pub message_fight : MessageFight → ℤ → MessageFight
message_fight fresh enemyid = record fresh { enemyid = enemyid }

abbrev pub message_createchar : MessageCreatechar → Player → MessageCreatechar
message_createchar fresh player = record fresh { player = player }

abbrev pub message_learnmagic : MessageLearnmagic → ℤ → MessageLearnmagic
message_learnmagic fresh static_id = record fresh { static_id = static_id }

abbrev pub message_fusemagic : MessageFusemagic → ℤ → ℤ → MessageFusemagic
message_fusemagic fresh primary_magic_id secondary_magic_id = record fresh {
  primary_magic_id = primary_magic_id;
  secondary_magic_id = secondary_magic_id;
}

abbrev pub message_reordermagic : MessageReordermagic → List ℤ → MessageReordermagic
message_reordermagic fresh equipped_magic_ids = record fresh {
  equipped_magic_ids = equipped_magic_ids;
}

abbrev pub message_send : MessageSend → String → String → MessageSend
message_send fresh name message = record fresh { name = name; message = message }

-- `message::variant`
pub data Message (Real : Type 0) : Type 0 where
  registration : MessageRegistration → Message Real
  login : MessageLogin → Message Real
  getdata : MessageGetdata Real → Message Real
  fight : MessageFight → Message Real
  createchar : MessageCreatechar → Message Real
  learnmagic : MessageLearnmagic → Message Real
  fusemagic : MessageFusemagic → Message Real
  reordermagic : MessageReordermagic → Message Real
  echo : MessageEcho → Message Real
  send : MessageSend → Message Real
