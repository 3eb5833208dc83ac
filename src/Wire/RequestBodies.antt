-- ===== src/Wire/RequestBodies.antt =====
-- The members that each request carries: `create_request` and `from_request` of shared/message.cpp.
use niba.Prelude.{[], ◌∷◌, map}
use niba.Prelude.Run.{Run, done, ◌>>=◌}
use niba.Message.{
  MessageRegistration, MessageLogin, MessageGetdata, MessageFight, MessageCreatechar,
  MessageLearnmagic, MessageFusemagic, MessageReordermagic, MessageEcho, MessageSend,
}
use niba.Wire.{JsonLib}
use niba.Wire.Members.{get_to, get_vector}
use niba.Wire.Structs.{player_json, get_player}

module _ {Real : Type 0} (J : JsonLib Real) where
  open J use {Json, null, object, array, number, text, get_number, get_text}

  abbrev pub login_request : MessageLogin → Json
  login_request m = object (("id", text m.id) ∷ ("password", text m.password) ∷ [])

  abbrev pub registration_request : MessageRegistration → Json
  registration_request m = object (("id", text m.id) ∷ ("password", text m.password) ∷ [])

  abbrev pub createchar_request : MessageCreatechar → Json
  createchar_request m = object (("player", player_json J m.player) ∷ [])

  -- A request without members.
  abbrev pub getdata_request : MessageGetdata Real → Json
  getdata_request m = null

  abbrev pub read_getdata : MessageGetdata Real → Json → Run (MessageGetdata Real)
  read_getdata m j = done m

  abbrev pub fight_request : MessageFight → Json
  fight_request m = object (("enemyid", number m.enemyid) ∷ [])

  abbrev pub learnmagic_request : MessageLearnmagic → Json
  learnmagic_request m = object (("static_id", number m.static_id) ∷ [])

  abbrev pub fusemagic_request : MessageFusemagic → Json
  fusemagic_request m = object (
      ("primary_magic_id", number m.primary_magic_id)
      ∷ ("secondary_magic_id", number m.secondary_magic_id)
      ∷ [])

  abbrev pub reordermagic_request : MessageReordermagic → Json
  reordermagic_request m =
      object (("equipped_magic_ids", array (map number m.equipped_magic_ids)) ∷ [])

  abbrev pub echo_request : MessageEcho → Json
  echo_request m = object (("echo_str", text m.echo_str) ∷ ("sender", text m.sender) ∷ [])

  abbrev pub send_request : MessageSend → Json
  send_request m = object (("name", text m.name) ∷ ("message", text m.message) ∷ [])

  abbrev pub read_login : MessageLogin → Json → Run MessageLogin
  read_login m j = do
    id ← get_to J get_text j "id"
    password ← get_to J get_text j "password"
    done (record m { id = id; password = password })

  abbrev pub read_registration : MessageRegistration → Json → Run MessageRegistration
  read_registration m j = do
    id ← get_to J get_text j "id"
    password ← get_to J get_text j "password"
    done (record m { id = id; password = password })

  abbrev pub read_createchar : MessageCreatechar → Json → Run MessageCreatechar
  read_createchar m j = do
    player ← get_to J (get_player J) j "player"
    done (record m { player = player })

  abbrev pub read_fight : MessageFight → Json → Run MessageFight
  read_fight m j = do
    enemyid ← get_to J get_number j "enemyid"
    done (record m { enemyid = enemyid })

  abbrev pub read_learnmagic : MessageLearnmagic → Json → Run MessageLearnmagic
  read_learnmagic m j = do
    static_id ← get_to J get_number j "static_id"
    done (record m { static_id = static_id })

  abbrev pub read_fusemagic : MessageFusemagic → Json → Run MessageFusemagic
  read_fusemagic m j = do
    primary ← get_to J get_number j "primary_magic_id"
    secondary ← get_to J get_number j "secondary_magic_id"
    done (record m { primary_magic_id = primary; secondary_magic_id = secondary })

  abbrev pub read_reordermagic : MessageReordermagic → Json → Run MessageReordermagic
  read_reordermagic m j = do
    ids ← get_to J (get_vector J get_number) j "equipped_magic_ids"
    done (record m { equipped_magic_ids = ids })

  abbrev pub read_echo : MessageEcho → Json → Run MessageEcho
  read_echo m j = do
    echo_str ← get_to J get_text j "echo_str"
    sender ← get_to J get_text j "sender"
    done (record m { echo_str = echo_str; sender = sender })

  abbrev pub read_send : MessageSend → Json → Run MessageSend
  read_send m j = do
    name ← get_to J get_text j "name"
    message ← get_to J get_text j "message"
    done (record m { name = name; message = message })
