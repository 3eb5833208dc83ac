-- ===== src/Wire/ResponseBodies.antt =====
-- The members that each response carries: `create_response` and `merge_response` of
-- shared/message.cpp.
use niba.Prelude.{String, List, [], ◌∷◌, map, if◌then◌else◌}
use niba.Prelude.Run.{Run, done, ◌>>=◌}
use niba.GameData.{StaticData}
use niba.Message.{
  MessageRegistration, MessageReordermagic, MessageSend, MessageLogin, MessageGetdata, MessageFight,
  MessageCreatechar, MessageLearnmagic, MessageFusemagic, MessageEcho,
}
use niba.Wire.{JsonLib}
use niba.Wire.Members.{get_to, get_vector}
use niba.Wire.Structs.{player_json, get_player, character_json, get_character}
use niba.Wire.Magics.{
  magic_json, get_magic, equipment_json, get_equipment, player_data_json, get_player_data,
}
use niba.Wire.Tables.{optional_json, get_optional, table_json, get_table, map_json, get_map}

module _ {Real : Type 0} (J : JsonLib Real) where
  open J use {
    Json, null, object, array, number, text, boolean, set, get_number, get_text, get_boolean,
  }

  abbrev tables_json : StaticData Real → List (String × Json)
  tables_json t =
      ("characters", table_json J (character_json J) t.characters)
      ∷ ("magics", table_json J (magic_json J) t.magics)
      ∷ ("equips", table_json J (equipment_json J) t.equips)
      ∷ ("maps", table_json J (map_json J) t.maps)
      ∷ []

  abbrev pub login_response : MessageLogin → Json
  login_response m = object (
      ("player", optional_json J (player_json J) m.player)
      ∷ ("data", optional_json J (player_data_json J) m.player_data)
      ∷ [])

  abbrev pub createchar_response : MessageCreatechar → Json
  createchar_response m =
      if m.success
      then object
          (("player", player_json J m.player) ∷ ("data", player_data_json J m.player_data) ∷ [])
      else null

  abbrev pub getdata_response : MessageGetdata Real → Json
  getdata_response m = if m.success then object (tables_json m.tables) else null

  -- The responses without members of their own, and what is merged of them.
  abbrev pub registration_response : MessageRegistration → Json
  registration_response m = null

  abbrev pub reordermagic_response : MessageReordermagic → Json
  reordermagic_response m = null

  abbrev pub send_response : MessageSend → Json
  send_response m = null

  abbrev pub merge_registration : MessageRegistration → Json → Run MessageRegistration
  merge_registration m j = done m

  abbrev pub merge_reordermagic : MessageReordermagic → Json → Run MessageReordermagic
  merge_reordermagic m j = done m

  abbrev pub merge_send : MessageSend → Json → Run MessageSend
  merge_send m j = done m

  abbrev pub fight_response : MessageFight → Json
  fight_response m = object (("generated", array (map number m.generated)) ∷ [])

  abbrev pub learnmagic_response : MessageLearnmagic → Json
  learnmagic_response m = if m.success then object (("magic", magic_json J m.magic) ∷ []) else null

  abbrev pub fusemagic_response : MessageFusemagic → Json
  fusemagic_response m = if m.success then object (("magic", magic_json J m.magic) ∷ []) else null

  abbrev pub echo_response : MessageEcho → Json
  echo_response m = object (("echo_str", text m.echo_str) ∷ ("sender", text m.sender) ∷ [])

  unfoldable pub merge_login : MessageLogin → Json → Run MessageLogin
  merge_login m j = do
    player ← get_to J (get_optional J (get_player J)) j "player"
    aux ← get_to J (get_optional J (get_player_data J)) j "data"
    done (record m { player = player; player_data = aux })

  unfoldable pub merge_createchar : MessageCreatechar → Json → Run MessageCreatechar
  merge_createchar m j =
      if m.success
      then (do
        player ← get_to J (get_player J) j "player"
        aux ← get_to J (get_player_data J) j "data"
        done (record m { player = player; player_data = aux }))
      else done m

  unfoldable pub merge_getdata : MessageGetdata Real → Json → Run (MessageGetdata Real)
  merge_getdata m j =
      if m.success
      then (do
        characters ← get_to J (get_table J (get_character J)) j "characters"
        magics ← get_to J (get_table J (get_magic J)) j "magics"
        equips ← get_to J (get_table J (get_equipment J)) j "equips"
        maps ← get_to J (get_table J (get_map J)) j "maps"
        done (record m {
          tables = record {
            characters = characters;
            magics = magics;
            equips = equips;
            maps = maps;
          };
        }))
      else done m

  unfoldable pub merge_fight : MessageFight → Json → Run MessageFight
  merge_fight m j = do
    generated ← get_to J (get_vector J get_number) j "generated"
    done (record m { generated = generated })

  unfoldable pub merge_learnmagic : MessageLearnmagic → Json → Run MessageLearnmagic
  merge_learnmagic m j =
      if m.success
      then (do magic ← get_to J (get_magic J) j "magic"; done (record m { magic = magic }))
      else done m

  unfoldable pub merge_fusemagic : MessageFusemagic → Json → Run MessageFusemagic
  merge_fusemagic m j =
      if m.success
      then (do magic ← get_to J (get_magic J) j "magic"; done (record m { magic = magic }))
      else done m

  unfoldable pub merge_echo : MessageEcho → Json → Run MessageEcho
  merge_echo m j = do
    echo_str ← get_to J get_text j "echo_str"
    sender ← get_to J get_text j "sender"
    done (record m { echo_str = echo_str; sender = sender })
