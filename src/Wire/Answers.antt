-- ===== src/Wire/Answers.antt =====
-- A response of shared/message.cpp, written by the server and merged by the client.
use niba.Prelude.{◌≡◌, if◌then◌else◌, Bool-cases, inl, inr}
use niba.Prelude.Run.{done, ◌>>=◌}
use niba.Wire.{JsonLib, IsLawful}
use niba.Wire.Members.{get_to, get_vector-map}
use niba.Wire.Structs.{
  player_json, get_player, get_player-json, character_json, get_character, get_character-json,
}
use niba.Wire.Magics.{
  magic_json, get_magic, get_magic-json, equipment_json, get_equipment, get_equipment-json,
  player_data_json, get_player_data, get_player_data-json,
}
use niba.Wire.Tables.{get_optional-json, get_table-json, map_json, get_map, get_map-json}
use niba.Wire.Kinds.{
  Kind, login, registeration, createchar, getdata, fight, learnmagic, fusemagic, reordermagic, echo,
  send, kind_number, Body,
}
use niba.Wire.Responses.{base_create_response, base_merge_response}

module _ (Real : Type 0) where
  -- The message `m` of the client once it has the members that the response of `r` carries.
  abbrev pub answered : (k : Kind) → Body Real k → Body Real k → Body Real k
  answered login m r = record m {
    success = r.success;
    player = r.player;
    player_data = r.player_data;
  }
  answered registeration m r = record m { success = r.success }
  answered createchar m r = record m {
    success = r.success;
    player = if r.success then r.player else m.player;
    player_data = if r.success then r.player_data else m.player_data;
  }
  answered getdata m r = record m {
    success = r.success;
    tables = if r.success then r.tables else m.tables;
  }
  answered fight m r = record m { success = r.success; generated = r.generated }
  answered learnmagic m r = record m {
    success = r.success;
    magic = if r.success then r.magic else m.magic;
  }
  answered fusemagic m r = record m {
    success = r.success;
    magic = if r.success then r.magic else m.magic;
  }
  answered reordermagic m r = record m { success = r.success }
  answered echo m r = record m { success = r.success; echo_str = r.echo_str; sender = r.sender }
  answered send m r = record m { success = r.success }

  module _ (J : JsonLib Real) (lawful : IsLawful J) where
    open J use {number, get_number}

    abbrev Answered : (k : Kind) → Body Real k → Body Real k → Type 0
    Answered k m r =
        (base_create_response J k r >>= base_merge_response J k m) ≡ done (answered k m r)

    createchar-Answered : (m r : Body Real createchar) → Answered createchar m r
    unfolding base_create_response base_merge_response get_to kind_number
    createchar-Answered m r = elim (Bool-cases r.success) [
      | inl e ↦ simp (
        e,
        lawful.set-object,
        lawful.at-object,
        lawful.get_boolean-boolean,
        get_player-json J lawful,
        get_player_data-json J lawful,
      )
      | inr e ↦
          simp (e, lawful.set-object, lawful.set-null, lawful.at-object, lawful.get_boolean-boolean)
    ]

    getdata-Answered : (m r : Body Real getdata) → Answered getdata m r
    unfolding base_create_response base_merge_response get_to kind_number
    getdata-Answered m r = elim (Bool-cases r.success) [
      | inl e ↦ simp (
        e,
        lawful.set-object,
        lawful.at-object,
        lawful.get_boolean-boolean,
        get_table-json J lawful (get_character J) (character_json J) (get_character-json J lawful),
        get_table-json J lawful (get_magic J) (magic_json J) (get_magic-json J lawful),
        get_table-json J lawful (get_equipment J) (equipment_json J) (get_equipment-json J lawful),
        get_table-json J lawful (get_map J) (map_json J) (get_map-json J lawful),
      )
      | inr e ↦
          simp (e, lawful.set-object, lawful.set-null, lawful.at-object, lawful.get_boolean-boolean)
    ]

    learnmagic-Answered : (m r : Body Real learnmagic) → Answered learnmagic m r
    unfolding base_create_response base_merge_response get_to kind_number
    learnmagic-Answered m r = elim (Bool-cases r.success) [
      | inl e ↦ simp (
        e,
        lawful.set-object,
        lawful.at-object,
        lawful.get_boolean-boolean,
        get_magic-json J lawful,
      )
      | inr e ↦
          simp (e, lawful.set-object, lawful.set-null, lawful.at-object, lawful.get_boolean-boolean)
    ]

    fusemagic-Answered : (m r : Body Real fusemagic) → Answered fusemagic m r
    unfolding base_create_response base_merge_response get_to kind_number
    fusemagic-Answered m r = elim (Bool-cases r.success) [
      | inl e ↦ simp (
        e,
        lawful.set-object,
        lawful.at-object,
        lawful.get_boolean-boolean,
        get_magic-json J lawful,
      )
      | inr e ↦
          simp (e, lawful.set-object, lawful.set-null, lawful.at-object, lawful.get_boolean-boolean)
    ]

    -- What the server writes as the response, the client merges into its message: whether it
    -- succeeded, and the members that the response carries; of a character, of the tables, of a learned
    -- and of a fused magic it carries none where the request failed.
    pub base_merge_response-base_create_response :
        (k : Kind) (m r : Body Real k)
        → (base_create_response J k r >>= base_merge_response J k m) ≡ done (answered k m r)
    unfolding base_create_response base_merge_response get_to kind_number player_json
        player_data_json
    base_merge_response-base_create_response login m r = simp (
      lawful.set-object,
      lawful.at-object,
      lawful.get_boolean-boolean,
      get_optional-json J lawful (get_player J) (player_json J) (get_player-json J lawful)
          (λ p. lawful.is_null-object _),
      get_optional-json J lawful (get_player_data J) (player_data_json J)
          (get_player_data-json J lawful) (λ d. lawful.is_null-object _),
    )
    base_merge_response-base_create_response registeration m r =
        simp (lawful.set-object, lawful.set-null, lawful.at-object, lawful.get_boolean-boolean)
    base_merge_response-base_create_response createchar m r = createchar-Answered m r
    base_merge_response-base_create_response getdata m r = getdata-Answered m r
    base_merge_response-base_create_response fight m r = simp (
      lawful.set-object,
      lawful.at-object,
      lawful.get_boolean-boolean,
      get_vector-map J lawful get_number number lawful.get_number-number,
    )
    base_merge_response-base_create_response learnmagic m r = learnmagic-Answered m r
    base_merge_response-base_create_response fusemagic m r = fusemagic-Answered m r
    base_merge_response-base_create_response reordermagic m r =
        simp (lawful.set-object, lawful.set-null, lawful.at-object, lawful.get_boolean-boolean)
    base_merge_response-base_create_response echo m r =
        simp (lawful.set-object, lawful.at-object, lawful.get_boolean-boolean, lawful.get_text-text)
    base_merge_response-base_create_response send m r =
        simp (lawful.set-object, lawful.set-null, lawful.at-object, lawful.get_boolean-boolean)
