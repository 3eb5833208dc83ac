-- ===== src/Wire/Magics.antt =====
-- The JSON of magics, equipments and the data of a player, by shared/structs.h.
use niba.Prelude.{◌≡◌, refl, [], ◌∷◌, map}
use niba.Prelude.Int.{pos}
use niba.Prelude.Run.{Run, done, ◌>>=◌}
use niba.Structs.{Magic, Equipment, PlayerData, EquipmentType}
use niba.Wire.{JsonLib, IsLawful}
use niba.Wire.Members.{get_to, get_vector, get_vector-map}
use niba.Wire.Stats.{stats_json, get_stats, get_stats-json}

module _ {Real : Type 0} (J : JsonLib Real) where
  open J use {Json, object, array, number, text, get_number, get_char, get_text}

  unfoldable pub equipment_type_json : EquipmentType → Json
  equipment_type_json t = number t.underlying

  unfoldable pub get_equipment_type : Json → Run EquipmentType
  get_equipment_type j = do n ← get_number j; done (record { underlying = n })

  unfoldable pub magic_json : Magic → Json
  magic_json m = object (
      ("magic_id", number m.magic_id)
      ∷ ("name", text m.name)
      ∷ ("active", number m.active)
      ∷ ("multiplier", number m.multiplier)
      ∷ ("inner_damage", number m.inner_damage)
      ∷ ("cd", number m.cd)
      ∷ ("mp_cost", number m.mp_cost)
      ∷ ("inner_property", number (pos m.inner_property))
      ∷ ("description", text m.description)
      ∷ ("stats", stats_json J m.stats)
      ∷ [])

  unfoldable pub get_magic : Json → Run Magic
  get_magic j = do
    magic_id' ← get_to J get_number j "magic_id"
    name' ← get_to J get_text j "name"
    active' ← get_to J get_number j "active"
    multiplier' ← get_to J get_number j "multiplier"
    inner_damage' ← get_to J get_number j "inner_damage"
    cd' ← get_to J get_number j "cd"
    mp_cost' ← get_to J get_number j "mp_cost"
    inner_property' ← get_to J get_char j "inner_property"
    description' ← get_to J get_text j "description"
    stats' ← get_to J (get_stats J) j "stats"
    done (record {
      magic_id = magic_id';
      name = name';
      active = active';
      multiplier = multiplier';
      inner_damage = inner_damage';
      cd = cd';
      mp_cost = mp_cost';
      inner_property = inner_property';
      description = description';
      stats = stats';
    })

  unfoldable pub equipment_json : Equipment → Json
  equipment_json e = object (
      ("equipment_id", number e.equipment_id)
      ∷ ("static_id", number e.static_id)
      ∷ ("name", text e.name)
      ∷ ("description", text e.description)
      ∷ ("type", equipment_type_json e.type)
      ∷ ("stats", stats_json J e.stats)
      ∷ ("item_level", number e.item_level)
      ∷ ("required_level", number e.required_level)
      ∷ [])

  unfoldable pub get_equipment : Json → Run Equipment
  get_equipment j = do
    equipment_id' ← get_to J get_number j "equipment_id"
    static_id' ← get_to J get_number j "static_id"
    name' ← get_to J get_text j "name"
    description' ← get_to J get_text j "description"
    type' ← get_to J get_equipment_type j "type"
    stats' ← get_to J (get_stats J) j "stats"
    item_level' ← get_to J get_number j "item_level"
    required_level' ← get_to J get_number j "required_level"
    done (record {
      equipment_id = equipment_id';
      static_id = static_id';
      name = name';
      description = description';
      type = type';
      stats = stats';
      item_level = item_level';
      required_level = required_level';
    })

  unfoldable pub player_data_json : PlayerData → Json
  player_data_json p = object (
      ("magics", array (map magic_json p.magics))
      ∷ ("equips", array (map equipment_json p.equips))
      ∷ ("equipped_magic_ids", array (map number p.equipped_magic_ids))
      ∷ ("avail_map_ids", array (map number p.avail_map_ids))
      ∷ [])

  unfoldable pub get_player_data : Json → Run PlayerData
  get_player_data j = do
    magics' ← get_to J (get_vector J get_magic) j "magics"
    equips' ← get_to J (get_vector J get_equipment) j "equips"
    equipped_magic_ids' ← get_to J (get_vector J get_number) j "equipped_magic_ids"
    avail_map_ids' ← get_to J (get_vector J get_number) j "avail_map_ids"
    done (record {
      magics = magics';
      equips = equips';
      equipped_magic_ids = equipped_magic_ids';
      avail_map_ids = avail_map_ids';
    })

  module _ (lawful : IsLawful J) where
    pub get_magic-json : (m : Magic) → get_magic (magic_json m) ≡ done m
    unfolding get_magic magic_json get_to
    get_magic-json m = simp (
      lawful.at-object,
      lawful.get_text-text,
      lawful.get_number-number,
      lawful.get_char-number,
      get_stats-json J lawful,
    )

    get_equipment_type-json :
        (t : EquipmentType) → get_equipment_type (equipment_type_json t) ≡ done t
    unfolding get_equipment_type equipment_type_json
    get_equipment_type-json t = rw (lawful.get_number-number t.underlying) refl

    pub get_equipment-json : (e : Equipment) → get_equipment (equipment_json e) ≡ done e
    unfolding get_equipment equipment_json get_to
    get_equipment-json e = simp (
      lawful.at-object,
      lawful.get_text-text,
      lawful.get_number-number,
      get_equipment_type-json,
      get_stats-json J lawful,
    )

    pub get_player_data-json : (d : PlayerData) → get_player_data (player_data_json d) ≡ done d
    unfolding get_player_data player_data_json get_to
    get_player_data-json d = simp (
      lawful.at-object,
      get_vector-map J lawful get_number number lawful.get_number-number,
      get_vector-map J lawful get_magic magic_json get_magic-json,
      get_vector-map J lawful get_equipment equipment_json get_equipment-json,
    )
