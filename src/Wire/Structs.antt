-- ===== src/Wire/Structs.antt =====
-- The JSON of the attributes, of a player and of a character, by shared/structs.h: `to_json` makes an
-- object of the members, under their names, and `from_json` reads each of them.
use niba.Prelude.{◌≡◌, [], ◌∷◌, map}
use niba.Prelude.Int.{pos}
use niba.Prelude.Run.{Run, done, ◌>>=◌}
use niba.Structs.{Attributes, Player, Character}
use niba.Wire.{JsonLib, IsLawful}
use niba.Wire.Members.{get_to, get_vector, get_vector-map}
use niba.Wire.Stats.{stats_json, get_stats, get_stats-json}

module _ {Real : Type 0} (J : JsonLib Real) where
  open J use {Json, object, array, number, text, get_number, get_char, get_text}

  unfoldable pub attributes_json : Attributes → Json
  attributes_json a = object (
      ("strength", number a.strength)
      ∷ ("dexterity", number a.dexterity)
      ∷ ("physique", number a.physique)
      ∷ ("spirit", number a.spirit)
      ∷ [])

  unfoldable pub get_attributes : Json → Run Attributes
  get_attributes j = do
    strength' ← get_to J get_number j "strength"
    dexterity' ← get_to J get_number j "dexterity"
    physique' ← get_to J get_number j "physique"
    spirit' ← get_to J get_number j "spirit"
    done (record {
      strength = strength';
      dexterity = dexterity';
      physique = physique';
      spirit = spirit';
    })

  unfoldable pub player_json : Player → Json
  player_json p = object (
      ("name", text p.name)
      ∷ ("gender", number (pos p.gender))
      ∷ ("attrs", attributes_json p.attrs)
      ∷ [])

  unfoldable pub get_player : Json → Run Player
  get_player j = do
    name' ← get_to J get_text j "name"
    gender' ← get_to J get_char j "gender"
    attrs' ← get_to J (get_attributes) j "attrs"
    done (record { name = name'; gender = gender'; attrs = attrs' })

  unfoldable pub character_json : Character → Json
  character_json c = object (
      ("name", text c.name)
      ∷ ("character_id", number c.character_id)
      ∷ ("description", text c.description)
      ∷ ("attrs", attributes_json c.attrs)
      ∷ ("stats", stats_json J c.stats)
      ∷ ("equipments", array (map number c.equipments))
      ∷ ("active_magic", array (map number c.active_magic))
      ∷ [])

  unfoldable pub get_character : Json → Run Character
  get_character j = do
    name' ← get_to J get_text j "name"
    character_id' ← get_to J get_number j "character_id"
    description' ← get_to J get_text j "description"
    attrs' ← get_to J (get_attributes) j "attrs"
    stats' ← get_to J (get_stats J) j "stats"
    equipments' ← get_to J (get_vector J get_number) j "equipments"
    active_magic' ← get_to J (get_vector J get_number) j "active_magic"
    done (record {
      name = name';
      character_id = character_id';
      description = description';
      attrs = attrs';
      stats = stats';
      equipments = equipments';
      active_magic = active_magic';
    })

  module _ (lawful : IsLawful J) where
    pub get_attributes-json : (a : Attributes) → get_attributes (attributes_json a) ≡ done a
    unfolding get_attributes attributes_json get_to
    get_attributes-json a = simp (lawful.at-object, lawful.get_number-number)

    pub get_player-json : (p : Player) → get_player (player_json p) ≡ done p
    unfolding get_player player_json get_to
    get_player-json p =
        simp (lawful.at-object, lawful.get_text-text, lawful.get_char-number, get_attributes-json)

    pub get_character-json : (c : Character) → get_character (character_json c) ≡ done c
    unfolding get_character character_json get_to
    get_character-json c = simp (
      lawful.at-object,
      lawful.get_text-text,
      lawful.get_number-number,
      get_attributes-json,
      get_stats-json J lawful,
      get_vector-map J lawful get_number number lawful.get_number-number,
    )
