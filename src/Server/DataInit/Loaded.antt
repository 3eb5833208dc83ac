-- ===== src/Server/DataInit/Loaded.antt =====
-- What the tables of server/data_init.cpp hold.
use niba.Prelude.{
  arith, ◌≡◌, refl, ap, ◌∙◌, String, Bool, true, false, Option, none, some, List, [], ◌∷◌, map, inl,
  inr, Bool-cases, if◌then◌else◌,
}
use niba.Prelude.Int.{ℤ, eqb_ℤ, eqb_ℤ_iff}
use niba.Prelude.Run.{Run, done}
use niba.Structs.{Character, Magic, Equipment, Map}
use niba.GameData.{Table, find, StaticData}
use niba.Wire.{JsonLib, IsLawful}
use niba.Wire.Members.{get_to}
use niba.Wire.Structs.{get_character, character_json, get_character-json}
use niba.Wire.Magics.{
  get_magic, magic_json, get_magic-json, get_equipment, equipment_json, get_equipment-json,
}
use niba.Wire.Tables.{get_map, map_json, get_map-json}
use niba.Server.DataInit.{put, Rows, fill, read_dump, or_exit, init_one, init_gamedata}

abbrev pub or_else : {T : Type 0} → Option T → Option T → Option T
or_else (some value) other = some value
or_else none other = other

-- The last of a list whose id is `id`.
abbrev pub last_with : {T : Type 0} → (T → ℤ) → ℤ → List T → Option T
last_with key id [] = none
last_with key id (value ∷ values) =
    or_else (last_with key id values) (if eqb_ℤ (key value) id then some value else none)

abbrev keyed : {T : Type 0} → (T → ℤ) → List T → Table T → Table T
keyed key [] datamap = datamap
keyed key (value ∷ values) datamap = keyed key values (put (key value) value datamap)

replaced :
    {T : Type 0} (k k' : ℤ) (v v' : T) (t : Table T) (id : ℤ)
    → k' ≡ k
    → (if eqb_ℤ k' id then some v else find t id)
      ≡ (if eqb_ℤ k id then some v else if eqb_ℤ k' id then some v' else find t id)
replaced k k' v v' t id e = rw e (ground arith)

passed :
    {T : Type 0} (k k' : ℤ) (v v' : T) (id : ℤ) (y : Option T) {x : Option T}
    → eqb_ℤ k' k ≡ false
    → x ≡ (if eqb_ℤ k id then some v else y)
    → (if eqb_ℤ k' id then some v' else x)
      ≡ (if eqb_ℤ k id then some v else if eqb_ℤ k' id then some v' else y)
passed k k' v v' id y other h = ground arith

find-put :
    {T : Type 0} (k : ℤ) (v : T) (t : Table T) (id : ℤ)
    → find (put k v t) id ≡ (if eqb_ℤ k id then some v else find t id)
unfolding find put
find-put k v [] id = refl
find-put k v ((k', v') ∷ t) id = elim (Bool-cases (eqb_ℤ k' k)) [
  | inl same ↦ rw same (replaced k k' v v' t id ((eqb_ℤ_iff k' k).0 same))
  | inr other ↦ rw other (passed k k' v v' id (find t id) other (find-put k v t id))
]

or_else-if :
    {T : Type 0} (o : Option T) (b : Bool) (value : T) (other : Option T)
    → or_else o (if b then some value else other)
      ≡ or_else (or_else o (if b then some value else none)) other
or_else-if (some later) b value other = refl
or_else-if none true value other = refl
or_else-if none false value other = refl

or_else-none : {T : Type 0} (o : Option T) → or_else o none ≡ o
or_else-none none = refl
or_else-none (some value) = refl

find-keyed :
    {T : Type 0} (key : T → ℤ) (values : List T) (t : Table T) (id : ℤ)
    → find (keyed key values t) id ≡ or_else (last_with key id values) (find t id)
find-keyed key [] t id = refl
find-keyed key (value ∷ values) t id =
    find-keyed key values (put (key value) value t) id
    ∙ ap (or_else (last_with key id values)) (find-put (key value) value t id)
    ∙ or_else-if (last_with key id values) (eqb_ℤ (key value) id) value (find t id)

module _ {Real : Type 0} (J : JsonLib Real) (lawful : IsLawful J)
    (elements : J.Json → List (J.Json))
    (elements-array : (js : List (J.Json)) → elements (J.array js) ≡ js) where
  open J use {Json, array, get_number}

  fill-keyed :
      {T : Type 0} (get : Json → Run T) (json : T → Json) (id_key : String) (key : T → ℤ)
      → ((v : T) → get (json v) ≡ done v)
      → ((v : T) → get_to J get_number (json v) id_key ≡ done (key v))
      → (values : List T) (t : Table T)
      → fill J elements get id_key (map json values) t ≡ done (keyed key values t)
  unfolding fill
  fill-keyed get json id_key key reads ids [] t = refl
  fill-keyed get json id_key key reads ids (v ∷ vs) t =
      rw (reads v, ids v) (fill-keyed get json id_key key reads ids vs (put (key v) v t))

  -- The front row of a dump is the JSON of a list; further rows do not matter.
  abbrev pub dump : {T : Type 0} → (T → Json) → List T → Rows Json → Rows Json
  dump json values others = done (array (map json values)) ∷ others

  init_one-keyed :
      {T : Type 0} (get : Json → Run T) (json : T → Json) (id_key : String) (key : T → ℤ)
      → ((v : T) → get (json v) ≡ done v)
      → ((v : T) → get_to J get_number (json v) id_key ≡ done (key v))
      → (values : List T) (others : Rows Json)
      → init_one J elements get id_key (dump json values others) ≡ done (some (keyed key values []))
  unfolding init_one read_dump
  init_one-keyed get json id_key key reads ids values others =
      ap (λ js. or_exit J elements (fill J elements get id_key js []))
        (elements-array (map json values))
      ∙ ap (or_exit J elements) (fill-keyed get json id_key key reads ids values [])

  -- What the tables hold where the front rows are the JSON of lists.
  abbrev pub Holds : {T : Type 0} → Table T → (T → ℤ) → List T → Type 0
  Holds t key values = (id : ℤ) → find t id ≡ last_with key id values

  keyed-Holds :
      {T : Type 0} (key : T → ℤ) (values : List T) → Holds (keyed key values []) key values
  unfolding find
  keyed-Holds key values id = find-keyed key values [] id ∙ or_else-none (last_with key id values)

  character_id-json :
      (c : Character)
      → get_to J get_number (character_json J c) "character_id" ≡ done c.character_id
  unfolding character_json get_to
  character_id-json c = simp (lawful.at-object, lawful.get_number-number)

  magic_id-json : (m : Magic) → get_to J get_number (magic_json J m) "magic_id" ≡ done m.magic_id
  unfolding magic_json get_to
  magic_id-json m = simp (lawful.at-object, lawful.get_number-number)

  equipment_id-json :
      (e : Equipment)
      → get_to J get_number (equipment_json J e) "equipment_id" ≡ done e.equipment_id
  unfolding equipment_json get_to
  equipment_id-json e = simp (lawful.at-object, lawful.get_number-number)

  map_id-json : (m : Map Real) → get_to J get_number (map_json J m) "map_id" ≡ done m.map_id
  unfolding map_json get_to
  map_id-json m = simp (lawful.at-object, lawful.get_number-number)

  -- Where the front row of each dump is the JSON of a list, the tables of the game are set, and each holds
  -- at an id the last of its list that has the id, and nothing at an id that none has.
  pub init_gamedata-Holds :
      (characters : List Character) (magics : List Magic) (equips : List Equipment)
      (maps : List (Map Real)) (r₁ r₂ r₃ r₄ : Rows Json)
      → (s : StaticData Real) × (init_gamedata J elements
            (dump (character_json J) characters r₁)
            (dump (magic_json J) magics r₂)
            (dump (equipment_json J) equips r₃)
            (dump (map_json J) maps r₄)
          ≡ done (some s))
        × Holds s.characters (λ c. c.character_id) characters
        × Holds s.magics (λ m. m.magic_id) magics
        × Holds s.equips (λ e. e.equipment_id) equips
        × Holds s.maps (λ m. m.map_id) maps
  unfolding init_gamedata
  init_gamedata-Holds characters magics equips maps r₁ r₂ r₃ r₄ = (
    record {
      characters = keyed (λ c. c.character_id) characters [];
      magics = keyed (λ m. m.magic_id) magics [];
      equips = keyed (λ e. e.equipment_id) equips [];
      maps = keyed (λ m. m.map_id) maps [];
    },
    rw
        (
          init_one-keyed (get_character J) (character_json J) "character_id" (λ c. c.character_id)
              (get_character-json J lawful) character_id-json characters r₁,
          init_one-keyed (get_magic J) (magic_json J) "magic_id" (λ m. m.magic_id)
              (get_magic-json J lawful) magic_id-json magics r₂,
          init_one-keyed (get_equipment J) (equipment_json J) "equipment_id" (λ e. e.equipment_id)
              (get_equipment-json J lawful) equipment_id-json equips r₃,
          init_one-keyed (get_map J) (map_json J) "map_id" (λ m. m.map_id) (get_map-json J lawful)
              map_id-json maps r₄,
        )
        refl,
    keyed-Holds (λ c. c.character_id) characters,
    keyed-Holds (λ m. m.magic_id) magics,
    keyed-Holds (λ e. e.equipment_id) equips,
    keyed-Holds (λ m. m.map_id) maps,
  )
