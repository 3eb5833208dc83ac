-- ===== src/Wire/Tables.antt =====
-- The JSON of maps, of the game's tables and of what may be absent, by shared/structs.h.
use niba.Prelude.{◌≡◌, refl, false, Option, none, some, List, [], ◌∷◌, map, if◌then◌else◌}
use niba.Prelude.Int.{ℤ}
use niba.Prelude.Run.{Run, done, fault, thrown, ◌>>=◌}
use niba.Structs.{Map}
use niba.GameData.{Table}
use niba.Wire.{JsonLib, IsLawful}
use niba.Wire.Members.{get_to, get_vector, get_vector-map}

module _ {Real : Type 0} (J : JsonLib Real) where
  open J use {
    Json, null, object, array, number, floating, text, is_null, get_array, get_number, get_floating,
    get_text,
  }

  -- The serializer of `std::optional`.
  unfoldable pub optional_json : {A : Type 0} → (A → Json) → Option A → Json
  optional_json json none = null
  optional_json json (some x) = json x

  unfoldable pub get_optional : {A : Type 0} → (Json → Run A) → Json → Run (Option A)
  get_optional get j = if is_null j then done none else (do x ← get j; done (some x))

  -- A map whose keys are no texts is an array of pairs, each an array of two.
  unfoldable pub table_json : {A : Type 0} → (A → Json) → Table A → Json
  table_json json t = array (map (λ (id, x). array (number id ∷ json x ∷ [])) t)

  unfoldable pub get_pair : {A : Type 0} → (Json → Run A) → List Json → Run (ℤ × A)
  get_pair get (k ∷ v ∷ rest) = do id ← get_number k; x ← get v; done (id, x)
  get_pair get _ = fault thrown

  unfoldable pub get_table : {A : Type 0} → (Json → Run A) → Json → Run (Table A)
  unfolding get_pair
  get_table get = get_vector J (λ j. get_array j >>= get_pair get)

  unfoldable pub map_json : Map Real → Json
  map_json m = object (
      ("map_id", number m.map_id)
      ∷ ("name", text m.name)
      ∷ ("description", text m.description)
      ∷ ("elite_prob", floating m.elite_prob)
      ∷ ("boss_prob", floating m.boss_prob)
      ∷ ("boss_id", number m.boss_id)
      ∷ ("enemies", array (map number m.enemies))
      ∷ ("open_maps", array (map number m.open_maps))
      ∷ ("is_open", number m.is_open)
      ∷ [])

  unfoldable pub get_map : Json → Run (Map Real)
  get_map j = do
    map_id' ← get_to J get_number j "map_id"
    name' ← get_to J get_text j "name"
    description' ← get_to J get_text j "description"
    elite_prob' ← get_to J get_floating j "elite_prob"
    boss_prob' ← get_to J get_floating j "boss_prob"
    boss_id' ← get_to J get_number j "boss_id"
    enemies' ← get_to J (get_vector J get_number) j "enemies"
    open_maps' ← get_to J (get_vector J get_number) j "open_maps"
    is_open' ← get_to J get_number j "is_open"
    done (record {
      map_id = map_id';
      name = name';
      description = description';
      elite_prob = elite_prob';
      boss_prob = boss_prob';
      boss_id = boss_id';
      enemies = enemies';
      open_maps = open_maps';
      is_open = is_open';
    })

  module _ (lawful : IsLawful J) where
    pub get_optional-json :
        {A : Type 0} (get : Json → Run A) (json : A → Json)
        → ((x : A) → get (json x) ≡ done x)
        → ((x : A) → is_null (json x) ≡ false)
        → (o : Option A) → get_optional get (optional_json json o) ≡ done o
    unfolding get_optional optional_json
    get_optional-json get json h k none = rw lawful.is_null-null refl
    get_optional-json get json h k (some x) = rw (k x) (rw (h x) refl)

    get_pair-json :
        {A : Type 0} (get : Json → Run A) (json : A → Json)
        → ((x : A) → get (json x) ≡ done x)
        → (p : ℤ × A) → (get_array (array (number p.0 ∷ json p.1 ∷ [])) >>= get_pair get) ≡ done p
    unfolding get_pair
    get_pair-json get json h p = simp (lawful.get_array-array, lawful.get_number-number, h)

    pub get_table-json :
        {A : Type 0} (get : Json → Run A) (json : A → Json)
        → ((x : A) → get (json x) ≡ done x)
        → (t : Table A) → get_table get (table_json json t) ≡ done t
    unfolding get_table table_json
    get_table-json get json h =
        get_vector-map J lawful (λ j. get_array j >>= get_pair get)
          (λ p. array (number p.0 ∷ json p.1 ∷ [])) (get_pair-json get json h)

    pub get_map-json : (m : Map Real) → get_map (map_json m) ≡ done m
    unfolding get_map map_json get_to
    get_map-json m = simp (
      lawful.at-object,
      lawful.get_text-text,
      lawful.get_number-number,
      lawful.get_floating-floating,
      get_vector-map J lawful get_number number lawful.get_number-number,
    )
