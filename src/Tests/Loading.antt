-- ===== src/Tests/Loading.antt =====
-- The tables of the game from four dumps, of which one has two magics of one id.
use niba.Prelude.{◌≡◌, String, some, List, [], ◌∷◌, map}
use niba.Prelude.Int.{ℤ}
use niba.Prelude.Run.{done, fault, thrown}
use niba.Structs.{Magic}
use niba.GameData.{StaticData}
use niba.Fight.Damage.{default_magic}
use niba.Wire.Structs.{character_json}
use niba.Wire.Magics.{magic_json, equipment_json}
use niba.Wire.Tables.{map_json}
use niba.Server.DataInit.{init_gamedata}
use niba.Server.DataInit.Loaded.{dump, Holds, init_gamedata-Holds}
use niba.Tests.{nobody}
use niba.Tests.Json.{
  Tree, list_leaf, object_leaf, text_leaf, number_leaf, flag_leaf, null_leaf, list_of,
  list_of-items, members, trees, trees-IsLawful,
}

-- The elements of an array, the values of an object, or a value that is none itself.
abbrev elements : Tree → List Tree
elements (list_leaf vs) = list_of vs
elements (object_leaf fs) = map (λ ((k, v) : String × Tree). v) (members fs)
elements null_leaf = []
elements (text_leaf s) = text_leaf s ∷ []
elements (number_leaf n) = number_leaf n ∷ []
elements (flag_leaf b) = flag_leaf b ∷ []

abbrev magics : List Magic
magics = default_magic ∷ (record default_magic { name = "later" } ∷ [])

init_gamedata-Holds_example :
    (s : StaticData ℤ) × (init_gamedata trees elements
        (dump trees trees-IsLawful elements list_of-items (character_json trees) (nobody ∷ []) [])
        (dump trees trees-IsLawful elements list_of-items
          (magic_json trees)
          magics
          (fault thrown ∷ []))
        (dump trees trees-IsLawful elements list_of-items (equipment_json trees) [] [])
        (dump trees trees-IsLawful elements list_of-items (map_json trees) [] [])
      ≡ done (some s))
    × Holds trees trees-IsLawful elements list_of-items s.characters
        (λ c. c.character_id)
        (nobody ∷ [])
    × Holds trees trees-IsLawful elements list_of-items s.magics (λ m. m.magic_id) magics
    × Holds trees trees-IsLawful elements list_of-items s.equips (λ e. e.equipment_id) []
    × Holds trees trees-IsLawful elements list_of-items s.maps (λ m. m.map_id) []
init_gamedata-Holds_example =
    init_gamedata-Holds trees trees-IsLawful elements list_of-items (nobody ∷ []) magics [] [] []
      (fault thrown ∷ []) [] []
