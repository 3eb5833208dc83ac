-- ===== src/Server/DataInit.antt =====
-- server/data_init.cpp, with the initialisation of `staticdata` of shared/gamedata.h: the tables of the
-- game, each from one row of a dump. A row is what its text parses to.
pub mod Loaded
use niba.Prelude.{String, Option, none, some, List, [], ◌∷◌, if◌then◌else◌}
use niba.Prelude.Int.{ℤ, eqb_ℤ}
use niba.Prelude.Run.{Run, done, fault, or_fault, thrown, undefined, asserted, out_of_fuel, ◌>>=◌}
use niba.Structs.{Character, Magic, Equipment, Map}
use niba.GameData.{Table, StaticData}
use niba.Wire.{JsonLib}
use niba.Wire.Members.{get_to}
use niba.Wire.Structs.{get_character}
use niba.Wire.Magics.{get_magic, get_equipment}
use niba.Wire.Tables.{get_map}

-- `datamap[id] = value`
unfoldable pub put : {T : Type 0} → ℤ → T → Table T → Table T
put id value [] = (id, value) ∷ []
put id value ((k, v) ∷ rest) =
    let others = put id value rest in if eqb_ℤ k id then (k, value) ∷ rest else (k, v) ∷ others

-- `ozo::rows_of<std::string>`
abbrev pub Rows : Type 0 → Type 0
Rows Json = List (Run Json)

abbrev pub front_row : {Json : Type 0} → Rows Json → Option (Run Json)
front_row [] = none
front_row (row ∷ rows) = some row

-- `elements` is what a loop over a JSON value goes through.
module _ {Real : Type 0} (J : JsonLib Real) (elements : J.Json → List (J.Json)) where
  open J use {Json, get_number}

  -- The value is converted before its place is looked up. A member that is missing is null, which is no
  -- number.
  unfoldable pub fill : {T : Type 0} → (Json → Run T) → String → List Json → Table T → Run (Table T)
  fill get id_key [] datamap = done datamap
  fill get id_key (element ∷ rest) datamap = do
    value ← get element
    id ← get_to J get_number element id_key
    fill get id_key rest (put id value datamap)

  unfoldable pub read_dump : {T : Type 0} → (Json → Run T) → String → Run Json → Run (Table T)
  read_dump get id_key row = do j ← row; fill get id_key (elements j) []

  -- The `catch`: `none` is the end of the process by `exit`.
  abbrev pub or_exit : {A : Type 0} → Run A → Run (Option A)
  or_exit (done a) = done (some a)
  or_exit (fault thrown) = done none
  or_exit (fault undefined) = fault undefined
  or_exit (fault asserted) = fault asserted
  or_exit out_of_fuel = out_of_fuel

  -- `data_row.at(0)` throws outside of the `try`.
  unfoldable pub init_one :
      {T : Type 0} → (Json → Run T) → String → Rows Json → Run (Option (Table T))
  init_one get id_key rows = do
    row ← or_fault (front_row rows) thrown
    or_exit (read_dump get id_key row)

  -- The four tables of `staticdata`, where all were read.
  abbrev pub set_maps :
      Option (Table Character)
      → Option (Table Magic)
      → Option (Table Equipment)
      → Option (Table (Map Real))
      → Option (StaticData Real)
  set_maps (some characters) (some magics) (some equips) (some maps) =
      some (record { characters = characters; magics = magics; equips = equips; maps = maps })
  set_maps _ _ _ _ = none

  -- The rows of the four dumps. Each coroutine writes a table of its own.
  unfoldable pub init_gamedata :
      Rows Json → Rows Json → Rows Json → Rows Json → Run (Option (StaticData Real))
  init_gamedata character_dump magic_dump item_dump map_dump = do
    characters ← init_one (get_character J) "character_id" character_dump
    magics ← init_one (get_magic J) "magic_id" magic_dump
    equips ← init_one (get_equipment J) "equipment_id" item_dump
    maps ← init_one (get_map J) "map_id" map_dump
    done (set_maps characters magics equips maps)
