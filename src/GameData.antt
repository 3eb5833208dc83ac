-- ===== src/GameData.antt =====
-- `staticdata` of shared/gamedata.h: the tables of the game, by id. A table is an association list
-- with one entry to an id, in place of `std::unordered_map`.
use niba.Prelude.{Bool, true, false, Option, none, some, List, [], ◌∷◌, if◌then◌else◌}
use niba.Prelude.Int.{ℤ, eqb_ℤ}
use niba.Prelude.Run.{Run, or_fault, thrown}
use niba.Structs.{Character, Magic, Equipment, Map}

abbrev pub Table : Type 0 → Type 0
Table T = List (ℤ × T)

unfoldable pub find : {T : Type 0} → Table T → ℤ → Option T
find [] id = none
find ((k, v) ∷ rest) id = if eqb_ℤ k id then some v else find rest id

-- `at` throws std::out_of_range at an id that is not there; so does `to`.
unfoldable pub at_table : {T : Type 0} → Table T → ℤ → Run T
unfolding find
at_table t id = or_fault (find t id) thrown

unfoldable pub has : {T : Type 0} → Table T → ℤ → Bool
unfolding find
has t id = elim (find t id) [ none ↦ false | some _ ↦ true ]

pub record StaticData (Real : Type 0) : Type 0 where
  pub characters : Table Character
  pub magics : Table Magic
  pub equips : Table Equipment
  pub maps : Table (Map Real)
