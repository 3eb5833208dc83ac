-- ===== src/Fight/Start.antt =====
-- The constructor of `fight`, and the small members: `elapsed_ticks` and `my_status`.
use niba.Prelude.{ℕ, suc, Bool, List, [], ◌∷◌, ◌++◌, map, length, if◌then◌else◌}
use niba.Prelude.Int.{pos}
use niba.Prelude.Run.{Run}
use niba.Fight.Fighter.{Fightable, stats_of}
use niba.Fight.Clock.{at, pair_ltb}
use niba.Fight.Rounds.{Fight}

unfoldable pub set_team : ℕ → Fightable → Fightable
set_team t f = record f { team = t }

-- `all_.at(i).idx = i` for all i.
unfoldable pub number_from : ℕ → List Fightable → List Fightable
number_from i [] = []
number_from i (f ∷ fs) = record f { idx = i } ∷ number_from (suc i) fs

-- The comparison of the sort: by speed, then by `idx`.
abbrev pub slower : Fightable → Fightable → Bool
slower l r = pair_ltb ((stats_of l).speed, l.idx) ((stats_of r).speed, r.idx)

-- `std::sort` by `slower`, as insertion: where the numbers differ there is one sorted order only.
unfoldable pub insert_by_speed : Fightable → List Fightable → List Fightable
insert_by_speed f [] = f ∷ []
insert_by_speed f (g ∷ gs) = if slower f g then f ∷ g ∷ gs else g ∷ insert_by_speed f gs

unfoldable pub sort_by_speed : List Fightable → List Fightable
unfolding insert_by_speed
sort_by_speed [] = []
sort_by_speed (f ∷ fs) = insert_by_speed f (sort_by_speed fs)

unfoldable pub new_fight : List Fightable → List Fightable → Fight
unfolding set_team number_from sort_by_speed
new_fight friends enemies = record {
  friends = length friends;
  enemies = length enemies;
  all =
      number_from 0
        (sort_by_speed (number_from 0 (map (set_team 0) friends ++ map (set_team 1) enemies)));
  elapsed_ticks = pos 0;
}

unfoldable pub my_status : Fight → Run Fightable
my_status f = at f.all 0
