-- ===== src/Fight/Clock.antt =====
-- The passes over the living fighters in one turn of `fight::go`, shared/fight.cpp: who acts next,
-- everybody's progress, and who is attacked.
use niba.Prelude.{
  ℕ, suc, Bool, ◌&&◌, ◌||◌, ◌==◌, List, [], ◌∷◌, map, ltb, if◌then◌else◌, get_elem?, modify,
}
use niba.Prelude.Int.{ℤ, ltb_ℤ, eqb_ℤ}
use niba.Prelude.Word.{add_int, mul_int}
use niba.Prelude.Run.{◌>>=◌, Run, done, fault, or_fault, undefined, thrown}
use niba.Fight.Fighter.{cooldown, Fightable, stats_of, is_down, ticks_calc, threat_calc}

-- `std::pair<int, std::size_t>`, in its order.
abbrev pub IntIdx : Type 0
IntIdx = ℤ × ℕ

abbrev pub pair_ltb : IntIdx → IntIdx → Bool
pair_ltb (a, i) (b, j) = ltb_ℤ a b || (eqb_ℤ a b && ltb i j)

-- `all_.at(i)`
abbrev pub at : List Fightable → ℕ → Run Fightable
at fs i = or_fault (get_elem? fs i) thrown

-- The indices of the fighters above 0 hp, the first of the list being number `i`.
unfoldable pub alive_from : ℕ → List Fightable → List ℕ
alive_from i [] = []
alive_from i (f ∷ fs) = let rest = alive_from (suc i) fs in if is_down f then rest else i ∷ rest

abbrev pub tick_of : List Fightable → ℕ → Run IntIdx
tick_of fs i = do f ← at fs i; t ← ticks_calc f; done (t, i)

unfoldable pub faster : IntIdx → IntIdx → IntIdx
faster tick min_tick = if pair_ltb tick min_tick then tick else min_tick

-- The loop over `alive` for the least pair of ticks and index.
unfoldable pub fastest : List Fightable → IntIdx → List ℕ → Run IntIdx
fastest fs min_tick [] = done min_tick
fastest fs min_tick (i ∷ is) = do tick ← tick_of fs i; fastest fs (faster tick min_tick) is

-- `alive[0]` of an empty vector is undefined.
unfoldable pub next_to_act : List Fightable → List ℕ → Run IntIdx
next_to_act fs [] = fault undefined
next_to_act fs (i ∷ is) = do tick ← tick_of fs i; fastest fs tick is

unfoldable pub make_progress : ℤ → Fightable → Fightable
make_progress ticks p = record p {
  progress = add_int p.progress (mul_int (stats_of p).speed ticks);
  magics = map (cooldown ticks) p.magics;
}

unfoldable pub threaten : ℕ → Fightable → ℕ → IntIdx → IntIdx
threaten team p i max_threat =
    if p.team == team
    then max_threat
    else if pair_ltb max_threat (threat_calc p, i)
    then (threat_calc p, i)
    else max_threat

-- The loop over `alive` that moves everybody on and finds the enemy with the greatest threat.
unfoldable pub advance : ℕ → ℤ → List ℕ → List Fightable → IntIdx → Run (List Fightable × IntIdx)
advance team ticks [] fs max_threat = done (fs, max_threat)
advance team ticks (i ∷ is) fs max_threat = do
  p ← at fs i
  advance team ticks is (modify fs i (make_progress ticks)) (threaten team p i max_threat)
