-- ===== src/Fight/Fighter.antt =====
-- `magic_ex` and `fightable` of shared/fight.h: one fighter, and what it does by itself.
use niba.Prelude.{ℕ, Bool, ◌&&◌, Option, none, some, List, [], ◌∷◌, suc, if◌then◌else◌}
use niba.Prelude.Int.{ℤ, pos, ltb_ℤ, leb_ℤ, eqb_ℤ}
use niba.Prelude.Word.{add_int, sub_int, div_int}
use niba.Prelude.Run.{Run, done, or_fault, undefined}
use niba.Structs.{Character, BattleStats, Magic}

pub record MagicEx : Type 0 where
  pub cd : ℤ
  pub real_magic : Magic

unfoldable pub heatup : MagicEx → MagicEx
heatup m = record m { cd = m.real_magic.cd }

-- `std::max` on `int`.
abbrev pub max_int : ℤ → ℤ → ℤ
max_int a b = if ltb_ℤ a b then b else a

unfoldable pub cooldown : ℤ → MagicEx → MagicEx
cooldown ticks m = record m { cd = max_int (sub_int m.cd ticks) (pos 0) }

pub record Fightable : Type 0 where
  pub char_data : Character
  pub idx : ℕ
  pub team : ℕ
  pub progress : ℤ
  pub magics : List MagicEx

abbrev pub stats_of : Fightable → BattleStats
stats_of f = f.char_data.stats

-- Alive is what `go` tests: `hp` above 0.
abbrev pub is_down : Fightable → Bool
is_down f = leb_ℤ (stats_of f).hp (pos 0)

abbrev pub with_stats : Fightable → BattleStats → Fightable
with_stats f s = record f { char_data = record (f.char_data) { stats = s } }

abbrev pub fight_max_prog : ℤ
fight_max_prog = pos 1000

unfoldable pub ticks_calc : Fightable → Run ℤ
ticks_calc f =
    if leb_ℤ fight_max_prog f.progress
    then done (pos 0)
    else or_fault
        (div_int (sub_int (add_int (sub_int fight_max_prog f.progress) (stats_of f).speed) (pos 1))
          (stats_of f).speed)
        undefined

unfoldable pub threat_calc : Fightable → ℤ
threat_calc f = add_int (stats_of f).attack_min (stats_of f).attack_max

abbrev pub is_usable : ℤ → MagicEx → Bool
is_usable mp m = eqb_ℤ m.cd (pos 0) && ltb_ℤ m.real_magic.mp_cost mp

-- The loop of `pick_magic_idx`, from index `i` on.
unfoldable pub first_usable : ℤ → ℕ → List MagicEx → Option ℕ
first_usable mp i [] = none
first_usable mp i (m ∷ ms) =
    let rest = first_usable mp (suc i) ms in if is_usable mp m then some i else rest

unfoldable pub pick_magic_idx : Fightable → Option ℕ
unfolding first_usable
pick_magic_idx f = first_usable (stats_of f).mp 0 f.magics
