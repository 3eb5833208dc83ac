-- ===== src/Fight/Rounds.antt =====
-- `fight::go` of shared/fight.cpp: the loop until one side has nobody left. A vector element is
-- reached by its index, so that attacker and defender may be one fighter.
use niba.Prelude.{
  ℕ, zero, suc, ◌-◌, Bool, not, ◌||◌, ◌==◌, Option, none, some, List, if◌then◌else◌, get_elem?,
  modify,
}
use niba.Prelude.Int.{ℤ, pos, negsuc}
use niba.Prelude.Word.{add_int, sub_int}
use niba.Prelude.Run.{out_of_fuel, or_fault, boost_assert, undefined}
use niba.Prelude.Draws.{Draws, Rng, ◌>>=◌, pure, lift}
use niba.Prelude.Double.{Double}
use niba.Fight.Fighter.{heatup, Fightable, stats_of, is_down, with_stats, pick_magic_idx}
use niba.Fight.Damage.{default_magic, damage_calc}
use niba.Fight.Clock.{at, alive_from, next_to_act, advance}

-- The class `fight`.
pub record Fight : Type 0 where
  pub friends : ℕ
  pub enemies : ℕ
  pub all : List Fightable
  pub elapsed_ticks : ℤ

-- The variables of `go`: `team_alive_count`, and the members that the loop changes.
pub record Battle : Type 0 where
  pub alive0 : ℕ
  pub alive1 : ℕ
  pub fighters : List Fightable
  pub elapsed : ℤ

unfoldable pub heat : ℕ → Fightable → Fightable
heat k f = record f { magics = modify f.magics k heatup }

unfoldable pub spend_mp : ℤ → Fightable → Fightable
spend_mp cost f = with_stats f (record (stats_of f) { mp = sub_int (stats_of f).mp cost })

unfoldable pub lose_hp : ℤ → Fightable → Fightable
lose_hp dmg f = with_stats f (record (stats_of f) { hp = sub_int (stats_of f).hp dmg })

unfoldable pub rest : Fightable → Fightable
rest f = record f { progress = pos 0 }

-- `team_alive_count[defender.team] -= 1`, if the defender is down. Both counts are above 0 in the
-- loop, so that no count wraps around.
unfoldable pub count_down : Fightable → Battle → Battle
count_down defender b =
    if is_down defender
    then (if defender.team == 0
        then record b { alive0 = b.alive0 - 1 }
        else record b { alive1 = b.alive1 - 1 })
    else b

abbrev pub is_over : Battle → Bool
is_over b = b.alive0 == 0 || b.alive1 == 0

module _ (d : Double) (asserts : Bool) {R : Type 0} (rng : Rng R) where
  -- The attack with the magic that was picked: the damage, and the fighters as it leaves them.
  unfoldable pub use_magic : List Fightable → ℕ → ℕ → Option ℕ → Draws R (ℤ × List Fightable)
  use_magic fs a t none = do
    attacker ← lift (at fs a)
    defender ← lift (at fs t)
    dmg ← damage_calc d asserts rng attacker default_magic defender
    pure (dmg, fs)
  use_magic fs a t (some k) = do
    attacker ← lift (at fs a)
    chosen ← lift (or_fault (get_elem? attacker.magics k) undefined)
    defender ← lift (at fs t)
    dmg ← damage_calc d asserts rng attacker chosen.real_magic defender
    pure (dmg, modify (modify fs a (heat k)) a (spend_mp chosen.real_magic.mp_cost))

  -- From the choice of the magic to the end of the turn.
  unfoldable pub attack : Battle → ℕ → ℕ → Draws R Battle
  attack b a t = do
    attacker ← lift (at b.fighters a)
    (dmg, fs) ← use_magic b.fighters a t (pick_magic_idx attacker)
    hurt ← lift (at (modify fs t (lose_hp dmg)) t)
    pure (count_down hurt (record b { fighters = modify (modify fs t (lose_hp dmg)) a rest }))

  -- One turn of the loop.
  unfoldable pub turn : Battle → Draws R Battle
  turn b = do
    (ticks, attacker_idx) ← lift (next_to_act b.fighters (alive_from 0 b.fighters))
    attacker ← lift (at b.fighters attacker_idx)
    (fs, max_threat) ←
        lift (
          advance attacker.team ticks (alive_from 0 b.fighters) b.fighters (negsuc 0, attacker.idx))
    _ ← lift (boost_assert asserts (not (max_threat.1 == attacker.idx)))
    attack (record b { fighters = fs; elapsed = add_int b.elapsed ticks }) attacker_idx max_threat.1

  unfoldable pub loop : ℕ → Battle → Draws R Battle
  loop zero b = if is_over b then pure b else lift out_of_fuel
  loop (suc fuel) b = let next = turn b >>= loop fuel in if is_over b then pure b else next

  unfoldable pub go : ℕ → Fight → Draws R (ℕ × Fight)
  go fuel f = do
    b ← loop fuel (record {
      alive0 = f.friends;
      alive1 = f.enemies;
      fighters = f.all;
      elapsed = f.elapsed_ticks;
    })
    pure (if b.alive1 == 0 then 0 else 1, record f { all = b.fighters; elapsed_ticks = b.elapsed })
