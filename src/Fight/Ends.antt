-- ===== src/Fight/Ends.antt =====
-- That a fight ends: shared/fight.cpp. What it asks of the fighters, and what goes down.
pub mod Acting
pub mod Targets
pub mod Strikes
pub mod Finish
pub mod Rosters
use niba.Prelude.{ℕ, suc, ◌+◌, ◌<◌, ◌≡◌, ◌⊎◌, Bool, List, [], ◌∷◌, some, get_elem?}
use niba.Prelude.Int.{ℤ, pos, pos_part}
use niba.Prelude.Word.{IsInt}
use niba.Prelude.Run.{Run, done}
use niba.Prelude.Draws.{Rng}
use niba.Prelude.Draws.Ends.{Ends}
use niba.Prelude.Double.{Double}
use niba.Structs.{Magic}
use niba.Fight.Fighter.{Fightable, MagicEx, stats_of, threat_calc}
use niba.Fight.Damage.{default_magic, damage_calc}
use niba.Fight.Clock.{make_progress}
use niba.Fight.Rounds.{heat, spend_mp, lose_hp, rest}
use niba.Fight.Start.{set_team}
use niba.Fight.Alive.{Vitals}

-- The hp that is left, over all fighters above 0.
unfoldable pub vigor : List Vitals → ℕ
vigor [] = 0
vigor (v ∷ vs) = pos_part v.0 + vigor vs

-- A kind of fighters whose speed is above 0 and whose threat is not negative, and that a fight does not
-- take out of the kind.
pub record IsFit (P : Fightable → Type 0) : Type 0 where
  pub speedy : (f : Fightable) → P f → (n : ℕ) × ((stats_of f).speed ≡ pos (suc n))
  pub menacing : (f : Fightable) → P f → (n : ℕ) × (threat_calc f ≡ pos n)
  pub bounded : (f : Fightable) → P f → IsInt (stats_of f).hp
  pub moved : (ticks : ℤ) (f : Fightable) → P f → P (make_progress ticks f)
  pub hurt : (dmg : ℤ) (f : Fightable) → P f → P (lose_hp dmg f)
  pub spent : (cost : ℤ) (f : Fightable) → P f → P (spend_mp cost f)
  pub heated : (k : ℕ) (f : Fightable) → P f → P (heat k f)
  pub rested : (f : Fightable) → P f → P (rest f)
  pub teamed : (t : ℕ) (f : Fightable) → P f → P (set_team t f)
  pub numbered : (i : ℕ) (f : Fightable) → P f → P (record f { idx = i })

-- A magic that the fighter may attack with.
abbrev pub Has : Fightable → Magic → Type 0
Has f m =
    (m ≡ default_magic)
    ⊎ ((k : ℕ) × (mex : MagicEx) × (get_elem? f.magics k ≡ some mex) × (mex.real_magic ≡ m))

-- A damage that is not negative; if it is 0, the source's patience has gone down.
abbrev pub Struck : {R : Type 0} → (R → ℕ) → R → ℤ → R → Type 0
Struck patience r dmg r' =
    (n : ℕ) × (dmg ≡ pos n) × (n < 2147483648) × ((0 < n) ⊎ (patience r' < patience r))

-- Every attack within the kind strikes.
abbrev pub Deals :
    (P : Fightable → Type 0) (d : Double) (asserts : Bool) {R : Type 0} (rng : Rng R)
    (patience : R → ℕ)
    → Type 0
Deals P d asserts {R} rng patience =
    (a t : Fightable) (m : Magic)
    → P a
    → P t
    → Has a m
    → (r : R) → Ends (Struck patience r) (damage_calc d asserts rng a m t) r
