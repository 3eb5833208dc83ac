-- ===== src/Fight/Setup.antt =====
-- Who takes part in a fight: `stats_computer`, `setup_self`, `setup_fightable` and `prep_fight` of
-- shared/fight.cpp.
use niba.Prelude.{Bool, false, ◌||◌, List, [], ◌∷◌, ◌++◌, if◌then◌else◌}
use niba.Prelude.Int.{ℤ, pos, negsuc, eqb_ℤ}
use niba.Prelude.Word.{mul_int}
use niba.Prelude.Run.{Run, done, or_fault, undefined, ◌>>=◌}
use niba.Structs.{
  Attributes, BattleStats, no_stats, add_stats, Character, Magic, Equipment, SessionState,
}
use niba.GameData.{StaticData, Table, at_table}
use niba.Fight.Fighter.{Fightable, with_stats, stats_of}

unfoldable pub stats_computer : Attributes → BattleStats
stats_computer attr = record no_stats {
  attack_min = mul_int attr.strength (pos 2);
  attack_max = mul_int attr.strength (pos 2);
  evasion = attr.dexterity;
  speed = attr.dexterity;
  accuracy = attr.dexterity;
  hp = mul_int (pos 5) attr.physique;
  defence = attr.physique;
  mp = mul_int (pos 5) attr.spirit;
  inner_power = attr.spirit;
}

-- `std::find` on a vector of ids.
unfoldable pub contains : ℤ → List ℤ → Bool
contains id [] = false
contains id (x ∷ xs) = eqb_ℤ x id || contains id xs

abbrev add_magic : Fightable → Magic → Fightable
add_magic f m = record (with_stats f (add_stats (stats_of f) m.stats)) {
  magics = f.magics ++ (record { cd = pos 0; real_magic = m } ∷ []);
}

-- The loop over the magics.
unfoldable pub add_magics : List ℤ → Fightable → List Magic → Fightable
unfolding contains
add_magics ids f [] = f
add_magics ids f (m ∷ ms) = add_magics ids (if contains m.magic_id ids then add_magic f m else f) ms

-- The loop over the equipment.
unfoldable pub wear : Fightable → List Equipment → Fightable
wear f [] = f
wear f (e ∷ es) = wear (with_stats f (add_stats (stats_of f) e.stats)) es

-- `idx` and `team`, which the constructor of `fight` sets, are 0 until then.
unfoldable pub setup_self : Character → List Magic → List Equipment → List ℤ → Fightable
unfolding stats_computer add_magics wear
setup_self raw magics equips magic_ids =
    wear
      (add_magics magic_ids
        (record {
          char_data = record raw { stats = add_stats raw.stats (stats_computer raw.attrs) };
          idx = 0;
          team = 0;
          progress = pos 0;
          magics = [];
        })
        magics)
      equips

-- `getdata().at<T>(id)` for each id of a list.
unfoldable pub at_all : {T : Type 0} → Table T → List ℤ → Run (List T)
at_all t [] = done []
at_all t (id ∷ ids) = do v ← at_table t id; vs ← at_all t ids; done (v ∷ vs)

module _ {Real : Type 0} (static : StaticData Real) where
  unfoldable pub setup_fightable : ℤ → Run Fightable
  unfolding setup_self at_all
  setup_fightable id = do
    raw ← at_table static.characters id
    magics ← at_all static.magics raw.active_magic
    equips ← at_all static.equips raw.equipments
    done (setup_self raw magics equips raw.active_magic)

  -- `*(session.player)` of an absent player is undefined.
  unfoldable pub prep_fight : SessionState → ℤ → Run (List Fightable × List Fightable)
  unfolding setup_fightable
  prep_fight session id_you = do
    player ← or_fault session.player undefined
    you ← setup_fightable id_you
    done (
      setup_self
            (record {
              name = player.name;
              character_id = negsuc 0;
              description = "";
              attrs = player.attrs;
              stats = no_stats;
              equipments = [];
              active_magic = [];
            })
            session.session_data.magics session.session_data.equips
            session.session_data.equipped_magic_ids
          ∷ [],
      you ∷ [],
    )
