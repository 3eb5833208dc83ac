-- ===== src/Server/Magics.antt =====
-- `process` of server/server_processor.cpp for learning, fusing and reordering magics.
use niba.Util.{find_if, vector_remove}
use niba.Prelude.{
  ℕ, zero, suc, Bool, true, false, ltb, Option, none, some, List, [], ◌∷◌, ◌++◌, length, modify,
  if◌then◌else◌,
}
use niba.Prelude.Int.{ℤ, pos, eqb_ℤ}
use niba.Prelude.Word.{add_int, sub_int}
use niba.Prelude.Run.{Run, done, or_fault, fault, undefined, thrown}
use niba.Prelude.Exec.{◌>>=◌, ◌>>◌, pure, lift, gets}
use niba.Prelude.Strings.{str_eq}
use niba.Prelude.Double.{Double}
use niba.Structs.{Magic, BattleStats, scale_stats, add_stats, Player, PlayerData, SessionState}
use niba.GameData.{at_table}
use niba.Message.{MessageLearnmagic, MessageFusemagic, MessageReordermagic}
use niba.Message.Validate.{find_magic}
use niba.Server.World.{Env}
use niba.Server.Account.{Process, query, set_session}

-- `session_.data`, changed.
abbrev pub with_data : (PlayerData → PlayerData) → SessionState → SessionState
with_data f s = record s { session_data = f s.session_data }

-- The description of a learned magic is its name, if it has none.
unfoldable pub described : Magic → Magic
described m = if str_eq m.description "" then record m { description = m.name } else m

-- The place that `find_if` finds; the length of the list, if it finds none.
unfoldable pub place_of : ℤ → List Magic → ℕ
place_of id ms = find_if (λ m. eqb_ℤ m.magic_id id) ms

-- `nibautil::vector_remove` by the id.
unfoldable pub remove_magic : ℤ → List Magic → List Magic
remove_magic id ms = vector_remove (λ m. eqb_ℤ m.magic_id id) ms

-- `std::copy_if` of the ids that are not `id`.
unfoldable pub remove_id : ℤ → List ℤ → List ℤ
remove_id id [] = []
remove_id id (x ∷ xs) = let kept = remove_id id xs in if eqb_ℤ x id then kept else x ∷ kept

module _ (d : Double) where
  open d use {of_int, decimal, mul, lround}

  -- `extra_stats`
  unfoldable pub extra : ℤ → ℤ → ℤ
  extra primary secondary = add_int primary (lround (mul (of_int secondary) (decimal 15 2)))

  -- The switch over the selected attribute: strength, dexterity, physique, spirit.
  unfoldable pub prefer : ℕ → BattleStats → BattleStats → BattleStats
  unfolding extra
  prefer zero s m = record s {
    attack_min = extra s.attack_min m.attack_min;
    attack_max = extra s.attack_max m.attack_max;
  }
  prefer (suc zero) s m = record s {
    accuracy = extra s.accuracy m.accuracy;
    evasion = extra s.evasion m.evasion;
    speed = extra s.speed m.speed;
  }
  prefer (suc (suc zero)) s m = record s {
    hp = extra s.hp m.hp;
    defence = extra s.defence m.defence;
  }
  prefer (suc (suc (suc zero))) s m = record s {
    mp = extra s.mp m.mp;
    inner_power = extra s.inner_power m.inner_power;
  }
  prefer _ s m = s

  -- `secondary_stats` after the switch.
  unfoldable pub inherited_stats : ℕ → Magic → BattleStats
  unfolding prefer
  inherited_stats selected m = prefer selected (scale_stats d m.stats (decimal 5 2)) m.stats

  -- `req.magic`: the primary magic with its part of the secondary one.
  unfoldable pub fused : ℕ → Magic → Magic → Magic
  unfolding inherited_stats
  fused selected primary secondary = record primary {
    stats = add_stats primary.stats (inherited_stats selected secondary);
    inner_damage =
        add_int primary.inner_damage (lround (mul (of_int secondary.inner_damage) (decimal 5 2)));
    multiplier =
        add_int primary.multiplier
          (lround (mul (of_int (sub_int secondary.multiplier (pos 100))) (decimal 5 2)));
  }

-- The magics once the secondary is removed and `req.magic` written through the iterator at `place`.
-- To erase the last elements leaves an iterator before them as it is, at what has moved there; to
-- write through another one is undefined.
unfoldable pub overwrite : ℤ → ℕ → Magic → List Magic → Run (List Magic)
unfolding remove_magic
overwrite secondary_id place magic magics =
    let kept = remove_magic secondary_id magics in
    if ltb place (length kept) then done (modify kept place (λ _. magic)) else fault undefined

module _ (env : Env) where
  open env use {Store, Engine, db, double, tables, weighted_rand}

  -- `session_.player.value()` throws if there is none.
  abbrev pub player_value : Process env Player
  player_value w = (or_fault w.session.player thrown, w)

  -- The database has taken the magic or not.
  unfoldable pub learned : MessageLearnmagic → Magic → Bool → Process env MessageLearnmagic
  learned req m false = pure (record req { magic = m; success = false })
  learned req m true = do
    set_session env (with_data (λ a. record a { magics = a.magics ++ (m ∷ []) }))
    pure (record req { magic = m; success = true })

  unfoldable pub process_learnmagic : MessageLearnmagic → Process env MessageLearnmagic
  unfolding described learned
  process_learnmagic req = do
    found ← lift (at_table tables.magics req.static_id)
    player ← player_value
    created ← query env (db.create_magic player.name (described found))
    learned req (described found) created

  abbrev pub select : Player → Process env ℕ
  select player w =
      let (selected, e) = weighted_rand player.attrs w.engine in
      (done selected, record w { engine = e })

  -- The database has taken the fusion or not.
  unfoldable pub finish_fusion :
      MessageFusemagic → ℕ → Magic → List ℤ → Bool → Process env MessageFusemagic
  unfolding overwrite
  finish_fusion req place magic equipped false =
      pure (record req { magic = magic; success = false })
  finish_fusion req place magic equipped true = do
    set_session env (with_data (λ a. record a { equipped_magic_ids = equipped }))
    old ← gets (λ w. w.session.session_data.magics)
    magics ← lift (overwrite req.secondary_magic_id place magic old)
    set_session env (with_data (λ a. record a { magics = magics }))
    pure (record req { magic = magic; success = true })

  -- `magic` is `req.magic`, the fused one.
  unfoldable pub store_fusion : MessageFusemagic → Magic → Process env MessageFusemagic
  unfolding finish_fusion remove_id
  store_fusion req magic = do
    player ← player_value
    place ← gets (λ w. place_of req.primary_magic_id w.session.session_data.magics)
    equipped ←
        gets (λ w. remove_id req.secondary_magic_id w.session.session_data.equipped_magic_ids)
    stored ← query env (db.fuse_magic player.name magic req.secondary_magic_id equipped)
    finish_fusion req place magic equipped stored

  -- The body of the loop at the secondary magic.
  unfoldable pub fuse : MessageFusemagic → Magic → Option Magic → Process env MessageFusemagic
  unfolding fused store_fusion
  fuse req primary none = pure (record req { magic = primary })
  fuse req primary (some secondary) = do
    chooser ← λ w. (or_fault w.session.player undefined, w)
    selected ← select chooser
    store_fusion req (fused double selected primary secondary)

  unfoldable pub process_fusemagic : MessageFusemagic → Process env MessageFusemagic
  unfolding fuse
  process_fusemagic req = do
    magics ← gets (λ w. w.session.session_data.magics)
    primary ← lift (or_fault (find_magic req.primary_magic_id magics) undefined)
    fuse req primary (find_magic req.secondary_magic_id magics)

  -- The database has taken the order or not.
  unfoldable pub reordered : MessageReordermagic → Bool → Process env MessageReordermagic
  reordered req false = pure (record req { success = false })
  reordered req true = do
    set_session env (with_data (λ a. record a { equipped_magic_ids = req.equipped_magic_ids }))
    pure (record req { success = true })

  unfoldable pub process_reordermagic : MessageReordermagic → Process env MessageReordermagic
  unfolding reordered
  process_reordermagic req = do
    player ← player_value
    stored ← query env (db.equip_magics player.name req.equipped_magic_ids)
    reordered req stored
