-- ===== src/Client/Processor.antt =====
-- client/client_processor.cpp: the client's copy of the session follows the responses. What is
-- printed is left out.
use niba.Prelude.{
  ℕ, Bool, Option, none, some, List, [], ◌∷◌, ◌++◌, length, ltb, modify, if◌then◌else◌,
}
use niba.Prelude.Int.{ℤ, pos, ◌+ℤ◌, ◌*ℤ◌}
use niba.Prelude.Run.{Run, done, or_fault, fault, undefined, ◌>>=◌}
use niba.Prelude.Double.{Double}
use niba.Structs.{createchar, ingame, SessionState, Player, Magic}
use niba.GameData.{StaticData}
use niba.Fight.Fighter.{stats_of}
use niba.Fight.Clock.{at}
use niba.Fight.Rounds.{go}
use niba.Fight.Sources.{rng_client}
use niba.Fight.Setup.{prep_fight}
use niba.Fight.Start.{new_fight, my_status}
use niba.Message.{
  MessageLogin, MessageGetdata, MessageFight, MessageCreatechar, MessageLearnmagic,
  MessageFusemagic, MessageReordermagic,
}
use niba.Server.Magics.{place_of, remove_magic, remove_id, with_data}
use niba.Server.Play.{fight_delay}

-- The start of `process_response`: both times are set to the time of the response.
unfoldable pub receive : ℤ → SessionState → SessionState
receive now s = record s { current_time = now; earliest_time = now }

unfoldable pub client_enter : MessageLogin → Option Player → SessionState → Run SessionState
client_enter m none s = done (record s { state = createchar })
client_enter m (some p) s = do
  aux ← or_fault m.player_data undefined
  done (record s { state = ingame; player = some p; session_data = aux })

-- `*(req.data)` of absent data is undefined.
unfoldable pub client_login : MessageLogin → SessionState → Run SessionState
unfolding client_enter
client_login m s =
    if m.success then client_enter m m.player (record s { userid = some m.id }) else done s

unfoldable pub client_getdata :
    {Real : Type 0} → MessageGetdata Real → StaticData Real → StaticData Real
client_getdata m tables = if m.success then m.tables else tables

unfoldable pub client_createchar : MessageCreatechar → SessionState → SessionState
client_createchar m s =
    if m.success
    then record s { player = some m.player; session_data = m.player_data; state = ingame }
    else s

unfoldable pub client_learnmagic : MessageLearnmagic → SessionState → SessionState
client_learnmagic m s =
    if m.success then with_data (λ a. record a { magics = a.magics ++ (m.magic ∷ []) }) s else s

-- `*primary_magic_iter = req.magic` at the end of the vector is undefined.
unfoldable pub replace_magic : ℤ → Magic → List Magic → Run (List Magic)
unfolding place_of
replace_magic id magic magics =
    if ltb (place_of id magics) (length magics)
    then done (modify magics (place_of id magics) (λ _. magic))
    else fault undefined

unfoldable pub client_fusemagic : MessageFusemagic → SessionState → Run SessionState
unfolding replace_magic remove_magic remove_id
client_fusemagic m s =
    if m.success
    then (do
      magics ←
          replace_magic m.primary_magic_id m.magic
            (remove_magic m.secondary_magic_id s.session_data.magics)
      done (
          with_data
            (λ a. record a {
              magics = magics;
              equipped_magic_ids = remove_id m.secondary_magic_id a.equipped_magic_ids;
            })
            s))
    else done s

unfoldable pub client_reordermagic : MessageReordermagic → SessionState → SessionState
client_reordermagic m s =
    if m.success
    then with_data (λ a. record a { equipped_magic_ids = m.equipped_magic_ids }) s
    else s

module _ (d : Double) (asserts : Bool) (delay_factor : d.Real) (tables : StaticData (d.Real)) where
  -- The fight is fought again with the recorded numbers.
  unfoldable pub client_fight : ℕ → MessageFight → SessionState → Run SessionState
  client_fight fuel m s = do
    (friends, enemies) ← prep_fight tables s m.enemyid
    self_fightable ← at friends 0
    ((winner, fought), rng) ←
        go d asserts (rng_client asserts) fuel (new_fight friends enemies)
          (record { internal_idx = 0; precomputed = m.generated })
    status ← my_status fought
    delay ←
        fight_delay d delay_factor (stats_of self_fightable).hp (stats_of status).hp
          fought.elapsed_ticks
    done (record s { earliest_time = s.earliest_time +ℤ delay *ℤ pos 1000000 })
