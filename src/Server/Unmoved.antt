-- ===== src/Server/Unmoved.antt =====
-- The handlers of server/server_processor.cpp that leave as they are the state of the session, its user
-- and its player, and the map of all sessions.
use niba.Prelude.{ℕ, String, Bool, true, false, Option, none, some, List}
use niba.Prelude.Int.{ℤ}
use niba.Prelude.Run.{Run, done, fault, out_of_fuel, undefined, or_fault}
use niba.Prelude.Exec.{◌>>=◌, ◌>>◌, pure, lift}
use niba.Prelude.Exec.Keeps.{Keeps, Keeps-bind}
use niba.Structs.{GameState, Player, Magic}
use niba.GameData.{at_table}
use niba.Message.{
  MessageLearnmagic, MessageFusemagic, MessageReordermagic, MessageFight, MessageSend,
  MessageRegistration,
}
use niba.Message.Validate.{find_magic}
use niba.Server.World.{Env, World}
use niba.Server.SessionMap.{Sessions, recipient}
use niba.Server.Account.{query, set_session, process_registration}
use niba.Server.Magics.{
  with_data, described, place_of, remove_id, fused, overwrite, player_value, learned,
  process_learnmagic, select, finish_fusion, store_fusion, fuse, process_fusemagic, reordered,
  process_reordermagic,
}
use niba.Server.Play.{run_fight, finish_fight, process_fight, deliver, send_as}

-- What holds of the session's state, its user and its player, and of the map of all sessions.
module _ (env : Env) (S : GameState → Option String → Option Player → Sessions → Type 0) where
  open env use {Store, Engine, db, double, tables, expired}

  abbrev P : World Store Engine → Type 0
  P w = S w.session.state w.session.userid w.session.player w.sessions

  pub registration-Keeps : (req : MessageRegistration) → Keeps P (process_registration env req)
  unfolding process_registration
  registration-Keeps req =
      Keeps-bind P (query env (db.create_user req.id req.password))
        (λ created. pure (record req { success = created })) (λ w p. p) (λ created w p. p)

  learned-Keeps : (req : MessageLearnmagic) (m : Magic) (b : Bool) → Keeps P (learned env req m b)
  unfolding learned
  learned-Keeps req m false w p = p
  learned-Keeps req m true w p = p

  pub learnmagic-Keeps : (req : MessageLearnmagic) → Keeps P (process_learnmagic env req)
  unfolding process_learnmagic
  learnmagic-Keeps req =
      Keeps-bind P (lift (at_table tables.magics req.static_id))
        (λ found. do
          player ← player_value env
          created ← query env (db.create_magic player.name (described found))
          learned env req (described found) created)
        (λ w p. p)
        (λ found.
          Keeps-bind P (player_value env)
            (λ player. do
              created ← query env (db.create_magic player.name (described found))
              learned env req (described found) created)
            (λ w p. p)
            (λ player.
              Keeps-bind P (query env (db.create_magic player.name (described found)))
                (learned env req (described found)) (λ w p. p)
                (learned-Keeps req (described found))))

  reordered-Keeps : (req : MessageReordermagic) (b : Bool) → Keeps P (reordered env req b)
  unfolding reordered
  reordered-Keeps req false w p = p
  reordered-Keeps req true w p = p

  pub reordermagic-Keeps : (req : MessageReordermagic) → Keeps P (process_reordermagic env req)
  unfolding process_reordermagic
  reordermagic-Keeps req =
      Keeps-bind P (player_value env)
        (λ player. do
          stored ← query env (db.equip_magics player.name req.equipped_magic_ids)
          reordered env req stored)
        (λ w p. p)
        (λ player.
          Keeps-bind P (query env (db.equip_magics player.name req.equipped_magic_ids))
            (reordered env req) (λ w p. p) (reordered-Keeps req))

  finish_fight-Keeps :
      (req : MessageFight) (r : Run (List ℤ × ℤ × Engine)) → Keeps P (finish_fight env req r)
  unfolding finish_fight
  finish_fight-Keeps req (done (generated, delay, engine)) w p = p
  finish_fight-Keeps req (fault e) w p = p
  finish_fight-Keeps req out_of_fuel w p = p

  pub fight-Keeps : (req : MessageFight) → Keeps P (process_fight env req)
  unfolding process_fight
  fight-Keeps req w p = finish_fight-Keeps req (run_fight env w.session req.enemyid w.engine) w p

  deliver-Keeps :
      (req : MessageSend) (player : Player) (r : Option ℕ) → Keeps P (deliver env req player r)
  deliver-Keeps req player none w p = p
  deliver-Keeps req player (some s) w p = p

  pub send_as-Keeps :
      (req : MessageSend) (player : Option Player) → Keeps P (send_as env req player)
  unfolding send_as
  send_as-Keeps req none w p = p
  send_as-Keeps req (some player) w p =
      deliver-Keeps req player (recipient expired req.name w.sessions) w p

  finish_fusion-Keeps :
      (req : MessageFusemagic) (place : ℕ) (m : Magic) (equipped : List ℤ) (b : Bool)
      → Keeps P (finish_fusion env req place m equipped b)
  unfolding finish_fusion
  finish_fusion-Keeps req place m equipped false w p = p
  finish_fusion-Keeps req place m equipped true w p =
      Keeps-bind P (lift (overwrite req.secondary_magic_id place m w.session.session_data.magics))
        (λ magics. do
          set_session env (with_data (λ a. record a { magics = magics }))
          pure (record req { magic = m; success = true }))
        (λ v q. q) (λ magics v q. q)
        (record w {
          session = with_data (λ a. record a { equipped_magic_ids = equipped }) w.session;
        })
        p

  store_fusion-Keeps : (req : MessageFusemagic) (m : Magic) → Keeps P (store_fusion env req m)
  unfolding store_fusion
  store_fusion-Keeps req m w p =
      let place = place_of req.primary_magic_id w.session.session_data.magics in
      let equipped = remove_id req.secondary_magic_id w.session.session_data.equipped_magic_ids in
      Keeps-bind P (player_value env)
        (λ player. do
          stored ← query env (db.fuse_magic player.name m req.secondary_magic_id equipped)
          finish_fusion env req place m equipped stored)
        (λ v q. q)
        (λ player.
          Keeps-bind P (query env (db.fuse_magic player.name m req.secondary_magic_id equipped))
            (finish_fusion env req place m equipped) (λ v q. q)
            (finish_fusion-Keeps req place m equipped))
        w p

  fuse-Keeps :
      (req : MessageFusemagic) (primary : Magic) (secondary : Option Magic)
      → Keeps P (fuse env req primary secondary)
  unfolding fuse
  fuse-Keeps req primary none = λ w p. p
  fuse-Keeps req primary (some secondary) =
      Keeps-bind P (λ w. (or_fault w.session.player undefined, w))
        (λ chooser. do
          selected ← select env chooser
          store_fusion env req (fused double selected primary secondary))
        (λ w p. p)
        (λ chooser.
          Keeps-bind P (select env chooser)
            (λ selected. store_fusion env req (fused double selected primary secondary)) (λ w p. p)
            (λ selected. store_fusion-Keeps req (fused double selected primary secondary)))

  pub fusemagic-Keeps : (req : MessageFusemagic) → Keeps P (process_fusemagic env req)
  unfolding process_fusemagic
  fusemagic-Keeps req w p =
      Keeps-bind P
        (lift (or_fault (find_magic req.primary_magic_id w.session.session_data.magics) undefined))
        (λ primary.
          fuse env req primary (find_magic req.secondary_magic_id w.session.session_data.magics))
        (λ v q. q)
        (λ primary.
          fuse-Keeps req primary (find_magic req.secondary_magic_id w.session.session_data.magics))
        w p
