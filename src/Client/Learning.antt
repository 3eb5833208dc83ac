-- ===== src/Client/Learning.antt =====
-- Learning and reordering magics at the server, server/server_processor.cpp, and what
-- client/client_processor.cpp makes of the response.
use mathlib.Core.Path.{subst}
use niba.Prelude.{◌≡◌, refl, ap, ◌∙◌, Bool, true, false, [], ◌∷◌, ◌++◌}
use niba.Prelude.Run.{Run, done, done-injective}
use niba.Prelude.Exec.{◌>>=◌, >>=-eq-done, lift}
use niba.Structs.{SessionState, Magic, PlayerData, Player}
use niba.GameData.{at_table}
use niba.Message.{MessageLearnmagic, MessageReordermagic}
use niba.Server.World.{Env, World}
use niba.Server.Account.{query}
use niba.Server.Magics.{
  described, player_value, learned, process_learnmagic, reordered, process_reordermagic,
}
use niba.Client.Processor.{client_learnmagic, client_reordermagic}

module _ (env : Env) (t : SessionState) where
  open env use {Store, Engine, db, tables}

  learned-client :
      (req m : MessageLearnmagic) (magic : Magic) (b : Bool) (w v : World Store Engine)
      → learned env req magic b w ≡ (done m, v)
      → m.success ≡ true
      → t.session_data ≡ w.session.session_data
      → client_learnmagic m t ≡ record t { session_data = v.session.session_data }
  unfolding learned client_learnmagic
  learned-client req m magic false w v h s same = cc
  learned-client req m magic true w v h s same =
      subst
        (λ (r : Run MessageLearnmagic × World Store Engine).
          (x : MessageLearnmagic)
          → r.0 ≡ done x
          → client_learnmagic x t ≡ record t { session_data = r.1.session.session_data })
        h
        (λ x e.
          subst
            (λ y. client_learnmagic y t ≡ record t {
              session_data = record (w.session.session_data) {
                magics = w.session.session_data.magics ++ (magic ∷ []);
              };
            })
            (done-injective e)
            (ap
              (λ (a : PlayerData). record t {
                session_data = record a { magics = a.magics ++ (magic ∷ []) };
              })
              same))
        m refl

  -- Where learning a magic succeeds, the client, with the player data that the server had before, ends
  -- with the player data that the server has after.
  pub client_learnmagic-process :
      (req m : MessageLearnmagic) (w v : World Store Engine)
      → process_learnmagic env req w ≡ (done m, v)
      → m.success ≡ true
      → t.session_data ≡ w.session.session_data
      → client_learnmagic m t ≡ record t { session_data = v.session.session_data }
  unfolding process_learnmagic
  client_learnmagic-process req m w v h s same =
      let (found, u, e, k) =
        >>=-eq-done (lift (at_table tables.magics req.static_id))
          (λ found. do
            player ← player_value env
            created ← query env (db.create_magic player.name (described found))
            learned env req (described found) created)
          w h in
      let (player, u₂, e₂, k₂) =
        >>=-eq-done (player_value env)
          (λ player. do
            created ← query env (db.create_magic player.name (described found))
            learned env req (described found) created)
          u k in
      let (created, u₃, e₃, k₃) =
        >>=-eq-done (query env (db.create_magic player.name (described found)))
          (learned env req (described found)) u₂ k₂ in
      learned-client req m (described found) created u₃ v k₃ s (
        same
        ∙ ap (λ (r : Run Magic × World Store Engine). r.1.session.session_data) e
        ∙ ap (λ (r : Run Player × World Store Engine). r.1.session.session_data) e₂
        ∙ ap (λ (r : Run Bool × World Store Engine). r.1.session.session_data) e₃)

  reordered-client :
      (req m : MessageReordermagic) (b : Bool) (w v : World Store Engine)
      → reordered env req b w ≡ (done m, v)
      → m.success ≡ true
      → t.session_data ≡ w.session.session_data
      → client_reordermagic m t ≡ record t { session_data = v.session.session_data }
  unfolding reordered client_reordermagic
  reordered-client req m false w v h s same = cc
  reordered-client req m true w v h s same =
      subst
        (λ (r : Run MessageReordermagic × World Store Engine).
          (x : MessageReordermagic)
          → r.0 ≡ done x
          → client_reordermagic x t ≡ record t { session_data = r.1.session.session_data })
        h
        (λ x e.
          subst
            (λ y. client_reordermagic y t ≡ record t {
              session_data = record (w.session.session_data) {
                equipped_magic_ids = req.equipped_magic_ids;
              };
            })
            (done-injective e)
            (ap
              (λ (a : PlayerData). record t {
                session_data = record a { equipped_magic_ids = req.equipped_magic_ids };
              })
              same))
        m refl

  -- Where reordering succeeds, the client, with the player data that the server had before, ends with
  -- the player data that the server has after.
  pub client_reordermagic-process :
      (req m : MessageReordermagic) (w v : World Store Engine)
      → process_reordermagic env req w ≡ (done m, v)
      → m.success ≡ true
      → t.session_data ≡ w.session.session_data
      → client_reordermagic m t ≡ record t { session_data = v.session.session_data }
  unfolding process_reordermagic
  client_reordermagic-process req m w v h s same =
      let (player, u, e, k) =
        >>=-eq-done (player_value env)
          (λ player. do
            stored ← query env (db.equip_magics player.name req.equipped_magic_ids)
            reordered env req stored)
          w h in
      let (stored, u₂, e₂, k₂) =
        >>=-eq-done (query env (db.equip_magics player.name req.equipped_magic_ids))
          (reordered env req) u k in
      reordered-client req m stored u₂ v k₂ s (
        same
        ∙ ap (λ (r : Run Player × World Store Engine). r.1.session.session_data) e
        ∙ ap (λ (r : Run Bool × World Store Engine). r.1.session.session_data) e₂)
