-- ===== src/Client/Reorders.antt =====
-- A new order of the equipped magics, asked for and answered over JSON: server/server_processor.cpp and
-- client/client_processor.cpp.
use niba.Prelude.{◌≡◌, refl, ap, ◌∙◌, Bool, true, false}
use niba.Prelude.Int.{ℤ}
use niba.Prelude.Run.{done}
use niba.Prelude.Exec.{◌>>=◌, >>=-eq-done}
use niba.Structs.{SessionState}
use niba.Message.{Message, MessageReordermagic}
use niba.Wire.{JsonLib, IsLawful}
use niba.Wire.Kinds.{Kind, reordermagic, Body}
use niba.Wire.Requests.{received}
use niba.Server.World.{Env, World}
use niba.Server.Account.{query}
use niba.Server.Dispatch.{response, process}
use niba.Server.Magics.{player_value, reordered, process_reordermagic}
use niba.Server.Answered.{timed, wrapped-done}
use niba.Client.Processor.{receive, client_reordermagic}
use niba.Client.Learning.{client_reordermagic-process}
use niba.Client.Responses.{Copy, client_process}
use niba.Client.Exchange.{ask, told, told-answered, asked-processed}

reordermagic-injective :
    (Real : Type 0) {a b : MessageReordermagic}
    → ◌≡◌ {A = Message Real} (Message.reordermagic a) (Message.reordermagic b)
    → a ≡ b
reordermagic-injective Real h = cc

-- The client takes the ids from its own message, which are those of the server's.
reordered_same :
    (m r : MessageReordermagic) (t : SessionState)
    → r.equipped_magic_ids ≡ m.equipped_magic_ids
    → client_reordermagic (record m { success = r.success }) t ≡ client_reordermagic r t
unfolding client_reordermagic
reordered_same m r t e = rw e refl

module _ (env : Env) where
  open env use {Store, Engine, db}

  reordered_ids :
      (req : MessageReordermagic) (stored : Bool) (w v : World Store Engine)
      {r : MessageReordermagic}
      → reordered env req stored w ≡ (done r, v)
      → r.equipped_magic_ids ≡ req.equipped_magic_ids
  unfolding reordered
  reordered_ids req true w v h = cc
  reordered_ids req false w v h = cc

  process_reordermagic_ids :
      (req : MessageReordermagic) (w v : World Store Engine) {r : MessageReordermagic}
      → process_reordermagic env req w ≡ (done r, v)
      → r.equipped_magic_ids ≡ req.equipped_magic_ids
  unfolding process_reordermagic
  process_reordermagic_ids req w v h =
      let (player, u, e, k) =
        >>=-eq-done (player_value env)
          (λ player.
            query env (db.equip_magics player.name req.equipped_magic_ids) >>= reordered env req)
          w h in
      let (stored, u₂, e₂, k₂) =
        >>=-eq-done (query env (db.equip_magics player.name req.equipped_magic_ids))
          (reordered env req) u k in
      reordered_ids req stored u₂ v k₂

  module _ (J : JsonLib (env.double.Real)) (lawful : IsLawful J)
      (fresh : (k : Kind) → Body (env.double.Real) k) where
    open env use {double}

    -- Where the server stores a new order that was asked for over JSON, and says so, the client, with
    -- the player data that the server had before, ends with the player data that the server has after,
    -- once it has read the response.
    pub exchange-reordermagic :
        (m r : MessageReordermagic) (w v : World Store Engine) (now later : ℤ)
        (c : Copy (double.Real))
        → ask env J lawful fresh now reordermagic m w
          ≡ (done (response (Message.reordermagic r)), v)
        → r.success ≡ true
        → c.session.session_data ≡ w.session.session_data
        → told env J lawful fresh later reordermagic m r c
          ≡ done (record c {
            session = record (receive later c.session) { session_data = v.session.session_data };
          })
    unfolding client_process process receive
    exchange-reordermagic m r w v now later c h s same =
        let req = received J reordermagic (fresh reordermagic) m in
        let (a, e, f) =
          wrapped-done env Message.reordermagic (process_reordermagic env req) (timed env now w)
            (asked-processed env J lawful fresh now reordermagic m w h) in
        let processed = e ∙ ap (λ x. (done x, v)) (reordermagic-injective (double.Real) f) in
        told-answered env J lawful fresh later reordermagic m r c
        ∙ ap (λ t. done (record c { session = t }))
            (reordered_same m r (receive later c.session)
                (process_reordermagic_ids req (timed env now w) v processed)
              ∙ client_reordermagic-process env (receive later c.session) req r (timed env now w) v
                  processed s same)
