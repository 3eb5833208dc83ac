-- ===== src/Client/Responses.antt =====
-- `client_processor::process_response` of client/client_processor.h, with the overloads of `process` of
-- client/client_processor.cpp.
use niba.Prelude.{ℕ, Bool}
use niba.Prelude.Int.{ℤ}
use niba.Prelude.Run.{Run, done, ◌>>=◌}
use niba.Prelude.Double.{Double}
use niba.Structs.{SessionState}
use niba.GameData.{StaticData}
use niba.Wire.{JsonLib}
use niba.Wire.Kinds.{
  Kind, login, registeration, createchar, getdata, fight, learnmagic, fusemagic, reordermagic, echo,
  send, Body,
}
use niba.Wire.Responses.{base_merge_response}
use niba.Client.Processor.{
  receive, client_login, client_getdata, client_fight, client_createchar, client_learnmagic,
  client_fusemagic, client_reordermagic,
}

-- What the client keeps: its copy of the session, and the tables of the game.
pub record Copy (Real : Type 0) : Type 0 where
  pub session : SessionState
  pub tables : StaticData Real

abbrev pub with_session : {Real : Type 0} → Copy Real → Run SessionState → Run (Copy Real)
with_session c r = do s ← r; done (record c { session = s })

module _ (d : Double) (asserts : Bool) (delay_factor : d.Real) (fuel : ℕ)
    (J : JsonLib (d.Real)) where
  -- The overload of `process` for the message; echoes and registrations are printed only.
  unfoldable pub client_process : (k : Kind) → Body (d.Real) k → Copy (d.Real) → Run (Copy (d.Real))
  unfolding client_login client_getdata client_fight client_createchar client_learnmagic
      client_fusemagic client_reordermagic
  client_process login m c = with_session c (client_login m c.session)
  client_process registeration m c = done c
  client_process createchar m c = done (record c { session = client_createchar m c.session })
  client_process getdata m c = done (record c { tables = client_getdata m c.tables })
  client_process fight m c =
      with_session c (client_fight d asserts delay_factor c.tables fuel m c.session)
  client_process learnmagic m c = done (record c { session = client_learnmagic m c.session })
  client_process fusemagic m c = with_session c (client_fusemagic m c.session)
  client_process reordermagic m c = done (record c { session = client_reordermagic m c.session })
  client_process echo m c = done c
  client_process send m c = done c

  -- `now` is the time of the response.
  unfoldable pub process_response :
      ℤ → (k : Kind) → Body (d.Real) k → J.Json → Copy (d.Real) → Run (Copy (d.Real))
  unfolding base_merge_response client_process receive
  process_response now k m j c = do
    merged ← base_merge_response J k m j
    client_process k merged (record c { session = receive now c.session })
