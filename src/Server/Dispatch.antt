-- ===== src/Server/Dispatch.antt =====
-- `server_processor::dispatch` of server/server_processor.cpp: one request, from its text's parse to
-- the response.
use niba.Prelude.{Bool, true, false, if◌then◌else◌}
use niba.Prelude.Int.{ℤ, ltb_ℤ}
use niba.Prelude.Run.{Run, done, fault, thrown, undefined, asserted, out_of_fuel}
use niba.Prelude.Exec.{◌>>=◌, ◌>>◌, pure, lift, gets}
use niba.Message.{Message}
use niba.Message.Validate.{validate}
use niba.Server.World.{Env}
use niba.Server.Account.{
  Process, set_session, process_registration, process_login, process_getdata, process_createchar,
}
use niba.Server.Magics.{process_learnmagic, process_fusemagic, process_reordermagic}
use niba.Server.Play.{process_fight, process_echo, process_send}

-- The response carries the message as `process` left it, or is the error response.
pub data Response (Real : Type 0) : Type 0 where
  response : Message Real → Response Real
  request_error : Response Real

module _ (env : Env) where
  open env use {tables}

  abbrev pub Msg : Type 0
  Msg = Message (env.double.Real)

  abbrev pub wrapped : {A : Type 0} → (A → Msg) → Process env A → Process env Msg
  wrapped c m = m >>= λ a. pure (c a)

  -- The overload of `process` for the message.
  unfoldable pub process : Msg → Process env Msg
  unfolding process_registration process_login process_getdata process_fight process_createchar
      process_learnmagic process_fusemagic process_reordermagic process_echo process_send
  process (Message.registration m) = wrapped Message.registration (process_registration env m)
  process (Message.login m) = wrapped Message.login (process_login env m)
  process (Message.getdata m) = wrapped Message.getdata (process_getdata env m)
  process (Message.fight m) = wrapped Message.fight (process_fight env m)
  process (Message.createchar m) = wrapped Message.createchar (process_createchar env m)
  process (Message.learnmagic m) = wrapped Message.learnmagic (process_learnmagic env m)
  process (Message.fusemagic m) = wrapped Message.fusemagic (process_fusemagic env m)
  process (Message.reordermagic m) = wrapped Message.reordermagic (process_reordermagic env m)
  process (Message.echo m) = wrapped Message.echo (process_echo env m)
  process (Message.send m) = wrapped Message.send (process_send env m)

  -- An invalid request throws.
  unfoldable pub validated : Msg → Bool → Process env Msg
  validated m false = lift (fault thrown)
  validated m true = process m

  -- What is done for a request that is not too early. `parsed` is what the text parses to: it throws
  -- where it is no JSON, or no known request.
  unfoldable pub answer : ℤ → Run Msg → Process env Msg
  unfolding validated
  answer now parsed = do
    set_session env (λ s. record s { earliest_time = now })
    m ← lift parsed
    valid ← λ w. (validate tables w.session m, w)
    validated m valid

  unfoldable pub handle : ℤ → Run Msg → Process env Msg
  unfolding answer
  handle now parsed = do
    set_session env (λ s. record s { current_time = now })
    early ← gets (λ w. ltb_ℤ now w.session.earliest_time)
    if early then lift (fault thrown) else answer now parsed

  -- The `catch`: an exception becomes the error response; the rest is no C++ behaviour.
  abbrev pub respond : Run Msg → Process env (Response (env.double.Real))
  respond (done m) w = (done (response m), w)
  respond (fault thrown) w = (done request_error, w)
  respond (fault undefined) w = (fault undefined, w)
  respond (fault asserted) w = (fault asserted, w)
  respond out_of_fuel w = (out_of_fuel, w)

  unfoldable pub dispatch : ℤ → Run Msg → Process env (Response (env.double.Real))
  unfolding handle
  dispatch now parsed w = let (r, w') = handle now parsed w in respond r w'
