-- ===== src/Server/Handled.antt =====
-- What holds through `dispatch` of server/server_processor.cpp, where log-in and the creation of a
-- character keep it.
use niba.Prelude.{inl, inr, String, Bool, true, false, Option, Bool-cases}
use niba.Prelude.Int.{ℤ, ltb_ℤ}
use niba.Prelude.Run.{Run, done, fault, out_of_fuel, thrown, undefined, asserted}
use niba.Prelude.Exec.{◌>>=◌, pure, lift}
use niba.Prelude.Exec.Keeps.{Keeps, Keeps-bind}
use niba.Structs.{GameState, Player}
use niba.Message.{Message, MessageLogin, MessageCreatechar}
use niba.Message.Validate.{validate}
use niba.Server.SessionMap.{Sessions}
use niba.Server.World.{Env, World}
use niba.Server.Account.{
  Process, process_registration, process_login, process_getdata, process_createchar,
}
use niba.Server.Magics.{process_learnmagic, process_fusemagic, process_reordermagic}
use niba.Server.Play.{process_fight, process_echo, process_send}
use niba.Server.Dispatch.{Msg, wrapped, process, validated, answer, handle, respond, dispatch}
use niba.Server.Unmoved.{
  registration-Keeps, learnmagic-Keeps, reordermagic-Keeps, fight-Keeps, send_as-Keeps,
  fusemagic-Keeps,
}

module _ (env : Env) (S : GameState → Option String → Option Player → Sessions → Type 0) where
  open env use {Store, Engine, tables}

  abbrev P : World Store Engine → Type 0
  P w = S w.session.state w.session.userid w.session.player w.sessions

  module _ (login-Keeps : (req : MessageLogin) → Keeps P (process_login env req))
      (createchar-Keeps : (req : MessageCreatechar) → Keeps P (process_createchar env req)) where
    wrapped-Keeps :
        {A : Type 0} (c : A → Msg env) (m : Process env A) → Keeps P m → Keeps P (wrapped env c m)
    wrapped-Keeps c m h = Keeps-bind P m (λ a. pure (c a)) h (λ a w p. p)

    process-Keeps : (m : Msg env) → Keeps P (process env m)
    unfolding process process_getdata process_echo process_send
    process-Keeps (Message.registration m) =
        wrapped-Keeps Message.registration (process_registration env m) (registration-Keeps env S m)
    process-Keeps (Message.login m) =
        wrapped-Keeps Message.login (process_login env m) (login-Keeps m)
    process-Keeps (Message.getdata m) = λ w p. p
    process-Keeps (Message.fight m) =
        wrapped-Keeps Message.fight (process_fight env m) (fight-Keeps env S m)
    process-Keeps (Message.createchar m) =
        wrapped-Keeps Message.createchar (process_createchar env m) (createchar-Keeps m)
    process-Keeps (Message.learnmagic m) =
        wrapped-Keeps Message.learnmagic (process_learnmagic env m) (learnmagic-Keeps env S m)
    process-Keeps (Message.fusemagic m) =
        wrapped-Keeps Message.fusemagic (process_fusemagic env m) (fusemagic-Keeps env S m)
    process-Keeps (Message.reordermagic m) =
        wrapped-Keeps Message.reordermagic (process_reordermagic env m) (reordermagic-Keeps env S m)
    process-Keeps (Message.echo m) = λ w p. p
    process-Keeps (Message.send m) =
        wrapped-Keeps Message.send (process_send env m)
          (λ w. send_as-Keeps env S m w.session.player w)

    validated-Keeps : (m : Msg env) (r : Run Bool) → Keeps P (lift r >>= validated env m)
    unfolding validated
    validated-Keeps m (done true) = process-Keeps m
    validated-Keeps m (done false) = λ w p. p
    validated-Keeps m (fault e) = λ w p. p
    validated-Keeps m out_of_fuel = λ w p. p

    answer-Keeps : (now : ℤ) (parsed : Run (Msg env)) → Keeps P (answer env now parsed)
    unfolding answer
    answer-Keeps now (done m) w p =
        let session = record (w.session) { earliest_time = now } in
        validated-Keeps m (validate tables session m) (record w { session = session }) p
    answer-Keeps now (fault e) w p = p
    answer-Keeps now out_of_fuel w p = p

    handle-Keeps : (now : ℤ) (parsed : Run (Msg env)) → Keeps P (handle env now parsed)
    unfolding handle
    handle-Keeps now parsed w p = elim (Bool-cases (ltb_ℤ now w.session.earliest_time)) [
      | inl early ↦ rw early p
      | inr late ↦ rw late (
          answer-Keeps now parsed (record w { session = record (w.session) { current_time = now } })
            p)
    ]

    respond-Keeps : (r : Run (Msg env)) → Keeps P (respond env r)
    respond-Keeps (done m) w p = p
    respond-Keeps (fault thrown) w p = p
    respond-Keeps (fault undefined) w p = p
    respond-Keeps (fault asserted) w p = p
    respond-Keeps out_of_fuel w p = p

    pub dispatch-Keeps : (now : ℤ) (parsed : Run (Msg env)) → Keeps P (dispatch env now parsed)
    unfolding dispatch
    dispatch-Keeps now parsed w p =
        respond-Keeps (handle env now parsed w).0 (handle env now parsed w).1
          (handle-Keeps now parsed w p)
