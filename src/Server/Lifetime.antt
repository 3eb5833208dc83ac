-- ===== src/Server/Lifetime.antt =====
-- The state of a session through `dispatch` and the handlers of server/server_processor.cpp.
use mathlib.Core.Path.{subst}
use niba.Prelude.{
  ◌≤◌, ◌≡◌, refl, sym, inl, inr, Bool-cases, Bool, true, false, String, Option, arith,
}
use niba.Prelude.Int.{ℤ, ltb_ℤ}
use niba.Prelude.Run.{Run, done, fault, out_of_fuel, thrown, undefined, asserted}
use niba.Prelude.Exec.{◌>>=◌, pure, lift}
use niba.Prelude.Exec.Keeps.{Keeps, Keeps-bind}
use niba.Structs.{GameState, Player}
use niba.Message.{Message}
use niba.Message.Validate.{validate}
use niba.Message.States.{Allowed, validate-Allowed}
use niba.Server.World.{Env, World}
use niba.Server.SessionMap.{Sessions}
use niba.Server.Account.{
  Process, process_registration, process_login, process_getdata, process_createchar,
}
use niba.Server.Magics.{process_learnmagic, process_fusemagic, process_reordermagic}
use niba.Server.Play.{process_fight, process_echo, process_send}
use niba.Server.Dispatch.{Msg, wrapped, process, validated, answer, handle, respond, dispatch}
use niba.Server.Phases.{
  InPhase, Ready, ReadyIn, rank, process_login-InPhase, process_createchar-InPhase,
}
use niba.Server.Unmoved.{
  registration-Keeps, learnmagic-Keeps, reordermagic-Keeps, fight-Keeps, send_as-Keeps,
  fusemagic-Keeps,
}

module _ (env : Env) (from : GameState) where
  open env use {Store, Engine, db, double, tables, expired}

  abbrev P : World Store Engine → Type 0
  P = InPhase env from

  -- The same, of what the other handlers leave as it is.
  abbrev S : GameState → Option String → Option Player → Sessions → Type 0
  S state userid player sessions = (rank from ≤ rank state) × ReadyIn state userid player

  wrapped-InPhase :
      {A : Type 0} (c : A → Msg env) (m : Process env A) → Keeps P m → Keeps P (wrapped env c m)
  wrapped-InPhase c m h = Keeps-bind P m (λ a. pure (c a)) h (λ a w p. p)

  process-InPhase : (m : Msg env) → Allowed from m → Keeps P (process env m)
  unfolding process process_getdata process_echo process_send
  process-InPhase (Message.registration m) a =
      wrapped-InPhase Message.registration (process_registration env m) (registration-Keeps env S m)
  process-InPhase (Message.login m) a =
      wrapped-InPhase Message.login (process_login env m) (process_login-InPhase env from m a)
  process-InPhase (Message.getdata m) a = λ w p. p
  process-InPhase (Message.fight m) a =
      wrapped-InPhase Message.fight (process_fight env m) (fight-Keeps env S m)
  process-InPhase (Message.createchar m) a =
      wrapped-InPhase Message.createchar (process_createchar env m)
        (process_createchar-InPhase env from m)
  process-InPhase (Message.learnmagic m) a =
      wrapped-InPhase Message.learnmagic (process_learnmagic env m) (learnmagic-Keeps env S m)
  process-InPhase (Message.fusemagic m) a =
      wrapped-InPhase Message.fusemagic (process_fusemagic env m) (fusemagic-Keeps env S m)
  process-InPhase (Message.reordermagic m) a =
      wrapped-InPhase Message.reordermagic (process_reordermagic env m) (reordermagic-Keeps env S m)
  process-InPhase (Message.echo m) a = λ w p. p
  process-InPhase (Message.send m) a =
      wrapped-InPhase Message.send (process_send env m)
        (λ w. send_as-Keeps env S m w.session.player w)

  validated-InPhase :
      (m : Msg env) (r : Run Bool)
      → (r ≡ done true → Allowed from m)
      → Keeps P (lift r >>= validated env m)
  unfolding validated
  validated-InPhase m (done true) a = process-InPhase m (a refl)
  validated-InPhase m (done false) a = λ w p. p
  validated-InPhase m (fault e) a = λ w p. p
  validated-InPhase m out_of_fuel a = λ w p. p

  answer-InPhase :
      (now : ℤ) (parsed : Run (Msg env)) (w : World Store Engine)
      → w.session.state ≡ from
      → P w
      → P ((answer env now parsed w).1)
  unfolding answer
  answer-InPhase now (done m) w e p =
      let session = record (w.session) { earliest_time = now } in
      validated-InPhase m (validate tables session m)
        (λ h. subst (λ s. Allowed s m) e (validate-Allowed tables session m h))
        (record w { session = session }) p
  answer-InPhase now (fault e') w e p = p
  answer-InPhase now out_of_fuel w e p = p

  handle-InPhase :
      (now : ℤ) (parsed : Run (Msg env)) (w : World Store Engine)
      → w.session.state ≡ from
      → P w
      → P ((handle env now parsed w).1)
  unfolding handle
  handle-InPhase now parsed w e p = elim (Bool-cases (ltb_ℤ now w.session.earliest_time)) [
    | inl early ↦ rw early p
    | inr late ↦ rw late (
        answer-InPhase now parsed (record w { session = record (w.session) { current_time = now } })
          e p)
  ]

  respond-state : (r : Run (Msg env)) (w : World Store Engine) → (respond env r w).1 ≡ w
  respond-state (done m) w = refl
  respond-state (fault thrown) w = refl
  respond-state (fault undefined) w = refl
  respond-state (fault asserted) w = refl
  respond-state out_of_fuel w = refl

-- For a session that is ready: whatever a request holds, and whether it is answered, refused or breaks
-- off, `dispatch` keeps the session ready: it has a user where a character is to be created, and a
-- user and a character in the game. The state goes forward only: the game is never left, and log-in is
-- never come back to.
pub dispatch-Ready :
    (env : Env) (now : ℤ) (parsed : Run (Msg env)) (w : World env.Store env.Engine)
    → Ready w.session
    → Ready ((dispatch env now parsed w).1.session)
      × (rank w.session.state ≤ rank ((dispatch env now parsed w).1.session.state))
unfolding dispatch
dispatch-Ready env now parsed w h =
    let (p, r) =
      subst (λ v. InPhase env w.session.state v)
        (sym (
          respond-state env w.session.state (handle env now parsed w).0
            (handle env now parsed w).1))
        (handle-InPhase env w.session.state now parsed w refl (omega arith, h)) in
    (r, p)
