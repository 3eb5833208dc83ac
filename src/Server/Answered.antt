-- ===== src/Server/Answered.antt =====
-- A request that `dispatch` of server/server_processor.cpp answers with the message has been processed.
use mathlib.Core.Path.{subst}
use niba.Prelude.{◌≡◌, ◌≢◌, ◌∙◌, ap, inl, inr, Bool, true, false, Bool-cases, if◌then◌else◌}
use niba.Prelude.Int.{ℤ, ltb_ℤ}
use niba.Prelude.Run.{Run, done, fault, thrown, undefined, asserted, out_of_fuel, done-injective}
use niba.Prelude.Exec.{lift, ◌>>=◌, >>=-eq-done, pure}
use niba.Message.Validate.{validate}
use niba.Server.World.{Env, World}
use niba.Server.Account.{Process}
use niba.Server.Dispatch.{
  Msg, response, wrapped, respond, validated, answer, handle, process, dispatch,
}

module _ (env : Env) where
  open env use {Store, Engine, tables}

  -- What the processor works on for a request that is not too early.
  abbrev pub timed : ℤ → World Store Engine → World Store Engine
  timed now w = record w {
    session = record (w.session) { current_time = now; earliest_time = now };
  }

  respond-response :
      {r : Msg env} {v : World Store Engine} (x : Run (Msg env)) (w : World Store Engine)
      → respond env x w ≡ (done (response r), v)
      → (x ≡ done r) × (w ≡ v)
  respond-response (done m) w h = (cc, cc)
  respond-response (fault thrown) w h = (cc, cc)
  respond-response (fault undefined) w h = (cc, cc)
  respond-response (fault asserted) w h = (cc, cc)
  respond-response out_of_fuel w h = (cc, cc)

  validated-done :
      {r : Msg env} {v : World Store Engine} (m : Msg env) (valid : Run Bool)
      (w : World Store Engine)
      → (lift valid >>= validated env m) w ≡ (done r, v)
      → process env m w ≡ (done r, v)
  unfolding validated
  validated-done m (done true) w h = h
  validated-done m (done false) w h = cc
  validated-done m (fault e) w h = cc
  validated-done m out_of_fuel w h = cc

  thrown≢done :
      {r : Msg env} {v : World Store Engine} (w : World Store Engine)
      → lift {A = Msg env} (fault thrown) w ≢ (done r, v)
  thrown≢done w h = cc

  handle-done :
      {r : Msg env} {v : World Store Engine} (now : ℤ) (m : Msg env) (w : World Store Engine)
      → handle env now (done m) w ≡ (done r, v)
      → process env m (timed now w) ≡ (done r, v)
  unfolding handle answer
  handle-done {r} {v} now m w h =
      let set = record w { session = record (w.session) { current_time = now } } in
      let by : Bool → Type 0 =
        λ b. (if b then lift (fault thrown) else answer env now (done m)) set ≡ (done r, v) in
      elim (Bool-cases (ltb_ℤ now w.session.earliest_time)) [
        | inl early ↦ absurd (thrown≢done set (subst by early h))
        | inr late ↦
            validated-done m (validate tables (timed now w).session m) (timed now w)
              (subst by late h)
      ]

  pub dispatch-processed :
      {r : Msg env} {v : World Store Engine} (now : ℤ) (m : Msg env) (w : World Store Engine)
      → dispatch env now (done m) w ≡ (done (response r), v)
      → process env m (timed now w) ≡ (done r, v)
  unfolding dispatch
  dispatch-processed now m w h =
      let (e, f) = respond-response (handle env now (done m) w).0 (handle env now (done m) w).1 h in
      handle-done now m w (cc)

  pub wrapped-done :
      {A : Type 0} (c : A → Msg env) (p : Process env A) (w : World Store Engine) {r : Msg env}
      {v : World Store Engine}
      → wrapped env c p w ≡ (done r, v)
      → (a : A) × (p w ≡ (done a, v)) × (c a ≡ r)
  wrapped-done c p w h =
      let (a, u, e, k) = >>=-eq-done p (λ a. pure (c a)) w h in
      (a, e ∙ ap (λ x. (done a, x)) (ap (λ x. x.1) k), done-injective (ap (λ x. x.0) k))
