-- ===== src/Server/Pauses.antt =====
-- The requests that `server_session::go` of server/server_session.cpp reads while a session is to wait.
use niba.Prelude.{◌≡◌, refl, ap, ◌∙◌, sym, inl, true, List, [], ◌∷◌, ◌++◌, map, All}
use niba.Prelude.Int.{ℤ, pos, ltb_ℤ, ◌+ℤ◌, ◌*ℤ◌}
use niba.Prelude.Run.{Run, done, fault, out_of_fuel}
use niba.Prelude.Exec.{◌>>=◌, >>=-after, pure}
use niba.Message.{MessageFight}
use niba.Server.World.{Env, World}
use niba.Server.Account.{Process}
use niba.Server.Play.{run_fight, finish_fight, process_fight}
use niba.Server.Dispatch.{Msg, Response, request_error, handle, dispatch}
use niba.Server.Refusals.{dispatch-Refused}
use niba.Server.Connection.{Received, Answers, serve_all}

module _ (env : Env) where
  open env use {Store, Engine}

  -- Responses that came before.
  abbrev pub preceded :
      Answers env → Run (Answers env) × World Store Engine → Run (Answers env) × World Store Engine
  preceded before (done next, w) = (done (before ++ next), w)
  preceded before (fault e, w) = (fault e, w)
  preceded before (out_of_fuel, w) = (out_of_fuel, w)

  abbrev pub refusal : Received env → Response (env.double.Real)
  refusal request = request_error

  -- What a request comes to does not depend on when the last one came.
  dispatch-current_time :
      (now before : ℤ) (parsed : Run (Msg env)) (w : World Store Engine)
      → dispatch env now parsed
          (record w { session = record (w.session) { current_time = before } })
        ≡ dispatch env now parsed w
  unfolding dispatch handle
  dispatch-current_time now before parsed w = refl

  serve_all-current_time :
      (before : ℤ) (request : Received env) (rest : List (Received env)) (w : World Store Engine)
      → serve_all env
          (request ∷ rest)
          (record w { session = record (w.session) { current_time = before } })
        ≡ serve_all env (request ∷ rest) w
  unfolding serve_all dispatch handle
  serve_all-current_time before request rest w = refl

  preceded-nil : (r : Run (Answers env)) (w : World Store Engine) → preceded [] (r, w) ≡ (r, w)
  preceded-nil (done next) w = refl
  preceded-nil (fault e) w = refl
  preceded-nil out_of_fuel w = refl

  preceded-cons :
      (a : Response (env.double.Real)) (before : Answers env) (m : Process env (Answers env))
      (w : World Store Engine) (r : Run (Answers env)) (v : World Store Engine)
      → m w ≡ preceded before (r, v)
      → (m >>= λ rs. pure (a ∷ rs)) w ≡ preceded (a ∷ before) (r, v)
  preceded-cons a before m w (done next) v h = >>=-after m (λ rs. pure (a ∷ rs)) w h
  preceded-cons a before m w (fault e) v h = >>=-after m (λ rs. pure (a ∷ rs)) w h
  preceded-cons a before m w out_of_fuel v h = >>=-after m (λ rs. pure (a ∷ rs)) w h

  refused :
      (now : ℤ) (parsed : Run (Msg env)) (w : World Store Engine)
      → ltb_ℤ now w.session.earliest_time ≡ true
      → dispatch env now parsed w
        ≡ (done request_error, record w { session = record (w.session) { current_time = now } })
  refused now parsed w early = dispatch-Refused env now parsed w (inl early) ∙ rw early refl

  serve_all-early :
      (early : List (Received env)) (request : Received env) (rest : List (Received env))
      (w : World Store Engine)
      → All (λ ((now, parsed) : Received env). ltb_ℤ now w.session.earliest_time ≡ true) early
      → serve_all env (early ++ (request ∷ rest)) w
        ≡ preceded (map refusal early) (serve_all env (request ∷ rest) w)
  unfolding serve_all
  serve_all-early [] request rest w all = sym (preceded-nil _ _)
  serve_all-early ((now, parsed) ∷ early) request rest w all =
      let w₁ = record w { session = record (w.session) { current_time = now } } in
      >>=-after (dispatch env now parsed)
        (λ r. serve_all env (early ++ (request ∷ rest)) >>= λ rs. pure (r ∷ rs)) w
        (refused now parsed w all.0)
      ∙ preceded-cons request_error (map refusal early) (serve_all env (early ++ (request ∷ rest)))
          w₁ _ _
          (serve_all-early early request rest w₁ all.1
            ∙ ap (preceded (map refusal early)) (serve_all-current_time now request rest w))

  -- After a fight that returns, requests that are read before its delay is over are answered by the
  -- error response, and with the ones that follow all goes on as if those had not come.
  pub serve_all-after_fight :
      (req : MessageFight) (w : World Store Engine) (generated : List ℤ) (delay : ℤ) (e : Engine)
      (early : List (Received env)) (request : Received env) (rest : List (Received env))
      → run_fight env w.session req.enemyid w.engine ≡ done (generated, delay, e)
      → All
          (λ ((now, parsed) : Received env).
            ltb_ℤ now (w.session.earliest_time +ℤ delay *ℤ pos 1000000) ≡ true)
          early
      → serve_all env (early ++ (request ∷ rest)) ((process_fight env req w).1)
        ≡ preceded
            (map refusal early)
            (serve_all env (request ∷ rest) ((process_fight env req w).1))
  unfolding process_fight finish_fight
  serve_all-after_fight req w generated delay e early request rest h all =
      serve_all-early early request rest ((process_fight env req w).1) (rw h all)
