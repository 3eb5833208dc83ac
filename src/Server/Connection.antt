-- ===== src/Server/Connection.antt =====
-- A connection: `server_session::go` of server/server_session.cpp, from the requests that are read to the
-- lines that follow the last.
use niba.Prelude.{String, Option, none, some, Bool, true, false, List, [], ◌∷◌}
use niba.Prelude.Exec.{◌>>=◌, ◌>>◌, pure, modify_state}
use niba.Prelude.Int.{ℤ}
use niba.Prelude.Run.{Run}
use niba.Structs.{Player}
use niba.Server.SessionMap.{remove}
use niba.Server.World.{Env}
use niba.Server.Account.{Process, query}
use niba.Server.Dispatch.{Msg, Response, dispatch}

module _ (env : Env) where
  open env use {db}

  -- `ss_map_.remove`, where the session has a player.
  unfoldable pub release : Option Player → Process env (Unit {0})
  unfolding remove
  release none = pure tt
  release (some player) = modify_state (λ w. record w { sessions = remove player.name w.sessions })

  -- `db_.logout`, where it has a user.
  unfoldable pub log_out : Option String → Process env (Unit {0})
  log_out none = pure tt
  log_out (some userid) = do logged_out ← query env (db.logout userid); pure tt

  unfoldable pub leave : Process env (Unit {0})
  unfolding release log_out
  leave w = (do release w.session.player; log_out w.session.userid) w

  -- A text that has been read: when, and what it parses to.
  abbrev pub Received : Type 0
  Received = ℤ × Run (Msg env)

  abbrev pub Answers : Type 0
  Answers = List (Response (env.double.Real))

  -- The loop over the requests: the responses are handed to `write` in this order.
  unfoldable pub serve_all : List Received → Process env Answers
  serve_all [] = pure []
  serve_all ((now, parsed) ∷ requests) = do
    response ← dispatch env now parsed
    responses ← serve_all requests
    pure (response ∷ responses)

  -- No request is read where a handshake fails.
  unfoldable pub served : Bool → List Received → Process env Answers
  unfolding serve_all
  served false requests = pure []
  served true requests = serve_all requests

  unfoldable pub serve_session : Bool → List Received → Process env Answers
  serve_session opened requests = do
    responses ← served opened requests
    left ← leave
    pure responses
