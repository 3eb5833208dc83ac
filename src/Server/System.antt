-- ===== src/Server/System.antt =====
-- The server as a whole: its connections, which share the database and the map of sessions, by
-- server/main.cpp, server/server_session.cpp and server/session_map.h. A request is one step.
use niba.Prelude.{ℕ, suc, ◌≡◌, Bool, true, false, ◌==◌, none, List, [], if◌then◌else◌}
use niba.Prelude.Int.{ℤ, pos}
use niba.Prelude.Run.{Run}
use niba.Structs.{SessionState, prelogin}
use niba.Server.SessionMap.{Sessions, cleanup}
use niba.Server.World.{Env, World, Sent}
use niba.Server.Dispatch.{Msg, dispatch}
use niba.Server.Connection.{leave}

-- A session reads requests, or has ended but is held by someone yet, or is destroyed. A number that no
-- session has had so far counts as destroyed.
pub data Life : Type 0 where
  running leaving gone : Life

abbrev pub is_gone : Life → Bool
is_gone running = false
is_gone leaving = false
is_gone gone = true

abbrev pub assigned : {A : Type 0} → (ℕ → A) → ℕ → A → ℕ → A
assigned f i x j = if j == i then x else f j

-- `sessionstate()`
abbrev pub new_session : SessionState
new_session = record {
  state = prelogin;
  userid = none;
  player = none;
  session_data = record { magics = []; equips = []; equipped_magic_ids = []; avail_map_ids = [] };
  current_time = pos 0;
  earliest_time = pos 0;
}

module _ (env : Env) where
  open env use {Store, Engine}

  -- `accepted` sessions have been there so far.
  pub record System : Type 0 where
    pub accepted : ℕ
    pub life : ℕ → Life
    pub session : ℕ → SessionState
    pub store : Store
    pub engine : Engine
    pub sessions : Sessions
    pub sent : List Sent

  abbrev pub destroyed : System → ℕ → Bool
  destroyed s i = is_gone (s.life i)

  -- What the processor of a session is given, and what it works on.
  abbrev pub env_of : System → ℕ → Env
  env_of s i = record env { self = i; expired = destroyed s }

  abbrev pub world_of : System → ℕ → World Store Engine
  world_of s i = record {
    session = s.session i;
    store = s.store;
    engine = s.engine;
    sessions = s.sessions;
    sent = s.sent;
  }

  abbrev pub with_world : System → ℕ → World Store Engine → System
  with_world s i w = record s {
    session = assigned s.session i w.session;
    store = w.store;
    engine = w.engine;
    sessions = w.sessions;
    sent = w.sent;
  }

  abbrev pub with_life : System → ℕ → Life → System
  with_life s i l = record s { life = assigned s.life i l }

  -- The loop over the acceptor: a session is made.
  unfoldable pub accept : System → System
  accept s = record s {
    accepted = suc s.accepted;
    life = assigned s.life s.accepted running;
    session = assigned s.session s.accepted new_session;
  }

  unfoldable pub serve : System → ℕ → ℤ → Run (Msg env) → System
  unfolding dispatch
  serve s i now parsed = with_world s i ((dispatch (env_of s i) now parsed (world_of s i)).1)

  unfoldable pub end_session : System → ℕ → System
  unfolding leave
  end_session s i = with_life (with_world s i ((leave (env_of s i) (world_of s i)).1)) i leaving

  unfoldable pub destroy : System → ℕ → System
  destroy s i = with_life s i gone

  -- The timer.
  unfoldable pub tidy : System → System
  unfolding cleanup
  tidy s = record s { sessions = cleanup (destroyed s) s.sessions }

  abbrev pub started : Store → Engine → System
  started store engine = record {
    accepted = 0;
    life = λ i. gone;
    session = λ i. new_session;
    store = store;
    engine = engine;
    sessions = [];
    sent = [];
  }

  -- The states that the server comes to, in any order of what happens.
  pub data Reachable : System → Type 0 where
    start : (store : Store) (engine : Engine) → Reachable (started store engine)
    accepts : (s : System) → Reachable s → Reachable (accept s)
    serves :
        (s : System) (i : ℕ) (now : ℤ) (parsed : Run (Msg env))
        → Reachable s
        → s.life i ≡ running
        → Reachable (serve s i now parsed)
    ends : (s : System) (i : ℕ) → Reachable s → s.life i ≡ running → Reachable (end_session s i)
    destroys : (s : System) (i : ℕ) → Reachable s → s.life i ≡ leaving → Reachable (destroy s i)
    tidies : (s : System) → Reachable s → Reachable (tidy s)
