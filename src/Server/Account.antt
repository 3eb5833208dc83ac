-- ===== src/Server/Account.antt =====
-- `process` of server/server_processor.cpp for the messages that lead into the game.
use niba.Prelude.{String, Bool, true, false, Option, none, some, if◌then◌else◌}
use niba.Prelude.Run.{done}
use niba.Prelude.Exec.{Exec, ◌>>=◌, ◌>>◌, pure, modify_state}
use niba.Structs.{createchar, ingame, SessionState, Player}
use niba.Message.{MessageRegistration, MessageLogin, MessageGetdata, MessageCreatechar}
use niba.Server.SessionMap.{register_session}
use niba.Server.World.{Env, World}

module _ (env : Env) where
  open env use {Store, Engine, db, expired, self, tables}

  abbrev pub Process : Type 0 → Type 0
  Process A = Exec (World Store Engine) A

  -- A call of `db_`.
  abbrev pub query : {A : Type 0} → Exec Store A → Process A
  query q w = let (r, s) = q w.store in (r, record w { store = s })

  -- `ss_map_.register_session(name, ss_wptr_)`
  abbrev pub register : String → Process Bool
  register name w =
      let (ok, m) = register_session expired name self w.sessions in
      (done ok, record w { sessions = m })

  abbrev pub set_session : (SessionState → SessionState) → Process (Unit {0})
  set_session f = modify_state (λ w. record w { session = f w.session })

  unfoldable pub process_registration : MessageRegistration → Process MessageRegistration
  process_registration req = do
    created ← query (db.create_user req.id req.password)
    pure (record req { success = created })

  -- `req.player && register_session(...)`
  abbrev pub register_player : Option Player → Process (Option Player)
  register_player none = pure none
  register_player (some p) = do
    registered ← register p.name
    pure (if registered then some p else none)

  unfoldable pub enter : MessageLogin → Option Player → Process MessageLogin
  enter req none = do set_session (λ s. record s { state = createchar }); pure req
  enter req (some p) = do
    set_session (λ s. record s { state = ingame; player = some p })
    aux ← query (db.get_aux p.name)
    set_session (λ s. record s { session_data = aux })
    pure (record req { player_data = some aux })

  -- The password was right.
  unfoldable pub welcome : MessageLogin → Process MessageLogin
  unfolding enter
  welcome req = do
    set_session (λ s. record s { userid = some req.id })
    found ← query (db.get_char req.id)
    registered ← register_player found
    enter (record req { success = true; player = found }) registered

  unfoldable pub process_login : MessageLogin → Process MessageLogin
  unfolding welcome
  process_login req = do
    ok ← query (db.login req.id req.password)
    if ok then welcome req else pure (record req { success = false })

  unfoldable pub process_getdata :
      MessageGetdata (env.double.Real) → Process (MessageGetdata (env.double.Real))
  process_getdata req = pure (record req { tables = tables; success = true })

  -- The character is in the database, and its name is registered or not.
  unfoldable pub begin_game : MessageCreatechar → Bool → Process MessageCreatechar
  begin_game req false = pure (record req { success = false })
  begin_game req true = do
    set_session (λ s. record s { state = ingame; player = some req.player })
    aux ← query (db.get_aux req.player.name)
    set_session (λ s. record s { session_data = aux })
    pure (record req { success = true; player_data = aux })

  unfoldable pub create_player : MessageCreatechar → Option String → Process MessageCreatechar
  unfolding begin_game
  create_player req none = pure (record req { success = false })
  create_player req (some userid) = do
    created ← query (db.create_char userid req.player)
    registered ← if created then register req.player.name else pure false
    begin_game req registered

  unfoldable pub process_createchar : MessageCreatechar → Process MessageCreatechar
  unfolding create_player
  process_createchar req w = create_player req w.session.userid w
