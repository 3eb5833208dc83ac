-- ===== src/Server/Claims.antt =====
-- What server/server_processor.cpp does to the map of sessions: the names of other live sessions stay
-- theirs, and a session that gets a player has registered the player's name.
use niba.Prelude.{
  ℕ, ◌≡◌, inl, inr, String, Bool, true, false, Option, none, some, if◌then◌else◌, Bool-cases,
}
use niba.Prelude.Int.{ℤ}
use niba.Prelude.Run.{Run}
use niba.Prelude.Exec.{◌>>=◌, ◌>>◌, pure}
use niba.Prelude.Exec.Keeps.{Keeps, Keeps-bind, Keeps-if}
use niba.Structs.{GameState, ingame, Player}
use niba.Message.{MessageLogin, MessageCreatechar}
use niba.Server.SessionMap.{Sessions, lookup, register_session}
use niba.Server.Online.{
  Unique, register_session-Unique, register_session-lookup, register_session-found,
}
use niba.Server.World.{Env, World}
use niba.Server.Account.{
  query, register, set_session, register_player, enter, welcome, process_login, begin_game,
  create_player, process_createchar,
}
use niba.Server.Dispatch.{Msg, dispatch}
use niba.Server.Handled.{dispatch-Keeps}

-- The session is registered under its player's name, if it has a player.
abbrev pub Registered : ℕ → Option Player → Sessions → Type 0
Registered self none m = Unit
Registered self (some p) m = lookup p.name m ≡ some self

module _ (env : Env) (Claim : String → ℕ → Type 0)
    (live : (name : String) (j : ℕ) → Claim name j → env.expired j ≡ false)
    (self_live : env.expired env.self ≡ false) where
  open env use {Store, Engine, db, expired, self, tables}

  -- No name has two entries, the claimed names have their sessions, and so has the player.
  abbrev pub S : GameState → Option String → Option Player → Sessions → Type 0
  S state userid player m =
      Unique m
      × ((name : String) (j : ℕ) → Claim name j → lookup name m ≡ some j)
      × Registered self player m

  abbrev pub P : World Store Engine → Type 0
  P w = S w.session.state w.session.userid w.session.player w.sessions

  Registered-register :
      (player : Option Player) (name : String) (m : Sessions)
      → Registered self player m
      → Registered self player ((register_session expired name self m).1)
  Registered-register none name m h = tt
  Registered-register (some p) name m h =
      register_session-found expired name p.name self self m self_live h

  register-Keeps : (name : String) → Keeps P (register env name)
  register-Keeps name w p = (
    register_session-Unique expired name self w.sessions p.0,
    λ n j c. register_session-found expired name n self j w.sessions (live n j c) (p.1 n j c),
    Registered-register w.session.player name w.sessions p.2,
  )

  enter_absent-Keeps : (req : MessageLogin) → Keeps P (enter env req none)
  unfolding enter
  enter_absent-Keeps req w p = p

  enter_found-Keeps :
      (req : MessageLogin) (q : Player) (w : World Store Engine)
      → P w
      → lookup q.name w.sessions ≡ some self
      → P ((enter env req (some q) w).1)
  unfolding enter
  enter_found-Keeps req q w p h =
      Keeps-bind P (query env (db.get_aux q.name))
        (λ aux. do
          set_session env (λ s. record s { session_data = aux })
          pure (record req { player_data = some aux }))
        (λ v k. k) (λ aux v k. k)
        (record w { session = record (w.session) { state = ingame; player = some q } })
        (p.0, p.1, h)

  admit-Keeps :
      (req : MessageLogin) (found : Option Player)
      → Keeps P (register_player env found >>= enter env req)
  admit-Keeps req none w p = enter_absent-Keeps req w p
  admit-Keeps req (some q) w p =
      let m = (register_session expired q.name self w.sessions).1 in
      elim (Bool-cases (register_session expired q.name self w.sessions).0) [
        | inl e ↦ rw e (
            enter_found-Keeps req q (record w { sessions = m }) (register-Keeps q.name w p)
              (register_session-lookup expired q.name self w.sessions e))
        | inr e ↦
            rw e (enter_absent-Keeps req (record w { sessions = m }) (register-Keeps q.name w p))
      ]

  welcome-Keeps : (req : MessageLogin) → Keeps P (welcome env req)
  unfolding welcome
  welcome-Keeps req w p =
      Keeps-bind P (query env (db.get_char req.id))
        (λ found. do
          registered ← register_player env found
          enter env (record req { success = true; player = found }) registered)
        (λ v k. k) (λ found. admit-Keeps (record req { success = true; player = found }) found)
        (record w { session = record (w.session) { userid = some req.id } }) p

  process_login-Keeps : (req : MessageLogin) → Keeps P (process_login env req)
  unfolding process_login
  process_login-Keeps req =
      Keeps-bind P (query env (db.login req.id req.password))
        (λ ok. if ok then welcome env req else pure (record req { success = false })) (λ w p. p)
        (λ ok.
          Keeps-if P ok (welcome env req) (pure (record req { success = false }))
            (welcome-Keeps req) (λ w p. p))

  begin_game-Keeps :
      (req : MessageCreatechar) (w : World Store Engine)
      → P w
      → lookup req.player.name w.sessions ≡ some self
      → P ((begin_game env req true w).1)
  unfolding begin_game
  begin_game-Keeps req w p h =
      Keeps-bind P (query env (db.get_aux req.player.name))
        (λ aux. do
          set_session env (λ s. record s { session_data = aux })
          pure (record req { success = true; player_data = aux }))
        (λ v k. k) (λ aux v k. k)
        (record w { session = record (w.session) { state = ingame; player = some req.player } })
        (p.0, p.1, h)

  refused_game-Keeps : (req : MessageCreatechar) → Keeps P (begin_game env req false)
  unfolding begin_game
  refused_game-Keeps req w p = p

  begin_registered-Keeps :
      (req : MessageCreatechar) (created : Bool)
      → Keeps P
          ((if created then register env req.player.name else pure false) >>= begin_game env req)
  begin_registered-Keeps req false w p = refused_game-Keeps req w p
  begin_registered-Keeps req true w p =
      let name = req.player.name in
      let m = (register_session expired name self w.sessions).1 in
      elim (Bool-cases (register_session expired name self w.sessions).0) [
        | inl e ↦ rw e (
            begin_game-Keeps req (record w { sessions = m }) (register-Keeps name w p)
              (register_session-lookup expired name self w.sessions e))
        | inr e ↦
            rw e (refused_game-Keeps req (record w { sessions = m }) (register-Keeps name w p))
      ]

  create_player-Keeps :
      (req : MessageCreatechar) (userid : Option String) → Keeps P (create_player env req userid)
  unfolding create_player
  create_player-Keeps req none w p = p
  create_player-Keeps req (some id) w p =
      Keeps-bind P (query env (db.create_char id req.player))
        (λ created. do
          registered ← if created then register env req.player.name else pure false
          begin_game env req registered)
        (λ v k. k) (begin_registered-Keeps req) w p

  process_createchar-Keeps : (req : MessageCreatechar) → Keeps P (process_createchar env req)
  unfolding process_createchar
  process_createchar-Keeps req w p = create_player-Keeps req w.session.userid w p

  pub dispatch-Claims : (now : ℤ) (parsed : Run (Msg env)) → Keeps P (dispatch env now parsed)
  dispatch-Claims = dispatch-Keeps env S process_login-Keeps process_createchar-Keeps
