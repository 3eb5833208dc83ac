-- ===== src/Server/Phases.antt =====
-- The states of a session in server/server_processor.cpp, and the handlers that change them: log-in
-- and the creation of a character.
use mathlib.Core.Path.{subst}
use niba.Prelude.{
  ℕ, ◌≤◌, ◌≡◌, refl, sym, String, Bool, true, false, Option, none, some, if◌then◌else◌, arith,
}
use niba.Prelude.Exec.{◌>>=◌, ◌>>◌, pure}
use niba.Prelude.Exec.Keeps.{Keeps, Keeps-bind, Keeps-if}
use niba.Structs.{GameState, prelogin, createchar, ingame, SessionState, Player}
use niba.Message.{MessageLogin, MessageCreatechar}
use niba.Server.World.{Env, World}
use niba.Server.Account.{
  query, register, set_session, register_player, enter, welcome, process_login, begin_game,
  create_player, process_createchar,
}

abbrev pub IsSome : {A : Type 0} → Option A → Type 0
IsSome {A} o = (a : A) × (o ≡ some a)

abbrev pub rank : GameState → ℕ
rank prelogin = 0
rank createchar = 1
rank ingame = 2

-- What a session has in a state: a user before a character is created, and a character in the game.
abbrev pub ReadyIn : GameState → Option String → Option Player → Type 0
ReadyIn prelogin userid player = Unit
ReadyIn createchar userid player = IsSome userid
ReadyIn ingame userid player = IsSome userid × IsSome player

abbrev pub Ready : SessionState → Type 0
Ready s = ReadyIn s.state s.userid s.player

-- A session that is ready, in a state that does not come before `from`.
abbrev pub Phase : GameState → SessionState → Type 0
Phase from s = (rank from ≤ rank s.state) × Ready s

ReadyIn-user :
    (s : GameState) (u : Option String) (p : Option Player) (id : String)
    → ReadyIn s u p
    → ReadyIn s (some id) p
ReadyIn-user prelogin u p id h = tt
ReadyIn-user createchar u p id h = (id, refl)
ReadyIn-user ingame u p id h = ((id, refl), h.1)

last_rank : (s : GameState) → rank s ≤ 2
last_rank prelogin = omega arith
last_rank createchar = omega arith
last_rank ingame = omega arith

module _ (env : Env) (from : GameState) where
  open env use {Store, Engine, db}

  abbrev pub InPhase : World Store Engine → Type 0
  InPhase w = Phase from w.session

  -- The session has a user, too.
  abbrev Known : World Store Engine → Type 0
  Known w = Phase from w.session × IsSome w.session.userid

  register_player-Known : (found : Option Player) → Keeps Known (register_player env found)
  register_player-Known none = λ w k. k
  register_player-Known (some p) = λ w k. k

  enter-Known :
      (req : MessageLogin) (found : Option Player)
      → from ≡ prelogin
      → Keeps Known (enter env req found)
  unfolding enter
  enter-Known req none e w k = ((subst (λ s. rank s ≤ 1) (sym e) (omega arith), k.1), k.1)
  enter-Known req (some p) e w k =
      Keeps-bind Known (query env (db.get_aux p.name))
        (λ aux. do
          set_session env (λ s. record s { session_data = aux })
          pure (record req { player_data = some aux }))
        (λ v j. j) (λ aux v j. j)
        (record w { session = record (w.session) { state = ingame; player = some p } })
        ((last_rank from, (k.1, (p, refl))), k.1)

  welcome-InPhase : (req : MessageLogin) → from ≡ prelogin → Keeps InPhase (welcome env req)
  unfolding welcome
  welcome-InPhase req e w j =
      (Keeps-bind Known (query env (db.get_char req.id))
        (λ found. do
          registered ← register_player env found
          enter env (record req { success = true; player = found }) registered)
        (λ v k. k)
        (λ found.
          Keeps-bind Known (register_player env found)
            (enter env (record req { success = true; player = found }))
            (register_player-Known found)
            (λ registered.
              enter-Known (record req { success = true; player = found }) registered e))
        (record w { session = record (w.session) { userid = some req.id } })
        (
          (j.0, ReadyIn-user w.session.state w.session.userid w.session.player req.id j.1),
          (req.id, refl),
        )).0

  pub process_login-InPhase :
      (req : MessageLogin) → from ≡ prelogin → Keeps InPhase (process_login env req)
  unfolding process_login
  process_login-InPhase req e =
      Keeps-bind InPhase (query env (db.login req.id req.password))
        (λ ok. if ok then welcome env req else pure (record req { success = false })) (λ w j. j)
        (λ ok.
          Keeps-if InPhase ok (welcome env req) (pure (record req { success = false }))
            (welcome-InPhase req e) (λ w j. j))

  begin_game-Known :
      (req : MessageCreatechar) (registered : Bool) → Keeps Known (begin_game env req registered)
  unfolding begin_game
  begin_game-Known req false w k = k
  begin_game-Known req true w k =
      Keeps-bind Known (query env (db.get_aux req.player.name))
        (λ aux. do
          set_session env (λ s. record s { session_data = aux })
          pure (record req { success = true; player_data = aux }))
        (λ v j. j) (λ aux v j. j)
        (record w { session = record (w.session) { state = ingame; player = some req.player } })
        ((last_rank from, (k.1, (req.player, refl))), k.1)

  create_player-InPhase :
      (req : MessageCreatechar) (userid : Option String) (w : World Store Engine)
      → w.session.userid ≡ userid
      → InPhase w
      → InPhase ((create_player env req userid w).1)
  unfolding create_player
  create_player-InPhase req none w e j = j
  create_player-InPhase req (some id) w e j =
      (Keeps-bind Known (query env (db.create_char id req.player))
        (λ created. do
          registered ← if created then register env req.player.name else pure false
          begin_game env req registered)
        (λ v k. k)
        (λ created.
          Keeps-bind Known (if created then register env req.player.name else pure false)
            (begin_game env req)
            (Keeps-if Known created (register env req.player.name) (pure false) (λ v k. k)
              (λ v k. k))
            (begin_game-Known req))
        w (j, (id, e))).0

  pub process_createchar-InPhase :
      (req : MessageCreatechar) → Keeps InPhase (process_createchar env req)
  unfolding process_createchar
  process_createchar-InPhase req w j = create_player-InPhase req w.session.userid w refl j
