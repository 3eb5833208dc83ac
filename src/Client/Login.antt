-- ===== src/Client/Login.antt =====
-- Log-in at the server, server/server_processor.cpp, and what client/client_processor.cpp makes of the
-- response.
use mathlib.Core.Path.{subst}
use niba.Prelude.{
  ◌≡◌, refl, ap, sym, ◌⊎◌, inl, inr, Bool, true, false, Option, none, some, if◌then◌else◌,
}
use niba.Prelude.Run.{Run, done, fault, out_of_fuel, undefined}
use niba.Prelude.Exec.{◌>>=◌, ◌>>◌, >>=-eq-done, pure}
use niba.Structs.{createchar, ingame, SessionState, PlayerData, Player}
use niba.Message.{MessageLogin}
use niba.Server.SessionMap.{register_session}
use niba.Server.World.{Env, World}
use niba.Server.Account.{query, set_session, register_player, enter, welcome, process_login}
use niba.Client.Processor.{client_login, client_enter}

-- The client's copy holds what the server's session holds, but for the times.
abbrev pub Synced : SessionState → SessionState → Type 0
Synced t s =
    (t.state ≡ s.state)
    × (t.userid ≡ s.userid)
    × (t.player ≡ s.player)
    × (t.session_data ≡ s.session_data)

-- The client follows the server; or the character is online already, the server takes the player for
-- one without a character, and the client reads player data that are not there.
abbrev pub LoggedIn : MessageLogin → SessionState → SessionState → Type 0
LoggedIn m t s =
    ((t' : SessionState) × (client_login m t ≡ done t') × Synced t' s)
    ⊎ ((client_login m t ≡ fault undefined)
        × (s.state ≡ createchar)
        × ((p : Player) × (m.player ≡ some p)))

module _ (env : Env) (t : SessionState) where
  open env use {Store, Engine, db, expired, self}

  -- The response of the server, and its session, for a state of the client that was in step.
  enter-none :
      (m : MessageLogin) (s : SessionState)
      → m.success ≡ true
      → m.player ≡ none
      → Synced (record t { userid = some m.id }) s
      → LoggedIn m t (record s { state = createchar })
  unfolding client_login client_enter
  enter-none m s h p (_, u, q, a) =
      inl (record t { userid = some m.id; state = createchar }, rw h (rw p refl), (refl, u, q, a))

  enter-online :
      (m : MessageLogin) (s : SessionState) (p : Player)
      → m.success ≡ true
      → m.player ≡ some p
      → m.player_data ≡ none
      → LoggedIn m t (record s { state = createchar })
  unfolding client_login client_enter
  enter-online m s p h e f = inr (rw h (rw e (rw f refl)), refl, (p, e))

  enter-some :
      (m : MessageLogin) (s : SessionState) (p : Player) (aux : PlayerData)
      → m.success ≡ true
      → m.player ≡ some p
      → m.player_data ≡ some aux
      → s.userid ≡ some m.id
      → LoggedIn m t (record s { state = ingame; player = some p; session_data = aux })
  unfolding client_login client_enter
  enter-some m s p aux h e f u = inl (
    record t { userid = some m.id; state = ingame; player = some p; session_data = aux },
    rw h (rw e (rw f refl)),
    (refl, sym u, refl, refl),
  )

  -- The server and the client after `enter`, from the state `x` that the server is in.
  abbrev Ends : Run MessageLogin × World Store Engine → Type 0
  Ends (done m, v) = LoggedIn m t v.session
  Ends (fault e, v) = Unit
  Ends (out_of_fuel, v) = Unit

  Ends-done :
      (r : Run MessageLogin × World Store Engine) (m : MessageLogin) (v : World Store Engine)
      → r ≡ (done m, v)
      → Ends r
      → LoggedIn m t v.session
  Ends-done r m v h e = subst Ends h e

  split-Ends :
      {A : Type 0} (f : A → World Store Engine → Run MessageLogin × World Store Engine)
      (m r : Run A × World Store Engine)
      → m ≡ r
      → ((a : A) (u : World Store Engine) → m ≡ (done a, u) → Ends (f a u))
      → Ends (elim r.0 as (λ _. Run MessageLogin × World Store Engine) [
        | done a ↦ f a r.1
        | fault e ↦ (fault e, r.1)
        | out_of_fuel ↦ (out_of_fuel, r.1)
      ])
  split-Ends f m (done a, u) e k = k a u e
  split-Ends f m (fault x, u) e k = tt
  split-Ends f m (out_of_fuel, u) e k = tt

  query-Ends :
      {A : Type 0} (q : Store → Run A × Store)
      (f : A → World Store Engine → Run MessageLogin × World Store Engine) (w : World Store Engine)
      → ((a : A) (u : World Store Engine) → u.session ≡ w.session → Ends (f a u))
      → Ends ((query env q >>= f) w)
  query-Ends {A} q f w k =
      split-Ends f (query env q w) (query env q w) refl
        (λ a u e. k a u (sym (ap (λ (r : Run A × World Store Engine). r.1.session) e)))

  enter-Ends :
      (req : MessageLogin) (p : Player) (registered : Bool) (x : World Store Engine)
      → req.success ≡ true
      → req.player ≡ some p
      → req.player_data ≡ none
      → x.session.userid ≡ some req.id
      → Ends (enter env req (if registered then some p else none) x)
  unfolding enter
  enter-Ends req p false x h e f u = enter-online req x.session p h e f
  enter-Ends req p true x h e f u =
      query-Ends (db.get_aux p.name)
        (λ aux. do
          set_session env (λ s. record s { session_data = aux })
          pure (record req { player_data = some aux }))
        (record x { session = record (x.session) { state = ingame; player = some p } })
        (λ aux y same.
          subst
            (λ (s : SessionState).
              LoggedIn (record req { player_data = some aux }) t (record s { session_data = aux }))
            (sym same)
            (enter-some (record req { player_data = some aux }) x.session p aux h e refl u))

  found-Ends :
      (req : MessageLogin) (found : Option Player) (x : World Store Engine)
      → req.success ≡ true
      → req.player_data ≡ none
      → Synced (record t { userid = some req.id }) x.session
      → Ends ((register_player env found >>= enter env (record req { player = found })) x)
  unfolding enter
  found-Ends req none x h f s = enter-none (record req { player = none }) x.session h refl s
  found-Ends req (some p) x h f s =
      enter-Ends (record req { player = some p }) p
        (register_session expired p.name self x.sessions).0
        (record x { sessions = (register_session expired p.name self x.sessions).1 }) h refl f
        (sym s.1)

  welcome-LoggedIn :
      (req m : MessageLogin) (ok : Bool) (w v : World Store Engine)
      → (if ok then welcome env req else pure (record req { success = false })) w ≡ (done m, v)
      → req.player_data ≡ none
      → m.success ≡ true
      → Synced t w.session
      → LoggedIn m t v.session
  unfolding welcome
  welcome-LoggedIn req m false w v h f success s = cc
  welcome-LoggedIn req m true w v h f success (st, us, pl, da) =
      Ends-done (welcome env req w) m v h (
        query-Ends (db.get_char req.id)
          (λ found. do
            registered ← register_player env found
            enter env (record req { success = true; player = found }) registered)
          (record w { session = record (w.session) { userid = some req.id } })
          (λ found x same.
            found-Ends (record req { success = true }) found x refl f
              (subst (λ (z : SessionState). Synced (record t { userid = some req.id }) z) (sym same)
                (st, refl, pl, da))))

  -- Where log-in succeeds, for a request without player data and a client whose copy holds what the
  -- server's session holds, one of two things happens: the copy holds it again after the response; or
  -- the response has a player, but the server goes on as for one without a character, and the client
  -- has undefined behaviour.
  pub client_login-process :
      (req m : MessageLogin) (w v : World Store Engine)
      → process_login env req w ≡ (done m, v)
      → req.player_data ≡ none
      → m.success ≡ true
      → Synced t w.session
      → LoggedIn m t v.session
  unfolding process_login
  client_login-process req m w v h f success s =
      let (ok, u, e, k) =
        >>=-eq-done (query env (db.login req.id req.password))
          (λ ok. if ok then welcome env req else pure (record req { success = false })) w h in
      welcome-LoggedIn req m ok u v k f success (
        subst (λ (z : SessionState). Synced t z)
          (ap (λ (r : Run Bool × World Store Engine). r.1.session) e) s)
