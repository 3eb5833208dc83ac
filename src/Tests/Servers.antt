-- ===== src/Tests/Servers.antt =====
-- A server with one connection, whose user logs in as "niba".
use niba.Prelude.{ℕ, ◌≡◌, refl, none, some}
use niba.Prelude.Int.{pos}
use niba.Prelude.Run.{done}
use niba.Structs.{Player}
use niba.Message.{Message}
use niba.Message.Validate.{validate, validate_login}
use niba.Server.SessionMap.{recipient, register_session}
use niba.Server.Dispatch.{process}
use niba.Server.Online.{updated}
use niba.Server.System.{
  System, running, destroyed, accept, serve, end_session, started, Reachable, start, accepts,
  serves,
}
use niba.Server.Owners.{Reachable-one_owner, end_session-frees}
use niba.Tests.{player, env}
use niba.Tests.Protocol.{credentials}

abbrev connected : System env
connected = accept env (started env tt 0)

abbrev playing : System env
playing = serve env connected 0 (pos 5) (done (Message.login credentials))

playing-Reachable : Reachable env playing
unfolding accept
playing-Reachable =
    serves connected 0 (pos 5) (done (Message.login credentials))
      (accepts (started env tt 0) (start tt 0)) refl

playing_has_player : (playing.session 0).player ≡ some player
unfolding accept serve validate validate_login process register_session
playing_has_player = refl

playing_runs : playing.life 0 ≡ running
unfolding accept serve
playing_runs = refl

Reachable-one_owner_example :
    (recipient (destroyed env playing) "niba" playing.sessions ≡ some 0)
    × ((j : ℕ) (q : Player)
        → playing.life j ≡ running
        → (playing.session j).player ≡ some q
        → q.name ≡ "niba"
        → j ≡ 0)
Reachable-one_owner_example =
    Reachable-one_owner env playing 0 playing-Reachable playing_runs playing_has_player

end_session-frees_example :
    recipient (destroyed env playing) "niba" (end_session env playing 0).sessions
    ≡ updated
        (destroyed env playing)
        (λ n. recipient (destroyed env playing) n playing.sessions)
        "niba"
        none
        "niba"
end_session-frees_example =
    end_session-frees env playing 0 playing-Reachable playing_runs playing_has_player "niba"
