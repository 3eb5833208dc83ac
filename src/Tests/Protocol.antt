-- ===== src/Tests/Protocol.antt =====
-- Requests at a concrete server: log-in, refusals, the waiting time after a fight, the session map.
use niba.Prelude.{
  arith, ◌↔◌, ℕ, ◌≡◌, refl, ◌≤◌, inr, Bool, true, false, String, none, some, [], ◌∷◌, if◌then◌else◌,
  ◌==◌,
}
use niba.Prelude.Int.{pos}
use niba.Prelude.Run.{Run, fault, out_of_fuel, done}
use niba.Structs.{createchar, prelogin, SessionState}
use niba.Message.{Message, MessageCreatechar, MessageLogin}
use niba.Message.Validate.{validate, validate_createchar, validate_login}
use niba.Message.States.{validate-Allowed}
use niba.Server.World.{World}
use niba.Server.SessionMap.{Sessions, lookup, remove, cleanup, register_session, recipient}
use niba.Server.Online.{
  Unique, offline, updated, remove-updated, cleanup-recipient, register_session-updated,
}
use niba.Server.Dispatch.{request_error, dispatch}
use niba.Server.Phases.{Ready, rank}
use niba.Server.Lifetime.{dispatch-Ready}
use niba.Server.Refusals.{stamped, dispatch-Refused}
use niba.Message.Newcomers.{Creatable, validate_createchar-Creatable}
use niba.Server.Account.{process_login}
use niba.Client.Login.{LoggedIn, client_login-process}
use niba.Tests.{player, no_data, env, session, world}

abbrev pub newcomer : SessionState
newcomer = record {
  state = prelogin;
  userid = none;
  player = none;
  session_data = session.session_data;
  current_time = pos 0;
  earliest_time = pos 0;
}

abbrev pub credentials : MessageLogin
credentials = record {
  success = false;
  id = "niba";
  password = "secret";
  player = none;
  player_data = none;
}

abbrev lobby : World (Unit {0}) ℕ
lobby = record world { session = newcomer }

newcomer_logs_in : validate env.tables newcomer (Message.login credentials) ≡ done true
unfolding validate validate_login
newcomer_logs_in = refl

validate-Allowed_example : newcomer.state ≡ prelogin
validate-Allowed_example =
    validate-Allowed env.tables newcomer (Message.login credentials) newcomer_logs_in

dispatch-Ready_example :
    Ready ((dispatch env (pos 5) (done (Message.login credentials)) lobby).1.session)
    × (rank prelogin
        ≤ rank ((dispatch env (pos 5) (done (Message.login credentials)) lobby).1.session.state))
dispatch-Ready_example = dispatch-Ready env (pos 5) (done (Message.login credentials)) lobby tt

-- The session is in the game, where nobody logs in.
player_does_not : validate env.tables session (Message.login credentials) ≡ done false
unfolding validate validate_login
player_does_not = refl

dispatch-Refused_example :
    dispatch env (pos 5) (done (Message.login credentials)) world
    ≡ (done request_error, stamped env (pos 5) world)
dispatch-Refused_example =
    dispatch-Refused env (pos 5) (done (Message.login credentials)) world
      (inr (inr (Message.login credentials, refl, player_does_not)))

-- Session 1 of "niba" is live, session 2 of "alt" is destroyed.
abbrev crowd : Sessions
crowd = ("niba", 1) ∷ ("alt", 2) ∷ []

abbrev second_gone : ℕ → Bool
second_gone s = s == 2

crowd-Unique : Unique crowd
unfolding lookup
crowd-Unique = (refl, (refl, tt))

remove-updated_example :
    Unique (remove "niba" crowd)
    × ((other : String)
        → recipient second_gone other (remove "niba" crowd)
          ≡ updated second_gone (λ n. recipient second_gone n crowd) "niba" none other)
remove-updated_example = remove-updated second_gone "niba" crowd crowd-Unique

cleanup-recipient_example :
    Unique (cleanup second_gone crowd)
    × ((name : String)
        → recipient second_gone name (cleanup second_gone crowd) ≡ recipient second_gone name crowd)
cleanup-recipient_example = cleanup-recipient second_gone crowd crowd-Unique

register_session-updated_example :
    Unique ((register_session second_gone "alt" 3 crowd).1)
    × ((register_session second_gone "alt" 3 crowd).0
        ≡ offline second_gone (recipient second_gone "alt" crowd))
    × ((other : String)
        → recipient second_gone other ((register_session second_gone "alt" 3 crowd).1) ≡ (
            if offline second_gone (recipient second_gone "alt" crowd)
            then updated second_gone (λ n. recipient second_gone n crowd) "alt" (some 3) other
            else recipient second_gone other crowd))
register_session-updated_example =
    register_session-updated second_gone "alt" 3 crowd crowd-Unique refl

abbrev adept : MessageCreatechar
adept = record { success = false; player = player; player_data = no_data }

abbrev chooser : SessionState
chooser = record newcomer { state = createchar; userid = some "niba" }

validate_createchar-Creatable_example :
    (validate_createchar chooser adept ≡ true) ↔ Creatable chooser adept
validate_createchar-Creatable_example = validate_createchar-Creatable chooser adept (omega arith)

-- The name "niba" is taken by another session.
abbrev busy : World (Unit {0}) ℕ
busy = record lobby { sessions = ("niba", 5) ∷ [] }

abbrev response_or : MessageLogin → Run MessageLogin → MessageLogin
response_or other (done m) = m
response_or other (fault e) = other
response_or other out_of_fuel = other

abbrev welcomed : MessageLogin
welcomed = response_or credentials ((process_login env credentials busy).0)

busy_answers :
    (process_login env credentials busy ≡ (done welcomed, (process_login env credentials busy).1))
    × (welcomed.success ≡ true)
unfolding process_login register_session
busy_answers = (refl, refl)

client_login-process_example :
    LoggedIn welcomed newcomer ((process_login env credentials busy).1.session)
client_login-process_example =
    client_login-process env newcomer credentials welcomed busy
      ((process_login env credentials busy).1) busy_answers.0 refl busy_answers.1
      (refl, refl, refl, refl)
