-- ===== src/Tests/Clients.antt =====
-- A client that has asked for a log-in, and is told that the request was refused.
use niba.Prelude.{◌≡◌, ◌⊎◌, refl, true, some, List, [], ◌∷◌}
use niba.Prelude.Int.{ℤ, pos}
use niba.Prelude.Run.{Run, done, ◌>>=◌}
use niba.Message.Validate.{validate}
use niba.Wire.Kinds.{login, kind_number, kind_of, message_of}
use niba.Wire.Members.{get_to}
use niba.Wire.Requests.{base_create_request, dispatcher}
use niba.Client.Session.{ClientSession, waiting, other_message, on_read}
use niba.Client.Accepted.{validate-dispatcher}
use niba.Client.Waiting.{Fulfilled, Continued}
use niba.Client.Reading.{Read, incoming, Loop, reading, IsOther, read_loop, read_loop-progress}
use niba.Tests.{whole, env}
use niba.Tests.Json.{trees, trees-IsLawful}
use niba.Tests.Exchanges.{fresh}
use niba.Tests.Protocol.{newcomer, credentials}

abbrev client : ClientSession ℤ trees.Json
client = record {
  copy = record { session = newcomer; tables = env.tables };
  request = some (login, credentials);
  promise = waiting;
  written = [];
}

abbrev refusal : trees.Json
refusal = trees.object (("error", trees.text "bad") ∷ ("tag", trees.number (pos 1)) ∷ [])

refusal_is_response : get_to trees trees.get_number refusal "tag" ≡ done (pos 1)
unfolding get_to
refusal_is_response = refl

-- A message of the chat, and then the response.
abbrev chat : trees.Json
chat = trees.object (
    ("tag", trees.number (pos 0))
    ∷ ("type", trees.number (pos 8))
    ∷ ("echo_str", trees.text "hi")
    ∷ ("sender", trees.text "somebody")
    ∷ [])

abbrev reads : List (Read (trees.Json))
reads = incoming true (pos 4) (done chat) ∷ (incoming true (pos 5) (done refusal) ∷ [])

abbrev loop_or :
    ClientSession ℤ trees.Json
    → Run (Loop (ClientSession ℤ trees.Json))
    → ClientSession ℤ trees.Json
loop_or other (done (reading s)) = s
loop_or other _ = other

abbrev client_after : ClientSession ℤ trees.Json
client_after = loop_or client (read_loop whole true (pos 1) 20 trees fresh reads client)

refusal_is_read :
    read_loop whole true (pos 1) 20 trees fresh reads client ≡ done (reading client_after)
unfolding on_read get_to read_loop other_message dispatcher kind_number kind_of
refusal_is_read = refl

chat-IsOther : IsOther whole true (pos 1) 20 trees fresh (incoming true (pos 4) (done chat))
unfolding get_to
chat-IsOther = (chat, pos 0, refl, refl, refl)

read_loop-progress_example :
    Fulfilled whole true (pos 1) 20 trees fresh client_after
    ⊎ (Continued whole true (pos 1) 20 trees fresh client_after × (login ≡ login))
read_loop-progress_example =
    read_loop-progress whole true (pos 1) 20 trees fresh (incoming true (pos 4) (done chat) ∷ [])
      true (pos 5) login credentials refusal client client_after (chat-IsOther, tt) refl refl
      refusal_is_response refusal_is_read

validate-dispatcher_example :
    ((base_create_request trees login credentials >>= dispatcher trees fresh)
      >>= validate env.tables newcomer)
    ≡ validate env.tables newcomer (message_of ℤ login credentials)
validate-dispatcher_example =
    validate-dispatcher trees trees-IsLawful fresh env.tables newcomer login credentials
