-- ===== src/Client/Session.antt =====
-- client/client_session.h and client/client_session.cpp: a command's request, and the loop that reads
-- what the server sends. The transport is left out but for whether a write succeeds.
use niba.Prelude.{ℕ, Bool, true, false, Option, none, some, List, [], ◌∷◌, ◌++◌, if◌then◌else◌}
use niba.Prelude.Int.{ℤ, pos, eqb_ℤ}
use niba.Prelude.Run.{Run, done, fault, thrown, ◌>>=◌}
use niba.Prelude.Double.{Double}
use niba.Structs.{SessionState}
use niba.Message.{Message}
use niba.Message.Validate.{validate}
use niba.Wire.{JsonLib}
use niba.Wire.Members.{get_to}
use niba.Wire.Kinds.{
  Kind, login, registeration, createchar, getdata, fight, learnmagic, fusemagic, reordermagic, echo,
  send, Body, message_of,
}
use niba.Wire.Requests.{base_create_request, dispatcher}
use niba.Wire.Responses.{base_merge_response}
use niba.Client.Processor.{receive}
use niba.Client.Responses.{Copy, client_process}

-- `request_promise_`: what it is fulfilled with is a type of messages, or `type::none`.
pub data Promise : Type 0 where
  waiting : Promise
  fulfilled : Option Kind → Promise

abbrev pub Request : Type 0 → Type 0
Request Real = (k : Kind) × Body Real k

pub record ClientSession (Real Json : Type 0) : Type 0 where
  pub copy : Copy Real
  pub request : Option (Request Real)
  pub promise : Promise
  pub written : List Json

-- `set_value`, which throws on a promise that is fulfilled.
abbrev pub set_value : Option Kind → Promise → Run Promise
set_value k waiting = done (fulfilled k)
set_value k (fulfilled other) = fault thrown

abbrev pub fulfil :
    {Real Json : Type 0} → Option Kind → ClientSession Real Json → Run (ClientSession Real Json)
fulfil k s = do promise ← set_value k s.promise; done (record s { promise = promise })

module _ (d : Double) (asserts : Bool) (delay_factor : d.Real) (fuel : ℕ) (J : JsonLib (d.Real))
    (fresh : (k : Kind) → Body (d.Real) k) where
  abbrev pub Session : Type 0
  Session = ClientSession (d.Real) (J.Json)

  -- `ok` says whether the write succeeds.
  unfoldable pub write_message : Bool → (k : Kind) → Body (d.Real) k → Session → Run Session
  write_message ok k m s = do
    j ← base_create_request J k m
    if ok
        then done (record s { request = some (k, m); written = s.written ++ (j ∷ []) })
        else (do t ← fulfil none s; done (record t { request = none }))

  unfoldable pub create_and_go : Bool → (k : Kind) → Body (d.Real) k → Session → Run Session
  unfolding write_message
  create_and_go ok k m s = do
    valid ← validate s.copy.tables s.copy.session (message_of (d.Real) k m)
    if valid
        then write_message ok k m (record s { promise = waiting })
        else fulfil none (record s { promise = waiting })

  -- A message that is no response to the request.
  abbrev pub process_message : Message (d.Real) → Copy (d.Real) → Run (Copy (d.Real))
  process_message (Message.login m) = client_process d asserts delay_factor fuel J login m
  process_message (Message.registration m) =
      client_process d asserts delay_factor fuel J registeration m
  process_message (Message.createchar m) = client_process d asserts delay_factor fuel J createchar m
  process_message (Message.getdata m) = client_process d asserts delay_factor fuel J getdata m
  process_message (Message.fight m) = client_process d asserts delay_factor fuel J fight m
  process_message (Message.learnmagic m) = client_process d asserts delay_factor fuel J learnmagic m
  process_message (Message.fusemagic m) = client_process d asserts delay_factor fuel J fusemagic m
  process_message (Message.reordermagic m) =
      client_process d asserts delay_factor fuel J reordermagic m
  process_message (Message.echo m) = client_process d asserts delay_factor fuel J echo m
  process_message (Message.send m) = client_process d asserts delay_factor fuel J send m

  unfoldable pub other_message : J.Json → Session → Run Session
  unfolding client_process
  other_message j s = do
    m ← dispatcher J fresh j
    c ← process_message m s.copy
    done (record s { copy = c })

  -- After log-in, the tables are asked for.
  abbrev pub after_response : Bool → Kind → Session → Run Session
  after_response ok login s = write_message ok getdata (fresh getdata) s
  after_response ok k s = fulfil (some k) s

  unfoldable pub on_response :
      Bool → ℤ → (k : Kind) → Body (d.Real) k → J.Json → Session → Run Session
  unfolding write_message base_merge_response client_process receive
  on_response ok now k m j s = do
    merged ← base_merge_response J k m j
    c ←
        client_process d asserts delay_factor fuel J k merged
          (record (s.copy) { session = receive now s.copy.session })
    after_response ok k (record s { copy = c; request = some (k, merged) })

  abbrev pub is_response : ℤ → Bool
  is_response tag = eqb_ℤ tag (pos 1)

  abbrev pub on_message :
      Bool → ℤ → Option (Request (d.Real)) → Bool → J.Json → Session → Run Session
  on_message ok now (some (k, m)) true j s =
      if J.contains j "error"
      then (do err ← get_to J J.get_text j "error"; fulfil none s)
      else on_response ok now k m j s
  on_message ok now request response j s = other_message j s

  -- The body of the loop, at the time `now`.
  unfoldable pub on_read : Bool → ℤ → J.Json → Session → Run Session
  unfolding on_response other_message
  on_read ok now j s = do
    tag ← get_to J J.get_number j "tag"
    on_message ok now s.request (is_response tag) j s

-- `earliest`: the start of the clock, where the last command was not handled or no fight has set a
-- later time.
unfoldable pub earliest : Bool → SessionState → ℤ
earliest false s = pos 0
earliest true s = if eqb_ℤ s.earliest_time s.current_time then pos 0 else s.earliest_time
