-- ===== src/Wire/Requests.antt =====
-- Requests: `create_request` and `from_request` of shared/message.cpp, with `base_message` and
-- `dispatcher` of shared/message.h.
use niba.Prelude.{◌≡◌, Option, none, some}
use niba.Prelude.Int.{pos}
use niba.Prelude.Run.{Run, done, fault, thrown, ◌>>=◌}
use niba.Message.{Message}
use niba.Wire.{JsonLib, IsLawful}
use niba.Wire.Members.{get_to, get_vector-map}
use niba.Wire.Structs.{get_player-json}
use niba.Wire.RequestBodies.{
  login_request, getdata_request, read_getdata, registration_request, createchar_request,
  fight_request, learnmagic_request, fusemagic_request, reordermagic_request, echo_request,
  send_request, read_login, read_registration, read_createchar, read_fight, read_learnmagic,
  read_fusemagic, read_reordermagic, read_echo, read_send,
}
use niba.Wire.Kinds.{
  Kind, login, registeration, createchar, getdata, fight, learnmagic, fusemagic, reordermagic, echo,
  send, kind_number, kind_of, Body, message_of,
}

module _ {Real : Type 0} (J : JsonLib Real) where
  open J use {Json, null, object, array, number, text, set, get_number, get_text}

  -- The two values of `message::tag`.
  abbrev pub request_tag : Json
  request_tag = number (pos 0)

  abbrev pub response_tag : Json
  response_tag = number (pos 1)

  unfoldable pub create_request : (k : Kind) → Body Real k → Json
  create_request login m = login_request J m
  create_request registeration m = registration_request J m
  create_request createchar m = createchar_request J m
  create_request getdata m = getdata_request J m
  create_request fight m = fight_request J m
  create_request learnmagic m = learnmagic_request J m
  create_request fusemagic m = fusemagic_request J m
  create_request reordermagic m = reordermagic_request J m
  create_request echo m = echo_request J m
  create_request send m = send_request J m

  unfoldable pub base_create_request : (k : Kind) → Body Real k → Run Json
  unfolding create_request
  base_create_request k m = do
    j ← set (create_request k m) "tag" request_tag
    set j "type" (number (kind_number k))

  -- The message that the members are read into is the first argument.
  unfoldable pub from_request : (k : Kind) → Body Real k → Json → Run (Body Real k)
  from_request login m j = read_login J m j
  from_request registeration m j = read_registration J m j
  from_request createchar m j = read_createchar J m j
  from_request getdata m j = read_getdata J m j
  from_request fight m j = read_fight J m j
  from_request learnmagic m j = read_learnmagic J m j
  from_request fusemagic m j = read_fusemagic J m j
  from_request reordermagic m j = read_reordermagic J m j
  from_request echo m j = read_echo J m j
  from_request send m j = read_send J m j

  -- `parse` of a type; `fresh` holds the messages of the default constructors.
  unfoldable pub parse : ((k : Kind) → Body Real k) → Json → Kind → Run (Message Real)
  unfolding from_request
  parse fresh j k = do m ← from_request k (fresh k) j; done (message_of Real k m)

  abbrev pub parse_known : ((k : Kind) → Body Real k) → Json → Option Kind → Run (Message Real)
  parse_known fresh j none = fault thrown
  parse_known fresh j (some k) = parse fresh j k

  unfoldable pub dispatcher : ((k : Kind) → Body Real k) → Json → Run (Message Real)
  unfolding parse
  dispatcher fresh j = do
    cmd_id ← get_to J get_number j "type"
    parse_known fresh j (kind_of cmd_id)

  -- A fresh message with the members that a request carries.
  abbrev pub received : (k : Kind) → Body Real k → Body Real k → Body Real k
  received login m r = record m { id = r.id; password = r.password }
  received registeration m r = record m { id = r.id; password = r.password }
  received createchar m r = record m { player = r.player }
  received getdata m r = m
  received fight m r = record m { enemyid = r.enemyid }
  received learnmagic m r = record m { static_id = r.static_id }
  received fusemagic m r = record m {
    primary_magic_id = r.primary_magic_id;
    secondary_magic_id = r.secondary_magic_id;
  }
  received reordermagic m r = record m { equipped_magic_ids = r.equipped_magic_ids }
  received echo m r = record m { echo_str = r.echo_str; sender = r.sender }
  received send m r = record m { name = r.name; message = r.message }

  module _ (lawful : IsLawful J) where
    -- What the client writes as a request, the server reads as the message: its type, and the members
    -- that the request carries. The rest of the message is as the default constructor leaves it.
    pub dispatcher-base_create_request :
        (fresh : (k : Kind) → Body Real k) (k : Kind) (m : Body Real k)
        → (base_create_request k m >>= dispatcher fresh)
          ≡ done (message_of Real k (received k (fresh k) m))
    unfolding base_create_request create_request dispatcher parse from_request get_to kind_number
        kind_of
    dispatcher-base_create_request fresh login m =
        simp (lawful.set-object, lawful.at-object, lawful.get_number-number, lawful.get_text-text)
    dispatcher-base_create_request fresh registeration m =
        simp (lawful.set-object, lawful.at-object, lawful.get_number-number, lawful.get_text-text)
    dispatcher-base_create_request fresh createchar m =
        simp
          (lawful.set-object, lawful.at-object, lawful.get_number-number, get_player-json J lawful)
    dispatcher-base_create_request fresh getdata m =
        simp (lawful.set-null, lawful.set-object, lawful.at-object, lawful.get_number-number)
    dispatcher-base_create_request fresh fight m =
        simp (lawful.set-object, lawful.at-object, lawful.get_number-number)
    dispatcher-base_create_request fresh learnmagic m =
        simp (lawful.set-object, lawful.at-object, lawful.get_number-number)
    dispatcher-base_create_request fresh fusemagic m =
        simp (lawful.set-object, lawful.at-object, lawful.get_number-number)
    dispatcher-base_create_request fresh reordermagic m = simp (
      lawful.set-object,
      lawful.at-object,
      lawful.get_number-number,
      get_vector-map J lawful get_number number lawful.get_number-number,
    )
    dispatcher-base_create_request fresh echo m =
        simp (lawful.set-object, lawful.at-object, lawful.get_number-number, lawful.get_text-text)
    dispatcher-base_create_request fresh send m =
        simp (lawful.set-object, lawful.at-object, lawful.get_number-number, lawful.get_text-text)
