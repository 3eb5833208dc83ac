-- ===== src/Wire/Responses.antt =====
-- Responses: `create_response` and `merge_response` of shared/message.cpp, with `base_message` of
-- shared/message.h.
use niba.Prelude.Run.{Run, ◌>>=◌}
use niba.Wire.{JsonLib}
use niba.Wire.Members.{get_to}
use niba.Wire.ResponseBodies.{
  login_response, registration_response, reordermagic_response, send_response, merge_registration,
  merge_reordermagic, merge_send, createchar_response, getdata_response, fight_response,
  learnmagic_response, fusemagic_response, echo_response, merge_login, merge_createchar,
  merge_getdata, merge_fight, merge_learnmagic, merge_fusemagic, merge_echo,
}
use niba.Wire.Kinds.{
  Kind, login, registeration, createchar, getdata, fight, learnmagic, fusemagic, reordermagic, echo,
  send, kind_number, Body, success_of, with_success,
}
use niba.Wire.Requests.{response_tag}

module _ {Real : Type 0} (J : JsonLib Real) where
  open J use {
    Json, null, object, array, number, text, boolean, set, get_number, get_text, get_boolean,
  }

  unfoldable pub create_response : (k : Kind) → Body Real k → Json
  create_response login m = login_response J m
  create_response registeration m = registration_response J m
  create_response createchar m = createchar_response J m
  create_response getdata m = getdata_response J m
  create_response fight m = fight_response J m
  create_response learnmagic m = learnmagic_response J m
  create_response fusemagic m = fusemagic_response J m
  create_response reordermagic m = reordermagic_response J m
  create_response echo m = echo_response J m
  create_response send m = send_response J m

  unfoldable pub base_create_response : (k : Kind) → Body Real k → Run Json
  unfolding create_response
  base_create_response k m = do
    j ← set (create_response k m) "success" (boolean (success_of Real k m))
    j' ← set j "type" (number (kind_number k))
    set j' "tag" (response_tag J)

  unfoldable pub merge_response : (k : Kind) → Body Real k → Json → Run (Body Real k)
  unfolding merge_login merge_createchar merge_getdata merge_fight merge_learnmagic merge_fusemagic
      merge_echo
  merge_response login m j = merge_login J m j
  merge_response registeration m j = merge_registration J m j
  merge_response createchar m j = merge_createchar J m j
  merge_response getdata m j = merge_getdata J m j
  merge_response fight m j = merge_fight J m j
  merge_response learnmagic m j = merge_learnmagic J m j
  merge_response fusemagic m j = merge_fusemagic J m j
  merge_response reordermagic m j = merge_reordermagic J m j
  merge_response echo m j = merge_echo J m j
  merge_response send m j = merge_send J m j

  unfoldable pub base_merge_response : (k : Kind) → Body Real k → Json → Run (Body Real k)
  unfolding merge_response
  base_merge_response k m j = do
    success ← get_to J get_boolean j "success"
    merge_response k (with_success Real k success m) j
