-- ===== src/Client/Accepted.antt =====
-- A request that `create_and_go` of client/client_session.h writes, as the server reads it.
use niba.Prelude.{◌≡◌, refl, ◌∙◌}
use niba.Prelude.Run.{◌>>=◌, >>=-of_done}
use niba.Structs.{SessionState}
use niba.GameData.{StaticData}
use niba.Message.Validate.{
  validate, validate_registration, validate_login, validate_getdata, validate_fight,
  validate_createchar, validate_learnmagic, validate_fusemagic, validate_reordermagic,
  validate_send,
}
use niba.Wire.{JsonLib, IsLawful}
use niba.Wire.Kinds.{
  Kind, login, registeration, createchar, getdata, fight, learnmagic, fusemagic, reordermagic, echo,
  send, Body, message_of,
}
use niba.Wire.Requests.{base_create_request, dispatcher, received, dispatcher-base_create_request}

module _ {Real : Type 0} (J : JsonLib Real) (lawful : IsLawful J)
    (fresh : (k : Kind) → Body Real k) where
  -- No check reads more of a message than its request carries.
  validate-received :
      (tables : StaticData Real) (s : SessionState) (k : Kind) (m : Body Real k)
      → validate tables s (message_of Real k (received J k (fresh k) m))
        ≡ validate tables s (message_of Real k m)
  unfolding validate validate_registration validate_login validate_getdata validate_fight
      validate_createchar validate_learnmagic validate_fusemagic validate_reordermagic validate_send
  validate-received tables s login m = refl
  validate-received tables s registeration m = refl
  validate-received tables s createchar m = refl
  validate-received tables s getdata m = refl
  validate-received tables s fight m = refl
  validate-received tables s learnmagic m = refl
  validate-received tables s fusemagic m = refl
  validate-received tables s reordermagic m = refl
  validate-received tables s echo m = refl
  validate-received tables s send m = refl

  -- With the same tables and the same session, the server's check of the request that it reads comes to
  -- what the client's check of its message comes to: neither refuses what the other accepts.
  pub validate-dispatcher :
      (tables : StaticData Real) (s : SessionState) (k : Kind) (m : Body Real k)
      → ((base_create_request J k m >>= dispatcher J fresh) >>= validate tables s)
        ≡ validate tables s (message_of Real k m)
  validate-dispatcher tables s k m =
      >>=-of_done (base_create_request J k m >>= dispatcher J fresh) (validate tables s)
        (dispatcher-base_create_request J lawful fresh k m)
      ∙ validate-received tables s k m
