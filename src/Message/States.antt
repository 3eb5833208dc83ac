-- ===== src/Message/States.antt =====
-- Which messages pass `validate` in which state of the session.
use niba.Prelude.{◌≡◌, refl, Bool, true, false, not, ◌&&◌, if◌then◌else◌}
use niba.Prelude.Run.{Run, done, done-injective}
use niba.Structs.{GameState, prelogin, createchar, ingame, SessionState}
use niba.GameData.{StaticData}
use niba.Message.{Message}
use niba.Message.Validate.{
  is_prelogin, is_createchar, is_ingame, validate, validate_registration, validate_login,
  validate_getdata, validate_fight, validate_createchar, validate_learnmagic, validate_fusemagic,
  validate_reordermagic, validate_send,
}

-- The states of the protocol in which a message of a kind is meant to be sent.
abbrev pub Allowed : {Real : Type 0} → GameState → Message Real → Type 0
Allowed s (Message.registration m) = s ≡ prelogin
Allowed s (Message.login m) = s ≡ prelogin
Allowed s (Message.getdata m) = is_prelogin s ≡ false
Allowed s (Message.fight m) = s ≡ ingame
Allowed s (Message.createchar m) = s ≡ createchar
Allowed s (Message.learnmagic m) = s ≡ ingame
Allowed s (Message.fusemagic m) = s ≡ ingame
Allowed s (Message.reordermagic m) = s ≡ ingame
Allowed s (Message.echo m) = Unit
Allowed s (Message.send m) = is_prelogin s ≡ false

is_prelogin-true : (s : GameState) → is_prelogin s ≡ true → s ≡ prelogin
is_prelogin-true prelogin h = refl
is_prelogin-true createchar h = cc
is_prelogin-true ingame h = cc

is_createchar-true : (s : GameState) → is_createchar s ≡ true → s ≡ createchar
is_createchar-true prelogin h = cc
is_createchar-true createchar h = refl
is_createchar-true ingame h = cc

is_ingame-true : (s : GameState) → is_ingame s ≡ true → s ≡ ingame
is_ingame-true prelogin h = cc
is_ingame-true createchar h = cc
is_ingame-true ingame h = refl

not_prelogin :
    (s : GameState)
    → (not (not (is_ingame s) && not (is_createchar s))) ≡ true
    → is_prelogin s ≡ false
not_prelogin prelogin h = cc
not_prelogin createchar h = refl
not_prelogin ingame h = refl

guarded : (b : Bool) (r : Run Bool) → (if not b then done false else r) ≡ done true → b ≡ true
guarded true r h = refl
guarded false r h = cc

guarded_bool : (b r : Bool) → (if not b then false else r) ≡ true → b ≡ true
guarded_bool true r h = refl
guarded_bool false r h = cc

denied_bool : (b r : Bool) → (if b then false else r) ≡ true → b ≡ false
denied_bool true r h = cc
denied_bool false r h = refl

-- A message that passes `validate` is sent in a state of the protocol meant for its kind.
pub validate-Allowed :
    {Real : Type 0} (tables : StaticData Real) (session : SessionState) (m : Message Real)
    → validate tables session m ≡ done true
    → Allowed session.state m
unfolding validate validate_registration validate_login validate_getdata validate_fight
    validate_createchar validate_learnmagic validate_fusemagic validate_reordermagic validate_send
validate-Allowed tables session (Message.registration m) h =
    is_prelogin-true session.state (guarded_bool _ _ (done-injective h))
validate-Allowed tables session (Message.login m) h =
    is_prelogin-true session.state (guarded_bool _ _ (done-injective h))
validate-Allowed tables session (Message.getdata m) h =
    not_prelogin session.state (done-injective h)
validate-Allowed tables session (Message.fight m) h =
    is_ingame-true session.state (guarded_bool _ _ (done-injective h))
validate-Allowed tables session (Message.createchar m) h =
    is_createchar-true session.state (guarded_bool _ _ (done-injective h))
validate-Allowed tables session (Message.learnmagic m) h =
    is_ingame-true session.state (guarded_bool _ _ (done-injective h))
validate-Allowed tables session (Message.fusemagic m) h =
    is_ingame-true session.state (guarded_bool _ _ (done-injective h))
validate-Allowed tables session (Message.reordermagic m) h =
    is_ingame-true session.state (guarded _ _ h)
validate-Allowed tables session (Message.echo m) h = tt
validate-Allowed tables session (Message.send m) h = denied_bool _ _ (done-injective h)
