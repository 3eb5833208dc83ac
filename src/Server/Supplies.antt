-- ===== src/Server/Supplies.antt =====
-- What the handlers of server/server_processor.cpp take for granted of a request that `validate` of
-- shared/message.cpp has let through.
use mathlib.Core.Path.{subst}
use niba.Prelude.{
  ◌≡◌, ◌⊎◌, inl, inr, refl, Bool, true, false, not, Option, none, some, if◌then◌else◌,
}
use niba.Prelude.Int.{ℤ, eqb_ℤ}
use niba.Prelude.Run.{done, done-injective}
use niba.Structs.{GameState, prelogin, createchar, ingame, SessionState, Magic}
use niba.GameData.{StaticData, Table, find, has}
use niba.Message.{Message}
use niba.Message.Validate.{
  is_prelogin, find_magic, validate, validate_fight, validate_learnmagic, validate_fusemagic,
}
use niba.Message.States.{validate-Allowed}
use niba.Server.Phases.{IsSome, ReadyIn, Ready}

-- A fight needs the player and the enemy, learning a magic the player and the magic, fusing the player
-- and both learned magics, reordering the player, and the creation of a character the user. Sending
-- a text needs the player too, who may be missing where a character is to be created.
abbrev pub Supplied : {Real : Type 0} → StaticData Real → SessionState → Message Real → Type 0
Supplied tables s (Message.registration m) = Unit
Supplied tables s (Message.login m) = Unit
Supplied tables s (Message.getdata m) = Unit
Supplied tables s (Message.fight m) = IsSome s.player × IsSome (find tables.characters m.enemyid)
Supplied tables s (Message.createchar m) = IsSome s.userid
Supplied tables s (Message.learnmagic m) = IsSome s.player × IsSome (find tables.magics m.static_id)
Supplied tables s (Message.fusemagic m) =
    IsSome s.player
    × IsSome (find_magic m.primary_magic_id s.session_data.magics)
    × IsSome (find_magic m.secondary_magic_id s.session_data.magics)
Supplied tables s (Message.reordermagic m) = IsSome s.player
Supplied tables s (Message.echo m) = Unit
Supplied tables s (Message.send m) = IsSome s.player ⊎ (s.state ≡ createchar)

player_of : (s : SessionState) → Ready s → s.state ≡ ingame → IsSome s.player
player_of s r e = (subst (λ g. ReadyIn g s.userid s.player) e r).1

user_of : (s : SessionState) → Ready s → s.state ≡ createchar → IsSome s.userid
user_of s r e = subst (λ g. ReadyIn g s.userid s.player) e r

sender_of :
    (s : SessionState)
    → Ready s
    → is_prelogin s.state ≡ false
    → IsSome s.player ⊎ (s.state ≡ createchar)
sender_of s r e = by_state s.state refl e
  where
    by_state :
        (g : GameState)
        → s.state ≡ g
        → is_prelogin g ≡ false
        → IsSome s.player ⊎ (s.state ≡ createchar)
    by_state prelogin h e = cc
    by_state createchar h e = inr h
    by_state ingame h e = inl (player_of s r h)

guarded : (b r : Bool) → (if not b then false else r) ≡ true → r ≡ true
guarded true r h = h
guarded false r h = cc

holds : (b r : Bool) → (if not b then false else r) ≡ true → b ≡ true
holds true r h = refl
holds false r h = cc

found_one :
    {T : Type 0} (o : Option T)
    → (elim o as (λ _. Bool) [ none ↦ false | some _ ↦ true ]) ≡ true
    → IsSome o
found_one none h = cc
found_one (some x) h = (x, refl)

has-IsSome : {T : Type 0} (t : Table T) (id : ℤ) → has t id ≡ true → IsSome (find t id)
unfolding has
has-IsSome t id h = found_one (find t id) h

found_both :
    (o q : Option Magic)
    → (elim o as (λ _. Bool) [
      | none ↦ false
      | some p ↦ elim q as (λ _. Bool) [ none ↦ false | some s ↦ eqb_ℤ p.active s.active ]
    ])
      ≡ true
    → IsSome o × IsSome q
found_both none q h = cc
found_both (some p) none h = cc
found_both (some p) (some s) h = ((p, refl), (s, refl))

-- In a ready session, a valid message finds what its handler takes for granted: the enemy of a fight,
-- the magic to learn, both magics of a fusion, the user of a new character, and the player for these
-- but the last and for reordering. A text to be sent finds the player as well, except in a session in
-- which a character is to be created.
pub validate-Supplied :
    {Real : Type 0} (tables : StaticData Real) (s : SessionState) (m : Message Real)
    → Ready s
    → validate tables s m ≡ done true
    → Supplied tables s m
unfolding validate validate_fight validate_learnmagic validate_fusemagic
validate-Supplied tables s (Message.registration m) r h = tt
validate-Supplied tables s (Message.login m) r h = tt
validate-Supplied tables s (Message.getdata m) r h = tt
validate-Supplied tables s (Message.fight m) r h = (
  player_of s r (validate-Allowed tables s (Message.fight m) h),
  has-IsSome tables.characters m.enemyid (guarded _ _ (done-injective h)),
)
validate-Supplied tables s (Message.createchar m) r h =
    user_of s r (validate-Allowed tables s (Message.createchar m) h)
validate-Supplied tables s (Message.learnmagic m) r h = (
  player_of s r (validate-Allowed tables s (Message.learnmagic m) h),
  has-IsSome tables.magics m.static_id (holds _ _ (guarded _ _ (done-injective h))),
)
validate-Supplied tables s (Message.fusemagic m) r h =
    let (primary, secondary) =
      found_both (find_magic m.primary_magic_id s.session_data.magics)
        (find_magic m.secondary_magic_id s.session_data.magics) (guarded _ _ (done-injective h)) in
    (player_of s r (validate-Allowed tables s (Message.fusemagic m) h), primary, secondary)
validate-Supplied tables s (Message.reordermagic m) r h =
    player_of s r (validate-Allowed tables s (Message.reordermagic m) h)
validate-Supplied tables s (Message.echo m) r h = tt
validate-Supplied tables s (Message.send m) r h =
    sender_of s r (validate-Allowed tables s (Message.send m) h)
