-- ===== src/Message/Validate.antt =====
-- The `validate` members of shared/message.cpp, which client and server both call. `tables` is what
-- `getdata()` holds.
use niba.Prelude.{
  ℕ, suc, ◌-◌, Bool, true, false, not, ◌&&◌, ◌||◌, ◌==◌, ltb, Option, none, some, List, [], ◌∷◌,
  length, get_elem?, if◌then◌else◌,
}
use niba.Prelude.Int.{ℤ, pos, ltb_ℤ, eqb_ℤ}
use niba.Prelude.Word.{add_int}
use niba.Prelude.Run.{Run, done, or_fault, undefined, ◌>>=◌}
use niba.Prelude.Strings.{str_eq, size}
use niba.Structs.{GameState, prelogin, createchar, ingame, SessionState, Magic, Attributes}
use niba.GameData.{StaticData, Table, find, has}
use niba.Message.{
  MessageRegistration, MessageLogin, MessageFight, MessageCreatechar, MessageLearnmagic,
  MessageFusemagic, MessageReordermagic, MessageSend, Message,
}

abbrev pub is_prelogin : GameState → Bool
is_prelogin prelogin = true
is_prelogin createchar = false
is_prelogin ingame = false

abbrev pub is_createchar : GameState → Bool
is_createchar prelogin = false
is_createchar createchar = true
is_createchar ingame = false

abbrev pub is_ingame : GameState → Bool
is_ingame prelogin = false
is_ingame createchar = false
is_ingame ingame = true

-- `id.size() < 4 || id.size() > 16 || password.size() < 6 || password.size() > 24`
abbrev pub bad_credentials : ℕ → ℕ → Bool
bad_credentials id_size password_size =
    ltb id_size 4 || ltb 16 id_size || ltb password_size 6 || ltb 24 password_size

unfoldable pub validate_registration : SessionState → MessageRegistration → Bool
validate_registration session m =
    if not (is_prelogin session.state)
    then false
    else not (bad_credentials (size m.id) (size m.password))

unfoldable pub validate_login : SessionState → MessageLogin → Bool
validate_login session m =
    if not (is_prelogin session.state)
    then false
    else not (bad_credentials (size m.id) (size m.password))

unfoldable pub validate_getdata : SessionState → Bool
validate_getdata session = not (not (is_ingame session.state) && not (is_createchar session.state))

-- The sum of the attributes is an `int`: it wraps around.
unfoldable pub validate_createchar : SessionState → MessageCreatechar → Bool
validate_createchar session m =
    if not (is_createchar session.state)
    then false
    else if not (m.player.gender == b'm' || m.player.gender == b'f')
    then false
    else if str_eq m.player.name ""
    then false
    else if ltb_ℤ a.strength (pos 0)
        || ltb_ℤ a.dexterity (pos 0)
        || ltb_ℤ a.spirit (pos 0)
        || ltb_ℤ a.physique (pos 0)
    then false
    else not
        (ltb_ℤ (pos 5) (add_int (add_int (add_int a.strength a.dexterity) a.spirit) a.physique))
  where
    a : Attributes
    a = m.player.attrs

-- `find_if` by `magic_id`: the place of the first magic of that id, and the magic.
unfoldable pub find_magic : ℤ → List Magic → Option Magic
find_magic id [] = none
find_magic id (m ∷ ms) = if eqb_ℤ m.magic_id id then some m else find_magic id ms

abbrev pub has_magic : ℤ → List Magic → Bool
has_magic id ms = elim (find_magic id ms) [ none ↦ false | some _ ↦ true ]

unfoldable pub validate_fusemagic : SessionState → MessageFusemagic → Bool
unfolding find_magic
validate_fusemagic session m =
    if not (is_ingame session.state)
    then false
    else elim (find_magic m.primary_magic_id session.session_data.magics) [
      | none ↦ false
      | some primary ↦ elim (find_magic m.secondary_magic_id session.session_data.magics) [
        | none ↦ false
        | some secondary ↦ eqb_ℤ primary.active secondary.active
      ]
    ]

-- `table[key] = value`
unfoldable pub assign : {T : Type 0} → Table T → ℤ → T → Table T
assign [] key value = (key, value) ∷ []
assign ((k, v) ∷ rest) key value =
    if eqb_ℤ k key then (key, value) ∷ rest else (k, v) ∷ assign rest key value

-- `magic_id_set`: the index of each learned magic, from index `idx` on.
unfoldable pub index_magics : ℕ → List Magic → Table ℕ → Table ℕ
unfolding assign
index_magics idx [] t = t
index_magics idx (m ∷ ms) t = index_magics (suc idx) ms (assign t m.magic_id idx)

-- The loop over the ids: `none` where one is not learned, else the number of passives.
unfoldable pub count_passives : List Magic → Table ℕ → List ℤ → ℕ → Run (Option ℕ)
unfolding find
count_passives magics t [] passives = done (some passives)
count_passives magics t (id ∷ ids) passives = elim (find t id) [
  | none ↦ done none
  | some idx ↦ or_fault (get_elem? magics idx) undefined >>= λ m.
      count_passives magics t ids (if eqb_ℤ m.active (pos 0) then suc passives else passives)
]

unfoldable pub validate_reordermagic : SessionState → MessageReordermagic → Run Bool
unfolding index_magics count_passives
validate_reordermagic session m =
    if not (is_ingame session.state)
    then done false
    else if ltb 6 (length m.equipped_magic_ids)
    then done false
    else (do
      counted ←
          count_passives session.session_data.magics (index_magics 0 session.session_data.magics [])
            m.equipped_magic_ids 0
      elim counted [
        | none ↦ done false
        | some passives ↦
            if ltb 1 passives
            then done false
            else done (not (ltb 5 (length m.equipped_magic_ids - passives)))
      ])

unfoldable pub validate_send : SessionState → MessageSend → Bool
validate_send session m =
    if is_prelogin session.state then false else not (ltb 256 (size m.message))

module _ {Real : Type 0} (tables : StaticData Real) where
  unfoldable pub validate_fight : SessionState → MessageFight → Bool
  unfolding has
  validate_fight session m =
      if not (is_ingame session.state) then false else has tables.characters m.enemyid

  unfoldable pub validate_learnmagic : SessionState → MessageLearnmagic → Bool
  unfolding has find_magic
  validate_learnmagic session m =
      if not (is_ingame session.state)
      then false
      else if not (has tables.magics m.static_id)
      then false
      else not (has_magic m.static_id session.session_data.magics)

  -- `base_validate` of the message at hand; an echo is always valid.
  unfoldable pub validate : SessionState → Message Real → Run Bool
  unfolding validate_registration validate_login validate_getdata validate_fight validate_createchar
      validate_learnmagic validate_fusemagic validate_reordermagic validate_send
  validate session (Message.registration m) = done (validate_registration session m)
  validate session (Message.login m) = done (validate_login session m)
  validate session (Message.getdata m) = done (validate_getdata session)
  validate session (Message.fight m) = done (validate_fight session m)
  validate session (Message.createchar m) = done (validate_createchar session m)
  validate session (Message.learnmagic m) = done (validate_learnmagic session m)
  validate session (Message.fusemagic m) = done (validate_fusemagic session m)
  validate session (Message.reordermagic m) = validate_reordermagic session m
  validate session (Message.echo m) = done true
  validate session (Message.send m) = done (validate_send session m)
