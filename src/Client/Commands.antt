-- ===== src/Client/Commands.antt =====
-- `handle_cmd` of client/client_session.cpp: the request that a command asks for. The line is split by
-- boost::split.
pub mod Typed
use niba.Prelude.{
  ℕ, ◌≡◌, refl, String, Bool, true, false, Option, none, some, List, [], ◌∷◌, map, if◌then◌else◌,
}
use niba.Prelude.Int.{ℤ}
use niba.Prelude.Run.{Run, done, fault, thrown, undefined, asserted, out_of_fuel, ◌>>=◌}
use niba.Prelude.Strings.{str_eq}
use niba.Structs.{Player, Attributes}
use niba.Message.{
  MessageRegistration, MessageLogin, MessageFight, MessageCreatechar, MessageLearnmagic,
  MessageFusemagic, MessageReordermagic, MessageSend, message_registration, message_login,
  message_fight, message_createchar, message_learnmagic, message_fusemagic, message_reordermagic,
  message_send,
}
use niba.Wire.Kinds.{
  Kind, login, registeration, createchar, getdata, fight, learnmagic, fusemagic, reordermagic, echo,
  send, Body,
}
use niba.Client.Session.{Request}

-- `append` joins two texts. `stoi` throws where the text is no number; `front` is `at(0)`.
pub record TextLib : Type 0 where
  pub append : String → String → String
  pub split : String → List String
  pub stoi : String → Run ℤ
  pub front : String → Run ℕ

module _ (T : TextLib) {Real : Type 0} (fresh : (k : Kind) → Body Real k) where
  open T use {append, split, stoi, front}

  abbrev pub numbers : List String → Run (List ℤ)
  numbers [] = done []
  numbers (text ∷ texts) = do n ← stoi text; ns ← numbers texts; done (n ∷ ns)

  -- The text that the loop over the stream writes.
  abbrev pub joined : List String → String
  joined [] = ""
  joined (word ∷ []) = word
  joined (word ∷ (next ∷ words)) = append word (append " " (joined (next ∷ words)))

  abbrev pub reorder_command : List String → Run (Option (Request Real))
  reorder_command args = do
    selected ← numbers args
    done (some (reordermagic, message_reordermagic (fresh reordermagic) selected))

  abbrev pub send_command : List String → Run (Option (Request Real))
  send_command (name ∷ (word ∷ words)) =
      done (some (send, message_send (fresh send) name (joined (word ∷ words))))
  send_command _ = fault thrown

  abbrev pub two_arguments : String → String → String → Run (Option (Request Real))
  two_arguments command a b =
      if str_eq command "register"
      then done (some (registeration, message_registration (fresh registeration) a b))
      else if str_eq command "login"
      then done (some (login, message_login (fresh login) a b))
      else if str_eq command "fusemagic"
      then (do
        primary ← stoi a
        secondary ← stoi b
        done (some (fusemagic, message_fusemagic (fresh fusemagic) primary secondary)))
      else done none

  -- To sleep is left out: the request is none, unless the number throws.
  abbrev pub one_argument : String → String → Run (Option (Request Real))
  one_argument command a =
      if str_eq command "fight"
      then (do id ← stoi a; done (some (fight, message_fight (fresh fight) id)))
      else if str_eq command "learnmagic"
      then (do id ← stoi a; done (some (learnmagic, message_learnmagic (fresh learnmagic) id)))
      else if str_eq command "timeout"
      then (do seconds ← stoi a; done none)
      else done none

  abbrev pub six_arguments :
      String → String → String → String → String → String → String → Run (Option (Request Real))
  six_arguments command name gender a b c d =
      if str_eq command "create"
      then (do
        g ← front gender
        strength ← stoi a
        dexterity ← stoi b
        physique ← stoi c
        spirit ← stoi d
        done (
            some (
              createchar,
              message_createchar (fresh createchar) (record {
                name = name;
                gender = g;
                attrs = record {
                  strength = strength;
                  dexterity = dexterity;
                  physique = physique;
                  spirit = spirit;
                };
              }),
            )))
      else done none

  abbrev pub sized_command : String → List String → Run (Option (Request Real))
  sized_command command (a ∷ []) = one_argument command a
  sized_command command (a ∷ b ∷ []) = two_arguments command a b
  sized_command command (n ∷ g ∷ a ∷ b ∷ c ∷ d ∷ []) = six_arguments command n g a b c d
  sized_command command _ = fault thrown

  unfoldable pub handle_words : List String → Run (Option (Request Real))
  handle_words [] = fault thrown
  handle_words (command ∷ args) =
      if str_eq command "reordermagic"
      then reorder_command args
      else if str_eq command "send"
      then send_command args
      else sized_command command args

  -- The `catch`: no request, and `handled_` is false.
  abbrev pub caught : Run (Option (Request Real)) → Run (Option (Request Real))
  caught (done r) = done r
  caught (fault thrown) = done none
  caught (fault undefined) = fault undefined
  caught (fault asserted) = fault asserted
  caught out_of_fuel = out_of_fuel

  unfoldable pub handle_cmd : String → Run (Option (Request Real))
  unfolding handle_words
  handle_cmd input = caught (handle_words (split input))
