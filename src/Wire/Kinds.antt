-- ===== src/Wire/Kinds.antt =====
-- The types of messages, by shared/message.h: their numbers, and the struct of each.
use niba.Prelude.{◌≡◌, refl, Bool, Option, none, some, [], ◌∷◌, get_elem?}
use niba.Prelude.Int.{ℤ, pos, negsuc}
use niba.Message.{
  MessageRegistration, MessageLogin, MessageGetdata, MessageFight, MessageCreatechar,
  MessageLearnmagic, MessageFusemagic, MessageReordermagic, MessageEcho, MessageSend, Message,
}

-- `message::type`, without `none` and `LAST`, which are the types of no message.
pub data Kind : Type 0 where
  login registeration createchar getdata fight learnmagic fusemagic reordermagic echo send : Kind

unfoldable pub kind_number : Kind → ℤ
kind_number login = pos 0
kind_number registeration = pos 1
kind_number createchar = pos 2
kind_number getdata = pos 3
kind_number fight = pos 4
kind_number learnmagic = pos 5
kind_number fusemagic = pos 6
kind_number reordermagic = pos 7
kind_number echo = pos 8
kind_number send = pos 9

-- The cases of `dispatcher`.
unfoldable pub kind_of : ℤ → Option Kind
kind_of (pos n) =
    get_elem?
      (login ∷ registeration ∷ createchar ∷ getdata ∷ fight ∷ learnmagic ∷ fusemagic ∷ reordermagic
        ∷ echo ∷ send ∷ [])
      n
kind_of (negsuc n) = none

pub kind_of-kind_number : (k : Kind) → kind_of (kind_number k) ≡ some k
unfolding kind_of kind_number
kind_of-kind_number login = refl
kind_of-kind_number registeration = refl
kind_of-kind_number createchar = refl
kind_of-kind_number getdata = refl
kind_of-kind_number fight = refl
kind_of-kind_number learnmagic = refl
kind_of-kind_number fusemagic = refl
kind_of-kind_number reordermagic = refl
kind_of-kind_number echo = refl
kind_of-kind_number send = refl

module _ (Real : Type 0) where
  -- The struct of a type: `Impl` of `base_message`.
  abbrev pub Body : Kind → Type 0
  Body login = MessageLogin
  Body registeration = MessageRegistration
  Body createchar = MessageCreatechar
  Body getdata = MessageGetdata Real
  Body fight = MessageFight
  Body learnmagic = MessageLearnmagic
  Body fusemagic = MessageFusemagic
  Body reordermagic = MessageReordermagic
  Body echo = MessageEcho
  Body send = MessageSend

  abbrev pub message_of : (k : Kind) → Body k → Message Real
  message_of login m = Message.login m
  message_of registeration m = Message.registration m
  message_of createchar m = Message.createchar m
  message_of getdata m = Message.getdata m
  message_of fight m = Message.fight m
  message_of learnmagic m = Message.learnmagic m
  message_of fusemagic m = Message.fusemagic m
  message_of reordermagic m = Message.reordermagic m
  message_of echo m = Message.echo m
  message_of send m = Message.send m

  -- `success`, the member of `base_message`.
  abbrev pub success_of : (k : Kind) → Body k → Bool
  success_of login m = m.success
  success_of registeration m = m.success
  success_of createchar m = m.success
  success_of getdata m = m.success
  success_of fight m = m.success
  success_of learnmagic m = m.success
  success_of fusemagic m = m.success
  success_of reordermagic m = m.success
  success_of echo m = m.success
  success_of send m = m.success

  abbrev pub with_success : (k : Kind) → Bool → Body k → Body k
  with_success login b m = record m { success = b }
  with_success registeration b m = record m { success = b }
  with_success createchar b m = record m { success = b }
  with_success getdata b m = record m { success = b }
  with_success fight b m = record m { success = b }
  with_success learnmagic b m = record m { success = b }
  with_success fusemagic b m = record m { success = b }
  with_success reordermagic b m = record m { success = b }
  with_success echo b m = record m { success = b }
  with_success send b m = record m { success = b }
