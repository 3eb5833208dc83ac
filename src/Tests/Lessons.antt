-- ===== src/Tests/Lessons.antt =====
-- A magic that is learned, and a new order of the equipped ones, over JSON.
use niba.Prelude.{ℕ, ◌≡◌, refl, true}
use niba.Prelude.Int.{ℤ, pos}
use niba.Prelude.Run.{Run, done}
use niba.Fight.Damage.{default_magic}
use niba.Message.{Message, MessageLearnmagic}
use niba.Message.Validate.{validate}
use niba.GameData.{at_table}
use niba.Server.World.{World}
use niba.Server.Dispatch.{Response, response, dispatch, process}
use niba.Server.Magics.{process_learnmagic, process_reordermagic}
use niba.Client.Reorders.{exchange-reordermagic}
use niba.Tests.{env}
use niba.Wire.Kinds.{learnmagic, reordermagic, kind_of, kind_number}
use niba.Wire.Requests.{base_create_request, dispatcher}
use niba.Wire.Members.{get_to, get_vector}
use niba.Client.Processor.{receive}
use niba.Client.Responses.{Copy}
use niba.Client.Exchange.{ask, told, exchange-learnmagic}
use niba.Tests.Json.{trees, trees-IsLawful}
use niba.Tests.Exchanges.{fresh}
use niba.Tests.Magics.{scholar, library, school, both_equipped}

abbrev lesson : MessageLearnmagic
lesson = record { success = true; static_id = pos 3; magic = default_magic }

abbrev message_or : MessageLearnmagic → Run (Response ℤ) → MessageLearnmagic
message_or other (done (response (Message.learnmagic m))) = m
message_or other _ = other

abbrev told_lesson : MessageLearnmagic
told_lesson =
    message_or lesson ((ask school trees trees-IsLawful fresh (pos 5) learnmagic lesson library).0)

abbrev library_after : World (Unit {0}) ℕ
library_after = (ask school trees trees-IsLawful fresh (pos 5) learnmagic lesson library).1

lesson_succeeds :
    (ask school trees trees-IsLawful fresh (pos 5) learnmagic lesson library
      ≡ (done (response (Message.learnmagic told_lesson)), library_after))
    × (told_lesson.success ≡ true)
unfolding process_learnmagic dispatch base_create_request dispatcher get_to kind_of kind_number
    validate process at_table
lesson_succeeds = (refl, refl)

abbrev learner : Copy ℤ
learner = record { session = scholar; tables = school.tables }

exchange-learnmagic_example :
    told school trees trees-IsLawful fresh (pos 9) learnmagic lesson told_lesson learner
    ≡ done (record learner {
      session = record (receive (pos 9) scholar) {
        session_data = library_after.session.session_data;
      };
    })
exchange-learnmagic_example =
    exchange-learnmagic school trees trees-IsLawful fresh lesson told_lesson library library_after
      (pos 5) (pos 9) learner lesson_succeeds.0 lesson_succeeds.1 refl

abbrev rearranged : World (Unit {0}) ℕ
rearranged = (ask env trees trees-IsLawful fresh (pos 5) reordermagic both_equipped library).1

reordering_is_stored :
    ask env trees trees-IsLawful fresh (pos 5) reordermagic both_equipped library
    ≡ (done (response (Message.reordermagic (record both_equipped { success = true }))), rearranged)
unfolding process_reordermagic dispatch base_create_request dispatcher get_to kind_of kind_number
    validate process get_vector
reordering_is_stored = refl

exchange-reordermagic_example :
    told env trees trees-IsLawful fresh
      (pos 9)
      reordermagic
      both_equipped
      (record both_equipped { success = true })
      learner
    ≡ done (record learner {
      session = record (receive (pos 9) scholar) { session_data = rearranged.session.session_data };
    })
exchange-reordermagic_example =
    exchange-reordermagic env trees trees-IsLawful fresh both_equipped
      (record both_equipped { success = true }) library rearranged (pos 5) (pos 9) learner
      reordering_is_stored refl refl
