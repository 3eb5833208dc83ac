-- ===== src/Tests/Exchanges.antt =====
-- Messages that go through JSON.
use niba.Prelude.{◌≡◌, true, false, [], none}
use niba.Prelude.Int.{ℤ, pos}
use niba.Prelude.Run.{done, ◌>>=◌}
use niba.Fight.Damage.{default_magic}
use niba.Message.{MessageFusemagic}
use niba.Wire.Kinds.{
  Kind, login, registeration, createchar, getdata, fight, learnmagic, fusemagic, reordermagic, echo,
  send, Body, message_of,
}
use niba.Wire.Requests.{base_create_request, dispatcher, received, dispatcher-base_create_request}
use niba.Wire.Responses.{base_create_response, base_merge_response}
use niba.Wire.Answers.{answered, base_merge_response-base_create_response}
use niba.Tests.Json.{trees, trees-IsLawful}
use niba.Tests.{player, no_data}

-- The messages of the default constructors.
abbrev pub fresh : (k : Kind) → Body ℤ k
fresh login = record { success = false; id = ""; password = ""; player = none; player_data = none }
fresh registeration = record { success = false; id = ""; password = "" }
fresh createchar = record { success = false; player = player; player_data = no_data }
fresh getdata = record {
  success = false;
  tables = record { characters = []; magics = []; equips = []; maps = [] };
}
fresh fight = record { success = false; enemyid = pos 0; generated = [] }
fresh learnmagic = record { success = false; static_id = pos 0; magic = default_magic }
fresh fusemagic = record {
  success = false;
  primary_magic_id = pos 0;
  secondary_magic_id = pos 0;
  magic = default_magic;
}
fresh reordermagic = record { success = false; equipped_magic_ids = [] }
fresh echo = record { success = false; echo_str = ""; sender = "" }
fresh send = record { success = false; name = ""; message = "" }

abbrev asked : MessageFusemagic
asked = record (fresh fusemagic) { primary_magic_id = pos 1; secondary_magic_id = pos 2 }

abbrev answer : MessageFusemagic
answer = record asked { success = true; magic = record default_magic { magic_id = pos 1 } }

dispatcher-base_create_request_example :
    (base_create_request trees fusemagic asked >>= dispatcher trees fresh)
    ≡ done (message_of ℤ fusemagic (received trees fusemagic (fresh fusemagic) asked))
dispatcher-base_create_request_example =
    dispatcher-base_create_request trees trees-IsLawful fresh fusemagic asked

base_merge_response-base_create_response_example :
    (base_create_response trees fusemagic answer >>= base_merge_response trees fusemagic asked)
    ≡ done (answered ℤ fusemagic asked answer)
base_merge_response-base_create_response_example =
    base_merge_response-base_create_response ℤ trees trees-IsLawful fusemagic asked answer
