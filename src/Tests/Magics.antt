-- ===== src/Tests/Magics.antt =====
-- Learned magics, at a concrete player: the equipped ones, and a fusion.
use niba.Prelude.{ℕ, ◌≡◌, ◌≢◌, refl, true, false, [], ◌∷◌}
use niba.Prelude.Int.{ℤ, pos}
use niba.Prelude.Run.{Run, done, fault, undefined, out_of_fuel}
use niba.Structs.{SessionState, Magic}
use niba.Fight.Damage.{default_magic}
use niba.Message.{Message, MessageReordermagic, MessageFusemagic, MessageLearnmagic}
use niba.Message.Validate.{validate, validate_fusemagic, validate_reordermagic, find_magic}
use niba.Message.Loadout.{fits, validate_reordermagic-fits}
use niba.GameData.{at_table}
use niba.Server.World.{Env, World}
use niba.Server.Magics.{
  overwrite, place_of, process_fusemagic, process_learnmagic, process_reordermagic, described,
}
use niba.Client.Processor.{client_learnmagic, client_reordermagic}
use niba.Client.Learning.{client_learnmagic-process, client_reordermagic-process}
use niba.Client.Follows.{Followed, client_fusemagic-process}
use niba.Server.Supplies.{Supplied, validate-Supplied}
use niba.Tests.{player, env, session, world, no_data}

abbrev pub magic_of : ℤ → Magic
magic_of id = record default_magic { magic_id = id; inner_damage = pos 40 }

abbrev pub scholar : SessionState
scholar = record session {
  session_data = record no_data {
    magics = magic_of (pos 1) ∷ magic_of (pos 2) ∷ [];
    equipped_magic_ids = pos 2 ∷ [];
  };
}

abbrev pub library : World (Unit {0}) ℕ
library = record world { session = scholar }

abbrev pub both_equipped : MessageReordermagic
both_equipped = record { success = false; equipped_magic_ids = pos 2 ∷ pos 1 ∷ [] }

validate_reordermagic-fits_example :
    validate_reordermagic scholar both_equipped
    ≡ done (fits scholar both_equipped.equipped_magic_ids)
validate_reordermagic-fits_example = validate_reordermagic-fits scholar both_equipped

abbrev second_into_first : MessageFusemagic
second_into_first = record {
  success = false;
  primary_magic_id = pos 1;
  secondary_magic_id = pos 2;
  magic = default_magic;
}

abbrev request_of : Run MessageFusemagic → MessageFusemagic
request_of (done m) = m
request_of (fault e) = second_into_first
request_of out_of_fuel = second_into_first

abbrev response : MessageFusemagic
response = request_of ((process_fusemagic env second_into_first library).0)

abbrev library_after : World (Unit {0}) ℕ
library_after = (process_fusemagic env second_into_first library).1

fusion_succeeds :
    (process_fusemagic env second_into_first library ≡ (done response, library_after))
    × (response.success ≡ true)
unfolding process_fusemagic find_magic place_of
fusion_succeeds = (refl, refl)

apart : pos 1 ≢ pos 2
apart h = cc

client_fusemagic-process_example :
    Followed response scholar scholar.session_data library_after.session.session_data
client_fusemagic-process_example =
    client_fusemagic-process env second_into_first response library library_after scholar
      fusion_succeeds.0 apart refl fusion_succeeds.1 refl

-- The secondary magic stands before the primary, and a third one behind: the third is written over.
third_is_lost :
    overwrite
      (pos 2)
      1
      (magic_of (pos 1))
      (magic_of (pos 2) ∷ record (magic_of (pos 1)) { cd = pos 5 } ∷ magic_of (pos 3) ∷ [])
    ≡ done (record (magic_of (pos 1)) { cd = pos 5 } ∷ magic_of (pos 1) ∷ [])
unfolding overwrite
third_is_lost = refl

-- The primary magic stands last: the write is past the end.
past_the_end :
    overwrite (pos 2) 1 (magic_of (pos 1)) (magic_of (pos 2) ∷ magic_of (pos 1) ∷ [])
    ≡ fault undefined
unfolding overwrite
past_the_end = refl

-- The game has a third magic.
abbrev pub school : Env
school = record env {
  tables = record {
    characters = env.tables.characters;
    magics = (pos 3, magic_of (pos 3)) ∷ [];
    equips = [];
    maps = [];
  };
}

abbrev learn_third : MessageLearnmagic
learn_third = record { success = false; static_id = pos 3; magic = default_magic }

abbrev third_learned : MessageLearnmagic
third_learned = record { success = true; static_id = pos 3; magic = described (magic_of (pos 3)) }

abbrev library_extended : World (Unit {0}) ℕ
library_extended = (process_learnmagic school learn_third library).1

learning_succeeds :
    process_learnmagic school learn_third library ≡ (done third_learned, library_extended)
unfolding process_learnmagic at_table
learning_succeeds = refl

client_learnmagic-process_example :
    client_learnmagic third_learned scholar
    ≡ record scholar { session_data = library_extended.session.session_data }
client_learnmagic-process_example =
    client_learnmagic-process school scholar learn_third third_learned library library_extended
      learning_succeeds refl refl

abbrev reordering : MessageReordermagic
reordering = record both_equipped { success = true }

abbrev library_reordered : World (Unit {0}) ℕ
library_reordered = (process_reordermagic env both_equipped library).1

reordering_succeeds :
    process_reordermagic env both_equipped library ≡ (done reordering, library_reordered)
unfolding process_reordermagic
reordering_succeeds = refl

client_reordermagic-process_example :
    client_reordermagic reordering scholar
    ≡ record scholar { session_data = library_reordered.session.session_data }
client_reordermagic-process_example =
    client_reordermagic-process env scholar both_equipped reordering library library_reordered
      reordering_succeeds refl refl

fusion_is_valid : validate env.tables scholar (Message.fusemagic second_into_first) ≡ done true
unfolding validate validate_fusemagic
fusion_is_valid = refl

validate-Supplied_example : Supplied env.tables scholar (Message.fusemagic second_into_first)
validate-Supplied_example =
    validate-Supplied env.tables scholar (Message.fusemagic second_into_first)
      (("niba", refl), (player, refl)) fusion_is_valid
