-- ===== src/Tests/Pacing.antt =====
-- The main loop of the client at typed lines, and the command after a fight.
use niba.Prelude.{ℕ, ◌≡◌, refl, String, true, List, [], ◌∷◌, ◌++◌, arith, if◌then◌else◌}
use niba.Prelude.Int.{ℤ, pos, ◌+ℤ◌, ◌-ℤ◌, ◌*ℤ◌}
use niba.Prelude.Word.{add_int, sub_int, mul_int, div_int}
use niba.Prelude.Run.{Run, done, out_of_fuel, ◌>>=◌}
use niba.Prelude.Draws.{◌>>=◌ as draw}
use niba.Structs.{add_stats}
use niba.GameData.{at_table}
use niba.Fight.Fighter.{cooldown, ticks_calc, threat_calc, pick_magic_idx}
use niba.Fight.Damage.{
  accuracy_calc, resistance, landed, known_property, property_of, hit, damage_calc,
}
use niba.Fight.Clock.{alive_from, faster, fastest, next_to_act, make_progress, threaten, advance}
use niba.Fight.Rounds.{heat, spend_mp, lose_hp, rest, count_down, use_magic, attack, turn, loop, go}
use niba.Fight.Sources.{rng_server}
use niba.Fight.Setup.{prep_fight}
use niba.Fight.Start.{new_fight, my_status}
use niba.Message.{Message, MessageFight}
use niba.Message.Validate.{validate}
use niba.Wire.Kinds.{fight, kind_of, kind_number}
use niba.Wire.Requests.{base_create_request, dispatcher}
use niba.Wire.Members.{get_to}
use niba.Server.World.{World}
use niba.Server.Play.{run_fight}
use niba.Server.Dispatch.{Response, response, answer, handle, dispatch, process}
use niba.Client.Responses.{Copy}
use niba.Client.Session.{earliest}
use niba.Client.Exchange.{ask, told}
use niba.Client.Main.{Console, waited, client_main}
use niba.Client.Main.Script.{heard, spins, run_all, client_main-script}
use niba.Client.Pacing.{at_time, exchange-fight_paced}
use niba.Tests.{env, session, world}
use niba.Tests.Json.{trees, trees-IsLawful}
use niba.Tests.Exchanges.{fresh}

-- A session that keeps the lines, takes a time of 3 for each, and is to be left alone until 10.
abbrev patient : Console (List String)
patient = record {
  earliest = λ s. pos 10;
  oversleep = λ s. 2;
  handle_cmd = λ line now s. done (now +ℤ pos 3, s ++ (line ∷ []));
}

abbrev typed : List String
typed = "login a b" ∷ "fight 7" ∷ "" ∷ "exit" ∷ []

client_main-script_example : client_main patient true 5 typed (pos 0, []) ≡ (
    run_all patient (heard typed) (pos 0, []) >>= λ last.
    if spins typed then out_of_fuel else done last)
client_main-script_example = client_main-script patient 5 typed (pos 0, []) (omega arith)

abbrev challenge : MessageFight
challenge = record { success = true; enemyid = pos 7; generated = [] }

abbrev fight_or : MessageFight → Run (Response ℤ) → MessageFight
fight_or other (done (response (Message.fight m))) = m
fight_or other _ = other

abbrev fought : MessageFight
fought = fight_or challenge ((ask env trees trees-IsLawful fresh (pos 5) fight challenge world).0)

abbrev world_after : World (Unit {0}) ℕ
world_after = (ask env trees trees-IsLawful fresh (pos 5) fight challenge world).1

challenge_is_answered :
    ask env trees trees-IsLawful fresh (pos 5) fight challenge world
    ≡ (done (response (Message.fight fought)), world_after)
unfolding ◌+ℤ◌ ◌-ℤ◌ ◌*ℤ◌ add_int sub_int mul_int div_int draw new_fight ticks_calc threat_calc
    pick_magic_idx cooldown accuracy_calc resistance landed known_property property_of hit
    damage_calc alive_from faster fastest next_to_act make_progress threaten advance heat spend_mp
    lose_hp rest count_down use_magic attack turn loop go rng_server run_fight prep_fight at_table
    add_stats my_status dispatch base_create_request dispatcher get_to kind_of kind_number validate
    process
challenge_is_answered = refl

abbrev challenger : Copy ℤ
challenger = record { session = session; tables = env.tables }

exchange-fight_paced_example :
    (t : Copy ℤ) × (told env trees trees-IsLawful fresh (pos 9) fight challenge fought challenger
      ≡ done t)
    × (handle env
          (waited (earliest true t.session) (pos 9 +ℤ pos 1) 2 +ℤ pos 3)
          (done (Message.fight challenge))
          world_after
        ≡ answer env
            (waited (earliest true t.session) (pos 9 +ℤ pos 1) 2 +ℤ pos 3)
            (done (Message.fight challenge))
            (at_time env
              (waited (earliest true t.session) (pos 9 +ℤ pos 1) 2 +ℤ pos 3)
              world_after))
exchange-fight_paced_example =
    exchange-fight_paced env trees trees-IsLawful fresh challenge fought world world_after (pos 5)
      (pos 9) challenger 1 2 3 (done (Message.fight challenge)) challenge_is_answered refl refl refl
      (omega arith)
