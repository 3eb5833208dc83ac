-- ===== src/Tests/Fights.antt =====
-- Fights at concrete fighters.
use niba.Prelude.{ℕ, ◌+◌, ◌*◌, ◌≤◌, ◌≡◌, refl, true, false, List, [], ◌∷◌, map, arith, length}
use niba.Prelude.Int.{ℤ, pos, ltb_ℤ, ◌+ℤ◌, ◌-ℤ◌, ◌*ℤ◌}
use niba.Prelude.Word.{add_int, sub_int, mul_int, div_int}
use niba.Prelude.Run.{done}
use niba.Prelude.Draws.{◌>>=◌}
use niba.Structs.{add_stats}
use niba.GameData.{at_table}
use niba.Fight.Fighter.{cooldown, ticks_calc, threat_calc, pick_magic_idx}
use niba.Fight.Damage.{
  accuracy_calc, resistance, landed, known_property, property_of, hit, damage_calc,
}
use niba.Fight.Clock.{alive_from, faster, fastest, next_to_act, make_progress, threaten, advance}
use niba.Fight.Rounds.{
  Fight, heat, spend_mp, lose_hp, rest, count_down, use_magic, attack, turn, loop, go,
}
use niba.Fight.Sources.{ServerRng, rng_server, rng_client}
use niba.Fight.Setup.{prep_fight}
use niba.Fight.Start.{new_fight, my_status}
use niba.Fight.Replay.{client_agrees}
use niba.Fight.Ticks.{ticks_calc-least}
use niba.Fight.Alive.Winner.{Won}
use niba.Fight.Alive.Ready.{fight_has_winner}
use niba.Server.Play.{run_fight}
use niba.Client.Processor.{client_fight}
use niba.Client.Agreement.{client_fight-run_fight}
use niba.Message.{Message, MessageFight}
use niba.Server.Play.{process_fight}
use niba.Server.Connection.{Received, serve_all}
use niba.Server.Pauses.{preceded, refusal, serve_all-after_fight}
use niba.Tests.{world, whole, fighter, least, env, session, value_or}

abbrev duel : Fight
duel = new_fight (fighter ∷ []) (fighter ∷ [])

abbrev fresh : ServerRng ℕ
fresh = record { engine = 0; generated = [] }

abbrev fought : (ℕ × Fight) × ServerRng ℕ
fought = value_or ((5, duel), fresh) (go whole true (rng_server least) 4 duel fresh)

duel_ends : go whole true (rng_server least) 4 duel fresh ≡ done fought
unfolding ◌+ℤ◌ ◌-ℤ◌ ◌*ℤ◌ add_int sub_int mul_int div_int ◌>>=◌ new_fight ticks_calc threat_calc
    pick_magic_idx cooldown accuracy_calc resistance landed known_property property_of hit
    damage_calc alive_from faster fastest next_to_act make_progress threaten advance heat spend_mp
    lose_hp rest count_down use_magic attack turn loop go rng_server
duel_ends = refl

client_agrees_example :
    go whole true
      (rng_client true)
      4
      duel
      (record { internal_idx = 0; precomputed = fought.1.generated })
    ≡ done (
      fought.0,
      record { internal_idx = length fought.1.generated; precomputed = fought.1.generated },
    )
client_agrees_example = client_agrees whole true least 4 duel 0 fought.0 fought.1 duel_ends

ticks_calc-least_example :
    (t : ℕ) × (ticks_calc fighter ≡ done (pos t))
    × (1000 ≤ 0 + 10 * t)
    × ((u : ℕ) → 1000 ≤ 0 + 10 * u → t ≤ u)
ticks_calc-least_example = ticks_calc-least fighter 0 10 refl refl (omega arith) (omega arith)

fight_has_winner_example : Won fought.0
fight_has_winner_example =
    fight_has_winner whole true (rng_server least) 4 (fighter ∷ []) (fighter ∷ []) fresh fought.1
      fought.0 (refl, tt) (refl, tt) (omega arith) duel_ends

abbrev challenge : List ℤ × ℤ × ℕ
challenge = value_or ([], pos 0, 0) (run_fight env session (pos 7) 0)

challenge_ends : run_fight env session (pos 7) 0 ≡ done challenge
unfolding ◌+ℤ◌ ◌-ℤ◌ ◌*ℤ◌ add_int sub_int mul_int div_int ◌>>=◌ new_fight ticks_calc threat_calc
    pick_magic_idx cooldown accuracy_calc resistance landed known_property property_of hit
    damage_calc alive_from faster fastest next_to_act make_progress threaten advance heat spend_mp
    lose_hp rest count_down use_magic attack turn loop go rng_server run_fight prep_fight at_table
    add_stats my_status
challenge_ends = refl

challenge_waits : ltb_ℤ (pos 0) (pos 0 +ℤ challenge.1 *ℤ pos 1000000) ≡ true
unfolding ◌+ℤ◌ ◌-ℤ◌ ◌*ℤ◌ add_int sub_int mul_int div_int ◌>>=◌ new_fight ticks_calc threat_calc
    pick_magic_idx cooldown accuracy_calc resistance landed known_property property_of hit
    damage_calc alive_from faster fastest next_to_act make_progress threaten advance heat spend_mp
    lose_hp rest count_down use_magic attack turn loop go rng_server run_fight prep_fight at_table
    add_stats my_status
challenge_waits = refl

client_fight-run_fight_example :
    client_fight whole true
      (pos 1)
      env.tables
      20
      (record { success = true; enemyid = pos 7; generated = challenge.0 })
      session
    ≡ done (record session { earliest_time = pos 0 +ℤ challenge.1 *ℤ pos 1000000 })
client_fight-run_fight_example =
    client_fight-run_fight env session session
      (record { success = true; enemyid = pos 7; generated = challenge.0 }) 0 challenge.2
      challenge.1 refl refl challenge_ends

abbrev rematch : MessageFight
rematch = record { success = false; enemyid = pos 7; generated = [] }

abbrev hello : Received env
hello = (pos 0, done (Message.echo (record { success = false; echo_str = ""; sender = "" })))

abbrev hasty : Received env
hasty = (pos 0, done (Message.fight rematch))

serve_all-after_fight_example :
    serve_all env (hello ∷ (hasty ∷ (hello ∷ []))) ((process_fight env rematch world).1)
    ≡ preceded env
        (map (refusal env) (hello ∷ (hasty ∷ [])))
        (serve_all env (hello ∷ []) ((process_fight env rematch world).1))
serve_all-after_fight_example =
    serve_all-after_fight env rematch world challenge.0 challenge.1 challenge.2
      (hello ∷ (hasty ∷ [])) hello [] challenge_ends (challenge_waits, (challenge_waits, tt))
