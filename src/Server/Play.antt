-- ===== src/Server/Play.antt =====
-- `process` of server/server_processor.cpp for fights and chat, with shared/calcdelay.h.
use niba.Prelude.{ℕ, true, false, Option, none, some, List, [], ◌∷◌, ◌++◌, if◌then◌else◌}
use niba.Prelude.Int.{ℤ, pos, ltb_ℤ, ◌+ℤ◌, ◌*ℤ◌}
use niba.Prelude.Word.{sub_int, mul_int, div_int}
use niba.Prelude.Run.{Run, done, fault, or_fault, undefined, thrown, out_of_fuel, ◌>>=◌}
use niba.Prelude.Double.{Double}
use niba.Structs.{SessionState, Player}
use niba.Fight.Fighter.{stats_of}
use niba.Fight.Rounds.{go}
use niba.Fight.Sources.{rng_server}
use niba.Fight.Setup.{prep_fight}
use niba.Fight.Start.{new_fight, my_status}
use niba.Fight.Clock.{at}
use niba.Message.{MessageFight, MessageEcho, MessageSend}
use niba.Server.SessionMap.{recipient}
use niba.Server.World.{Env, World}
use niba.Server.Account.{Process}

module _ (d : Double) (delay_factor : d.Real) where
  open d use {of_int, mul, to_int}

  -- Milliseconds.
  unfoldable pub duration_ms : ℤ → Run ℤ
  duration_ms ms = or_fault (to_int (mul (of_int ms) delay_factor)) undefined

  abbrev at_least_zero : ℤ → ℤ
  at_least_zero hp = if ltb_ℤ hp (pos 0) then pos 0 else hp

  -- The parameters are `int`, so the quotient is one of integers. The callers hand `max_hp` over as
  -- a `double`, which holds every `int` exactly. A duration has 64 bits.
  unfoldable pub fight_delay : ℤ → ℤ → ℤ → Run ℤ
  unfolding duration_ms
  fight_delay max_hp hp ticks = do
    fight_tick ← duration_ms (pos 10)
    per_hp ← duration_ms (pos 100)
    lost ← or_fault (div_int (sub_int max_hp (at_least_zero hp)) max_hp) undefined
    done (ticks *ℤ fight_tick +ℤ per_hp *ℤ mul_int lost (pos 100))

module _ (env : Env) where
  open env use {Store, Engine, double, asserts, uniform, tables, expired, fuel, delay_factor}

  -- What a fight comes to: the recorded numbers, the delay in milliseconds, and the engine.
  unfoldable pub run_fight : SessionState → ℤ → Engine → Run (List ℤ × ℤ × Engine)
  unfolding fight_delay
  run_fight session enemyid engine = do
    (friends, enemies) ← prep_fight tables session enemyid
    self_fightable ← at friends 0
    ((winner, fought), rng) ←
        go double asserts (rng_server uniform) fuel (new_fight friends enemies)
          (record { engine = engine; generated = [] })
    status ← my_status fought
    delay ←
        fight_delay double delay_factor (stats_of self_fightable).hp (stats_of status).hp
          fought.elapsed_ticks
    done (rng.generated, delay, rng.engine)

  -- `earliest_time` counts nanoseconds. `success` is left as it was.
  unfoldable pub finish_fight : MessageFight → Run (List ℤ × ℤ × Engine) → Process env MessageFight
  finish_fight req (done (generated, delay, engine)) w = (
    done (record req { generated = generated }),
    record w {
      session = record (w.session) {
        earliest_time = w.session.earliest_time +ℤ delay *ℤ pos 1000000;
      };
      engine = engine;
    },
  )
  finish_fight req (fault e) w = (fault e, w)
  finish_fight req out_of_fuel w = (out_of_fuel, w)

  unfoldable pub process_fight : MessageFight → Process env MessageFight
  unfolding run_fight finish_fight
  process_fight req w = finish_fight req (run_fight w.session req.enemyid w.engine) w

  unfoldable pub process_echo : MessageEcho → Process env MessageEcho
  process_echo req w = (done req, w)

  -- The text that `write` hands over is the request of an echo.
  abbrev pub deliver :
      MessageSend → Player → Option ℕ → World Store Engine → Run MessageSend × World Store Engine
  deliver req sender none w = (done (record req { success = false }), w)
  deliver req sender (some s) w = (
    done (record req { success = true }),
    record w {
      sent =
          w.sent
          ++ (record { to = s; name = req.name; echo_str = req.message; sender = sender.name }
              ∷ []);
    },
  )

  -- `session_.player.value()` throws if there is none.
  unfoldable pub send_as : MessageSend → Option Player → Process env MessageSend
  send_as req none w = (fault thrown, w)
  send_as req (some player) w = deliver req player (recipient expired req.name w.sessions) w

  unfoldable pub process_send : MessageSend → Process env MessageSend
  unfolding send_as
  process_send req w = send_as req w.session.player w
