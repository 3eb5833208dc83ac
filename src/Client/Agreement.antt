-- ===== src/Client/Agreement.antt =====
-- The fight of client/client_processor.cpp beside that of server/server_processor.cpp.
use mathlib.Core.Path.{ap₂, subst}
use niba.Fight.Fighter.{Fightable, stats_of}
use niba.Prelude.{ℕ, ◌≡◌, ap, ◌∙◌, Option, none, List, [], length}
use niba.Prelude.Int.{ℤ, pos, ◌+ℤ◌, ◌*ℤ◌}
use niba.Prelude.Run.{Run, done, ◌>>=◌, >>=-eq-done, >>=-transfer, >>=-of_done, done-injective}
use niba.Structs.{prelogin, SessionState, PlayerData, Player}
use niba.GameData.{StaticData}
use niba.Fight.Replay.{client_agrees}
use niba.Fight.Setup.{prep_fight}
use niba.Fight.Rounds.{Fight, go}
use niba.Fight.Start.{new_fight, my_status}
use niba.Fight.Sources.{ServerRng, rng_server, rng_client}
use niba.Fight.Clock.{at}
use niba.Message.{MessageFight}
use niba.Server.World.{Env}
use niba.Server.Play.{fight_delay, run_fight}
use niba.Client.Processor.{client_fight}

prep_fight_cong :
    {Real : Type 0} (tables : StaticData Real) (s t : SessionState) (id : ℤ)
    → s.player ≡ t.player
    → s.session_data ≡ t.session_data
    → prep_fight tables s id ≡ prep_fight tables t id
unfolding prep_fight
prep_fight_cong tables s t id p q =
    ap₂
      (λ (pl : Option Player) (a : PlayerData).
        prep_fight tables
          (record {
            state = prelogin;
            userid = none;
            player = pl;
            session_data = a;
            current_time = pos 0;
            earliest_time = pos 0;
          })
          id)
      p q

-- What the server does with a fight that has been fought.
abbrev report :
    (env : Env) → Fightable → ℕ × Fight → ServerRng env.Engine → Run (List ℤ × ℤ × env.Engine)
report env me (winner, fought) rng = do
  status ← my_status fought
  delay ←
      fight_delay env.double env.delay_factor (stats_of me).hp (stats_of status).hp
        fought.elapsed_ticks
  done (rng.generated, delay, rng.engine)

report-generated :
    (env : Env) (me : Fightable) (o : ℕ × Fight) (rng : ServerRng env.Engine) {generated : List ℤ}
    {delay : ℤ} {e : env.Engine}
    → report env me o rng ≡ done (generated, delay, e)
    → rng.generated ≡ generated
report-generated env me (winner, fought) rng h =
    let (status, _, h₁) = >>=-eq-done (my_status fought) _ h in
    let (delay, _, h₂) =
      >>=-eq-done
        (fight_delay env.double env.delay_factor (stats_of me).hp (stats_of status).hp
          fought.elapsed_ticks)
        _ h₁ in
    ap (λ (r : List ℤ × ℤ × env.Engine). r.0) (done-injective h₂)

-- Where the server's fight returns, the client, with the same tables and the same player and player
-- data in its session, fights the recorded fight to the end and adds the delay that the server adds.
pub client_fight-run_fight :
    (env : Env) (s t : SessionState) (m : MessageFight) (e e' : env.Engine) (delay : ℤ)
    → t.player ≡ s.player
    → t.session_data ≡ s.session_data
    → run_fight env s m.enemyid e ≡ done (m.generated, delay, e')
    → client_fight env.double env.asserts env.delay_factor env.tables env.fuel m t
      ≡ done (record t { earliest_time = t.earliest_time +ℤ delay *ℤ pos 1000000 })
unfolding run_fight client_fight
client_fight-run_fight env s t m e e' delay p q h =
    rw (prep_fight_cong env.tables t s m.enemyid p q) (
      >>=-transfer (prep_fight env.tables s m.enemyid) _ _
        (λ sides. >>=-transfer (at sides.0 0) _ _ (λ me h₁.
          let ((o, rng), e₁, h₂) =
            >>=-eq-done
              (go env.double env.asserts (rng_server env.uniform) env.fuel
                (new_fight sides.0 sides.1) (record { engine = e; generated = [] }))
              (λ ((o, rng) : (ℕ × Fight) × ServerRng env.Engine). report env me o rng) h₁ in
          >>=-of_done _ _ (
            subst
              (λ (l : List ℤ).
                go env.double env.asserts (rng_client env.asserts) env.fuel
                  (new_fight sides.0 sides.1) (record { internal_idx = 0; precomputed = l })
                ≡ done (o, record { internal_idx = length l; precomputed = l }))
              (report-generated env me o rng h₂)
              (client_agrees env.double env.asserts env.uniform env.fuel (new_fight sides.0 sides.1)
                e o rng e₁))
          ∙ >>=-transfer (my_status o.1) _ _
              (λ status.
                >>=-transfer
                  (fight_delay env.double env.delay_factor (stats_of me).hp (stats_of status).hp
                    o.1.elapsed_ticks)
                  _ _
                  (λ waited h₃.
                    ap
                      (λ (r : List ℤ × ℤ × env.Engine).
                        done (record t { earliest_time = t.earliest_time +ℤ r.1 *ℤ pos 1000000 }))
                      (done-injective h₃)))
              h₂))
        h)
