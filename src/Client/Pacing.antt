-- ===== src/Client/Pacing.antt =====
-- The wait of client/main.cpp before a command, and the test of server/server_processor.cpp for a
-- request that comes too early.
use mathlib.Core.Path.{subst}
use niba.Prelude.{ℕ, ◌≡◌, ◌⊎◌, refl, ap, ◌∙◌, sym, true, false, arith, List, inl, inr, Bool-cases}
use niba.Prelude.Int.{ℤ, pos, ◌+ℤ◌, ◌*ℤ◌, ◌≤ℤ◌, ltb_ℤ, eqb_ℤ, eqb_ℤ_iff, +ℤ_parts}
use niba.Prelude.Run.{Run, done, done-injective, fault, out_of_fuel}
use niba.Structs.{SessionState}
use niba.Message.{Message, MessageFight}
use niba.Wire.{JsonLib, IsLawful}
use niba.Wire.Kinds.{Kind, fight, Body}
use niba.Wire.Requests.{received}
use niba.Server.World.{Env, World}
use niba.Server.Dispatch.{Msg, response, process, answer, handle}
use niba.Server.Play.{run_fight, finish_fight, process_fight}
use niba.Server.Answered.{timed, wrapped-done}
use niba.Client.Processor.{receive, client_fight}
use niba.Client.Agreement.{client_fight-run_fight}
use niba.Client.Responses.{Copy, with_session, client_process}
use niba.Client.Session.{earliest}
use niba.Client.Exchange.{ask, told, told-answered, asked-processed}
use niba.Client.Main.{waited}

not_before : (a b : ℤ) → a ≤ℤ b → ltb_ℤ b a ≡ false
not_before a b h = ground arith

le_trans : (a b c : ℤ) → a ≤ℤ b → b ≤ℤ c → a ≤ℤ c
le_trans a b c h k = omega (arith, h, k)

le_plus : (a : ℤ) (n : ℕ) → a ≤ℤ (a +ℤ pos n)
le_plus a n = omega (arith, +ℤ_parts a (pos n))

plus_le : (a b c : ℤ) → a ≤ℤ b → (a +ℤ c) ≤ℤ (b +ℤ c)
plus_le a b c h = omega (arith, h, +ℤ_parts a c, +ℤ_parts b c)

waited-after :
    (e now : ℤ) (overslept : ℕ) → (e ≤ℤ waited e now overslept) × (now ≤ℤ waited e now overslept)
unfolding waited
waited-after e now overslept = elim (Bool-cases (ltb_ℤ now e)) [
  | inl early ↦ rw early (
    le_plus e overslept,
    le_trans now e (e +ℤ pos overslept) (ground arith) (le_plus e overslept),
  )
  | inr late ↦ rw late (ground arith, omega arith)
]

-- `earliest` of a session that a fight has delayed.
earliest-delayed :
    (s : SessionState) (later delay : ℤ)
    → (later +ℤ delay ≡ later)
      ⊎ (earliest true (record s { current_time = later; earliest_time = later +ℤ delay })
          ≡ later +ℤ delay)
unfolding earliest
earliest-delayed s later delay = elim (Bool-cases (eqb_ℤ (later +ℤ delay) later)) [
  | inl same ↦ inl ((eqb_ℤ_iff (later +ℤ delay) later).0 same)
  | inr other ↦ inr (rw other refl)
]

waited-past :
    (now later delay : ℤ) (thinking overslept : ℕ) (s : SessionState)
    → now ≤ℤ later
    → (now +ℤ delay)
      ≤ℤ waited
          (earliest true (record s { current_time = later; earliest_time = later +ℤ delay }))
          (later +ℤ pos thinking)
          overslept
waited-past now later delay thinking overslept s h =
    let e = earliest true (record s { current_time = later; earliest_time = later +ℤ delay }) in
    let t = waited e (later +ℤ pos thinking) overslept in
    let (past, after) = waited-after e (later +ℤ pos thinking) overslept in
    le_trans (now +ℤ delay) (later +ℤ delay) t (plus_le now later delay h)
      (elim (earliest-delayed s later delay) [
        | inl same ↦
            le_trans (later +ℤ delay) (later +ℤ pos thinking) t
              (subst (λ z. z ≤ℤ (later +ℤ pos thinking)) (sym same) (le_plus later thinking)) after
        | inr delayed ↦ subst (λ z. z ≤ℤ t) delayed past
      ])

fight-injective :
    (Real : Type 0) {a b : MessageFight}
    → ◌≡◌ {A = Message Real} (Message.fight a) (Message.fight b)
    → a ≡ b
fight-injective Real h = cc

module _ (env : Env) where
  open env use {Store, Engine}

  -- What a request that is not too early is answered in.
  abbrev pub at_time : ℤ → World Store Engine → World Store Engine
  at_time now w = record w { session = record (w.session) { current_time = now } }

  handle-late :
      (now : ℤ) (parsed : Run (Msg env)) (w : World Store Engine)
      → w.session.earliest_time ≤ℤ now
      → handle env now parsed w ≡ answer env now parsed (at_time now w)
  unfolding handle
  handle-late now parsed w h = rw (not_before w.session.earliest_time now h) refl

  finished :
      (req : MessageFight) (x : Run (List ℤ × ℤ × Engine)) (w v : World Store Engine)
      {r : MessageFight}
      → finish_fight env req x w ≡ (done r, v)
      → (delay : ℤ) × (e : Engine) × (x ≡ done (r.generated, delay, e))
        × (v.session.earliest_time ≡ w.session.earliest_time +ℤ delay *ℤ pos 1000000)
  unfolding finish_fight
  finished req (done (generated, delay, e)) w v h =
      let made = done-injective (ap (λ (p : Run MessageFight × World Store Engine). p.0) h) in
      (
        delay,
        e,
        ap (λ (m : MessageFight). done (m.generated, delay, e)) made,
        ap (λ (p : Run MessageFight × World Store Engine). p.1.session.earliest_time) (sym h),
      )
  finished req (fault x) w v h = cc
  finished req out_of_fuel w v h = cc

  module _ (J : JsonLib (env.double.Real)) (lawful : IsLawful J)
      (fresh : (k : Kind) → Body (env.double.Real) k) where
    open env use {double, tables}

    -- Where the server answers a fight that was asked for over JSON, the client, with the same tables and
    -- the same player and player data, fights it to the end as well; and the next command that its main
    -- loop hands over does not come to the server too early, if the response came no sooner than the
    -- server began with the fight, and the command comes no sooner than it is handed over.
    pub exchange-fight_paced :
        (m r : MessageFight) (w v : World Store Engine) (now later : ℤ) (c : Copy (double.Real))
        (thinking overslept latency : ℕ) (parsed : Run (Msg env))
        → ask env J lawful fresh now fight m w ≡ (done (response (Message.fight r)), v)
        → c.tables ≡ tables
        → c.session.player ≡ w.session.player
        → c.session.session_data ≡ w.session.session_data
        → now ≤ℤ later
        → (t : Copy (double.Real)) × (told env J lawful fresh later fight m r c ≡ done t)
          × (handle env
                (waited (earliest true t.session) (later +ℤ pos thinking) overslept +ℤ pos latency)
                parsed
                v
              ≡ answer env
                  (waited (earliest true t.session) (later +ℤ pos thinking) overslept
                    +ℤ pos latency)
                  parsed
                  (at_time
                    (waited (earliest true t.session) (later +ℤ pos thinking) overslept
                      +ℤ pos latency)
                    v))
    unfolding process process_fight client_process receive
    exchange-fight_paced m r w v now later c thinking overslept latency parsed h same p q l =
        let req = received J fight (fresh fight) m in
        let (a, e, f) =
          wrapped-done env Message.fight (process_fight env req) (timed env now w)
            (asked-processed env J lawful fresh now fight m w h) in
        let (delay, e', ran, ends) =
          finished req (run_fight env (timed env now w).session m.enemyid w.engine)
            (timed env now w) v (e ∙ ap (λ x. (done x, v)) (fight-injective (double.Real) f)) in
        let merged = record m { success = r.success; generated = r.generated } in
        let fought =
          client_fight-run_fight env (timed env now w).session (receive later c.session) merged
            w.engine e' delay p q ran in
        let s = record (c.session) {
          current_time = later;
          earliest_time = later +ℤ delay *ℤ pos 1000000;
        } in
        let t : Copy (double.Real) = record c { session = s } in
        let handed = waited (earliest true s) (later +ℤ pos thinking) overslept in
        (
          t,
          told-answered env J lawful fresh later fight m r c
              ∙ ap
                  (λ tables. with_session c (
                    client_fight double env.asserts env.delay_factor tables env.fuel merged
                      (receive later c.session)))
                  same
              ∙ ap (with_session c) fought,
          handle-late (handed +ℤ pos latency) parsed v (
              subst (λ z. z ≤ℤ (handed +ℤ pos latency)) (sym ends)
                (le_trans (now +ℤ delay *ℤ pos 1000000) handed (handed +ℤ pos latency)
                  (waited-past now later (delay *ℤ pos 1000000) thinking overslept c.session l)
                  (le_plus handed latency))),
        )
