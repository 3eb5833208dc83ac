-- ===== src/Server/Refusals.antt =====
-- The requests that `dispatch` refuses.
use niba.Prelude.{◌≡◌, refl, ap, ◌∙◌, ◌⊎◌, inl, inr, true, false, Bool-cases, if◌then◌else◌, List}
use niba.Prelude.Int.{ℤ, pos, ltb_ℤ, ◌+ℤ◌, ◌*ℤ◌}
use niba.Prelude.Run.{Run, done, fault, thrown}
use niba.Prelude.Exec.{lift, ◌>>=◌}
use niba.Structs.{SessionState}
use niba.GameData.{StaticData}
use niba.Message.{Message, MessageFight}
use niba.Message.Validate.{
  validate, validate_registration, validate_login, validate_getdata, validate_fight,
  validate_createchar, validate_learnmagic, validate_fusemagic, validate_reordermagic,
  validate_send,
}
use niba.Server.World.{Env, World}
use niba.Server.Play.{run_fight, finish_fight, process_fight}
use niba.Server.Dispatch.{Msg, request_error, respond, validated, answer, handle, dispatch}

-- No check depends on the times of the session.
validate-times :
    {Real : Type 0} (tables : StaticData Real) (s : SessionState) (now earliest : ℤ)
    (m : Message Real)
    → validate tables (record s { current_time = now; earliest_time = earliest }) m
      ≡ validate tables s m
unfolding validate validate_registration validate_login validate_getdata validate_fight
    validate_createchar validate_learnmagic validate_fusemagic validate_reordermagic validate_send
validate-times tables s now earliest (Message.registration m) = refl
validate-times tables s now earliest (Message.login m) = refl
validate-times tables s now earliest (Message.getdata m) = refl
validate-times tables s now earliest (Message.fight m) = refl
validate-times tables s now earliest (Message.createchar m) = refl
validate-times tables s now earliest (Message.learnmagic m) = refl
validate-times tables s now earliest (Message.fusemagic m) = refl
validate-times tables s now earliest (Message.reordermagic m) = refl
validate-times tables s now earliest (Message.echo m) = refl
validate-times tables s now earliest (Message.send m) = refl

module _ (env : Env) where
  open env use {Store, Engine, tables}

  -- The request comes too early, is no message, or is one that the session may not send.
  abbrev pub Refused : ℤ → Run (Msg env) → World Store Engine → Type 0
  Refused now parsed w =
      (ltb_ℤ now w.session.earliest_time ≡ true)
      ⊎ ((parsed ≡ fault thrown)
          ⊎ ((m : Msg env) × (parsed ≡ done m) × (validate tables w.session m ≡ done false)))

  -- A refused request changes the two times alone: the earliest time too, unless it came too early.
  abbrev pub stamped : ℤ → World Store Engine → World Store Engine
  stamped now w = record w {
    session = record (w.session) {
      current_time = now;
      earliest_time = if ltb_ℤ now w.session.earliest_time then w.session.earliest_time else now;
    };
  }

  answer-invalid :
      (now : ℤ) (m : Msg env) (w : World Store Engine)
      → validate tables (record (w.session) { earliest_time = now }) m ≡ done false
      → answer env now (done m) w
        ≡ (fault thrown, record w { session = record (w.session) { earliest_time = now } })
  unfolding answer validated
  answer-invalid now m w h =
      ap
        (λ r.
          (lift r >>= validated env m)
            (record w { session = record (w.session) { earliest_time = now } }))
        h

  -- A request that comes too early, is no message or is not valid in the session is answered by the
  -- error response, and nothing but the two times of the session changes.
  pub dispatch-Refused :
      (now : ℤ) (parsed : Run (Msg env)) (w : World Store Engine)
      → Refused now parsed w
      → dispatch env now parsed w ≡ (done request_error, stamped now w)
  unfolding dispatch handle answer validated
  dispatch-Refused now parsed w (inl early) = rw early refl
  dispatch-Refused now parsed w (inr (inl h)) =
      elim (Bool-cases (ltb_ℤ now w.session.earliest_time)) [
        | inl early ↦ rw early refl
        | inr late ↦ rw late (rw h refl)
      ]
  dispatch-Refused now parsed w (inr (inr (m, h, v))) =
      elim (Bool-cases (ltb_ℤ now w.session.earliest_time)) [
        | inl early ↦ rw early refl
        | inr late ↦ rw late (
            rw h (
              ap (λ (p : Run (Msg env) × World Store Engine). respond env p.0 p.1)
                (answer-invalid now m
                  (record w { session = record (w.session) { current_time = now } })
                  (validate-times tables w.session now now m ∙ v))))
      ]

  -- After a fight that returns, every request is refused until the delay of the fight is over.
  pub dispatch-after_fight :
      (req : MessageFight) (w : World Store Engine) (generated : List ℤ) (delay : ℤ) (e : Engine)
      (now : ℤ) (parsed : Run (Msg env))
      → run_fight env w.session req.enemyid w.engine ≡ done (generated, delay, e)
      → ltb_ℤ now (w.session.earliest_time +ℤ delay *ℤ pos 1000000) ≡ true
      → dispatch env now parsed ((process_fight env req w).1)
        ≡ (done request_error, stamped now ((process_fight env req w).1))
  unfolding process_fight finish_fight
  dispatch-after_fight req w generated delay e now parsed h early =
      dispatch-Refused now parsed ((process_fight env req w).1) (inl (rw h early))
