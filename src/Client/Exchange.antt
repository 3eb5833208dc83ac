-- ===== src/Client/Exchange.antt =====
-- A request from the client through JSON to the server of server/server_processor.cpp, and the
-- response back through JSON to the client of client/client_processor.cpp.
use mathlib.Core.Path.{subst}
use niba.Prelude.{◌≡◌, refl, ap, ◌∙◌, true, if◌then◌else◌}
use niba.Prelude.Int.{ℤ}
use niba.Prelude.Run.{Run, done, fault, out_of_fuel, ◌>>=◌}
use niba.Structs.{SessionState}
use niba.Message.{Message, MessageLearnmagic}
use niba.Wire.{JsonLib, IsLawful}
use niba.Wire.Kinds.{Kind, learnmagic, Body, message_of}
use niba.Wire.Requests.{base_create_request, dispatcher, received, dispatcher-base_create_request}
use niba.Wire.Responses.{base_create_response, base_merge_response}
use niba.Wire.Answers.{answered, base_merge_response-base_create_response}
use niba.Server.World.{Env, World}
use niba.Server.Dispatch.{Response, response, process, dispatch}
use niba.Server.Magics.{process_learnmagic}
use niba.Server.Answered.{timed, dispatch-processed, wrapped-done}
use niba.Client.Processor.{receive, client_learnmagic}
use niba.Client.Learning.{client_learnmagic-process}
use niba.Client.Responses.{Copy, client_process, process_response}

chained :
    {A B C : Type 0} (m : Run A) (f : A → Run B) (g : B → Run C) {b : B}
    → (m >>= f) ≡ done b
    → (m >>= λ a. f a >>= g) ≡ g b
chained (done a) f g h = rw h refl
chained (fault e) f g h = cc
chained out_of_fuel f g h = cc

learnmagic-injective :
    (Real : Type 0) {a b : MessageLearnmagic}
    → ◌≡◌ {A = Message Real} (Message.learnmagic a) (Message.learnmagic b)
    → a ≡ b
learnmagic-injective Real h = cc

-- The client reads of a learned magic what the response carries.
learned_same :
    (m r : MessageLearnmagic) (t : SessionState)
    → r.success ≡ true
    → client_learnmagic
        (record m { success = r.success; magic = if r.success then r.magic else m.magic })
        t
      ≡ client_learnmagic r t
unfolding client_learnmagic
learned_same m r t s = rw s refl

module _ (env : Env) (J : JsonLib (env.double.Real)) (lawful : IsLawful J)
    (fresh : (k : Kind) → Body (env.double.Real) k) where
  open env use {Store, Engine, double, asserts, delay_factor, fuel}

  -- What the server answers to a request that comes as JSON.
  abbrev pub ask :
      ℤ
      → (k : Kind) → Body (double.Real) k
      → World Store Engine
      → Run (Response (double.Real)) × World Store Engine
  ask now k m = dispatch env now (base_create_request J k m >>= dispatcher J fresh)

  -- What the client comes to, of the response to its request `m`.
  abbrev pub told :
      ℤ → (k : Kind) → (m r : Body (double.Real) k) → Copy (double.Real) → Run (Copy (double.Real))
  told now k m r c = base_create_response J k r >>= λ j.
      process_response double asserts delay_factor fuel J now k m j c

  pub told-answered :
      (now : ℤ) (k : Kind) (m r : Body (double.Real) k) (c : Copy (double.Real))
      → told now k m r c
        ≡ client_process double asserts delay_factor fuel J k
            (answered (double.Real) k m r)
            (record c { session = receive now c.session })
  unfolding process_response
  told-answered now k m r c =
      chained (base_create_response J k r) (base_merge_response J k m)
        (λ merged.
          client_process double asserts delay_factor fuel J k merged
            (record c { session = receive now c.session }))
        (base_merge_response-base_create_response (double.Real) J lawful k m r)

  -- What is asked has been processed, for a message with the members that the request carries.
  pub asked-processed :
      (now : ℤ) (k : Kind) (m : Body (double.Real) k) (w : World Store Engine)
      {r : Message (double.Real)} {v : World Store Engine}
      → ask now k m w ≡ (done (response r), v)
      → process env (message_of (double.Real) k (received J k (fresh k) m)) (timed env now w)
        ≡ (done r, v)
  asked-processed now k m w {r} {v} h =
      dispatch-processed env now (message_of (double.Real) k (received J k (fresh k) m)) w (
        subst (λ p. dispatch env now p w ≡ (done (response r), v))
          (dispatcher-base_create_request J lawful fresh k m) h)

  -- Where the server learns a magic by a request that came as JSON, and says so, the client, with the
  -- player data that the server had before, ends with the player data that the server has after, once
  -- it has read the response.
  pub exchange-learnmagic :
      (m r : MessageLearnmagic) (w v : World Store Engine) (now later : ℤ) (c : Copy (double.Real))
      → ask now learnmagic m w ≡ (done (response (Message.learnmagic r)), v)
      → r.success ≡ true
      → c.session.session_data ≡ w.session.session_data
      → told later learnmagic m r c
        ≡ done (record c {
          session = record (receive later c.session) { session_data = v.session.session_data };
        })
  unfolding client_process process receive
  exchange-learnmagic m r w v now later c h s same =
      let req = received J learnmagic (fresh learnmagic) m in
      let (a, e, f) =
        wrapped-done env Message.learnmagic (process_learnmagic env req) (timed env now w)
          (asked-processed now learnmagic m w h) in
      told-answered later learnmagic m r c
      ∙ ap (λ t. done (record c { session = t }))
          (learned_same m r (receive later c.session) s
            ∙ client_learnmagic-process env (receive later c.session) req r (timed env now w) v
                (e ∙ ap (λ x. (done x, v)) (learnmagic-injective (double.Real) f)) s same)
