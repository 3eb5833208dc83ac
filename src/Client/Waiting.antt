-- ===== src/Client/Waiting.antt =====
-- What the main thread of the client waits for: the promise of client/client_session.cpp.
use mathlib.Core.Path.{subst}
use niba.Prelude.{
  ℕ, ◌≡◌, refl, sym, ap, ◌∙◌, ◌⊎◌, inl, inr, Bool, true, false, Option, none, some, [], ◌∷◌, ◌++◌,
  Bool-cases, if◌then◌else◌,
}
use niba.Prelude.Int.{ℤ, pos}
use niba.Prelude.Run.{done, ◌>>=◌, >>=-eq-done, done-injective}
use niba.Prelude.Double.{Double}
use niba.Wire.{JsonLib}
use niba.Wire.Members.{get_to}
use niba.Wire.Kinds.{
  Kind, login, registeration, createchar, getdata, fight, learnmagic, fusemagic, reordermagic, echo,
  send, Body,
}
use niba.Wire.Requests.{base_create_request}
use niba.Wire.Responses.{base_merge_response}
use niba.Client.Processor.{receive}
use niba.Client.Responses.{client_process}
use niba.Client.Session.{
  Promise, waiting, fulfilled, Session, set_value, fulfil, write_message, after_response,
  on_response, on_message, on_read, is_response,
}

set_value-fulfilled :
    (o : Option Kind) (p : Promise) {q : Promise} → set_value o p ≡ done q → q ≡ fulfilled o
set_value-fulfilled o waiting h = sym (done-injective h)
set_value-fulfilled o (fulfilled x) h = cc

module _ (d : Double) (asserts : Bool) (delay_factor : d.Real) (fuel : ℕ) (J : JsonLib (d.Real))
    (fresh : (k : Kind) → Body (d.Real) k) where
  abbrev pub Fulfilled : Session d asserts delay_factor fuel J fresh → Type 0
  Fulfilled t = (o : Option Kind) × (t.promise ≡ fulfilled o)

  -- The request for the tables is under way.
  abbrev pub Continued : Session d asserts delay_factor fuel J fresh → Type 0
  Continued t = (t.promise ≡ waiting) × (t.request ≡ some (getdata, fresh getdata))

  fulfil-Fulfilled :
      (o : Option Kind) (s : Session d asserts delay_factor fuel J fresh)
      {t : Session d asserts delay_factor fuel J fresh}
      → fulfil o s ≡ done t
      → Fulfilled t
  fulfil-Fulfilled o s {t} h =
      let (p, e, k) =
        >>=-eq-done (set_value o s.promise) (λ promise. done (record s { promise = promise })) h in
      (
        o,
        ap (λ (u : Session d asserts delay_factor fuel J fresh). u.promise) (sym (done-injective k))
            ∙ set_value-fulfilled o s.promise e,
      )

  write_message-Waiting :
      (ok : Bool) (s : Session d asserts delay_factor fuel J fresh)
      {t : Session d asserts delay_factor fuel J fresh}
      → s.promise ≡ waiting
      → write_message d asserts delay_factor fuel J fresh ok getdata (fresh getdata) s ≡ done t
      → Fulfilled t ⊎ Continued t
  unfolding write_message
  write_message-Waiting true s {t} w h =
      let (j, e, k) =
        >>=-eq-done (base_create_request J getdata (fresh getdata))
          (λ j.
            done (record s {
              request = some (getdata, fresh getdata);
              written = s.written ++ (j ∷ []);
            }))
          h in
      inr (subst Continued (done-injective k) (w, refl))
  write_message-Waiting false s {t} w h =
      let (j, e, k) =
        >>=-eq-done (base_create_request J getdata (fresh getdata))
          (λ j. do t ← fulfil none s; done (record t { request = none })) h in
      let (u, f, g) = >>=-eq-done (fulfil none s) (λ t. done (record t { request = none })) k in
      let (o, p) = fulfil-Fulfilled none s f in inl (subst Fulfilled (done-injective g) (o, p))

  after_response-Waiting :
      (ok : Bool) (k : Kind) (s : Session d asserts delay_factor fuel J fresh)
      {t : Session d asserts delay_factor fuel J fresh}
      → s.promise ≡ waiting
      → after_response d asserts delay_factor fuel J fresh ok k s ≡ done t
      → Fulfilled t ⊎ (Continued t × (k ≡ login))
  after_response-Waiting ok login s w h = elim (write_message-Waiting ok s w h) [
    | inl f ↦ inl f
    | inr c ↦ inr (c, refl)
  ]
  after_response-Waiting ok registeration s w h = inl (fulfil-Fulfilled (some registeration) s h)
  after_response-Waiting ok createchar s w h = inl (fulfil-Fulfilled (some createchar) s h)
  after_response-Waiting ok getdata s w h = inl (fulfil-Fulfilled (some getdata) s h)
  after_response-Waiting ok fight s w h = inl (fulfil-Fulfilled (some fight) s h)
  after_response-Waiting ok learnmagic s w h = inl (fulfil-Fulfilled (some learnmagic) s h)
  after_response-Waiting ok fusemagic s w h = inl (fulfil-Fulfilled (some fusemagic) s h)
  after_response-Waiting ok reordermagic s w h = inl (fulfil-Fulfilled (some reordermagic) s h)
  after_response-Waiting ok echo s w h = inl (fulfil-Fulfilled (some echo) s h)
  after_response-Waiting ok send s w h = inl (fulfil-Fulfilled (some send) s h)

  on_response-Waiting :
      (ok : Bool) (now : ℤ) (k : Kind) (m : Body (d.Real) k) (j : J.Json)
      (s : Session d asserts delay_factor fuel J fresh)
      {t : Session d asserts delay_factor fuel J fresh}
      → s.promise ≡ waiting
      → on_response d asserts delay_factor fuel J fresh ok now k m j s ≡ done t
      → Fulfilled t ⊎ (Continued t × (k ≡ login))
  unfolding on_response
  on_response-Waiting ok now k m j s w h =
      let (merged, e, f) =
        >>=-eq-done (base_merge_response J k m j)
          (λ merged. do
            c ←
                client_process d asserts delay_factor fuel J k merged
                  (record (s.copy) { session = receive now s.copy.session })
            after_response d asserts delay_factor fuel J fresh ok k
                (record s { copy = c; request = some (k, merged) }))
          h in
      let (c, e', g) =
        >>=-eq-done
          (client_process d asserts delay_factor fuel J k merged
            (record (s.copy) { session = receive now s.copy.session }))
          (λ c.
            after_response d asserts delay_factor fuel J fresh ok k
              (record s { copy = c; request = some (k, merged) }))
          f in
      after_response-Waiting ok k (record s { copy = c; request = some (k, merged) }) w g

  -- Where a response is read to the request that the main thread waits for, and reading does not
  -- break off, its promise is fulfilled; or the request was a log-in, and the one for the tables, which
  -- follows it, is under way.
  pub on_read-progress :
      (ok : Bool) (now : ℤ) (k : Kind) (m : Body (d.Real) k) (j : J.Json)
      (s t : Session d asserts delay_factor fuel J fresh)
      → s.promise ≡ waiting
      → s.request ≡ some (k, m)
      → get_to J J.get_number j "tag" ≡ done (pos 1)
      → on_read d asserts delay_factor fuel J fresh ok now j s ≡ done t
      → Fulfilled t ⊎ (Continued t × (k ≡ login))
  unfolding on_read
  on_read-progress ok now k m j s t w r g h =
      let h' : on_message d asserts delay_factor fuel J fresh ok now s.request true j s ≡ done t =
        subst
          (λ x.
            (x >>= λ tag.
            on_message d asserts delay_factor fuel J fresh ok now s.request
              (is_response d asserts delay_factor fuel J fresh tag) j s)
            ≡ done t)
          g h in
      let h'' =
        subst (λ q. on_message d asserts delay_factor fuel J fresh ok now q true j s ≡ done t) r
          h' in
      let by : Bool → Type 0 = λ b.
        (if b
          then (do err ← get_to J J.get_text j "error"; fulfil none s)
          else on_response d asserts delay_factor fuel J fresh ok now k m j s)
        ≡ done t in
      elim (Bool-cases (J.contains j "error")) [
        | inl e ↦
            let (err, x, y) =
              >>=-eq-done (get_to J J.get_text j "error") (λ err. fulfil none s) (subst by e h'') in
            inl (fulfil-Fulfilled none s y)
        | inr e ↦ on_response-Waiting ok now k m j s w (subst by e h'')
      ]
