-- ===== src/Client/Reading.antt =====
-- The read loop of `client_session::start`, client/client_session.cpp.
use mathlib.Core.Path.{subst}
use niba.Prelude.{
  ◌≡◌, refl, ap, ◌∙◌, ◌⊎◌, ℕ, Bool, true, false, Option, none, some, sym, List, [], ◌∷◌, ◌++◌, All,
}
use niba.Prelude.Int.{ℤ, pos}
use niba.Prelude.Run.{
  Run, done, fault, thrown, undefined, asserted, out_of_fuel, ◌>>=◌, >>=-eq-done, done-injective,
}
use niba.Prelude.Double.{Double}
use niba.Wire.{JsonLib}
use niba.Wire.Members.{get_to}
use niba.Wire.Kinds.{Kind, login, Body}
use niba.Wire.Requests.{dispatcher}
use niba.Client.Session.{
  waiting, Request, Session, on_message, other_message, process_message, is_response, on_read,
}
use niba.Client.Waiting.{Fulfilled, Continued, on_read-progress}

-- What `async_read` comes to: a text, by what it parses to, with the time of its arrival and whether a
-- write that it leads to succeeds; or an error.
pub data Read (Json : Type 0) : Type 0 where
  incoming : Bool → ℤ → Run Json → Read Json
  ended : Read Json

-- The loop waits for the next text, or has returned at an error, or has broken off at an exception.
pub data Loop (S : Type 0) : Type 0 where
  reading returned : S → Loop S
  broken : Loop S

module _ (d : Double) (asserts : Bool) (delay_factor : d.Real) (fuel : ℕ) (J : JsonLib (d.Real))
    (fresh : (k : Kind) → Body (d.Real) k) where
  abbrev pub handled :
      Bool
      → ℤ
      → Run (J.Json)
      → Session d asserts delay_factor fuel J fresh
      → Run (Session d asserts delay_factor fuel J fresh)
  handled ok now parsed s = do j ← parsed; on_read d asserts delay_factor fuel J fresh ok now j s

  -- The `catch` around the body, and the rest of the loop.
  abbrev pub going_on :
      (Session d asserts delay_factor fuel J fresh
        → Run (Loop (Session d asserts delay_factor fuel J fresh)))
      → Run (Session d asserts delay_factor fuel J fresh)
      → Run (Loop (Session d asserts delay_factor fuel J fresh))
  going_on rest (done s) = rest s
  going_on rest (fault thrown) = done broken
  going_on rest (fault undefined) = fault undefined
  going_on rest (fault asserted) = fault asserted
  going_on rest out_of_fuel = out_of_fuel

  unfoldable pub read_loop :
      List (Read (J.Json))
      → Session d asserts delay_factor fuel J fresh
      → Run (Loop (Session d asserts delay_factor fuel J fresh))
  read_loop [] s = done (reading s)
  read_loop (ended ∷ reads) s = done (returned s)
  read_loop (incoming ok now parsed ∷ reads) s =
      going_on (read_loop reads) (handled ok now parsed s)

  -- Nothing is read where the connection has not come about; `block_until_ready` throws then.
  unfoldable pub client_start :
      Bool
      → List (Read (J.Json))
      → Session d asserts delay_factor fuel J fresh
      → Run (Loop (Session d asserts delay_factor fuel J fresh))
  unfolding read_loop
  client_start false reads s = done (returned s)
  client_start true reads s = read_loop reads s

  -- A text that is no response.
  abbrev pub IsOther : Read (J.Json) → Type 0
  IsOther ended = ⊥
  IsOther (incoming ok now parsed) =
      (j : J.Json) × (tag : ℤ) × (parsed ≡ done j)
      × (get_to J J.get_number j "tag" ≡ done tag)
      × (is_response d asserts delay_factor fuel J fresh tag ≡ false)

  -- The promise and the request are left as they were.
  abbrev Kept :
      Session d asserts delay_factor fuel J fresh
      → Session d asserts delay_factor fuel J fresh
      → Type 0
  Kept s t = (t.promise ≡ s.promise) × (t.request ≡ s.request)

  other_message-Kept :
      (j : J.Json) (s : Session d asserts delay_factor fuel J fresh)
      {t : Session d asserts delay_factor fuel J fresh}
      → other_message d asserts delay_factor fuel J fresh j s ≡ done t
      → Kept s t
  unfolding other_message
  other_message-Kept j s h =
      let (m, e, h') = >>=-eq-done (dispatcher J fresh j) _ h in
      let (c, e', h'') =
        >>=-eq-done (process_message d asserts delay_factor fuel J fresh m s.copy)
          (λ c. done (record s { copy = c })) h' in
      subst (Kept s) (done-injective h'') (refl, refl)

  on_message-other :
      (ok : Bool) (now : ℤ) (q : Option (Request (d.Real))) (j : J.Json)
      (s : Session d asserts delay_factor fuel J fresh)
      → on_message d asserts delay_factor fuel J fresh ok now q false j s
        ≡ other_message d asserts delay_factor fuel J fresh j s
  on_message-other ok now none j s = refl
  on_message-other ok now (some (k, m)) j s = refl

  handled-Kept :
      (ok : Bool) (now : ℤ) (parsed : Run (J.Json))
      (s : Session d asserts delay_factor fuel J fresh)
      {t : Session d asserts delay_factor fuel J fresh}
      → IsOther (incoming ok now parsed)
      → handled ok now parsed s ≡ done t
      → Kept s t
  unfolding on_read
  handled-Kept ok now parsed s {t} (j, tag, e, e', other) h =
      let told = on_message d asserts delay_factor fuel J fresh ok now s.request in
      other_message-Kept j s (
        sym (
          ap (λ p. handled ok now p s) e
          ∙ ap (λ x. x >>= λ n. told (is_response d asserts delay_factor fuel J fresh n) j s) e'
          ∙ ap (λ b. told b j s) other
          ∙ on_message-other ok now s.request j s)
        ∙ h)

  going_on-reading :
      (rest : Session d asserts delay_factor fuel J fresh
        → Run (Loop (Session d asserts delay_factor fuel J fresh)))
      (x : Run (Session d asserts delay_factor fuel J fresh))
      {t : Session d asserts delay_factor fuel J fresh}
      → going_on rest x ≡ done (reading t)
      → (u : Session d asserts delay_factor fuel J fresh) × (x ≡ done u)
        × (rest u ≡ done (reading t))
  going_on-reading rest (done u) h = (u, refl, h)
  going_on-reading rest (fault thrown) h = cc
  going_on-reading rest (fault undefined) h = cc
  going_on-reading rest (fault asserted) h = cc
  going_on-reading rest out_of_fuel h = cc

  reading-injective :
      {s t : Session d asserts delay_factor fuel J fresh}
      → ◌≡◌ {A = Run (Loop (Session d asserts delay_factor fuel J fresh))}
          (done (reading s))
          (done (reading t))
      → s ≡ t
  reading-injective h = cc

  -- Where the main thread waits for the response to a request, and the loop reads any number of texts
  -- that are no responses, and then a response, and goes on: the promise is fulfilled; or the request
  -- was a log-in, and the one for the tables, which follows it, is under way.
  pub read_loop-progress :
      (messages : List (Read (J.Json))) (ok : Bool) (now : ℤ) (k : Kind) (m : Body (d.Real) k)
      (j : J.Json) (s t : Session d asserts delay_factor fuel J fresh)
      → All IsOther messages
      → s.promise ≡ waiting
      → s.request ≡ some (k, m)
      → get_to J J.get_number j "tag" ≡ done (pos 1)
      → read_loop (messages ++ (incoming ok now (done j) ∷ [])) s ≡ done (reading t)
      → Fulfilled d asserts delay_factor fuel J fresh t
        ⊎ (Continued d asserts delay_factor fuel J fresh t × (k ≡ login))
  unfolding read_loop
  read_loop-progress [] ok now k m j s t others w r g h =
      let (u, e, h') = going_on-reading (read_loop []) (handled ok now (done j) s) h in
      on_read-progress d asserts delay_factor fuel J fresh ok now k m j s t w r g
        (e ∙ ap done (reading-injective h'))
  read_loop-progress (ended ∷ messages) ok now k m j s t others w r g h = absurd others.0
  read_loop-progress (incoming ok' now' parsed ∷ messages) ok now k m j s t others w r g h =
      let (u, e, h') =
        going_on-reading (read_loop (messages ++ (incoming ok now (done j) ∷ [])))
          (handled ok' now' parsed s) h in
      let (p, q) = handled-Kept ok' now' parsed s others.0 e in
      read_loop-progress messages ok now k m j u t others.1 (p ∙ w) (q ∙ r) g h'
