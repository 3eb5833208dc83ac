-- ===== src/Server/Queue/Order.antt =====
-- One write at a time, in the order of the calls: the queue of server/server_session.cpp.
use niba.Prelude.{
  suc, ◌≡◌, refl, sym, ap, ◌∙◌, ◌≢◌, ◌⊎◌, inl, inr, String, false, ◌==◌, List, [], ◌∷◌, ◌++◌, map,
  append_assoc, length, length-append, arith, Bool-cases, List-cases,
}
use niba.Server.Queue.{
  Outcome, sent, closed, failed, Writer, write_front, write, pop, written, Reaches, start, calls,
  finishes,
}

-- The front of the queue is being written, and nothing else.
abbrev pub WritesFront : Writer → Type 0
WritesFront w =
    (front : String) × (rest : List String) × (w.write_queue ≡ front ∷ rest)
    × (w.writing ≡ front ∷ [])

abbrev pub texts_of : List (String × Outcome) → List String
texts_of = map (λ (text, o). text)

abbrev pub InFlight : Writer → Type 0
InFlight w = (w.writing ≡ []) ⊎ WritesFront w

single-append :
    {front text : String} (before after : List String)
    → front ∷ [] ≡ before ++ (text ∷ after)
    → (before ++ after ≡ []) × (text ≡ front)
single-append [] after h = (cc, cc)
single-append (b ∷ []) after h = cc
single-append (b ∷ (c ∷ before)) after h = cc

pub nothing-append : (text : String) (before after : List String) → [] ≢ before ++ (text ∷ after)
nothing-append text [] after h = cc
nothing-append text (b ∷ before) after h = cc

-- A write that finishes was the front's, and the only one.
pub finished :
    {text : String} (w : Writer) (before after : List String)
    → InFlight w
    → w.writing ≡ before ++ (text ∷ after)
    → (before ++ after ≡ []) × (w.write_queue ≡ text ∷ pop w.write_queue)
finished {text} w before after (inl e) h = absurd (nothing-append text before after (sym e ∙ h))
finished w before after (inr (front, rest, q, e)) h =
    let (none_left, same) = single-append before after (sym e ∙ h) in (none_left, rw (q, same) refl)

-- To start a write.
write_front-InFlight : (w : Writer) → w.writing ≡ [] → InFlight (write_front w)
unfolding write_front
write_front-InFlight w e = elim (List-cases w.write_queue) [
  | inl q ↦ rw q (inl e)
  | inr (front, rest, q) ↦ rw q (inr (front, rest, refl, ap (λ l. front ∷ l) e))
]

write_front_queue : (w : Writer) → (write_front w).write_queue ≡ w.write_queue
unfolding write_front
write_front_queue w = elim (List-cases w.write_queue) [
  | inl q ↦ rw q refl
  | inr (front, rest, q) ↦ rw q refl
]

write-InFlight : (text : String) (w : Writer) → InFlight w → InFlight (write text w)
unfolding write
write-InFlight text w (inl e) = elim (Bool-cases (length (w.write_queue ++ (text ∷ [])) == 1)) [
  | inl b ↦ rw b (write_front-InFlight (record w { write_queue = w.write_queue ++ (text ∷ []) }) e)
  | inr b ↦ rw b (inl e)
]
write-InFlight text w (inr (front, rest, q, e)) =
    let more = length-append rest (text ∷ []) in
    let b : (suc (length (rest ++ (text ∷ []))) == 1) ≡ false = ground (arith, more) in
    rw (q, b) (inr (front, rest ++ (text ∷ []), refl, e))

written-InFlight :
    (o : Outcome) (others : List String) (w : Writer) → others ≡ [] → InFlight (written o others w)
unfolding written
written-InFlight sent others w e =
    write_front-InFlight (record { write_queue = pop w.write_queue; writing = others }) e
written-InFlight closed others w e = inl e
written-InFlight failed others w e = inl e

-- In every state that the writer comes to, nothing is written, or the front of the queue alone is.
pub Reaches-InFlight :
    (texts : List String) (done : List (String × Outcome)) (w : Writer)
    → Reaches texts done w
    → InFlight w
Reaches-InFlight texts done w start = inl refl
Reaches-InFlight texts done w (calls {w = v} text r) =
    write-InFlight text v (Reaches-InFlight _ _ v r)
Reaches-InFlight texts done w (finishes {w = v} before text after o r h) =
    written-InFlight o (before ++ after) v (finished v before after (Reaches-InFlight _ _ v r) h).0

write_queue-write :
    (text : String) (w : Writer) → (write text w).write_queue ≡ w.write_queue ++ (text ∷ [])
unfolding write
write_queue-write text w = elim (Bool-cases (length (w.write_queue ++ (text ∷ [])) == 1)) [
  | inl b ↦ rw b (write_front_queue (record w { write_queue = w.write_queue ++ (text ∷ []) }))
  | inr b ↦ rw b refl
]

write_queue-written :
    (o : Outcome) (others : List String) (w : Writer)
    → (written o others w).write_queue ≡ pop w.write_queue
unfolding written
write_queue-written sent others w =
    write_front_queue (record { write_queue = pop w.write_queue; writing = others })
write_queue-written closed others w = refl
write_queue-written failed others w = refl

texts_of-append :
    (xs ys : List (String × Outcome)) → texts_of (xs ++ ys) ≡ texts_of xs ++ texts_of ys
texts_of-append [] ys = refl
texts_of-append ((t, o) ∷ xs) ys = ap (λ l. t ∷ l) (texts_of-append xs ys)

-- The texts of the calls are those whose writes have finished, in the order of the calls, and then
-- those in the queue: none is lost, doubled or overtaken, whatever the writes come to.
pub Reaches-in_order :
    (texts : List String) (done : List (String × Outcome)) (w : Writer)
    → Reaches texts done w
    → texts_of done ++ w.write_queue ≡ texts
Reaches-in_order texts done w start = refl
Reaches-in_order texts done w (calls {done = d} {w = v} text r) = rw (write_queue-write text v) (
    sym (append_assoc (texts_of d) v.write_queue (text ∷ []))
    ∙ ap (λ l. l ++ (text ∷ [])) (Reaches-in_order _ d v r))
Reaches-in_order texts done w (finishes {done = d} {w = v} before text after o r h) =
    let front = (finished v before after (Reaches-InFlight _ d v r) h).1 in
    rw (write_queue-written o (before ++ after) v, texts_of-append d ((text, o) ∷ []))
      (append_assoc (texts_of d) (text ∷ []) (pop v.write_queue)
        ∙ ap (λ l. texts_of d ++ l) (sym front)
        ∙ Reaches-in_order texts d v r)
