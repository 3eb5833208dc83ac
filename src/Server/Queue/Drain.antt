-- ===== src/Server/Queue/Drain.antt =====
-- When the queue of server/server_session.cpp empties, and when it does not.
use mathlib.Core.Path.{subst}
use niba.Prelude.{
  suc, ◌≡◌, refl, sym, ◌∙◌, ◌⊎◌, inl, inr, String, false, ◌==◌, List, [], ◌∷◌, ◌++◌, map,
  append-nil, append_assoc, length, length-append, All, arith,
}
use niba.Server.Queue.{
  Outcome, sent, Writer, idle, write_front, write, pop, written, Reaches, start, calls, finishes,
}
use niba.Server.Queue.Order.{WritesFront, nothing-append, finished, Reaches-InFlight}

abbrev pub Succeeded : List (String × Outcome) → Type 0
Succeeded = All (λ (text, o). o ≡ sent)

-- Nothing is left to write, or the front of the queue is being written.
abbrev Busy : Writer → Type 0
Busy w = ((w.write_queue ≡ []) × (w.writing ≡ [])) ⊎ WritesFront w

front-Busy :
    (queue : List String) → Busy (write_front (record { write_queue = queue; writing = [] }))
unfolding write_front
front-Busy [] = inl (refl, refl)
front-Busy (front ∷ rest) = inr (front, rest, refl, refl)

write-Busy : (text : String) (w : Writer) → Busy w → Busy (write text w)
unfolding write
write-Busy text w (inl (q, e)) = rw (q, e) (front-Busy (text ∷ []))
write-Busy text w (inr (front, rest, q, e)) =
    let more = length-append rest (text ∷ []) in
    let b : (suc (length (rest ++ (text ∷ []))) == 1) ≡ false = ground (arith, more) in
    rw (q, b) (inr (front, rest ++ (text ∷ []), refl, e))

written-Busy :
    (o : Outcome) (others : List String) (w : Writer)
    → o ≡ sent
    → others ≡ []
    → Busy (written o others w)
unfolding written
written-Busy o others w h e = rw (h, e) (front-Busy (pop w.write_queue))

Succeeded-split :
    (xs : List (String × Outcome)) (text : String) (o : Outcome)
    → Succeeded (xs ++ ((text, o) ∷ []))
    → Succeeded xs × (o ≡ sent)
Succeeded-split [] text o h = (tt, h.0)
Succeeded-split ((t, p) ∷ xs) text o h =
    let (hs, e) = Succeeded-split xs text o h.1 in ((h.0, hs), e)

Reaches-Busy :
    (texts : List String) (done : List (String × Outcome)) (w : Writer)
    → Reaches texts done w
    → Succeeded done
    → Busy w
Reaches-Busy texts done w start s = inl (refl, refl)
Reaches-Busy texts done w (calls {w = v} text r) s = write-Busy text v (Reaches-Busy _ done v r s)
Reaches-Busy texts done w (finishes {done = d} {w = v} before text after o r h) s =
    let (hs, e) = Succeeded-split d text o s in
    written-Busy o (before ++ after) v e (finished v before after (Reaches-InFlight _ d v r) h).0

abbrev pub all_sent : List String → List (String × Outcome)
all_sent = map (λ text. (text, sent))

drains :
    (texts : List String) (queue : List String) (done : List (String × Outcome))
    → Reaches texts done (write_front (record { write_queue = queue; writing = [] }))
    → Reaches texts (done ++ all_sent queue) idle
unfolding write_front written
drains texts [] done r = subst (λ d. Reaches texts d idle) (sym (append-nil done)) r
drains texts (front ∷ rest) done r =
    subst (λ d. Reaches texts d idle) (append_assoc done ((front, sent) ∷ []) (all_sent rest))
      (drains texts rest (done ++ ((front, sent) ∷ [])) (finishes [] front [] sent r refl))

Reaches-rebuilt :
    (texts : List String) (done : List (String × Outcome)) (w : Writer)
    {queue writing : List String}
    → Reaches texts done w
    → w.write_queue ≡ queue
    → w.writing ≡ writing
    → Reaches texts done (record { write_queue = queue; writing = writing })
Reaches-rebuilt texts done w {queue} {writing} r q e =
    subst (λ ws. Reaches texts done (record { write_queue = queue; writing = ws })) e
      (subst (λ qs. Reaches texts done (record { write_queue = qs; writing = w.writing })) q r)

-- As long as all writes have succeeded, the writer comes to write every text of the queue, in order,
-- and then is idle, if the writes go on to succeed.
pub Reaches-drained :
    (texts : List String) (done : List (String × Outcome)) (w : Writer)
    → Reaches texts done w
    → Succeeded done
    → Reaches texts (done ++ all_sent w.write_queue) idle
unfolding write_front
Reaches-drained texts done w r s = elim (Reaches-Busy texts done w r s) [
  | inl (q, e) ↦ rw q (drains texts [] done (Reaches-rebuilt texts done w r q e))
  | inr (front, rest, q, e) ↦
      rw q (drains texts (front ∷ rest) done (Reaches-rebuilt texts done w r q e))
]

-- What a writer comes to from a given state on.
pub data Later (w : Writer) : Writer → Type 0 where
  now : Later w w
  later_call : {v : Writer} (text : String) → Later w v → Later w (write text v)
  later_finish :
      {v : Writer} (before : List String) (text : String) (after : List String) (o : Outcome)
      → Later w v
      → v.writing ≡ before ++ (text ∷ after)
      → Later w (written o (before ++ after) v)

-- Where an error has ended the only writing coroutine and left texts in the queue, no coroutine ever
-- writes again, whatever is called.
pub Later-stuck :
    (w v : Writer) {front : String} {rest : List String}
    → w.write_queue ≡ front ∷ rest
    → w.writing ≡ []
    → Later w v
    → ((more : List String) × (v.write_queue ≡ (front ∷ rest) ++ more)) × (v.writing ≡ [])
unfolding write
Later-stuck w v {front} {rest} q e now = (([], q ∙ sym (append-nil (front ∷ rest))), e)
Later-stuck w v {front} {rest} q e (later_call {v = u} text l) =
    let ((more, h), k) = Later-stuck w u q e l in
    let len = length-append (rest ++ more) (text ∷ []) in
    let b : (suc (length ((rest ++ more) ++ (text ∷ []))) == 1) ≡ false = ground (arith, len) in
    rw (h, b) ((more ++ (text ∷ []), append_assoc (front ∷ rest) more (text ∷ [])), k)
Later-stuck w v q e (later_finish {v = u} before text after o l h) =
    absurd (nothing-append text before after (sym (Later-stuck w u q e l).1 ∙ h))
