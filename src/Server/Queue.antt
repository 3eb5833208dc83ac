-- ===== src/Server/Queue.antt =====
-- `server_session::write` of server/server_session.cpp: the queue of texts to write, and the
-- coroutines that write them. The strand makes what a coroutine does between two suspensions one step.
pub mod Order
pub mod Drain
use niba.Prelude.{
  ℕ, ◌≡◌, String, Bool, true, false, ◌==◌, List, [], ◌∷◌, ◌++◌, map, length, if◌then◌else◌,
}

-- What `async_write` comes to: the text was written, the connection is closed or the operation was
-- aborted, or another error.
pub data Outcome : Type 0 where
  sent closed failed : Outcome

-- `writing` holds, for each coroutine that is suspended in `async_write`, the text that it writes.
pub record Writer : Type 0 where
  pub write_queue : List String
  pub writing : List String

abbrev pub idle : Writer
idle = record { write_queue = []; writing = [] }

-- The head of the loop: return if the queue is empty, else write its front.
unfoldable pub write_front : Writer → Writer
write_front w = elim w.write_queue [
  | [] ↦ w
  | text ∷ rest ↦ record w { writing = text ∷ w.writing }
]

-- The start of a coroutine, which another takes over if the queue was not empty.
unfoldable pub write : String → Writer → Writer
unfolding write_front
write text w =
    let queued = record w { write_queue = w.write_queue ++ (text ∷ []) } in
    if length queued.write_queue == 1 then write_front queued else queued

-- `write_queue_.pop()`
abbrev pub pop : List String → List String
pop [] = []
pop (text ∷ rest) = rest

-- A coroutine goes on after its write; `others` are the texts that other coroutines write.
unfoldable pub written : Outcome → List String → Writer → Writer
unfolding write_front
written sent others w = write_front (record { write_queue = pop w.write_queue; writing = others })
written closed others w = record { write_queue = pop w.write_queue; writing = others }
written failed others w = record { write_queue = pop w.write_queue; writing = others }

-- The states that a writer comes to, after the calls of `write` and the writes that have finished.
pub data Reaches : List String → List (String × Outcome) → Writer → Type 0 where
  start : Reaches [] [] idle
  calls :
      {texts : List String} {done : List (String × Outcome)} {w : Writer} (text : String)
      → Reaches texts done w
      → Reaches (texts ++ (text ∷ [])) done (write text w)
  finishes :
      {texts : List String} {done : List (String × Outcome)} {w : Writer} (before : List String)
      (text : String) (after : List String) (o : Outcome)
      → Reaches texts done w
      → w.writing ≡ before ++ (text ∷ after)
      → Reaches texts (done ++ ((text, o) ∷ [])) (written o (before ++ after) w)
