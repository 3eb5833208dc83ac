-- ===== src/Tests/Queues.antt =====
-- Texts that are queued for a client: "b" waits while "a" is written.
use niba.Prelude.{◌≡◌, refl, String, List, [], ◌∷◌, ◌++◌}
use niba.Server.Queue.{sent, failed, Writer, idle, write, written, Reaches, start, calls, finishes}
use niba.Server.Queue.Order.{InFlight, Reaches-InFlight, Reaches-in_order}
use niba.Server.Queue.Drain.{all_sent, Reaches-drained, now, later_call, Later-stuck}

abbrev waiting : Writer
waiting = write "b" (write "a" idle)

waiting-Reaches : Reaches ("a" ∷ "b" ∷ []) [] waiting
waiting-Reaches = calls "b" (calls "a" start)

abbrev one_sent : Writer
one_sent = written sent [] waiting

one_sent-Reaches : Reaches ("a" ∷ "b" ∷ []) (("a", sent) ∷ []) one_sent
unfolding write
one_sent-Reaches = finishes [] "a" [] sent waiting-Reaches refl

Reaches-InFlight_example : InFlight one_sent
Reaches-InFlight_example =
    Reaches-InFlight ("a" ∷ "b" ∷ []) (("a", sent) ∷ []) one_sent one_sent-Reaches

Reaches-in_order_example : "a" ∷ one_sent.write_queue ≡ "a" ∷ "b" ∷ []
Reaches-in_order_example =
    Reaches-in_order ("a" ∷ "b" ∷ []) (("a", sent) ∷ []) one_sent one_sent-Reaches

Reaches-drained_example :
    Reaches ("a" ∷ "b" ∷ []) (("a", sent) ∷ all_sent one_sent.write_queue) idle
Reaches-drained_example =
    Reaches-drained ("a" ∷ "b" ∷ []) (("a", sent) ∷ []) one_sent one_sent-Reaches (refl, tt)

-- The write of "a" fails, and "b" is left.
abbrev broken : Writer
broken = written failed [] waiting

broken_holds : broken.write_queue ≡ "b" ∷ []
unfolding write written
broken_holds = refl

broken_is_silent : broken.writing ≡ []
unfolding write written
broken_is_silent = refl

Later-stuck_example :
    ((more : List String) × ((write "c" broken).write_queue ≡ ("b" ∷ []) ++ more))
    × ((write "c" broken).writing ≡ [])
Later-stuck_example =
    Later-stuck broken (write "c" broken) broken_holds broken_is_silent (later_call "c" now)
