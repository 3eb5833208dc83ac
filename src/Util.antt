-- ===== src/Util.antt =====
-- shared/util.h and shared/util.cpp: the wrappers of the algorithms on vectors, and the stopwatch. The
-- clock is passed in.
use niba.Prelude.{ℕ, suc, Bool, List, [], ◌∷◌, if◌then◌else◌}
use niba.Prelude.Int.{ℤ, ◌-ℤ◌}
use niba.Prelude.Double.{Double}

-- The place of the first element that satisfies `p`; the end of the vector if there is none.
abbrev pub find_if : {A : Type 0} → (A → Bool) → List A → ℕ
find_if p [] = 0
find_if p (x ∷ xs) = let later = suc (find_if p xs) in if p x then 0 else later

-- The elements that satisfy `f` are removed, the others keep their order.
abbrev pub vector_remove : {A : Type 0} → (A → Bool) → List A → List A
vector_remove f [] = []
vector_remove f (x ∷ xs) = let kept = vector_remove f xs in if f x then kept else x ∷ kept

pub record Stopwatch : Type 0 where
  pub start_point : ℤ

-- `stopwatch()`, and `reset`.
abbrev pub started_at : ℤ → Stopwatch
started_at now = record { start_point = now }

unfoldable pub reset : ℤ → Stopwatch → Stopwatch
reset now watch = record watch { start_point = now }

-- The clock counts nanoseconds.
unfoldable pub elapsed_ms : (d : Double) → ℤ → Stopwatch → d.Real
elapsed_ms d now watch = d.div (d.of_int (now -ℤ watch.start_point)) (d.decimal 1000000 0)
