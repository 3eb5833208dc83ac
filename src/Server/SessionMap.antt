-- ===== src/Server/SessionMap.antt =====
-- server/session_map.cpp: from a character's name to its session. A session is a number, and
-- `expired` says which sessions are destroyed. The mutex makes each call one step.
use niba.Prelude.{
  ℕ, String, Bool, true, false, not, Option, none, some, List, [], ◌∷◌, if◌then◌else◌,
}
use niba.Prelude.Strings.{str_eq}

-- `map_`, in place of `std::unordered_map`: one entry to a name.
abbrev pub Sessions : Type 0
Sessions = List (String × ℕ)

unfoldable pub lookup : String → Sessions → Option ℕ
lookup name [] = none
lookup name ((k, s) ∷ rest) = if str_eq k name then some s else lookup name rest

-- `map_.erase` of a name's entry.
unfoldable pub erase : String → Sessions → Sessions
erase name [] = []
erase name ((k, s) ∷ rest) = if str_eq k name then rest else (k, s) ∷ erase name rest

unfoldable pub remove : String → Sessions → Sessions
unfolding erase
remove name m = erase name m

module _ (expired : ℕ → Bool) where
  -- The session that `write` hands the text to, if the name is online.
  unfoldable pub recipient : String → Sessions → Option ℕ
  unfolding lookup
  recipient name m = elim (lookup name m) [
    | none ↦ none
    | some s ↦ if expired s then none else some s
  ]

  unfoldable pub cleanup : Sessions → Sessions
  cleanup [] = []
  cleanup ((k, s) ∷ rest) = let kept = cleanup rest in if expired s then kept else (k, s) ∷ kept

  -- Whether the session was registered, and the map.
  unfoldable pub register_session : String → ℕ → Sessions → Bool × Sessions
  unfolding lookup erase
  register_session name session m = elim (lookup name m) [
    | none ↦ (true, (name, session) ∷ m)
    | some s ↦ if not (expired s) then (false, m) else (true, (name, session) ∷ erase name m)
  ]
