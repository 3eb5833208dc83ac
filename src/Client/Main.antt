-- ===== src/Client/Main.antt =====
-- `main` of client/main.cpp: the lines that are typed, and the time at which each is handled. The
-- session is what the loop calls of `client_session`.
pub mod Script
use niba.Prelude.{ℕ, zero, suc, String, Bool, true, false, not, ◌||◌, List, [], ◌∷◌, if◌then◌else◌}
use niba.Prelude.Int.{ℤ, pos, ltb_ℤ, ◌+ℤ◌}
use niba.Prelude.Run.{Run, done, fault, thrown, out_of_fuel, ◌>>=◌}
use niba.Prelude.Strings.{str_eq}

-- The arguments after the program's name.
unfoldable pub host_of : List String → String
host_of [] = "localhost"
host_of (host ∷ others) = host

unfoldable pub port_of : List String → String
port_of (host ∷ (port ∷ [])) = port
port_of _ = "19999"

-- What `std::getline` leaves: whether the stream is good, the line, and what is not read yet.
pub record Input : Type 0 where
  pub good : Bool
  pub line : String
  pub unread : List String

unfoldable pub getline : List String → Input
getline [] = record { good = false; line = ""; unread = [] }
getline (line ∷ lines) = record { good = true; line = line; unread = lines }

-- The time after the wait for `earliest`, at the time `now`. A sleep takes as long as asked for, and
-- `overslept` more.
unfoldable pub waited : ℤ → ℤ → ℕ → ℤ
waited earliest now overslept = if ltb_ℤ now earliest then earliest +ℤ pos overslept else now

-- What the loop calls of the session: `earliest`, how much longer than asked for a sleep takes then, and
-- `handle_cmd`, from the time at which it is called to the time at which its future is ready and the
-- next line is read.
pub record Console (S : Type 0) : Type 0 where
  pub earliest : S → ℤ
  pub oversleep : S → ℕ
  pub handle_cmd : String → ℤ → S → Run (ℤ × S)

abbrev pub is_exit : String → Bool
is_exit line = str_eq line "exit" || str_eq line "quit"

module _ {S : Type 0} (console : Console S) where
  open console use {earliest, oversleep, handle_cmd}

  -- The body of the loop, for a line to handle.
  unfoldable pub command : String → ℤ × S → Run (ℤ × S)
  unfolding waited
  command line (now, s) = handle_cmd line (waited (earliest s) now (oversleep s)) s

  -- An empty line is not read over: the loop goes on with it.
  unfoldable pub main_loop : ℕ → Input → ℤ × S → Run (ℤ × S)
  unfolding command getline
  main_loop zero i at = if i.good then out_of_fuel else done at
  main_loop (suc fuel) i at =
      let again = main_loop fuel i at in
      let next = command i.line at >>= main_loop fuel (getline i.unread) in
      if not i.good
      then done at
      else if str_eq i.line ""
      then again
      else if is_exit i.line
      then done at
      else next

  -- `block_until_ready` throws where the session has not come about.
  unfoldable pub client_main : Bool → ℕ → List String → ℤ × S → Run (ℤ × S)
  unfolding main_loop getline
  client_main false fuel lines at = fault thrown
  client_main true fuel lines at = main_loop fuel (getline lines) at
