-- ===== src/Server/Releases.antt =====
-- What the end of a session does to the map of sessions, by server/server_session.cpp.
use mathlib.Core.Path.{subst}
use niba.Prelude.{ℕ, ◌≡◌, ◌≢◌, refl, sym, ◌∙◌, inl, inr, String, Option, none, some, Bool-cases}
use niba.Prelude.Exec.{◌>>=◌, pure}
use niba.Prelude.Exec.Keeps.{Keeps-bind}
use niba.Prelude.Strings.{str_eq, str_eq_iff}
use niba.Structs.{Player}
use niba.Server.SessionMap.{Sessions, lookup, erase, remove}
use niba.Server.Online.{Unique, erase-Unique, lookup-erase_other}
use niba.Server.World.{Env, World}
use niba.Server.Account.{query}
use niba.Server.Connection.{release, log_out}
use niba.Server.Claims.{Registered}

-- The map once a player's name is released.
abbrev pub released : Option Player → Sessions → Sessions
released none m = m
released (some p) m = erase p.name m

pub released-Unique : (o : Option Player) (m : Sessions) → Unique m → Unique (released o m)
released-Unique none m u = u
released-Unique (some p) m u = erase-Unique p.name m u

pub released-Registered :
    (i j : ℕ) (o q : Option Player) (m : Sessions)
    → j ≢ i
    → Registered i o m
    → Registered j q m
    → Registered j q (released o m)
released-Registered i j none q m d h k = k
released-Registered i j (some p) none m d h k = tt
released-Registered i j (some p) (some q) m d h k = elim (Bool-cases (str_eq p.name q.name)) [
  | inl e ↦
      let same = subst (λ n. lookup n m ≡ some i) ((str_eq_iff p.name q.name).0 e) h in
      let one : i ≡ j = cc in absurd (d (sym one))
  | inr e ↦ lookup-erase_other p.name q.name m e ∙ k
]

log_out_sessions :
    (e : Env) (userid : Option String) (m : Sessions) (w : World e.Store e.Engine)
    → w.sessions ≡ m
    → (log_out e userid w).1.sessions ≡ m
unfolding log_out
log_out_sessions e none m w h = h
log_out_sessions e (some id) m w h =
    Keeps-bind (λ v. v.sessions ≡ m) (query e (e.db.logout id)) (λ b. pure tt) (λ v k. k)
      (λ b v k. k) w h

pub leave_sessions :
    (e : Env) (player : Option Player) (userid : Option String) (w : World e.Store e.Engine)
    → (((release e player) >>= (λ u. log_out e userid)) w).1.sessions ≡ released player w.sessions
unfolding release remove
leave_sessions e none userid w = log_out_sessions e userid w.sessions w refl
leave_sessions e (some p) userid w =
    log_out_sessions e userid (erase p.name w.sessions)
      (record w { sessions = erase p.name w.sessions }) refl
