-- ===== src/Server/Owners.antt =====
-- Whose name is whose in the running server: the map of sessions of server/session_map.cpp beside the
-- sessions of server/server_session.cpp.
use mathlib.Core.Path.{subst}
use niba.Prelude.{
  ℕ, ◌==◌, ==_iff, ◌≡◌, ◌≢◌, refl, sym, ◌∙◌, ap, inl, inr, String, Bool, false, Option, none, some,
  if◌then◌else◌, Bool-cases, arith,
}
use niba.Prelude.Int.{ℤ}
use niba.Prelude.Run.{Run}
use niba.Structs.{Player}
use niba.Server.SessionMap.{Sessions, lookup, recipient, cleanup}
use niba.Server.Online.{updated, recipient-erase, Unique, cleanup-recipient}
use niba.Server.World.{Env}
use niba.Server.Dispatch.{Msg, dispatch}
use niba.Server.Connection.{leave}
use niba.Server.Claims.{Registered, dispatch-Claims}
use niba.Server.Releases.{released-Unique, released-Registered, leave_sessions}
use niba.Server.System.{
  Life, running, leaving, gone, is_gone, assigned, System, destroyed, env_of, world_of, accept,
  serve, end_session, destroy, tidy, Reachable, start, accepts, serves, ends, destroys, tidies,
}

module _ (env : Env) where
  open env use {Store, Engine, db}

  -- No name has two entries, and a session that reads requests is registered under its player's name.
  abbrev pub Owned : System env → Type 0
  Owned s =
      Unique s.sessions
      × ((i : ℕ) → s.life i ≡ running → Registered i (s.session i).player s.sessions)

  -- A name of another session that reads requests.
  abbrev Other : System env → ℕ → String → ℕ → Type 0
  Other s i name j =
      (j ≢ i)
      × (s.life j ≡ running)
      × ((p : Player) × ((s.session j).player ≡ some p) × (p.name ≡ name))

  ==-false : (j i : ℕ) → (j == i) ≡ false → j ≢ i
  ==-false j i e h = ground arith

  Registered-lookup :
      (j : ℕ) (o : Option Player) (m : Sessions) {p : Player}
      → Registered j o m
      → o ≡ some p
      → lookup p.name m ≡ some j
  Registered-lookup j o m h e = subst (λ q. Registered j q m) e h

  lookup-Registered :
      (j : ℕ) (o : Option Player) (m : Sessions)
      → ((p : Player) → o ≡ some p → lookup p.name m ≡ some j)
      → Registered j o m
  lookup-Registered j none m h = tt
  lookup-Registered j (some p) m h = h p refl

  lookup-Other :
      (s : System env) (i : ℕ)
      → Owned s
      → (name : String) (j : ℕ) → Other s i name j
      → lookup name s.sessions ≡ some j
  lookup-Other s i o name j (d, l, (p, e, n)) =
      subst (λ n. lookup n s.sessions ≡ some j) n
        (Registered-lookup j (s.session j).player s.sessions (o.1 j l) e)

  Other-Registered :
      (s : System env) (i j : ℕ) (m : Sessions)
      → j ≢ i
      → s.life j ≡ running
      → ((name : String) (k : ℕ) → Other s i name k → lookup name m ≡ some k)
      → Registered j (s.session j).player m
  Other-Registered s i j m d l h =
      lookup-Registered j (s.session j).player m (λ p e. h p.name j (d, l, (p, e, refl)))

  serve-Owned :
      (s : System env) (i : ℕ) (now : ℤ) (parsed : Run (Msg env))
      → s.life i ≡ running
      → Owned s
      → Owned (serve env s i now parsed)
  unfolding serve
  serve-Owned s i now parsed l o =
      let w = (dispatch (env_of env s i) now parsed (world_of env s i)).1 in
      let p =
        dispatch-Claims (env_of env s i) (Other s i) (λ name j c. ap is_gone c.1) (ap is_gone l) now
          parsed (world_of env s i) (o.0, lookup-Other s i o, o.1 i l) in
      (
        p.0,
        λ j k. elim (Bool-cases (j == i)) [
          | inl e ↦
              rw e
                (subst (λ k. Registered k w.session.player w.sessions) (sym ((==_iff j i).0 e)) p.2)
          | inr e ↦ rw e (Other-Registered s i j w.sessions (==-false j i e) k p.1)
        ],
      )

  accept-Owned : (s : System env) → Owned s → Owned (accept env s)
  unfolding accept
  accept-Owned s o = (
    o.0,
    λ j k. elim (Bool-cases (j == s.accepted)) [
      | inl e ↦ rw e tt
      | inr e ↦ rw e (o.1 j (subst (λ b. (if b then running else s.life j) ≡ running) e k))
    ],
  )

  -- Where a session that is `l` cannot be reading, who reads now has read before.
  still_running :
      (s : System env) (i j : ℕ) (l : Life)
      → l ≢ running
      → assigned s.life i l j ≡ running
      → ((j == i) ≡ false) × (s.life j ≡ running)
  still_running s i j l d k = elim (Bool-cases (j == i)) [
    | inl e ↦ absurd (d (subst (λ b. (if b then l else s.life j) ≡ running) e k))
    | inr e ↦ (e, subst (λ b. (if b then l else s.life j) ≡ running) e k)
  ]

  destroy-Owned : (s : System env) (i : ℕ) → Owned s → Owned (destroy env s i)
  unfolding destroy
  destroy-Owned s i o = (o.0, λ j k. o.1 j (still_running s i j gone (λ e. cc) k).1)

  found-recipient :
      (expired : ℕ → Bool) (name : String) (m : Sessions) (j : ℕ)
      → expired j ≡ false
      → lookup name m ≡ some j
      → recipient expired name m ≡ some j
  unfolding recipient
  found-recipient expired name m j h k = grind arith

  recipient-found :
      (expired : ℕ → Bool) (name : String) (m : Sessions) (j : ℕ)
      → recipient expired name m ≡ some j
      → lookup name m ≡ some j
  unfolding recipient
  recipient-found expired name m j h = grind arith

  tidy-Owned : (s : System env) → Owned s → Owned (tidy env s)
  unfolding tidy
  tidy-Owned s o =
      let c = cleanup-recipient (destroyed env s) s.sessions o.0 in
      (
        c.0,
        λ j k.
            lookup-Registered j (s.session j).player (cleanup (destroyed env s) s.sessions) (λ p e.
              recipient-found (destroyed env s) p.name (cleanup (destroyed env s) s.sessions) j (
                c.1 p.name
                ∙ found-recipient (destroyed env s) p.name s.sessions j (ap is_gone k)
                    (Registered-lookup j (s.session j).player s.sessions (o.1 j k) e))),
      )

  end_session-Owned :
      (s : System env) (i : ℕ) → s.life i ≡ running → Owned s → Owned (end_session env s i)
  unfolding end_session leave
  end_session-Owned s i l o =
      let m =
        leave_sessions (env_of env s i) (s.session i).player (s.session i).userid
          (world_of env s i) in
      (
        subst Unique (sym m) (released-Unique (s.session i).player s.sessions o.0),
        λ j k.
            let (d, r) = still_running s i j leaving (λ e. cc) k in
            rw (d, m)
              (released-Registered i j (s.session i).player (s.session j).player s.sessions
                (==-false j i d) (o.1 i l) (o.1 j r)),
      )

  Reachable-Owned : (s : System env) → Reachable env s → Owned s
  Reachable-Owned s (start store engine) = (tt, λ i k. tt)
  Reachable-Owned s (accepts t r) = accept-Owned t (Reachable-Owned t r)
  Reachable-Owned s (serves t i now parsed r l) = serve-Owned t i now parsed l (Reachable-Owned t r)
  Reachable-Owned s (ends t i r l) = end_session-Owned t i l (Reachable-Owned t r)
  Reachable-Owned s (destroys t i r l) = destroy-Owned t i (Reachable-Owned t r)
  Reachable-Owned s (tidies t r) = tidy-Owned t (Reachable-Owned t r)

  -- In a reachable state, a session that ends frees the name of its player, and changes nobody else's
  -- session.
  pub end_session-frees :
      (s : System env) (i : ℕ) {p : Player}
      → Reachable env s
      → s.life i ≡ running
      → (s.session i).player ≡ some p
      → (name : String)
      → recipient (destroyed env s) name (end_session env s i).sessions
        ≡ updated (destroyed env s) (λ n. recipient (destroyed env s) n s.sessions) p.name none name
  unfolding end_session leave
  end_session-frees s i {p} r l e name =
      let m =
        leave_sessions (env_of env s i) (s.session i).player (s.session i).userid
          (world_of env s i) in
      rw (m, e) (recipient-erase (destroyed env s) p.name name s.sessions (Reachable-Owned s r).0)

  -- However requests, new connections, ends of sessions, destructions and clean-ups follow each other:
  -- what is sent to the name of the player of a session that reads requests reaches that session, and
  -- no other session that reads requests has a player of the name.
  pub Reachable-one_owner :
      (s : System env) (i : ℕ) {p : Player}
      → Reachable env s
      → s.life i ≡ running
      → (s.session i).player ≡ some p
      → (recipient (destroyed env s) p.name s.sessions ≡ some i)
        × ((j : ℕ) (q : Player)
            → s.life j ≡ running
            → (s.session j).player ≡ some q
            → q.name ≡ p.name
            → j ≡ i)
  Reachable-one_owner s i {p} r l e =
      let o = Reachable-Owned s r in
      let mine = Registered-lookup i (s.session i).player s.sessions (o.1 i l) e in
      (
        found-recipient (destroyed env s) p.name s.sessions i (ap is_gone l) mine,
        λ j q k f n.
            let theirs = Registered-lookup j (s.session j).player s.sessions (o.1 j k) f in
            let there = subst (λ n. lookup n s.sessions ≡ some j) n theirs in cc,
      )
