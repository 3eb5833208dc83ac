-- ===== src/Database/Accounts.antt =====
-- Registration, log-in and log-out of server/db_accessor.cpp.
use mathlib.Core.Path.{subst}
use niba.Prelude.{
  ◌≡◌, ◌≢◌, refl, sym, ap, ◌∙◌, String, Bool, true, false, Option, none, some, List, [], ◌∷◌,
  if◌then◌else◌,
}
use niba.Prelude.Run.{Run, done, done-injective}
use niba.Prelude.Exec.{Exec, >>=-eq-done, pure, lift}
use niba.Prelude.Strings.{str_eq_iff}
use niba.Database.{Answer, rows, unique_violation, failed, User, Sql}
use niba.Database.Accessor.{execute, matches, check_user, login}
use niba.Database.Tables.{IsLawful, set_user, updated_at, row_list, logged_in_as}
use niba.Database.Fusions.{succeeded-rows}

module _ (sql : Sql) (lawful : IsLawful sql) where
  open sql use {State, bytes, select_user, update_logged_in, insert_user, rand_bytes}
  open lawful use {view}

  granted :
      {t : State} (same logged_in : Bool) (m : Exec State Bool) (u : State)
      → if◌then◌else◌ {A = Exec State Bool} same
          (if logged_in then pure false else m)
          (pure false)
          u
        ≡ (done true, t)
      → (same ≡ true) × (logged_in ≡ false) × (m u ≡ (done true, t))
  granted true true m u h = cc
  granted true false m u h = (refl, refl, h)
  granted false b m u h = cc

  pub executed :
      {t : State} (statement : State → Answer (Unit {0}) × State) (s : State)
      → execute sql statement s ≡ (done true, t)
      → ((statement s).0 ≡ rows tt) × ((statement s).1 ≡ t)
  executed statement s h =
      (succeeded-rows (statement s).0 (done-injective (ap (λ p. p.0) h)), ap (λ p. p.1) h)

  -- Whoever is logged in: the user's row, with its mark set.
  abbrev pub Welcomed : String → String → State → State → Type 0
  Welcomed id password s t =
      (user : User) × ((view s).users id ≡ some user)
      × (user.logged_in ≡ false)
      × (matches sql password user ≡ done true)
      × (view t ≡ set_user (view s) id (record user { logged_in = true }))

  check_user-Welcomed :
      (id password : String) (user : User) (rest : List User) (s : State) {t : State}
      → (view s).users id ≡ some user
      → check_user sql id password (user ∷ rest) s ≡ (done true, t)
      → Welcomed id password s t
  unfolding check_user
  check_user-Welcomed id password user rest s {t} e h =
      let (same, u, k, l) =
        >>=-eq-done (lift (matches sql password user))
          (λ same.
            if same
            then (if user.logged_in then pure false else execute sql (update_logged_in true id))
            else pure false)
          s h in
      let (same_is, new, written) =
        granted same user.logged_in (execute sql (update_logged_in true id)) u l in
      let stays : u ≡ s = sym (ap (λ p. p.1) k) in
      let matched : matches sql password user ≡ done true = ap (λ p. p.0) k ∙ ap done same_is in
      let (ok, there) =
        executed (update_logged_in true id) s
          (subst (λ v. execute sql (update_logged_in true id) v ≡ (done true, t)) stays written) in
      (
        user,
        e,
        new,
        matched,
        subst (λ v. view v ≡ set_user (view s) id (record user { logged_in = true })) there
            (lawful.update_logged_in-view true id s ok
              ∙ ap
                  (λ o. record (view s) {
                    users = updated_at (view s).users id (logged_in_as true o);
                  })
                  e),
      )

  one_row :
      {user : User} {rest : List User} (o : Option User) → user ∷ rest ≡ row_list o → o ≡ some user
  one_row none h = cc
  one_row (some u) h = cc

  refused :
      (id password : String) (v : State) {t : State}
      → check_user sql id password [] v ≢ (done true, t)
  unfolding check_user
  refused id password v h = cc

  -- The same, by what the statement that looks the user up comes to.
  looked_up-Welcomed :
      (id password : String) (s : State) {t : State} (a : Answer (List User))
      → (select_user id s).0 ≡ a
      → (elim a as (λ _. Run Bool × State) [
        | rows users ↦ check_user sql id password users (select_user id s).1
        | unique_violation ↦ (done false, (select_user id s).1)
        | failed ↦ (done false, (select_user id s).1)
      ])
        ≡ (done true, t)
      → Welcomed id password s t
  looked_up-Welcomed id password s (rows []) e h =
      absurd (refused id password (select_user id s).1 h)
  looked_up-Welcomed id password s {t} (rows (user ∷ rest)) e h =
      let v = (select_user id s).1 in
      let same = lawful.select_user-view id s in
      let found = lawful.select_user-rows id s e in
      let (w, i, j, k, l) =
        check_user-Welcomed id password user rest v
          (ap (λ ts. ts.users id) same ∙ one_row ((view s).users id) found) h in
      (
        w,
        subst (λ ts. ts.users id ≡ some w) same i,
        j,
        k,
        subst (λ ts. view t ≡ set_user ts id (record w { logged_in = true })) same l,
      )
  looked_up-Welcomed id password s unique_violation e h = cc
  looked_up-Welcomed id password s failed e h = cc

  -- Where log-in succeeds, the user is there and was not logged in, and the password has the hash; the
  -- user is logged in afterwards, and nothing else in the tables changes.
  pub login-Welcomed :
      (id password : String) (s : State) {t : State}
      → login sql id password s ≡ (done true, t)
      → Welcomed id password s t
  unfolding login
  login-Welcomed id password s {t} h = looked_up-Welcomed id password s (select_user id s).0 refl h

  logged_in_of :
      {again : User} (user : User) → some again ≡ some user → again.logged_in ≡ user.logged_in
  logged_in_of user h = cc

  -- Each log-in taken as one step: in every later state in which the user's row is as a log-in that
  -- succeeded has left it, no log-in as the user succeeds, with any password.
  pub login-once :
      (id password other_password : String) (s later : State) {t : State}
      → login sql id password s ≡ (done true, t)
      → (view later).users id ≡ (view t).users id
      → (login sql id other_password later).0 ≢ done true
  login-once id password other_password s later {t} h row k =
      let (user, a, b, c, d) = login-Welcomed id password s h in
      let (again, e, f, g, i) =
        login-Welcomed id other_password later
          (ap (λ r. (r, (login sql id other_password later).1)) k) in
      let self = (str_eq_iff id id).1 refl in
      let marked : (view t).users id ≡ some (record user { logged_in = true }) =
        ap (λ ts. ts.users id) d
        ∙ ap (λ b. if b then some (record user { logged_in = true }) else (view s).users id) self in
      let same : again.logged_in ≡ true =
        logged_in_of (record user { logged_in = true }) (sym e ∙ row ∙ marked) in
      cc
