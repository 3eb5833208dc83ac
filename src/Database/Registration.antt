-- ===== src/Database/Registration.antt =====
-- A user that `create_user` of server/db_accessor.cpp stores, and `login` reads.
use Prim.Native.Nat.{bit_xor}
use mathlib.Core.Path.{subst}
use niba.Prelude.{
  ℕ, ◌≡◌, ◌≢◌, refl, sym, ap, ◌∙◌, inl, inr, String, true, false, Option, none, some, List, [], ◌∷◌,
  Option-cases, if◌then◌else◌, length,
}
use niba.Prelude.Run.{done, undefined, thrown, Fault, >>=-eq-done as run_split}
use niba.Prelude.Exec.{>>=-eq-done, lift}
use niba.Prelude.Strings.{str_eq_iff}
use niba.Database.{rows, User, Sql}
use niba.Database.Passwords.{hash_size, padded, salted, finish, hashed, digest, same_bytes_self}
use niba.Database.Accessor.{
  execute, compare_hash, matches, check_user, login, insert_hashed, create_salted, create_user,
}
use niba.Database.Accounts.{executed}
use niba.Database.Tables.{IsLawful, set_user, row_list}

-- The fault for a short salt does not matter where the salt is long enough.
salted-fault :
    (e g : Fault) (buffer salt : List ℕ) {xs : List ℕ}
    → salted e buffer salt ≡ done xs
    → salted g buffer salt ≡ done xs
unfolding salted
salted-fault e g [] salt h = h
salted-fault e g (b ∷ buffer) [] h = cc
salted-fault e g (b ∷ buffer) (s ∷ salt) h =
    let (rest, i, j) = run_split (salted e buffer salt) (λ rest. done (bit_xor b s ∷ rest)) h in
    rw (salted-fault e g buffer salt i) j

module _ (sql : Sql) (lawful : IsLawful sql) where
  open sql use {State, bytes, select_user, update_logged_in, insert_user, rand_bytes}
  open lawful use {view}

  finish-length :
      (c : Option sql.Context) {d : List ℕ} → finish sql c ≡ some d → length d ≡ hash_size
  finish-length none h = cc
  finish-length (some c) h = lawful.sha256_final-length c h

  hashed-length :
      (buffer : List ℕ) (c : Option sql.Context) {d : List ℕ}
      → hashed sql buffer c ≡ some d
      → length d ≡ hash_size
  hashed-length buffer none h = cc
  hashed-length buffer (some c) h = finish-length (sql.sha256_update c buffer) h

  digest-length : (buffer : List ℕ) {d : List ℕ} → digest sql buffer ≡ some d → length d ≡ hash_size
  unfolding digest
  digest-length buffer h = hashed-length buffer sql.sha256_init h

  -- A new row: the hash of the password under the salt, for a user who is not logged in.
  abbrev pub Created : String → String → State → State → Type 0
  Created id password s t =
      (salt : List ℕ) × (buffer : List ℕ) × (hash : List ℕ) × (salted undefined
          (padded hash_size (bytes password)) salt
        ≡ done buffer)
      × (digest sql buffer ≡ some hash)
      × ((view s).users id ≡ none)
      × (view t
          ≡ set_user (view s) id
              (record { hashed_password = hash; salt = salt; logged_in = false }))

  unhashed :
      (id : String) (salt : List ℕ) (u : State) {t : State}
      → insert_hashed sql id salt none u ≢ (done true, t)
  unhashed id salt u h = cc

  create_salted-Created :
      (id password : String) (salt : Option (List ℕ)) (s : State) {t : State}
      → create_salted sql id password salt s ≡ (done true, t)
      → Created id password s t
  unfolding create_salted
  create_salted-Created id password none s h = cc
  create_salted-Created id password (some salt) s {t} h =
      let (buffer, u, k, l) =
        >>=-eq-done (lift (salted undefined (padded hash_size (bytes password)) salt))
          (λ buffer. insert_hashed sql id salt (digest sql buffer)) s h in
      let mixed = ap (λ p. p.0) k in
      let same : u ≡ s = sym (ap (λ p. p.1) k) in
      elim (Option-cases (digest sql buffer)) [
        | inl e ↦
            absurd
              (unhashed id salt u (subst (λ o. insert_hashed sql id salt o u ≡ (done true, t)) e l))
        | inr (hash, e) ↦
            let (r, there) = executed sql lawful (insert_user id hash salt) s (
              subst (λ v. execute sql (insert_user id hash salt) v ≡ (done true, t)) same
                (subst (λ o. insert_hashed sql id salt o u ≡ (done true, t)) e l)) in
            let (absent, new) = lawful.insert_user-view id hash salt s r in
            (
              salt,
              buffer,
              hash,
              mixed,
              e,
              absent,
              subst
                  (λ v.
                    view v
                    ≡ set_user (view s) id
                        (record { hashed_password = hash; salt = salt; logged_in = false }))
                  there new,
            )
      ]

  matches-Created :
      (password : String) (salt buffer hash : List ℕ)
      → salted undefined (padded hash_size (bytes password)) salt ≡ done buffer
      → digest sql buffer ≡ some hash
      → matches sql password (record { hashed_password = hash; salt = salt; logged_in = false })
        ≡ done true
  unfolding matches compare_hash
  matches-Created password salt buffer hash h e =
      rw
        (
          salted-fault undefined thrown (padded hash_size (bytes password)) salt h,
          e,
          same_bytes_self hash_size hash (digest-length buffer e),
        )
        refl

  checked :
      (id password : String) (user : User) (v : State)
      → matches sql password user ≡ done true
      → user.logged_in ≡ false
      → (update_logged_in true id v).0 ≡ rows tt
      → (check_user sql id password (user ∷ []) v).0 ≡ done true
  unfolding check_user
  checked id password user v m l f = rw (m, l, f) refl

  -- The password that a user is created with logs the user in, where the two statements of the log-in
  -- succeed.
  pub login-create_user :
      (id password : String) (s : State) {t : State} {found : List User}
      → create_user sql id password s ≡ (done true, t)
      → (select_user id t).0 ≡ rows found
      → (update_logged_in true id (select_user id t).1).0 ≡ rows tt
      → (login sql id password t).0 ≡ done true
  unfolding create_user login
  login-create_user id password s {t} {found} h e f =
      let (salt, buffer, hash, mixed, hashes, absent, new) =
        create_salted-Created id password (rand_bytes s).0 (rand_bytes s).1 h in
      let user : User = record { hashed_password = hash; salt = salt; logged_in = false } in
      let stored : (view t).users id ≡ some user =
        ap (λ ts. ts.users id) new
        ∙ ap (λ b. if b then some user else (view (rand_bytes s).1).users id)
            ((str_eq_iff id id).1 refl) in
      let only : found ≡ user ∷ [] = lawful.select_user-rows id t e ∙ ap row_list stored in
      rw (login, e, only)
        (checked id password user (select_user id t).1
          (matches-Created password salt buffer hash mixed hashes) refl f)
