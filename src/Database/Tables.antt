-- ===== src/Database/Tables.antt =====
-- What the statements of server/db_accessor.cpp do to the tables of schemas/niba_player.sql: the
-- documented behaviour of PostgreSQL, of `RAND_bytes` and of SHA256 that the theorems rest on.
use niba.Prelude.{
  ℕ, ◌≡◌, ◌⊎◌, String, Bool, false, Option, none, some, List, [], ◌∷◌, length, if◌then◌else◌,
}
use niba.Prelude.Int.{ℤ, eqb_ℤ}
use niba.Prelude.Strings.{str_eq}
use niba.Structs.{Magic}
use niba.Database.{rows, User, Sql}
use niba.Database.Passwords.{hash_size}

-- The tables as functions of their primary keys.
pub record Tables : Type 0 where
  pub users : String → Option User
  pub magics : String → ℤ → Option Magic
  pub equipped : String → Option (List ℤ)

abbrev pub updated_at : {A : Type 0} → (String → A) → String → A → String → A
updated_at f key x other = if str_eq key other then x else f other

abbrev pub updated_id : {A : Type 0} → (ℤ → A) → ℤ → A → ℤ → A
updated_id f key x other = if eqb_ℤ key other then x else f other

abbrev pub row_list : {A : Type 0} → Option A → List A
row_list none = []
row_list (some x) = x ∷ []

abbrev pub set_user : Tables → String → User → Tables
set_user t id user = record t { users = updated_at t.users id (some user) }

abbrev pub set_magic : Tables → String → ℤ → Option Magic → Tables
set_magic t name id m = record t {
  magics = updated_at t.magics name (updated_id (t.magics name) id m);
}

abbrev pub set_equipped : Tables → String → List ℤ → Tables
set_equipped t name ids = record t { equipped = updated_at t.equipped name (some ids) }

-- An UPDATE changes a row that is there.
abbrev pub logged_in_as : Bool → Option User → Option User
logged_in_as b none = none
logged_in_as b (some user) = some (record user { logged_in = b })

abbrev pub updated_magic : Magic → Option Magic → Option Magic
updated_magic m none = none
updated_magic m (some old) = some m

-- `view` reads the tables of the database, `view_tx` those that a transaction sees. A `commit` whose
-- reply is lost may have been carried out.
pub record IsLawful (sql : Sql) : Type 0 where
  pub view : sql.State → Tables
  pub view_tx : sql.Tx → Tables
  pub sha256_final-length :
      (c : sql.Context) {d : List ℕ} → sql.sha256_final c ≡ some d → length d ≡ hash_size
  pub rand_bytes-view : (s : sql.State) → view (sql.rand_bytes s).1 ≡ view s
  pub select_user-view : (id : String) (s : sql.State) → view (sql.select_user id s).1 ≡ view s
  pub select_user-rows :
      (id : String) (s : sql.State) {found : List User}
      → (sql.select_user id s).0 ≡ rows found
      → found ≡ row_list ((view s).users id)
  pub update_logged_in-view :
      (b : Bool) (id : String) (s : sql.State) {u : Unit {0}}
      → (sql.update_logged_in b id s).0 ≡ rows u
      → view (sql.update_logged_in b id s).1 ≡ record (view s) {
        users = updated_at (view s).users id (logged_in_as b ((view s).users id));
      }
  pub insert_user-view :
      (id : String) (hash salt : List ℕ) (s : sql.State) {u : Unit {0}}
      → (sql.insert_user id hash salt s).0 ≡ rows u
      → ((view s).users id ≡ none)
        × (view (sql.insert_user id hash salt s).1
            ≡ set_user
                (view s)
                id
                (record { hashed_password = hash; salt = salt; logged_in = false }))
  pub begin-view : (s : sql.State) → view (sql.begin s).1 ≡ view s
  pub begin-view_tx :
      (s : sql.State) {tx : sql.Tx} → (sql.begin s).0 ≡ some tx → view_tx tx ≡ view s
  pub update_magic_tx-view :
      (name : String) (m : Magic) (tx : sql.Tx) {u : Unit {0}}
      → (sql.update_magic_tx name m tx).0 ≡ rows u
      → view_tx (sql.update_magic_tx name m tx).1
        ≡ set_magic
            (view_tx tx)
            name
            m.magic_id
            (updated_magic m ((view_tx tx).magics name m.magic_id))
  pub delete_magic_tx-view :
      (name : String) (id : ℤ) (tx : sql.Tx) {u : Unit {0}}
      → (sql.delete_magic_tx name id tx).0 ≡ rows u
      → view_tx (sql.delete_magic_tx name id tx).1 ≡ set_magic (view_tx tx) name id none
  pub upsert_equipped_tx-view :
      (name : String) (ids : List ℤ) (tx : sql.Tx) {u : Unit {0}}
      → (sql.upsert_equipped_tx name ids tx).0 ≡ rows u
      → view_tx (sql.upsert_equipped_tx name ids tx).1 ≡ set_equipped (view_tx tx) name ids
  pub commit-view :
      (tx : sql.Tx) (s : sql.State)
      → (view (sql.commit tx s).1 ≡ view_tx tx) ⊎ (view (sql.commit tx s).1 ≡ view s)
  pub commit-done :
      (tx : sql.Tx) (s : sql.State) {u : Unit {0}}
      → (sql.commit tx s).0 ≡ rows u
      → view (sql.commit tx s).1 ≡ view_tx tx
