-- ===== src/Database/Accessor.antt =====
-- The members of `db_accessor`, by server/db_accessor.cpp.
use niba.Prelude.{ℕ, String, Bool, true, false, Option, none, some, List, [], ◌∷◌, if◌then◌else◌}
use niba.Prelude.Int.{ℤ}
use niba.Prelude.Run.{Run, done, fault, undefined, thrown, out_of_fuel, or_fault}
use niba.Prelude.Exec.{Exec, ◌>>=◌, pure, lift}
use niba.Structs.{Player, Magic, PlayerData}
use niba.Database.{Answer, rows, unique_violation, failed, User, Sql}
use niba.Database.Passwords.{hash_size, padded, salted, same_bytes, digest}
use niba.Server.World.{DbAccessor}

-- `false` for every error code.
abbrev pub succeeded : {A : Type 0} → Answer A → Bool
succeeded (rows a) = true
succeeded unique_violation = false
succeeded failed = false

-- The last element, if there is one: `back` of rows that are not empty.
unfoldable pub last : {A : Type 0} → List A → Option A
last [] = none
last (x ∷ xs) = let rest = last xs in elim rest [ none ↦ some x | some y ↦ some y ]

module _ (sql : Sql) where
  open sql use {
    State, Tx, bytes, rand_bytes, select_user, update_logged_in, insert_user, select_character,
    select_magics, select_equipped, insert_character, insert_magic, upsert_equipped, begin,
    update_magic_tx, delete_magic_tx, upsert_equipped_tx, commit,
  }

  -- A statement of the database.
  abbrev pub request : {A : Type 0} → (State → Answer A × State) → Exec State (Answer A)
  request statement s = let (answer, t) = statement s in (done answer, t)

  abbrev pub execute : (State → Answer (Unit {0}) × State) → Exec State Bool
  execute statement s = let (answer, t) = statement s in (done (succeeded answer), t)

  -- Whether the password has the user's hash, once the digest is computed.
  unfoldable pub compare_hash : Option (List ℕ) → User → Run Bool
  unfolding same_bytes
  compare_hash none user = done false
  compare_hash (some d) user = or_fault (same_bytes hash_size d user.hashed_password) undefined

  unfoldable pub matches : String → User → Run Bool
  unfolding padded salted digest compare_hash
  matches password user = elim (salted thrown (padded hash_size (bytes password)) user.salt) [
    | done buffer ↦ compare_hash (digest sql buffer) user
    | fault e ↦ fault e
    | out_of_fuel ↦ out_of_fuel
  ]

  -- The user's row is found.
  unfoldable pub check_user : String → String → List User → Exec State Bool
  unfolding matches
  check_user id password [] = pure false
  check_user id password (user ∷ rest) = do
    same ← lift (matches password user)
    if same
        then (if user.logged_in then pure false else execute (update_logged_in true id))
        else pure false

  unfoldable pub login : String → String → Exec State Bool
  unfolding check_user
  login id password s =
      let (answer, t) = select_user id s in
      elim answer [
        | rows users ↦ check_user id password users t
        | unique_violation ↦ (done false, t)
        | failed ↦ (done false, t)
      ]

  unfoldable pub logout : String → Exec State Bool
  logout id = execute (update_logged_in false id)

  abbrev pub insert_hashed : String → List ℕ → Option (List ℕ) → Exec State Bool
  insert_hashed id salt none = pure false
  insert_hashed id salt (some hash) = execute (insert_user id hash salt)

  -- The salt is drawn, or `RAND_bytes` has failed.
  unfoldable pub create_salted : String → String → Option (List ℕ) → Exec State Bool
  unfolding padded salted digest
  create_salted id password none = pure false
  create_salted id password (some salt) = do
    buffer ← lift (salted undefined (padded hash_size (bytes password)) salt)
    insert_hashed id salt (digest sql buffer)

  unfoldable pub create_user : String → String → Exec State Bool
  unfolding create_salted
  create_user id password s = let (salt, t) = rand_bytes s in create_salted id password salt t

  abbrev pub first : {A : Type 0} → Answer (List A) → Option A
  first (rows []) = none
  first (rows (x ∷ xs)) = some x
  first unique_violation = none
  first failed = none

  unfoldable pub get_char : String → Exec State (Option Player)
  get_char id s = let (answer, t) = select_character id s in (done (first answer), t)

  abbrev pub no_aux : PlayerData
  no_aux = record { magics = []; equips = []; equipped_magic_ids = []; avail_map_ids = [] }

  abbrev pub with_equipped : List Magic → Answer (List (List ℤ)) → PlayerData
  with_equipped magics (rows found) = elim (last found) [
    | none ↦ record no_aux { magics = magics }
    | some ids ↦ record no_aux { magics = magics; equipped_magic_ids = ids }
  ]
  with_equipped magics unique_violation = record no_aux { magics = magics }
  with_equipped magics failed = record no_aux { magics = magics }

  unfoldable pub get_aux : String → Exec State PlayerData
  unfolding last
  get_aux name s =
      let (answer, t) = select_magics name s in
      elim answer [
        | rows magics ↦
            (let (equipped, u) = select_equipped name t in
              (done (with_equipped magics equipped), u))
        | unique_violation ↦ (done no_aux, t)
        | failed ↦ (done no_aux, t)
      ]

  unfoldable pub create_char : String → Player → Exec State Bool
  create_char id player = execute (insert_character id player)

  unfoldable pub create_magic : String → Magic → Exec State Bool
  create_magic name magic = execute (insert_magic name magic)

  unfoldable pub equip_magics : String → List ℤ → Exec State Bool
  equip_magics name ids = execute (upsert_equipped name ids)

  -- The statements of the transaction, in order; the first that fails ends it.
  unfoldable pub fuse_in : String → Magic → ℤ → List ℤ → Tx → Bool × Tx
  fuse_in name magic delete_magic_id ids tx =
      let (updated, a) = update_magic_tx name magic tx in
      let (deleted, b) = delete_magic_tx name delete_magic_id a in
      let (equipped, c) = upsert_equipped_tx name ids b in
      if succeeded updated
      then (if succeeded deleted then (succeeded equipped, c) else (false, b))
      else (false, a)

  -- A transaction that is not committed is rolled back. To begin one throws on an error.
  unfoldable pub fuse_magic : String → Magic → ℤ → List ℤ → Exec State Bool
  unfolding fuse_in
  fuse_magic name magic delete_magic_id ids s =
      let (begun, t) = begin s in
      elim begun [
        | none ↦ (fault thrown, t)
        | some tx ↦
            (let (ready, tx') = fuse_in name magic delete_magic_id ids tx in
              if ready then execute (commit tx') t else (done false, t))
      ]

  -- What server/db_accessor.h declares.
  abbrev pub db_accessor : DbAccessor State
  db_accessor = record {
    login = login;
    logout = logout;
    create_user = create_user;
    get_char = get_char;
    get_aux = get_aux;
    create_char = create_char;
    create_magic = create_magic;
    fuse_magic = fuse_magic;
    equip_magics = equip_magics;
  }
