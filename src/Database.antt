-- ===== src/Database.antt =====
-- The accounts, characters and magics in the player database: server/db_accessor.cpp. PostgreSQL, by
-- the library ozo, and the functions of OpenSSL are an interface of one operation to each statement or
-- call; schemas/niba_player.sql has the tables.
pub mod Passwords
pub mod Accessor
pub mod Tables
pub mod Accounts
pub mod Registration
pub mod Fusions
use niba.Prelude.{ℕ, String, Bool, Option, List}
use niba.Prelude.Int.{ℤ}
use niba.Structs.{Player, Magic}

-- What a statement comes to: its rows, or an error code.
pub data Answer (A : Type 0) : Type 0 where
  rows : A → Answer A
  unique_violation : Answer A
  failed : Answer A

-- A row of `user_id` without its id. Bytes are numbers.
pub record User : Type 0 where
  pub hashed_password : List ℕ
  pub salt : List ℕ
  pub logged_in : Bool

-- `State` is everything outside: the database and the source of randomness. A transaction works on a
-- state of its own, `Tx`; only its `commit` changes the database.
pub record Sql : Type 1 where
  pub State : Type 0
  pub Tx : Type 0
  pub Context : Type 0
  pub bytes : String → List ℕ
  pub rand_bytes : State → Option (List ℕ) × State
  pub sha256_init : Option Context
  pub sha256_update : Context → List ℕ → Option Context
  pub sha256_final : Context → Option (List ℕ)
  pub select_user : String → State → Answer (List User) × State
  pub update_logged_in : Bool → String → State → Answer (Unit {0}) × State
  pub insert_user : String → List ℕ → List ℕ → State → Answer (Unit {0}) × State
  pub select_character : String → State → Answer (List Player) × State
  pub select_magics : String → State → Answer (List Magic) × State
  pub select_equipped : String → State → Answer (List (List ℤ)) × State
  pub insert_character : String → Player → State → Answer (Unit {0}) × State
  pub insert_magic : String → Magic → State → Answer (Unit {0}) × State
  pub upsert_equipped : String → List ℤ → State → Answer (Unit {0}) × State
  pub begin : State → Option Tx × State
  pub update_magic_tx : String → Magic → Tx → Answer (Unit {0}) × Tx
  pub delete_magic_tx : String → ℤ → Tx → Answer (Unit {0}) × Tx
  pub upsert_equipped_tx : String → List ℤ → Tx → Answer (Unit {0}) × Tx
  pub commit : Tx → State → Answer (Unit {0}) × State
