-- ===== src/Server/World.antt =====
-- What a `server_processor` works on, and what it is given: the interface of server/db_accessor.h,
-- the game's tables, the session of the connection and the map of all sessions.
use niba.Prelude.{ℕ, String, Bool, Option, List}
use niba.Prelude.Int.{ℤ}
use niba.Prelude.Exec.{Exec}
use niba.Prelude.Double.{Double}
use niba.Structs.{Player, Magic, PlayerData, SessionState, Attributes}
use niba.GameData.{StaticData}
use niba.Server.SessionMap.{Sessions}

-- The members of `db_accessor` over a store of players; each may throw.
pub record DbAccessor (Store : Type 0) : Type 0 where
  pub login : String → String → Exec Store Bool
  pub logout : String → Exec Store Bool
  pub create_user : String → String → Exec Store Bool
  pub get_char : String → Exec Store (Option Player)
  pub get_aux : String → Exec Store PlayerData
  pub create_char : String → Player → Exec Store Bool
  pub create_magic : String → Magic → Exec Store Bool
  pub fuse_magic : String → Magic → ℤ → List ℤ → Exec Store Bool
  pub equip_magics : String → List ℤ → Exec Store Bool

-- `Store` is the state of the database, `Engine` that of the sources of randomness. `uniform` and
-- `weighted_rand` draw from it; `fuel` bounds the rounds of a fight; `self` is the processor's own
-- session. `delay_factor` is DELAYFACTOR.
pub record Env : Type 1 where
  pub double : Double
  pub asserts : Bool
  pub Store : Type 0
  pub db : DbAccessor Store
  pub Engine : Type 0
  pub uniform : Engine → ℤ → ℤ → ℤ × Engine
  pub weighted_rand : Attributes → Engine → ℕ × Engine
  pub tables : StaticData (double.Real)
  pub expired : ℕ → Bool
  pub self : ℕ
  pub fuel : ℕ
  pub delay_factor : double.Real

-- A text that was handed to a session for writing: whose session, and the echo's two members.
pub record Sent : Type 0 where
  pub to : ℕ
  pub name : String
  pub echo_str : String
  pub sender : String

pub record World (Store Engine : Type 0) : Type 0 where
  pub session : SessionState
  pub store : Store
  pub engine : Engine
  pub sessions : Sessions
  pub sent : List Sent
