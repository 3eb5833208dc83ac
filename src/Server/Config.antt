-- ===== src/Server/Config.antt =====
-- server/config.h: the settings of the server, from a file of JSON. The file is what it parses to.
pub mod Settled
use niba.Prelude.{ℕ, ◌-◌, ◌%◌, String, Bool, true, false, Option, none, some, if◌then◌else◌}
use niba.Prelude.Int.{ℤ, pos, negsuc}
use niba.Prelude.Run.{Run, done, fault, thrown, undefined, asserted, out_of_fuel}
use niba.Prelude.Exec.{Exec, ◌>>=◌, ◌>>◌, pure, lift, modify_state}
use niba.Wire.{JsonLib}
use niba.Wire.Members.{get_to}

pub record Config : Type 0 where
  pub host : String
  pub port : ℕ
  pub threads : ℤ
  pub static_conn_str : String
  pub player_conn_str : String

abbrev pub default_config : Config
default_config = record {
  host = "0.0.0.0";
  port = 19999;
  threads = pos 2;
  static_conn_str = "dbname=niba_static user=postgres";
  player_conn_str = "dbname=niba user=postgres";
}

-- The conversion to `unsigned short`.
unfoldable pub to_port : ℤ → ℕ
to_port (pos n) = n % 65536
to_port (negsuc n) = 65535 - n % 65536

module _ {Real : Type 0} (J : JsonLib Real) where
  open J use {Json, contains, get_text, get_number}

  abbrev pub get_port : Json → Run ℕ
  get_port j = elim (get_number j) [
    | done n ↦ done (to_port n)
    | fault e ↦ fault e
    | out_of_fuel ↦ out_of_fuel
  ]

  -- `find` and `get_to` of one member: it stays as it is where there is none.
  unfoldable pub take_member :
      {A : Type 0} → (Json → Run A) → (A → Config → Config) → Json → String → Exec Config (Unit {0})
  take_member get set j key =
      if contains j key
      then (do value ← lift (get_to J get j key); modify_state (set value))
      else pure tt

  unfoldable pub take_members : Json → Exec Config (Unit {0})
  take_members j = do
    take_member get_text (λ v c. record c { host = v }) j "host"
    take_member get_port (λ v c. record c { port = v }) j "port"
    take_member get_number (λ v c. record c { threads = v }) j "threads"
    take_member get_text (λ v c. record c { static_conn_str = v }) j "static_conn_str"
    take_member get_text (λ v c. record c { player_conn_str = v }) j "player_conn_str"

  -- The `catch`: what was set before the throw stays set.
  abbrev pub config_of : Run (Unit {0}) × Config → Run Config
  config_of (done u, c) = done c
  config_of (fault thrown, c) = done c
  config_of (fault undefined, c) = fault undefined
  config_of (fault asserted, c) = fault asserted
  config_of (out_of_fuel, c) = out_of_fuel

  -- Without an argument there is no file.
  unfoldable pub read_config : Option (Run Json) → Run Config
  read_config none = done default_config
  read_config (some parsed) = config_of ((do j ← lift parsed; take_members j) default_config)
