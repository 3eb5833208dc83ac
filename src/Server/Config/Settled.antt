-- ===== src/Server/Config/Settled.antt =====
-- What the settings of server/config.h come to, member by member.
use niba.Prelude.{
  ℕ, ◌≡◌, refl, ap, ◌∙◌, String, Bool, true, false, ◌&&◌, ◌⊎◌, inl, inr, some, Bool-cases,
  if◌then◌else◌,
}
use niba.Prelude.Int.{ℤ}
use niba.Prelude.Run.{Run, done, fault, thrown}
use niba.Prelude.Exec.{Exec, ◌>>◌, >>=-after}
use niba.Wire.{JsonLib}
use niba.Wire.Members.{get_to}
use niba.Server.Config.{
  Config, default_config, get_port, take_member, take_members, config_of, read_config,
}

-- A member of the file: there is none, or it has a value, or it is of another type.
pub data Reading (A : Type 0) : Type 0 where
  absent : Reading A
  value : A → Reading A
  mistyped : Reading A

abbrev pub is_readable : {A : Type 0} → Reading A → Bool
is_readable absent = true
is_readable (value v) = true
is_readable mistyped = false

abbrev pub value_or : {A : Type 0} → A → Reading A → A
value_or other (value v) = v
value_or other _ = other

-- The value of a member, if it and all before it are readable.
abbrev pub settled : {A : Type 0} → Bool → A → Reading A → A
settled true other r = value_or other r
settled false other r = other

-- The settings whose members are readable as the five truth values say.
abbrev pub config_by :
    Bool
    → Bool
    → Bool
    → Bool
    → Bool
    → Reading String
    → Reading ℕ
    → Reading ℤ
    → Reading String
    → Reading String
    → Config
config_by a b c d e host port threads static_conn_str player_conn_str =
    let defaults = default_config in
    record {
      host = settled a defaults.host host;
      port = settled (a && b) defaults.port port;
      threads = settled (a && b && c) defaults.threads threads;
      static_conn_str = settled (a && b && c && d) defaults.static_conn_str static_conn_str;
      player_conn_str = settled (a && b && c && d && e) defaults.player_conn_str player_conn_str;
    }

abbrev pub reading_of : {A : Type 0} → Run A → Reading A
reading_of (done v) = value v
reading_of _ = mistyped

-- The settings, one member after another.
config_by-nested :
    (a b d e f : Bool) (host : Reading String) (port : Reading ℕ) (threads : Reading ℤ)
    (static_conn_str player_conn_str : Reading String)
    → (let c₀ = default_config in
        let c₁ = record c₀ { host = value_or c₀.host host } in
        let c₂ = record c₁ { port = value_or c₁.port port } in
        let c₃ = record c₂ { threads = value_or c₂.threads threads } in
        let c₄ = record c₃ { static_conn_str = value_or c₃.static_conn_str static_conn_str } in
        let c₅ = record c₄ { player_conn_str = value_or c₄.player_conn_str player_conn_str } in
        if a
        then if b then if d then if e then if f then c₅ else c₄ else c₃ else c₂ else c₁
        else c₀)
      ≡ config_by a b d e f host port threads static_conn_str player_conn_str
config_by-nested false b d e f host port threads static_conn_str player_conn_str = refl
config_by-nested true false d e f host port threads static_conn_str player_conn_str = refl
config_by-nested true true false e f host port threads static_conn_str player_conn_str = refl
config_by-nested true true true false f host port threads static_conn_str player_conn_str = refl
config_by-nested true true true true false host port threads static_conn_str player_conn_str = refl
config_by-nested true true true true true host port threads static_conn_str player_conn_str = refl

module _ {Real : Type 0} (J : JsonLib Real) where
  open J use {Json, contains, get_text, get_number}

  abbrev pub reading : {A : Type 0} → (Json → Run A) → Json → String → Reading A
  reading get j key = if contains j key then reading_of (get_to J get j key) else absent

  -- To read the member yields a value or throws.
  abbrev pub Throws : {A : Type 0} → (Json → Run A) → Json → String → Type 0
  Throws {A} get j key =
      ((v : A) × (get_to J get j key ≡ done v)) ⊎ (get_to J get j key ≡ fault thrown)

  -- How far the reading of a member gets, for a member that has been `now`.
  take_member-reading :
      {A : Type 0} (get : Json → Run A) (set : A → Config → Config) (j : Json) (key : String)
      (c : Config) (now : A)
      → Throws get j key
      → set now c ≡ c
      → take_member J get set j key c ≡ (
          if is_readable (reading get j key)
          then (done tt, set (value_or now (reading get j key)) c)
          else (fault thrown, c))
  unfolding take_member
  take_member-reading get set j key c now throws same = elim (Bool-cases (contains j key)) [
    | inl there ↦ elim throws [ inl (v, e) ↦ rw (there, e) refl | inr e ↦ rw (there, e) refl ]
    | inr missing ↦ rw (missing, same) refl
  ]

  -- A member is read, and then the others.
  take-then :
      (m k : Exec Config (Unit {0})) (readable : Bool) (c c' : Config) {last : Config}
      → m c ≡ (if readable then (done tt, c') else (fault thrown, c))
      → config_of J (k c') ≡ done last
      → config_of J ((m >> k) c) ≡ done (if readable then last else c)
  take-then m k true c c' h e = ap (config_of J) (>>=-after m (λ u. k) c h) ∙ e
  take-then m k false c c' h e = ap (config_of J) (>>=-after m (λ u. k) c h)

  take-last :
      (m : Exec Config (Unit {0})) (readable : Bool) (c c' : Config)
      → m c ≡ (if readable then (done tt, c') else (fault thrown, c))
      → config_of J (m c) ≡ done (if readable then c' else c)
  take-last m true c c' h = ap (config_of J) h
  take-last m false c c' h = ap (config_of J) h

  abbrev Steps : Exec Config (Unit {0}) → Bool → Config → Config → Type 0
  Steps m readable c c' = m c ≡ (if readable then (done tt, c') else (fault thrown, c))

  take_five :
      (m₁ m₂ m₃ m₄ m₅ : Exec Config (Unit {0})) (a b d e f : Bool) (c₀ c₁ c₂ c₃ c₄ c₅ : Config)
      → Steps m₁ a c₀ c₁
      → Steps m₂ b c₁ c₂
      → Steps m₃ d c₂ c₃
      → Steps m₄ e c₃ c₄
      → Steps m₅ f c₄ c₅
      → config_of J ((m₁ >> (m₂ >> (m₃ >> (m₄ >> m₅)))) c₀)
        ≡ done (
            if a
            then if b then if d then if e then if f then c₅ else c₄ else c₃ else c₂ else c₁
            else c₀)
  take_five m₁ m₂ m₃ m₄ m₅ a b d e f c₀ c₁ c₂ c₃ c₄ c₅ h₁ h₂ h₃ h₄ h₅ =
      take-then m₁ (m₂ >> (m₃ >> (m₄ >> m₅))) a c₀ c₁ h₁ (
        take-then m₂ (m₃ >> (m₄ >> m₅)) b c₁ c₂ h₂ (
          take-then m₃ (m₄ >> m₅) d c₂ c₃ h₃
            (take-then m₄ m₅ e c₃ c₄ h₄ (take-last m₅ f c₄ c₅ h₅))))

  -- The five members, as far as they are read.
  abbrev pub settled_config : Json → Config
  settled_config j =
      let host = reading get_text j "host" in
      let port = reading (get_port J) j "port" in
      let threads = reading get_number j "threads" in
      let static_conn_str = reading get_text j "static_conn_str" in
      let player_conn_str = reading get_text j "player_conn_str" in
      config_by (is_readable host) (is_readable port) (is_readable threads)
        (is_readable static_conn_str) (is_readable player_conn_str) host port threads
        static_conn_str player_conn_str

  -- With a file that parses to `j`, and a library that throws where a member is of another type, a member
  -- of the settings is that of the file, if it has one and this and all before it are of their
  -- types; otherwise it is the default.
  pub read_config-settled :
      (j : Json)
      → Throws get_text j "host"
      → Throws (get_port J) j "port"
      → Throws get_number j "threads"
      → Throws get_text j "static_conn_str"
      → Throws get_text j "player_conn_str"
      → read_config J (some (done j)) ≡ done (settled_config j)
  unfolding read_config take_members
  read_config-settled j th tp tt' ts tq =
      let host = reading get_text j "host" in
      let port = reading (get_port J) j "port" in
      let threads = reading get_number j "threads" in
      let static_conn_str = reading get_text j "static_conn_str" in
      let player_conn_str = reading get_text j "player_conn_str" in
      let c₁ = record default_config { host = value_or default_config.host host } in
      let c₂ = record c₁ { port = value_or c₁.port port } in
      let c₃ = record c₂ { threads = value_or c₂.threads threads } in
      let c₄ = record c₃ { static_conn_str = value_or c₃.static_conn_str static_conn_str } in
      let a = is_readable host in
      let b = is_readable port in
      let d = is_readable threads in
      let e = is_readable static_conn_str in
      let f = is_readable player_conn_str in
      let set_host : String → Config → Config = λ v c. record c { host = v } in
      let set_port : ℕ → Config → Config = λ v c. record c { port = v } in
      let set_threads : ℤ → Config → Config = λ v c. record c { threads = v } in
      let set_static : String → Config → Config = λ v c. record c { static_conn_str = v } in
      let set_player : String → Config → Config = λ v c. record c { player_conn_str = v } in
      let t₁ = take_member J get_text set_host j "host" in
      let t₂ = take_member J (get_port J) set_port j "port" in
      let t₃ = take_member J get_number set_threads j "threads" in
      let t₄ = take_member J get_text set_static j "static_conn_str" in
      let t₅ = take_member J get_text set_player j "player_conn_str" in
      take_five t₁ t₂ t₃ t₄ t₅ a b d e f default_config c₁ c₂ c₃ c₄
        (record c₄ { player_conn_str = value_or c₄.player_conn_str player_conn_str })
        (take_member-reading get_text set_host j "host" default_config default_config.host th refl)
        (take_member-reading (get_port J) set_port j "port" c₁ c₁.port tp refl)
        (take_member-reading get_number set_threads j "threads" c₂ c₂.threads tt' refl)
        (take_member-reading get_text set_static j "static_conn_str" c₃ c₃.static_conn_str ts refl)
        (take_member-reading get_text set_player j "player_conn_str" c₄ c₄.player_conn_str tq refl)
      ∙ ap done (config_by-nested a b d e f host port threads static_conn_str player_conn_str)
