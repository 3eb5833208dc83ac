-- ===== src/Wire.antt =====
-- The JSON texts that client and server exchange: shared/message.cpp, shared/message.h and the
-- conversions of shared/structs.h. The library nlohmann::json is an interface, with the laws of its
-- documentation that the conversions rest on.
pub mod Members
pub mod Structs
pub mod Stats
pub mod Magics
pub mod Tables
pub mod Kinds
pub mod RequestBodies
pub mod Requests
pub mod ResponseBodies
pub mod Responses
pub mod Answers
use niba.Prelude.{
  ℕ, ◌≡◌, String, Bool, true, false, Option, none, some, List, [], ◌∷◌, if◌then◌else◌,
}
use niba.Prelude.Int.{ℤ, pos}
use niba.Prelude.Strings.{str_eq}
use niba.Prelude.Run.{Run, done, or_fault, thrown}

-- The first member of a name.
abbrev pub member : {V : Type 0} → List (String × V) → String → Option V
member [] key = none
member ((k, v) ∷ rest) key = if str_eq k key then some v else member rest key

-- The members once one is set: the last place is for a new name.
abbrev pub assign_member : {V : Type 0} → List (String × V) → String → V → List (String × V)
assign_member [] key value = (key, value) ∷ []
assign_member ((k, v) ∷ rest) key value =
    if str_eq k key then (k, value) ∷ rest else (k, v) ∷ assign_member rest key value

-- `set j key value` is `j[key] = value`, `at` is `j.at(key)`, `contains` asks
-- whether `j.find(key)` finds one; the names that begin with `get` are
-- `j.get<T>()`. A `char` and an enumeration are numbers. Each may throw.
pub record JsonLib (Real : Type 0) : Type 1 where
  pub Json : Type 0
  pub null : Json
  pub object : List (String × Json) → Json
  pub array : List Json → Json
  pub boolean : Bool → Json
  pub number : ℤ → Json
  pub floating : Real → Json
  pub text : String → Json
  pub is_null : Json → Bool
  pub contains : Json → String → Bool
  pub at : Json → String → Run Json
  pub set : Json → String → Json → Run Json
  pub get_array : Json → Run (List Json)
  pub get_boolean : Json → Run Bool
  pub get_number : Json → Run ℤ
  pub get_char : Json → Run ℕ
  pub get_floating : Json → Run Real
  pub get_text : Json → Run String

-- What the documentation says of values that are built and then read.
pub record IsLawful {Real : Type 0} (J : JsonLib Real) : Type 0 where
  pub at-object :
      (ms : List (String × J.Json)) (key : String)
      → J.at (J.object ms) key ≡ or_fault (member ms key) thrown
  pub set-object :
      (ms : List (String × J.Json)) (key : String) (v : J.Json)
      → J.set (J.object ms) key v ≡ done (J.object (assign_member ms key v))
  pub set-null : (key : String) (v : J.Json) → J.set J.null key v ≡ done (J.object ((key, v) ∷ []))
  pub is_null-null : J.is_null J.null ≡ true
  pub is_null-object : (ms : List (String × J.Json)) → J.is_null (J.object ms) ≡ false
  pub get_array-array : (js : List J.Json) → J.get_array (J.array js) ≡ done js
  pub get_boolean-boolean : (b : Bool) → J.get_boolean (J.boolean b) ≡ done b
  pub get_number-number : (n : ℤ) → J.get_number (J.number n) ≡ done n
  pub get_char-number : (c : ℕ) → J.get_char (J.number (pos c)) ≡ done c
  pub get_floating-floating : (x : Real) → J.get_floating (J.floating x) ≡ done x
  pub get_text-text : (s : String) → J.get_text (J.text s) ≡ done s
