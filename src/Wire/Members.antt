-- ===== src/Wire/Members.antt =====
-- Reading the members of an object.
use niba.Prelude.{◌≡◌, refl, String, List, [], ◌∷◌, some, map}
use niba.Prelude.Run.{Run, done, ◌>>=◌}
use niba.Wire.{JsonLib, IsLawful, member}

module _ {Real : Type 0} (J : JsonLib Real) where
  open J use {Json, object, array, at, get_array}

  -- `j.at(key).get_to(x)` for a type that is read by `get`.
  unfoldable pub get_to : {A : Type 0} → (Json → Run A) → Json → String → Run A
  get_to get j key = at j key >>= get

  abbrev pub get_each : {A : Type 0} → (Json → Run A) → List Json → Run (List A)
  get_each get [] = done []
  get_each get (j ∷ js) = do x ← get j; xs ← get_each get js; done (x ∷ xs)

  -- A vector is an array.
  unfoldable pub get_vector : {A : Type 0} → (Json → Run A) → Json → Run (List A)
  get_vector get j = get_array j >>= get_each get

  module _ (lawful : IsLawful J) where
    pub get_to-object :
        {A : Type 0} (get : Json → Run A) (ms : List (String × Json)) (key : String) {v : Json}
        {x : A}
        → member ms key ≡ some v
        → get v ≡ done x
        → get_to get (object ms) key ≡ done x
    unfolding get_to
    get_to-object get ms key h k = rw (lawful.at-object ms key) (rw h k)

    get_each-map :
        {A : Type 0} (get : Json → Run A) (json : A → Json)
        → ((x : A) → get (json x) ≡ done x)
        → (xs : List A) → get_each get (map json xs) ≡ done xs
    get_each-map get json h [] = refl
    get_each-map get json h (x ∷ xs) = rw (h x) (rw (get_each-map get json h xs) refl)

    pub get_vector-map :
        {A : Type 0} (get : Json → Run A) (json : A → Json)
        → ((x : A) → get (json x) ≡ done x)
        → (xs : List A) → get_vector get (array (map json xs)) ≡ done xs
    unfolding get_vector
    get_vector-map get json h xs =
        rw (lawful.get_array-array (map json xs)) (get_each-map get json h xs)
