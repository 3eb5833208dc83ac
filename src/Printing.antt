-- ===== src/Printing.antt =====
-- What the operators `<<` of shared/structs.h write to a stream: the texts, in their order. How the
-- standard library writes a number or a character is a parameter.
use niba.Prelude.{
  ℕ, suc, ◌+◌, ◌-◌, ◌≡◌, refl, ap, arith, String, Bool, true, false, ◌==◌, List, [], ◌∷◌, ◌++◌,
  length, if◌then◌else◌,
}
use niba.Prelude.Int.{ℤ, eqb_ℤ}
use niba.Structs.{
  Attributes, Player, EquipmentType, head, armor, boots, gloves, belt, amulet, ring, weapon,
}
use niba.Fight.Damage.{Property, gold, wood, water, fire, earth, other}

-- A value that is no enumerator writes nothing.
unfoldable pub print_property : Property → List String
print_property gold = "gold" ∷ []
print_property wood = "wood" ∷ []
print_property water = "water" ∷ []
print_property fire = "fire" ∷ []
print_property earth = "earth" ∷ []
print_property other = []

unfoldable pub print_equipment_type : EquipmentType → List String
print_equipment_type v =
    if is v head
    then "head" ∷ []
    else if is v armor
    then "armor" ∷ []
    else if is v boots
    then "boots" ∷ []
    else if is v gloves
    then "gloves" ∷ []
    else if is v belt
    then "belt" ∷ []
    else if is v amulet
    then "amulet" ∷ []
    else if is v ring
    then "ring" ∷ []
    else if is v weapon
    then "weapon" ∷ []
    else []
  where
    is : EquipmentType → EquipmentType → Bool
    is a b = eqb_ℤ a.underlying b.underlying

module _ {A : Type 0} (print : A → List String) where
  -- The loop from index `i` on, over a vector of `size` elements.
  unfoldable pub print_from : ℕ → ℕ → List A → List String
  print_from size i [] = []
  print_from size i (v ∷ vs) =
      print v ++ ((if i == size - 1 then [] else ", " ∷ []) ++ print_from size (suc i) vs)

  unfoldable pub print_vector : List A → List String
  unfolding print_from
  print_vector vs = "[" ∷ (print_from (length vs) 0 vs ++ ("] " ∷ []))

  -- Elements with a comma between them.
  abbrev separated : List A → List String
  separated [] = []
  separated (v ∷ []) = print v ++ []
  separated (v ∷ (w ∷ vs)) = print v ++ (", " ∷ separated (w ∷ vs))

  print_from-separated :
      (size i : ℕ) (vs : List A) → i + length vs ≡ size → print_from size i vs ≡ separated vs
  unfolding print_from
  print_from-separated size i [] e = refl
  print_from-separated size i (v ∷ []) e =
      let last : (i == size - 1) ≡ true = ground arith in rw last refl
  print_from-separated size i (v ∷ (w ∷ vs)) e =
      let inner : (i == size - 1) ≡ false = ground arith in
      let rest = print_from-separated size (suc i) (w ∷ vs) (omega arith) in
      rw inner (ap (λ texts. print v ++ (", " ∷ texts)) rest)

  -- A comma stands between two elements, and none behind the last.
  pub print_vector-separated : (vs : List A) → print_vector vs ≡ "[" ∷ (separated vs ++ ("] " ∷ []))
  unfolding print_vector
  print_vector-separated vs =
      ap (λ texts. "[" ∷ (texts ++ ("] " ∷ [])))
        (print_from-separated (length vs) 0 vs (omega arith))

-- The members of a struct, by their names.
unfoldable pub print_struct : List (String × List String) → List String
print_struct [] = []
print_struct ((name, member) ∷ members) = name ∷ (": " ∷ (member ++ (" " ∷ print_struct members)))

module _ (print_int : ℤ → String) (print_char : ℕ → String) where
  unfoldable pub print_attributes : Attributes → List String
  unfolding print_struct
  print_attributes a = print_struct (
      ("strength", print_int a.strength ∷ [])
      ∷ ("dexterity", print_int a.dexterity ∷ [])
      ∷ ("physique", print_int a.physique ∷ [])
      ∷ ("spirit", print_int a.spirit ∷ [])
      ∷ [])

  unfoldable pub print_player : Player → List String
  unfolding print_attributes
  print_player p = print_struct (
      ("name", p.name ∷ [])
      ∷ ("gender", print_char p.gender ∷ [])
      ∷ ("attrs", print_attributes p.attrs)
      ∷ [])
