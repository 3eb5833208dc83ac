-- ===== src/Tests/Json.antt =====
-- Values for the interface of nlohmann::json: trees with the operations that the laws ask for.
use niba.Prelude.{ℕ, ◌≡◌, refl, ap, String, Bool, true, false, Option, none, some, List, [], ◌∷◌}
use niba.Prelude.Int.{ℤ, pos}
use niba.Prelude.Run.{Run, done, fault, or_fault, thrown}
use niba.Wire.{JsonLib, IsLawful, member, assign_member}

-- A tree, the list of an array's elements, and that of an object's members.
mutual
  pub data Tree : Type 0 where
    list_leaf : Elements → Tree
    object_leaf : Members → Tree
    text_leaf : String → Tree
    number_leaf : ℤ → Tree
    flag_leaf : Bool → Tree
    null_leaf : Tree

  pub data Members : Type 0 where
    member_of : String → Tree → Members → Members
    no_members : Members

  pub data Elements : Type 0 where
    element_of : Tree → Elements → Elements
    no_elements : Elements

abbrev items : List Tree → Elements
items [] = no_elements
items (v ∷ vs) = element_of v (items vs)

abbrev pub list_of : Elements → List Tree
list_of no_elements = []
list_of (element_of v vs) = v ∷ list_of vs

abbrev fields : List (String × Tree) → Members
fields [] = no_members
fields ((k, v) ∷ ms) = member_of k v (fields ms)

abbrev pub members : Members → List (String × Tree)
members no_members = []
members (member_of k v fs) = (k, v) ∷ members fs

pub list_of-items : (vs : List Tree) → list_of (items vs) ≡ vs
list_of-items [] = refl
list_of-items (v ∷ vs) = ap (λ r. v ∷ r) (list_of-items vs)

members-fields : (ms : List (String × Tree)) → members (fields ms) ≡ ms
members-fields [] = refl
members-fields ((k, v) ∷ ms) = ap {B = List (String × Tree)} (λ r. (k, v) ∷ r) (members-fields ms)

abbrev at_member : Tree → String → Run Tree
at_member (object_leaf fs) key = or_fault (member (members fs) key) thrown
at_member _ key = fault thrown

abbrev is_found : {A : Type 0} → Option A → Bool
is_found none = false
is_found (some a) = true

abbrev has_member : Tree → String → Bool
has_member (object_leaf fs) key = is_found (member (members fs) key)
has_member _ key = false

abbrev set_member : Tree → String → Tree → Run Tree
set_member null_leaf key v = done (object_leaf (member_of key v no_members))
set_member (object_leaf fs) key v = done (object_leaf (fields (assign_member (members fs) key v)))
set_member _ key v = fault thrown

abbrev array_of : Tree → Run (List Tree)
array_of (list_leaf vs) = done (list_of vs)
array_of _ = fault thrown

abbrev flag_of : Tree → Run Bool
flag_of (flag_leaf b) = done b
flag_of _ = fault thrown

abbrev number_of : Tree → Run ℤ
number_of (number_leaf n) = done n
number_of _ = fault thrown

abbrev char_of : Tree → Run ℕ
char_of (number_leaf (pos c)) = done c
char_of _ = fault thrown

abbrev text_of : Tree → Run String
text_of (text_leaf s) = done s
text_of _ = fault thrown

abbrev is_null_value : Tree → Bool
is_null_value null_leaf = true
is_null_value _ = false

-- Whole numbers stand for `double`.
abbrev pub trees : JsonLib ℤ
trees = record {
  Json = Tree;
  null = null_leaf;
  object = λ ms. object_leaf (fields ms);
  array = λ vs. list_leaf (items vs);
  boolean = flag_leaf;
  number = number_leaf;
  floating = number_leaf;
  text = text_leaf;
  is_null = is_null_value;
  contains = has_member;
  at = at_member;
  set = set_member;
  get_array = array_of;
  get_boolean = flag_of;
  get_number = number_of;
  get_char = char_of;
  get_floating = number_of;
  get_text = text_of;
}

pub trees-IsLawful : IsLawful trees
trees-IsLawful = record {
  at-object = λ ms key. ap (λ l. or_fault (member l key) thrown) (members-fields ms);
  set-object =
      λ ms key v. ap (λ l. done (object_leaf (fields (assign_member l key v)))) (members-fields ms);
  set-null = λ key v. refl;
  is_null-null = refl;
  is_null-object = λ ms. refl;
  get_array-array = λ vs. ap (λ l. done l) (list_of-items vs);
  get_boolean-boolean = λ b. refl;
  get_number-number = λ n. refl;
  get_char-number = λ c. refl;
  get_floating-floating = λ x. refl;
  get_text-text = λ s. refl;
}
