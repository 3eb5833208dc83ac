-- ===== src/Message/Loadout.antt =====
-- The magics that a player may equip: `message_reordermagic::validate`, which finds the magics by a
-- map from id to index, against the rule told from the list of the learned magics.
use mathlib.Core.Path.{subst}
use niba.Prelude.{
  ℕ, zero, suc, ◌+◌, ◌-◌, ◌≡◌, refl, ap, sym, ◌∙◌, ◌⊎◌, inl, inr, Bool, true, false, not, ◌&&◌,
  Option, none, some, List, [], ◌∷◌, ◌++◌, length, get_elem?, if◌then◌else◌, arith, Bool-cases, ltb,
  leb, get_elem?-append, append-nil, append_assoc, length-append,
}
use niba.Prelude.Int.{ℤ, pos, eqb_ℤ, eqb_ℤ_iff}
use niba.Prelude.Run.{done}
use niba.Structs.{SessionState, Magic}
use niba.GameData.{Table, find}
use niba.Message.{MessageReordermagic}
use niba.Message.Validate.{is_ingame, assign, index_magics, count_passives, validate_reordermagic}

-- The last learned magic of an id.
unfoldable pub last_magic : ℤ → List Magic → Option Magic
last_magic id [] = none
last_magic id (m ∷ ms) =
    let later = last_magic id ms in
    elim later [ some x ↦ some x | none ↦ if eqb_ℤ m.magic_id id then some m else none ]

abbrev pub count_if : Bool → ℕ → ℕ
count_if b n = if b then suc n else n

abbrev pub is_passive : Option Magic → Bool
is_passive none = false
is_passive (some m) = eqb_ℤ m.active (pos 0)

abbrev pub is_active : Option Magic → Bool
is_active none = false
is_active (some m) = not (eqb_ℤ m.active (pos 0))

abbrev pub is_some : Option Magic → Bool
is_some none = false
is_some (some m) = true

module _ (magics : List Magic) where
  unfoldable pub all_learned : List ℤ → Bool
  all_learned [] = true
  all_learned (id ∷ ids) = is_some (last_magic id magics) && all_learned ids

  unfoldable pub passives_of : List ℤ → ℕ
  passives_of [] = 0
  passives_of (id ∷ ids) = count_if (is_passive (last_magic id magics)) (passives_of ids)

  unfoldable pub actives_of : List ℤ → ℕ
  actives_of [] = 0
  actives_of (id ∷ ids) = count_if (is_active (last_magic id magics)) (actives_of ids)

  length-actives_of :
      (ids : List ℤ) → all_learned ids ≡ true → length ids ≡ passives_of ids + actives_of ids
  unfolding all_learned passives_of actives_of
  length-actives_of [] h = refl
  length-actives_of (id ∷ ids) h = let ih = length-actives_of ids in grind arith

-- What the table tells of an id, once it holds the magics `before`.
abbrev Found : List Magic → Table ℕ → ℤ → Type 0
Found before t id =
    ((find t id ≡ none) × (last_magic id before ≡ none))
    ⊎ ((i : ℕ) × (m : Magic) × (find t id ≡ some i)
        × (get_elem? before i ≡ some m)
        × (last_magic id before ≡ some m))

find-assign_same : (t : Table ℕ) (k : ℤ) (value : ℕ) → find (assign t k value) k ≡ some value
unfolding find assign
find-assign_same [] k value = grind arith
find-assign_same ((key, v) ∷ t) k value = let ih = find-assign_same t k value in grind arith

find-assign_other :
    (t : Table ℕ) (k id : ℤ) (value : ℕ)
    → eqb_ℤ k id ≡ false
    → find (assign t k value) id ≡ find t id
unfolding find assign
find-assign_other [] k id value h = grind arith
find-assign_other ((key, v) ∷ t) k id value h =
    let ih = find-assign_other t k id value h in
    let i = eqb_ℤ_iff key k in
    let same : eqb_ℤ key k ≡ true → eqb_ℤ key id ≡ false =
      λ e. subst (λ x. eqb_ℤ x id ≡ false) (sym ((eqb_ℤ_iff key k).0 e)) h in
    grind arith

last_magic-append :
    (id : ℤ) (m : Magic) (ms : List Magic)
    → last_magic id (ms ++ (m ∷ [])) ≡ (if eqb_ℤ m.magic_id id then some m else last_magic id ms)
unfolding last_magic
last_magic-append id m [] = refl
last_magic-append id m (x ∷ ms) = let ih = last_magic-append id m ms in grind arith

get_elem?-prefix :
    (xs ys : List Magic) (i : ℕ) (m : Magic)
    → get_elem? xs i ≡ some m
    → get_elem? (xs ++ ys) i ≡ some m
get_elem?-prefix [] ys i m h = cc
get_elem?-prefix (x ∷ xs) ys zero m h = h
get_elem?-prefix (x ∷ xs) ys (suc i) m h = get_elem?-prefix xs ys i m h

Found-assign :
    (before : List Magic) (t : Table ℕ) (m : Magic) (id : ℤ)
    → Found before t id
    → Found (before ++ (m ∷ [])) (assign t m.magic_id (length before)) id
Found-assign before t m id found = elim (Bool-cases (eqb_ℤ m.magic_id id)) [
  | inl e ↦ inr (
    length before,
    m,
    subst (λ k. find (assign t k (length before)) id ≡ some (length before))
        (sym ((eqb_ℤ_iff m.magic_id id).0 e)) (find-assign_same t id (length before)),
    get_elem?-append before [] m,
    last_magic-append id m before ∙ ap (λ b. if b then some m else last_magic id before) e,
  )
  | inr e ↦
      let table = find-assign_other t m.magic_id id (length before) e in
      let last =
        last_magic-append id m before ∙ ap (λ b. if b then some m else last_magic id before) e in
      elim found [
        | inl (f, l) ↦ inl (table ∙ f, last ∙ l)
        | inr (i, x, f, g, l) ↦
            inr (i, x, table ∙ f, get_elem?-prefix before (m ∷ []) i x g, last ∙ l)
      ]
]

-- `magic_id_set` finds the last magic of each id.
index_magics-Found :
    (before ms : List Magic) (t : Table ℕ)
    → ((id : ℤ) → Found before t id)
    → (id : ℤ) → Found (before ++ ms) (index_magics (length before) ms t) id
unfolding index_magics
index_magics-Found before [] t found id =
    subst (λ l. Found l t id) (sym (append-nil before)) (found id)
index_magics-Found before (m ∷ ms) t found id =
    let step =
      index_magics-Found (before ++ (m ∷ [])) ms (assign t m.magic_id (length before))
        (λ k. Found-assign before t m k (found k)) id in
    subst
      (λ l.
        Found l (index_magics (suc (length before)) ms (assign t m.magic_id (length before))) id)
      (append_assoc before (m ∷ []) ms)
      (subst
        (λ n.
          Found (before ++ (m ∷ []) ++ ms) (index_magics n ms (assign t m.magic_id (length before)))
            id)
        (omega (arith, length-append before (m ∷ []))) step)

count_passives-of :
    (magics : List Magic) (t : Table ℕ)
    → ((id : ℤ) → Found magics t id)
    → (ids : List ℤ) (passives : ℕ)
    → count_passives magics t ids passives
      ≡ done (if all_learned magics ids then some (passives + passives_of magics ids) else none)
unfolding count_passives all_learned passives_of
count_passives-of magics t found [] passives = ap (λ n. done (some n)) (omega arith)
count_passives-of magics t found (id ∷ ids) passives =
    let ih = count_passives-of magics t found ids in
    elim (found id) [
      | inl (f, l) ↦ rw (count_passives, f) (rw l refl)
      | inr (i, m, f, g, l) ↦ rw (count_passives, f) (rw g (rw l (ih _ ∙ grind arith)))
    ]

-- The rule: every equipped magic is learned, at most one of them is passive and five are active.
abbrev pub fits : SessionState → List ℤ → Bool
fits session ids =
    is_ingame session.state
    && all_learned session.session_data.magics ids
    && leb (passives_of session.session_data.magics ids) 1
    && leb (actives_of session.session_data.magics ids) 5

verdict :
    (ingame learned : Bool) (n passives actives : ℕ)
    → (learned ≡ true → n ≡ passives + actives)
    → (if not ingame
        then done false
        else if ltb 6 n
        then done false
        else elim (if learned then some (0 + passives) else none) [
          | none ↦ done false
          | some p ↦ if ltb 1 p then done false else done (not (ltb 5 (n - p)))
        ])
      ≡ done (ingame && learned && leb passives 1 && leb actives 5)
verdict ingame learned n passives actives h = ground arith

-- Reordering is validated without undefined behaviour, for every session and every list of ids, and
-- the answer is whether the list keeps the rule.
pub validate_reordermagic-fits :
    (session : SessionState) (m : MessageReordermagic)
    → validate_reordermagic session m ≡ done (fits session m.equipped_magic_ids)
unfolding validate_reordermagic last_magic
validate_reordermagic-fits session m =
    let magics = session.session_data.magics in
    let found : (id : ℤ) → Found magics (index_magics 0 magics []) id =
      index_magics-Found [] magics [] (λ id. inl (refl, refl)) in
    let lengths = length-actives_of magics m.equipped_magic_ids in
    rw (count_passives-of magics (index_magics 0 magics []) found m.equipped_magic_ids 0)
      (verdict (is_ingame session.state) (all_learned magics m.equipped_magic_ids) _ _ _ lengths)
