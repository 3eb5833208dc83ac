-- ===== src/Message/Newcomers.antt =====
-- The characters that may be created: `message_createchar::validate` of shared/message.cpp.
use mathlib.Core.Path.{ap₂, subst}
use niba.Prelude.{
  ℕ, ◌+◌, ◌≤◌, ◌<◌, ◌≡◌, ◌≢◌, refl, ap, sym, ◌∙◌, ◌⊎◌, ◌↔◌, inl, inr, Bool, true, false, not, ◌||◌,
  ◌==◌, arith, if◌then◌else◌, Bool-cases, String,
}
use niba.Prelude.Int.{ℤ, pos, negsuc, ◌+ℤ◌, ltb_ℤ, pos_part}
use niba.Prelude.Word.{add_int, add_int-eq, IsInt}
use niba.Prelude.Strings.{str_eq, str_eq_iff}
use niba.Structs.{GameState, prelogin, createchar, ingame, SessionState, Attributes}
use niba.Message.{MessageCreatechar}
use niba.Message.Validate.{is_createchar, validate_createchar}

+ℤ-pos : (a b : ℕ) → pos a +ℤ pos b ≡ pos (a + b)
unfolding ◌+ℤ◌
+ℤ-pos a b = ground arith

add_int-pos : (a b : ℕ) → a + b < 2147483648 → add_int (pos a) (pos b) ≡ pos (a + b)
add_int-pos a b h =
    add_int-eq (pos a) (pos b) (subst IsInt (sym (+ℤ-pos a b)) (h, omega arith)) ∙ +ℤ-pos a b

nonneg : (a : ℤ) → ltb_ℤ a (pos 0) ≡ false → a ≡ pos (pos_part a)
nonneg (pos n) h = refl
nonneg (negsuc n) h = ground arith

-- The attributes as numbers, and their sum without a bound.
abbrev pub total : Attributes → ℕ
total a = pos_part a.strength + pos_part a.dexterity + pos_part a.spirit + pos_part a.physique

abbrev pub NoneNegative : Attributes → Type 0
NoneNegative a =
    (ltb_ℤ a.strength (pos 0) ≡ false)
    × (ltb_ℤ a.dexterity (pos 0) ≡ false)
    × (ltb_ℤ a.spirit (pos 0) ≡ false)
    × (ltb_ℤ a.physique (pos 0) ≡ false)

sum-total :
    (a : Attributes)
    → NoneNegative a
    → total a < 2147483648
    → add_int (add_int (add_int a.strength a.dexterity) a.spirit) a.physique ≡ pos (total a)
sum-total a (s, d, p, k) h =
    ap₂ add_int
      (ap₂ add_int
          (ap₂ add_int (nonneg a.strength s) (nonneg a.dexterity d) ∙ add_int-pos _ _ (omega arith))
          (nonneg a.spirit p)
        ∙ add_int-pos _ _ (omega arith))
      (nonneg a.physique k)
    ∙ add_int-pos _ _ h

-- A character that may be created by the rules of the game.
abbrev pub Creatable : SessionState → MessageCreatechar → Type 0
Creatable session m =
    (session.state ≡ createchar)
    × ((m.player.gender ≡ b'm') ⊎ (m.player.gender ≡ b'f'))
    × (m.player.name ≢ "")
    × NoneNegative m.player.attrs
    × (total m.player.attrs ≤ 5)

is_createchar_iff : (s : GameState) → (is_createchar s ≡ true) ↔ (s ≡ createchar)
is_createchar_iff prelogin = ((λ h. cc), (λ h. cc))
is_createchar_iff createchar = ((λ h. refl), (λ h. refl))
is_createchar_iff ingame = ((λ h. cc), (λ h. cc))

gender_iff : (g : ℕ) → ((g == b'm' || g == b'f') ≡ true) ↔ ((g ≡ b'm') ⊎ (g ≡ b'f'))
gender_iff g = ground arith

all_pass :
    (a b c d e : Bool)
    → ((if not a
          then false
          else if not b
          then false
          else if c
          then false
          else if d
          then false
          else not e)
        ≡ true)
      ↔ ((a ≡ true) × (b ≡ true) × (c ≡ false) × (d ≡ false) × (e ≡ false))
all_pass a b c d e = ground arith

none_of :
    (a b c d : Bool)
    → ((a || b || c || d) ≡ false) ↔ ((a ≡ false) × (b ≡ false) × (c ≡ false) × (d ≡ false))
none_of a b c d = ground arith

unequal_iff : (s t : String) → (str_eq s t ≡ false) ↔ (s ≢ t)
unequal_iff s t =
    let i = str_eq_iff s t in
    (
      (λ h e. let k = i.1 e in cc),
      λ h. elim (Bool-cases (str_eq s t)) [ inl e ↦ absurd (h (i.0 e)) | inr e ↦ e ],
    )

over_iff : (n : ℕ) → (ltb_ℤ (pos 5) (pos n) ≡ false) ↔ (n ≤ 5)
over_iff n = ground arith

-- Where the attributes sum to less than 2^31, a character passes `validate` just where the rules of
-- the game let it be created: the session is at that point, the gender is 'm' or 'f', the name is not
-- empty, no attribute is negative, and they sum to at most 5.
pub validate_createchar-Creatable :
    (session : SessionState) (m : MessageCreatechar)
    → total m.player.attrs < 2147483648
    → (validate_createchar session m ≡ true) ↔ Creatable session m
unfolding validate_createchar
validate_createchar-Creatable session m small = (
  λ h.
      let (st, g, n, neg, over) = (all_pass _ _ _ _ _).0 h in
      let signs = (none_of _ _ _ _).0 neg in
      (
        (is_createchar_iff session.state).0 st,
        (gender_iff m.player.gender).0 g,
        (unequal_iff m.player.name "").0 n,
        signs,
        (over_iff (total m.player.attrs)).0
            (ap (λ z. ltb_ℤ (pos 5) z) (sym (sum-total m.player.attrs signs small)) ∙ over),
      ),
  λ (st, g, n, signs, few). (all_pass _ _ _ _ _).1 (
    (is_createchar_iff session.state).1 st,
    (gender_iff m.player.gender).1 g,
    (unequal_iff m.player.name "").1 n,
    (none_of _ _ _ _).1 signs,
    ap (λ z. ltb_ℤ (pos 5) z) (sum-total m.player.attrs signs small)
        ∙ (over_iff (total m.player.attrs)).1 few,
  ),
)
