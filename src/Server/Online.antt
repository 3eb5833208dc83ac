-- ===== src/Server/Online.antt =====
-- server/session_map.cpp, seen as a function from a name to the live session that receives for it.
use mathlib.Core.Path.{subst}
use niba.Prelude.{
  ℕ, ◌≡◌, refl, ◌∙◌, inl, inr, String, Bool, true, false, Option, none, some, [], ◌∷◌,
  if◌then◌else◌, arith, Bool-cases,
}
use niba.Prelude.Strings.{str_eq, str_eq_iff}
use niba.Server.SessionMap.{Sessions, lookup, erase, remove, recipient, cleanup, register_session}

-- No name has two entries.
abbrev pub Unique : Sessions → Type 0
Unique [] = Unit
Unique ((k, s) ∷ rest) = (lookup k rest ≡ none) × Unique rest

pub lookup-erase_same :
    (name : String) (m : Sessions) → Unique m → lookup name (erase name m) ≡ none
unfolding lookup erase
lookup-erase_same name [] u = refl
lookup-erase_same name ((k, s) ∷ rest) u =
    let ih = lookup-erase_same name rest u.1 in let i = str_eq_iff k name in grind arith

pub lookup-erase_other :
    (name other : String) (m : Sessions)
    → str_eq name other ≡ false
    → lookup other (erase name m) ≡ lookup other m
unfolding lookup erase
lookup-erase_other name other [] h = refl
lookup-erase_other name other ((k, s) ∷ rest) h =
    let ih = lookup-erase_other name other rest h in let i = str_eq_iff k name in grind arith

str_eq-swap : (s t : String) → str_eq s t ≡ false → str_eq t s ≡ false
str_eq-swap s t h = let i = str_eq_iff s t in let j = str_eq_iff t s in grind arith

-- An erased entry leaves no name with two.
pub erase-Unique : (name : String) (m : Sessions) → Unique m → Unique (erase name m)
unfolding lookup erase
erase-Unique name [] u = tt
erase-Unique name ((k, s) ∷ rest) u = elim (Bool-cases (str_eq k name)) [
  | inl e ↦ rw e u.1
  | inr e ↦
      rw e (lookup-erase_other name k rest (str_eq-swap k name e) ∙ u.0, erase-Unique name rest u.1)
]

module _ (expired : ℕ → Bool) where
  lookup-cleanup-none :
      (name : String) (m : Sessions) → lookup name m ≡ none → lookup name (cleanup expired m) ≡ none
  unfolding lookup cleanup
  lookup-cleanup-none name [] h = refl
  lookup-cleanup-none name ((k, s) ∷ rest) h = let ih = lookup-cleanup-none name rest in grind arith

  recipient-none :
      (name : String) (m : Sessions) → lookup name m ≡ none → recipient expired name m ≡ none
  unfolding recipient
  recipient-none name m h = grind arith

  cleanup-Unique : (m : Sessions) → Unique m → Unique (cleanup expired m)
  unfolding cleanup lookup
  cleanup-Unique [] u = tt
  cleanup-Unique ((k, s) ∷ rest) u = elim (Bool-cases (expired s)) [
    | inl e ↦ rw e (cleanup-Unique rest u.1)
    | inr e ↦ rw e (lookup-cleanup-none k rest u.0, cleanup-Unique rest u.1)
  ]

  recipient-cleanup :
      (name : String) (m : Sessions)
      → Unique m
      → recipient expired name (cleanup expired m) ≡ recipient expired name m
  unfolding cleanup lookup recipient
  recipient-cleanup name [] u = refl
  recipient-cleanup name ((k, s) ∷ rest) u =
      let ih = recipient-cleanup name rest u.1 in
      let gone = lookup-cleanup-none name rest in
      let same : str_eq k name ≡ true → lookup name rest ≡ none =
        λ e. subst (λ n. lookup n rest ≡ none) ((str_eq_iff k name).0 e) u.0 in
      let absent = recipient-none name (cleanup expired rest) in grind arith

  -- A registration that succeeds has the session under the name.
  pub register_session-lookup :
      (name : String) (session : ℕ) (m : Sessions)
      → (register_session expired name session m).0 ≡ true
      → lookup name ((register_session expired name session m).1) ≡ some session
  unfolding register_session lookup
  register_session-lookup name session m h = let i = str_eq_iff name name in grind arith

  -- It takes no name from a live session, whether it succeeds or not.
  pub register_session-found :
      (name other : String) (session s : ℕ) (m : Sessions)
      → expired s ≡ false
      → lookup other m ≡ some s
      → lookup other ((register_session expired name session m).1) ≡ some s
  unfolding register_session lookup
  register_session-found name other session s m live h =
      let gone = lookup-erase_other name other m in
      let same : str_eq name other ≡ true → lookup other m ≡ lookup name m =
        λ e. subst (λ n. lookup n m ≡ lookup name m) ((str_eq_iff name other).0 e) refl in
      grind arith

  pub register_session-Unique :
      (name : String) (session : ℕ) (m : Sessions)
      → Unique m
      → Unique ((register_session expired name session m).1)
  unfolding register_session lookup
  register_session-Unique name session m u =
      let erased = lookup-erase_same name m u in let rest = erase-Unique name m u in grind arith

  -- A name is offline where no live session has it.
  abbrev pub offline : Option ℕ → Bool
  offline none = true
  offline (some s) = false

  -- Who receives what is sent to a name, after one name's recipient is changed.
  abbrev pub updated : (String → Option ℕ) → String → Option ℕ → String → Option ℕ
  updated f name r other = if str_eq name other then r else f other

  pub recipient-erase :
      (name other : String) (m : Sessions)
      → Unique m
      → recipient expired other (erase name m)
        ≡ updated (λ n. recipient expired n m) name none other
  unfolding recipient
  recipient-erase name other m u =
      let same : str_eq name other ≡ true → lookup other (erase name m) ≡ none = λ e.
        subst (λ n. lookup n (erase name m) ≡ none) ((str_eq_iff name other).0 e)
          (lookup-erase_same name m u) in
      let differ = lookup-erase_other name other m in grind arith

  -- In a map where no name has two entries, to remove a name takes its session away and changes no
  -- other name's; no name gets two entries.
  pub remove-updated :
      (name : String) (m : Sessions)
      → Unique m
      → Unique (remove name m)
        × ((other : String)
            → recipient expired other (remove name m)
              ≡ updated (λ n. recipient expired n m) name none other)
  unfolding remove
  remove-updated name m u = (erase-Unique name m u, λ other. recipient-erase name other m u)

  -- In a map where no name has two entries, to clean up changes nobody's session; no name gets two
  -- entries.
  pub cleanup-recipient :
      (m : Sessions)
      → Unique m
      → Unique (cleanup expired m)
        × ((name : String) → recipient expired name (cleanup expired m) ≡ recipient expired name m)
  cleanup-recipient m u = (cleanup-Unique m u, λ name. recipient-cleanup name m u)

  -- In a map where no name has two entries, a session that is live registers just where the name is
  -- offline; then the name's session is the new one. No other name's session changes, and none at all
  -- where it fails; no name gets two entries.
  pub register_session-updated :
      (name : String) (session : ℕ) (m : Sessions)
      → Unique m
      → expired session ≡ false
      → Unique ((register_session expired name session m).1)
        × ((register_session expired name session m).0 ≡ offline (recipient expired name m))
        × ((other : String)
            → recipient expired other ((register_session expired name session m).1) ≡ (
                if offline (recipient expired name m)
                then updated (λ n. recipient expired n m) name (some session) other
                else recipient expired other m))
  unfolding register_session recipient lookup
  register_session-updated name session m u live =
      let erased = lookup-erase_same name m u in
      let rest = erase-Unique name m u in
      (
        grind arith,
        grind arith,
        λ other.
            let gone = lookup-erase_other name other m in
            let same : str_eq name other ≡ true → lookup other m ≡ lookup name m =
              λ e. subst (λ n. lookup n m ≡ lookup name m) ((str_eq_iff name other).0 e) refl in
            grind arith,
      )
