-- ===== src/Fight/Alive.antt =====
-- Who lives in a list of fighters. Only hp, team and number matter to that: the vitals.
pub mod Passes
pub mod Turns
pub mod Winner
pub mod Ready
use niba.Prelude.{
  ◌++◌, length, length-append, append_assoc, get_elem?-append, sym, ℕ, zero, suc, ◌+◌, ◌≡◌, refl,
  ap, ◌∙◌, Bool, true, false, not, ◌&&◌, ◌==◌, Option, none, some, List, [], ◌∷◌, map, arith,
  if◌then◌else◌, get_elem?, modify, All, Bool-cases, inl, inr,
}
use niba.Prelude.Int.{ℤ, pos, leb_ℤ}
use niba.Prelude.Run.{done, or_fault, thrown}
use niba.Fight.Fighter.{Fightable, stats_of, is_down}
use niba.Fight.Clock.{alive_from, at}

abbrev pub Vitals : Type 0
Vitals = ℤ × ℕ × ℕ

abbrev pub vitals : Fightable → Vitals
vitals f = ((stats_of f).hp, f.team, f.idx)

abbrev pub all_vitals : List Fightable → List Vitals
all_vitals = map vitals

abbrev pub is_dead : Vitals → Bool
is_dead v = leb_ℤ v.0 (pos 0)

-- The two sides: team 0 (`true`), and the others.
abbrev pub counts : Bool → Vitals → Bool
counts friend v = not (is_dead v) && (if friend then v.1 == 0 else not (v.1 == 0))

-- How many of one side are above 0 hp.
unfoldable pub living : Bool → List Vitals → ℕ
living friend [] = 0
living friend (v ∷ vs) = (if counts friend v then 1 else 0) + living friend vs

abbrev pub AliveAt : List Vitals → ℕ → Type 0
AliveAt vs i = (v : Vitals) × (get_elem? vs i ≡ some v) × (is_dead v ≡ false)

-- Every fighter's `idx` is its place.
abbrev pub NumberedFrom : ℕ → List Vitals → Type 0
NumberedFrom i [] = Unit {0}
NumberedFrom i (v ∷ vs) = (v.2 ≡ i) × NumberedFrom (suc i) vs

-- A change that leaves the vitals of each fighter leaves those of the list.
pub vitals-modify :
    (fs : List Fightable) (i : ℕ) (k : Fightable → Fightable)
    → ((f : Fightable) → vitals (k f) ≡ vitals f)
    → all_vitals (modify fs i k) ≡ all_vitals fs
vitals-modify [] i k h = refl
vitals-modify (f ∷ fs) zero k h = ap (λ (v : Vitals). v ∷ all_vitals fs) (h f)
vitals-modify (f ∷ fs) (suc i) k h =
    ap (λ (vs : List Vitals). vitals f ∷ vs) (vitals-modify fs i k h)

pub get_elem?-vitals :
    (fs : List Fightable) (i : ℕ) {f : Fightable}
    → at fs i ≡ done f
    → get_elem? (all_vitals fs) i ≡ some (vitals f)
get_elem?-vitals [] i e = cc
get_elem?-vitals (g ∷ fs) zero e = ground arith
get_elem?-vitals (g ∷ fs) (suc i) e = get_elem?-vitals fs i e

pub NumberedFrom-get :
    (i k : ℕ) (vs : List Vitals) {v : Vitals}
    → NumberedFrom i vs
    → get_elem? vs k ≡ some v
    → v.2 ≡ i + k
NumberedFrom-get i k [] h e = cc
NumberedFrom-get i zero (w ∷ vs) h e = ground arith
NumberedFrom-get i (suc k) (w ∷ vs) h e = omega (arith, NumberedFrom-get (suc i) k vs h.1 e)

alive_from-All :
    (before : List Vitals) (i : ℕ) (fs : List Fightable) (vs : List Vitals)
    → length before ≡ i
    → vs ≡ before ++ all_vitals fs
    → All (AliveAt vs) (alive_from i fs)
unfolding alive_from
alive_from-All before i [] vs l e = tt
alive_from-All before i (f ∷ fs) vs l e =
    let later : All (AliveAt vs) (alive_from (suc i) fs) =
      alive_from-All (before ++ (vitals f ∷ [])) (suc i) fs vs
        (omega (arith, length-append before (vitals f ∷ [])))
        (e ∙ sym (append_assoc before (vitals f ∷ []) (all_vitals fs))) in
    let here : get_elem? vs i ≡ some (vitals f) =
      ap (λ (t : List Vitals). get_elem? t i) e
      ∙ ap (λ (n : ℕ). get_elem? (before ++ (vitals f ∷ all_vitals fs)) n) (sym l)
      ∙ get_elem?-append before (all_vitals fs) (vitals f) in
    elim (Bool-cases (is_down f)) [
      | inl down ↦ rw down later
      | inr up ↦ rw up ((vitals f, here, up), later)
    ]

-- The indices that `go` collects are those of living fighters.
pub alive_from-AliveAt : (fs : List Fightable) → All (AliveAt (all_vitals fs)) (alive_from 0 fs)
alive_from-AliveAt fs = alive_from-All [] 0 fs (all_vitals fs) refl refl
