-- ===== src/Fight/Ends/Acting.antt =====
-- Somebody acts in each turn of `fight::go`, in shared/fight.cpp.
use niba.Prelude.{
  ℕ, zero, suc, ◌+◌, ◌<◌, ◌≡◌, refl, ap, ◌∙◌, sym, Bool, true, ◌⊎◌, inl, inr, some, List, [], ◌∷◌,
  ◌++◌, arith, lt→ltb, get_elem?, get_elem?-append, append_assoc, length, length-append, All,
  All-get_elem?, Bool-cases, if◌then◌else◌,
}
use niba.Prelude.Int.{ℤ, pos, leb_ℤ}
use niba.Prelude.Word.{div_int, add_int, sub_int}
use niba.Prelude.Run.{done, done-injective}
use niba.Fight.Fighter.{Fightable, stats_of, is_down, ticks_calc, fight_max_prog}
use niba.Fight.Clock.{IntIdx, at, alive_from, tick_of, faster, fastest, next_to_act}
use niba.Fight.Alive.{Vitals, vitals, all_vitals, is_dead, counts, living, AliveAt}
use niba.Fight.Ends.{IsFit}

-- Some element satisfies `P`.
abbrev pub Any : {A : Type 0} → (A → Type 0) → List A → Type 0
Any P [] = ⊥
Any P (x ∷ xs) = P x ⊎ Any P xs

-- A fighter of one side stands there, above 0 hp.
abbrev pub SideAt : Bool → List Vitals → ℕ → Type 0
SideAt side vs i = (v : Vitals) × (get_elem? vs i ≡ some v) × (counts side v ≡ true)

-- A fighter that is down counts for nobody.
at_zero :
    (side : Bool) (v : Vitals) (n : ℕ)
    → is_dead v ≡ true
    → 0 < (if counts side v then 1 else 0) + n
    → 0 < n
at_zero side v n dead h = ground arith

alive_from-Any :
    (side : Bool) (before : List Vitals) (i : ℕ) (fs : List Fightable) (vs : List Vitals)
    → length before ≡ i
    → vs ≡ before ++ all_vitals fs
    → 0 < living side (all_vitals fs)
    → Any (SideAt side vs) (alive_from i fs)
unfolding alive_from living
alive_from-Any side before i [] vs l e h = absurd (omega (arith, h))
alive_from-Any side before i (f ∷ fs) vs l e h =
    let here : get_elem? vs i ≡ some (vitals f) =
      ap (λ (t : List Vitals). get_elem? t i) e
      ∙ ap (λ (n : ℕ). get_elem? (before ++ (vitals f ∷ all_vitals fs)) n) (sym l)
      ∙ get_elem?-append before (all_vitals fs) (vitals f) in
    let later : 0 < living side (all_vitals fs) → Any (SideAt side vs) (alive_from (suc i) fs) =
      alive_from-Any side (before ++ (vitals f ∷ [])) (suc i) fs vs
        (omega (arith, length-append before (vitals f ∷ [])))
        (e ∙ sym (append_assoc before (vitals f ∷ []) (all_vitals fs))) in
    elim (Bool-cases (is_down f)) [
      | inl down ↦ rw down (later (at_zero side (vitals f) (living side (all_vitals fs)) down h))
      | inr up ↦ elim (Bool-cases (counts side (vitals f))) [
        | inl c ↦ rw up (inl (vitals f, here, c))
        | inr c ↦ rw up (inr (later (ground arith)))
      ]
    ]

-- The indices that `go` collects have one of each side that has somebody left.
pub alive_from-SideAt :
    (side : Bool) (fs : List Fightable)
    → 0 < living side (all_vitals fs)
    → Any (SideAt side (all_vitals fs)) (alive_from 0 fs)
alive_from-SideAt side fs = alive_from-Any side [] 0 fs (all_vitals fs) refl refl

-- An index of a list of vitals is one of the fighters.
pub at-vitals :
    (fs : List Fightable) (i : ℕ) {v : Vitals}
    → get_elem? (all_vitals fs) i ≡ some v
    → (f : Fightable) × (at fs i ≡ done f) × (vitals f ≡ v)
at-vitals [] i e = cc
at-vitals (f ∷ fs) zero e = (f, refl, cc)
at-vitals (f ∷ fs) (suc i) e = at-vitals fs i e

div_int-some : (a : ℤ) (n : ℕ) → (q : ℤ) × (div_int a (pos (suc n)) ≡ some q)
unfolding div_int
div_int-some a n = rw (lt→ltb 0 (suc n) (omega arith)) (_, refl)

pub at-some :
    (fs : List Fightable) (i : ℕ) {f : Fightable} → at fs i ≡ done f → get_elem? fs i ≡ some f
at-some [] i e = cc
at-some (f ∷ fs) zero e = ap some (done-injective e)
at-some (f ∷ fs) (suc i) e = at-some fs i e

pub ticks_calc-done :
    (f : Fightable) (n : ℕ) → (stats_of f).speed ≡ pos (suc n) → (t : ℤ) × (ticks_calc f ≡ done t)
unfolding ticks_calc
ticks_calc-done f n e = elim (Bool-cases (leb_ℤ fight_max_prog f.progress)) [
  | inl full ↦ (pos 0, rw full refl)
  | inr short ↦
      let (q, k) =
        div_int-some (sub_int (add_int (sub_int fight_max_prog f.progress) (pos (suc n))) (pos 1))
          n in
      (q, rw (short, e, k) refl)
]

module _ (P : Fightable → Type 0) (fit : IsFit P) (fs : List Fightable) (all : All P fs) where
  pub tick_of-done : (i : ℕ) → AliveAt (all_vitals fs) i → (t : ℤ) × (tick_of fs i ≡ done (t, i))
  tick_of-done i (v, found, up) =
      let (f, e, same) = at-vitals fs i found in
      let (n, speed) = fit.speedy f (All-get_elem? P fs i (at-some fs i e) all) in
      let (t, k) = ticks_calc-done f n speed in (t, rw (e, k) refl)

  fastest-done :
      (min_tick : IntIdx) (is : List ℕ)
      → All (AliveAt (all_vitals fs)) is
      → (r : IntIdx) × (fastest fs min_tick is ≡ done r)
  unfolding fastest
  fastest-done min_tick [] alive = (min_tick, refl)
  fastest-done min_tick (i ∷ is) alive =
      let (t, e) = tick_of-done i alive.0 in
      let (r, k) = fastest-done (faster (t, i) min_tick) is alive.1 in (r, rw e k)

  pub next_to_act-done :
      (Q : ℕ → Type 0) (is : List ℕ)
      → All (AliveAt (all_vitals fs)) is
      → Any Q is
      → (r : IntIdx) × (next_to_act fs is ≡ done r)
  unfolding next_to_act
  next_to_act-done Q [] alive some_one = absurd some_one
  next_to_act-done Q (i ∷ is) alive some_one =
      let (t, e) = tick_of-done i alive.0 in
      let (r, k) = fastest-done (t, i) is alive.1 in (r, rw e k)
