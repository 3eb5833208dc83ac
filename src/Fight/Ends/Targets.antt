-- ===== src/Fight/Ends/Targets.antt =====
-- Who is attacked in a turn of `fight::go`, in shared/fight.cpp: an enemy, if there is one.
use niba.Prelude.{
  ℕ, ◌≡◌, refl, ap, ◌∙◌, sym, true, false, not, ◌==◌, ◌⊎◌, inl, inr, some, List, [], ◌∷◌, arith,
  get_elem?, modify, All, All-get_elem?, All-modify, Bool-cases, if◌then◌else◌,
}
use niba.Prelude.Int.{ℤ, pos, negsuc}
use niba.Prelude.Run.{done}
use niba.Fight.Fighter.{Fightable, threat_calc}
use niba.Fight.Clock.{IntIdx, make_progress, pair_ltb, threaten, advance}
use niba.Fight.Alive.{Vitals, vitals, all_vitals, counts, AliveAt, get_elem?-vitals, vitals-modify}
use niba.Fight.Alive.Passes.{make_progress-vitals}
use niba.Fight.Ends.{IsFit}
use niba.Fight.Ends.Acting.{Any, SideAt, at-vitals, at-some}

-- A fighter of another team stands there.
abbrev pub EnemyAt : List Vitals → ℕ → ℕ → Type 0
EnemyAt vs team j = (v : Vitals) × (get_elem? vs j ≡ some v) × ((v.1 == team) ≡ false)

Any-map : {P Q : ℕ → Type 0} (is : List ℕ) → ((i : ℕ) → P i → Q i) → Any P is → Any Q is
Any-map [] k h = absurd h
Any-map (i ∷ is) k (inl p) = inl (k i p)
Any-map (i ∷ is) k (inr p) = inr (Any-map is k p)

enemy_counts : (team : ℕ) (v : Vitals) → counts (not (team == 0)) v ≡ true → (v.1 == team) ≡ false
enemy_counts team v h = ground arith

-- The other side has somebody left.
pub SideAt-EnemyAt :
    (vs : List Vitals) (team : ℕ) (is : List ℕ)
    → Any (SideAt (not (team == 0)) vs) is
    → Any (EnemyAt vs team) is
SideAt-EnemyAt vs team is h = Any-map is (λ i (v, e, c). (v, e, enemy_counts team v c)) h

module _ (vs : List Vitals) (team : ℕ) where
  abbrev Found : IntIdx → List ℕ → Type 0
  Found best is = EnemyAt vs team best.1 ⊎ ((best.0 ≡ negsuc 0) × Any (EnemyAt vs team) is)

  not_friend :
      (f : Fightable) (i : ℕ)
      → get_elem? vs i ≡ some (vitals f)
      → (f.team == team) ≡ true
      → EnemyAt vs team i
      → ⊥
  not_friend f i here friend (v, e, enemy) =
      let same : vitals f ≡ v = cc in
      let k : (v.1 == team) ≡ true = ap (λ (w : Vitals). w.1 == team) (sym same) ∙ friend in cc

  -- The place that nobody stands at yet is behind every threat.
  placeholder : (n i : ℕ) (best : IntIdx) → best.0 ≡ negsuc 0 → pair_ltb best (pos n, i) ≡ true
  placeholder n i best h = ground arith

  friend-Found :
      (f : Fightable) (i : ℕ) (is : List ℕ) (best : IntIdx)
      → get_elem? vs i ≡ some (vitals f)
      → (f.team == team) ≡ true
      → Found best (i ∷ is)
      → Found best is
  friend-Found f i is best here friend (inl target) = inl target
  friend-Found f i is best here friend (inr (none_yet, inl enemy)) =
      absurd (not_friend f i here friend enemy)
  friend-Found f i is best here friend (inr (none_yet, inr later)) = inr (none_yet, later)

  enemy-Found :
      (f : Fightable) (i n : ℕ) (is : List ℕ) (best : IntIdx)
      → get_elem? vs i ≡ some (vitals f)
      → threat_calc f ≡ pos n
      → (f.team == team) ≡ false
      → Found best (i ∷ is)
      → EnemyAt vs team (if pair_ltb best (threat_calc f, i) then (threat_calc f, i) else best).1
  enemy-Found f i n is best here e enemy found =
      let this : EnemyAt vs team i = (vitals f, here, enemy) in
      elim (Bool-cases (pair_ltb best (threat_calc f, i))) [
        | inl more ↦ rw more this
        | inr less ↦ elim found [
          | inl target ↦ rw less target
          | inr (none_yet, later) ↦
              let more = placeholder n i best none_yet in
              let less' : pair_ltb best (pos n, i) ≡ false =
                ap (λ z. pair_ltb best (z, i)) (sym e) ∙ less in
              cc
        ]
      ]

  threaten-Found :
      (f : Fightable) (i n : ℕ) (is : List ℕ) (best : IntIdx)
      → get_elem? vs i ≡ some (vitals f)
      → threat_calc f ≡ pos n
      → Found best (i ∷ is)
      → Found (threaten team f i best) is
  unfolding threaten
  threaten-Found f i n is best here e found = elim (Bool-cases (f.team == team)) [
    | inl friend ↦ rw friend (friend-Found f i is best here friend found)
    | inr enemy ↦ rw enemy (inl (enemy-Found f i n is best here e enemy found))
  ]

  module _ (P : Fightable → Type 0) (fit : IsFit P) (ticks : ℤ) where
    -- The pass over the living returns, keeps the fighters in their kind, and finds an enemy.
    pub advance-done :
        (is : List ℕ) (fs : List Fightable) (best : IntIdx)
        → all_vitals fs ≡ vs
        → All P fs
        → All (AliveAt vs) is
        → Found best is
        → (res : List Fightable × IntIdx) × (advance team ticks is fs best ≡ done res)
          × All P res.0
          × EnemyAt vs team res.1.1
    unfolding advance
    advance-done [] fs best same all alive (inl target) = ((fs, best), refl, all, target)
    advance-done [] fs best same all alive (inr (none_yet, nobody)) = absurd nobody
    advance-done (i ∷ is) fs best same all alive found =
        let (v, here, up) = alive.0 in
        let (f, e, shown) =
          at-vitals fs i (ap (λ (ws : List Vitals). get_elem? ws i) same ∙ here) in
        let (n, threat) = fit.menacing f (All-get_elem? P fs i (at-some fs i e) all) in
        let there : get_elem? vs i ≡ some (vitals f) =
          ap (λ (ws : List Vitals). get_elem? ws i) (sym same) ∙ get_elem?-vitals fs i e in
        let (res, k, rest, target) =
          advance-done is (modify fs i (make_progress ticks)) (threaten team f i best)
            (vitals-modify fs i _ (make_progress-vitals ticks) ∙ same)
            (All-modify P _ (fit.moved ticks) fs i all) alive.1
            (threaten-Found f i n is best there threat found) in
        (res, rw e k, rest, target)
