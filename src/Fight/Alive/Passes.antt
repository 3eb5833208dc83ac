-- ===== src/Fight/Alive/Passes.antt =====
-- The passes of `fight::go` over the living: the fastest, and the greatest threat.
use mathlib.Core.Path.{subst}
use niba.Prelude.{ℕ, ◌≡◌, refl, ap, ◌∙◌, sym, List, [], ◌∷◌, arith, modify, All}
use niba.Prelude.Int.{ℤ}
use niba.Prelude.Run.{done, >>=-eq-done, done-injective}
use niba.Fight.Fighter.{Fightable, ticks_calc}
use niba.Fight.Clock.{
  IntIdx, at, tick_of, faster, fastest, next_to_act, make_progress, threaten, advance,
}
use niba.Fight.Alive.{vitals, all_vitals, vitals-modify}

tick_of-idx : (fs : List Fightable) (i : ℕ) {tick : IntIdx} → tick_of fs i ≡ done tick → tick.1 ≡ i
tick_of-idx fs i h =
    let (f, e, h') = >>=-eq-done (at fs i) _ h in
    let (t, e', h'') = >>=-eq-done (ticks_calc f) _ h' in
    ap (λ (r : IntIdx). r.1) (sym (done-injective h''))

module _ (P : ℕ → Type 0) where
  faster-either : (tick best : IntIdx) → P tick.1 → P best.1 → P (faster tick best).1
  unfolding faster
  faster-either tick best p q = ground arith

  fastest-All :
      (fs : List Fightable) (best : IntIdx) (is : List ℕ) {res : IntIdx}
      → P best.1
      → All P is
      → fastest fs best is ≡ done res
      → P res.1
  unfolding fastest
  fastest-All fs best [] p ps h = subst (λ (r : IntIdx). P r.1) (done-injective h) p
  fastest-All fs best (i ∷ is) p ps h =
      let (tick, e, h') = >>=-eq-done (tick_of fs i) _ h in
      fastest-All fs (faster tick best) is
        (faster-either tick best (subst P (sym (tick_of-idx fs i e)) ps.0) p) ps.1 h'

  -- Who acts next is one of those that are passed in.
  pub next_to_act-All :
      (fs : List Fightable) (is : List ℕ) {res : IntIdx}
      → All P is
      → next_to_act fs is ≡ done res
      → P res.1
  unfolding next_to_act
  next_to_act-All fs [] ps h = cc
  next_to_act-All fs (i ∷ is) ps h =
      let (tick, e, h') = >>=-eq-done (tick_of fs i) _ h in
      fastest-All fs tick is (subst P (sym (tick_of-idx fs i e)) ps.0) ps.1 h'

  threaten-All :
      (team : ℕ) (p : Fightable) (i : ℕ) (max_threat : IntIdx)
      → P i
      → P max_threat.1
      → P (threaten team p i max_threat).1
  unfolding threaten
  threaten-All team p i max_threat hi hm = ground arith

  -- Who is attacked is one of them, or the one that stood there before.
  pub advance-All :
      (team : ℕ) (ticks : ℤ) (is : List ℕ) (fs : List Fightable) (max_threat : IntIdx)
      {res : List Fightable × IntIdx}
      → P max_threat.1
      → All P is
      → advance team ticks is fs max_threat ≡ done res
      → P res.1.1
  unfolding advance
  advance-All team ticks [] fs max_threat p ps h =
      subst (λ (r : List Fightable × IntIdx). P r.1.1) (done-injective h) p
  advance-All team ticks (i ∷ is) fs max_threat p ps h =
      let (f, e, h') = >>=-eq-done (at fs i) _ h in
      advance-All team ticks is (modify fs i (make_progress ticks)) (threaten team f i max_threat)
        (threaten-All team f i max_threat ps.0 p) ps.1 h'

pub make_progress-vitals : (ticks : ℤ) (f : Fightable) → vitals (make_progress ticks f) ≡ vitals f
unfolding make_progress
make_progress-vitals ticks f = refl

pub advance-vitals :
    (team : ℕ) (ticks : ℤ) (is : List ℕ) (fs : List Fightable) (max_threat : IntIdx)
    {res : List Fightable × IntIdx}
    → advance team ticks is fs max_threat ≡ done res
    → all_vitals res.0 ≡ all_vitals fs
unfolding advance
advance-vitals team ticks [] fs max_threat h =
    ap (λ (r : List Fightable × IntIdx). all_vitals r.0) (sym (done-injective h))
advance-vitals team ticks (i ∷ is) fs max_threat h =
    let (f, e, h') = >>=-eq-done (at fs i) _ h in
    advance-vitals team ticks is (modify fs i (make_progress ticks)) (threaten team f i max_threat)
      h'
    ∙ vitals-modify fs i _ (make_progress-vitals ticks)
