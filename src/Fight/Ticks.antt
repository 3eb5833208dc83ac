-- ===== src/Fight/Ticks.antt =====
-- `fightable::ticks_calc` of shared/fight.cpp: the ticks until a fighter may act.
use mathlib.Core.Path.{ap₂}
use native.Mathlib.Nat.{div-lt_iff_lt-mul, lt-mul-div-succ, mul_comm}
use niba.Prelude.{
  ℕ, ◌+◌, ◌-◌, ◌*◌, ◌/◌, ◌≤◌, ◌<◌, ◌≡◌, refl, ap, ◌∙◌, Bool, true, false, arith, leb, inl, inr,
  Bool-cases, lt→ltb, leb→le, some,
}
use niba.Prelude.Int.{pos, ◌+ℤ◌, ◌-ℤ◌, leb_ℤ}
use niba.Prelude.Word.{add_int, sub_int, div_int, wrap, to_word, of_word}
use niba.Prelude.Run.{done, or_fault, undefined}
use niba.Fight.Fighter.{Fightable, stats_of, ticks_calc, fight_max_prog}

-- The quotient that rounds up is the least number of steps that reach a distance.
rounded_up :
    (n s : ℕ) → 0 < s → (n ≤ s * ((n + s - 1) / s)) × ((u : ℕ) → n ≤ s * u → (n + s - 1) / s ≤ u)
rounded_up n s h = (
  omega (arith, lt-mul-div-succ (n + s - 1) h),
  λ u k.
      let below : n + s - 1 < (u + 1) * s = omega (arith, mul_comm u s) in
      omega (arith, (div-lt_iff_lt-mul h).1 below),
)

-- The subtractions and the sum of `ticks_calc` stay in range.
distance :
    (p s : ℕ)
    → p < 1000
    → 0 < s
    → s + 1000 < 2147483648
    → sub_int (add_int (sub_int fight_max_prog (pos p)) (pos s)) (pos 1) ≡ pos (1000 - p + s - 1)
unfolding add_int sub_int wrap to_word of_word ◌+ℤ◌ ◌-ℤ◌
distance p s a b c = ground arith

div_int-pos : (n s : ℕ) → 0 < s → div_int (pos n) (pos s) ≡ some (pos (n / s))
unfolding div_int
div_int-pos n s h = rw (lt→ltb 0 s h) refl

lt_of_leb : (n : ℕ) → leb 1000 n ≡ false → n < 1000
lt_of_leb n h = ground arith

leb_ℤ-pos : (n : ℕ) {b : Bool} → leb 1000 n ≡ b → leb_ℤ fight_max_prog (pos n) ≡ b
leb_ℤ-pos n h = ap (λ x. leb 1000 x) (omega arith) ∙ h

ticks_calc-full :
    (f : Fightable) (progress : ℕ)
    → f.progress ≡ pos progress
    → leb 1000 progress ≡ true
    → ticks_calc f ≡ done (pos 0)
unfolding ticks_calc
ticks_calc-full f progress p full =
    rw (ap (λ z. leb_ℤ fight_max_prog z) p ∙ leb_ℤ-pos progress full) refl

ticks_calc-short :
    (f : Fightable) (progress speed : ℕ)
    → f.progress ≡ pos progress
    → (stats_of f).speed ≡ pos speed
    → 0 < speed
    → speed + 1000 < 2147483648
    → leb 1000 progress ≡ false
    → ticks_calc f ≡ done (pos ((1000 - progress + speed - 1) / speed))
unfolding ticks_calc
ticks_calc-short f progress speed p s positive bounded short =
    rw (ap (λ z. leb_ℤ fight_max_prog z) p ∙ leb_ℤ-pos progress short) (
      ap (λ q. or_fault q undefined)
        (ap₂ (λ x y. div_int (sub_int (add_int (sub_int fight_max_prog x) y) (pos 1)) y) p s
          ∙ ap (λ x. div_int x (pos speed))
              (distance progress speed (lt_of_leb progress short) positive bounded)
          ∙ div_int-pos (1000 - progress + speed - 1) speed positive))

-- For a fighter of a speed above 0 whose progress is not negative, `ticks_calc` is the least number
-- of ticks, each worth the speed, with which the progress reaches 1000; the speed and 1000 sum to
-- less than 2^31.
pub ticks_calc-least :
    (f : Fightable) (progress speed : ℕ)
    → f.progress ≡ pos progress
    → (stats_of f).speed ≡ pos speed
    → 0 < speed
    → speed + 1000 < 2147483648
    → (t : ℕ) × (ticks_calc f ≡ done (pos t))
      × (1000 ≤ progress + speed * t)
      × ((u : ℕ) → 1000 ≤ progress + speed * u → t ≤ u)
ticks_calc-least f progress speed p s positive bounded = elim (Bool-cases (leb 1000 progress)) [
  | inl full ↦ (
    0,
    ticks_calc-full f progress p full,
    omega (arith, leb→le 1000 progress full),
    λ u k. omega arith,
  )
  | inr short ↦
      let steps = rounded_up (1000 - progress) speed positive in
      (
        (1000 - progress + speed - 1) / speed,
        ticks_calc-short f progress speed p s positive bounded short,
        omega (arith, steps.0),
        λ u k. steps.1 u (omega arith),
      )
]
