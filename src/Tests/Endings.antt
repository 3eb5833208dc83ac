-- ===== src/Tests/Endings.antt =====
-- A fight that ends, between fighters without magics, with a source that misses now and then.
use niba.Prelude.{
  ℕ, zero, suc, ◌≤◌, ◌≡◌, refl, ap, ◌∙◌, sym, some, inl, inr, true, List, [], ◌∷◌, arith, get_elem?,
}
use niba.Prelude.Int.{pos, ◌+ℤ◌, ◌-ℤ◌, ◌*ℤ◌}
use niba.Prelude.Word.{add_int, sub_int, div_int, IsInt, wrap-IsInt}
use niba.Prelude.Run.{done}
use niba.Prelude.Draws.{Rng, ◌>>=◌}
use niba.Fight.Fighter.{Fightable, MagicEx, stats_of, threat_calc}
use niba.Fight.Damage.{
  accuracy_calc, resistance, landed, known_property, property_of, hit, damage_calc,
}
use niba.Fight.Clock.{make_progress}
use niba.Fight.Rounds.{heat, spend_mp, lose_hp, rest, Fight, go}
use niba.Fight.Start.{set_team, new_fight}
use niba.Fight.Alive.Winner.{Won}
use niba.Fight.Ends.{IsFit, Deals}
use niba.Fight.Ends.Rosters.{fight_ends}
use niba.Tests.{whole, fighter}

-- So many draws yield the upper bound, and the attack misses; then all yield the lower.
abbrev misses : Rng ℕ
misses lower upper zero = done (lower, zero)
misses lower upper (suc n) = done (upper, n)

-- The stats of `fighter`, but for hp and mp, and no magics.
abbrev Plain : Fightable → Type 0
Plain f =
    ((stats_of f).speed ≡ pos 10)
    × ((stats_of f).attack_min ≡ pos 6)
    × ((stats_of f).attack_max ≡ pos 6)
    × ((stats_of f).accuracy ≡ pos 10)
    × ((stats_of f).defence ≡ pos 0)
    × ((stats_of f).inner_power ≡ pos 0)
    × ((stats_of f).gold_res ≡ pos 0)
    × (f.magics ≡ [])
    × IsInt (stats_of f).hp

plain : Plain fighter
plain = (refl, refl, refl, refl, refl, refl, refl, refl, (omega arith, omega arith))

threat : (f : Fightable) → Plain f → threat_calc f ≡ pos 12
unfolding threat_calc add_int ◌+ℤ◌
threat f (s, l, h, a, d, i, g, m, hp) = rw (l, h) refl

Plain-IsFit : IsFit Plain
unfolding make_progress lose_hp spend_mp heat rest set_team sub_int
Plain-IsFit = record {
  speedy = λ f (s, l, h, a, d, i, g, m, hp). (9, s);
  menacing = λ f p. (12, threat f p);
  bounded = λ f (s, l, h, a, d, i, g, m, hp). hp;
  moved = λ ticks f (s, l, h, a, d, i, g, m, hp). (s, l, h, a, d, i, g, rw m refl, hp);
  hurt = λ dmg f (s, l, h, a, d, i, g, m, hp). (s, l, h, a, d, i, g, m, wrap-IsInt _);
  spent = λ cost f p. p;
  heated = λ k f (s, l, h, a, d, i, g, m, hp). (s, l, h, a, d, i, g, rw m refl, hp);
  rested = λ f p. p;
  teamed = λ t f p. p;
  numbered = λ i f p. p;
}

Plain-Deals : Deals Plain whole true misses (λ n. n)
unfolding ◌+ℤ◌ ◌-ℤ◌ ◌*ℤ◌ add_int div_int ◌>>=◌ accuracy_calc resistance landed known_property
    property_of hit damage_calc
Plain-Deals a t m (s, l, h, ac, d, i, g, bare, hp) (s', l', h', ac', d', i', g', bare', hp') (inl e)
      zero =
    rw (e, ac, ac', l, d', i, g') (pos 6, 0, refl, (6, refl, omega arith, inl (omega arith)))
Plain-Deals a t m (s, l, h, ac, d, i, g, bare, hp) (s', l', h', ac', d', i', g', bare', hp') (inl e)
      (suc r) =
    rw (e, ac, ac') (pos 0, r, refl, (0, refl, omega arith, inr (omega arith)))
Plain-Deals a t m (s, l, h, ac, d, i, g, bare, hp) q (inr (k, mex, found, e)) r =
    let impossible : get_elem? [] k ≡ some mex =
      ap (λ (ms : List MagicEx). get_elem? ms k) (sym bare) ∙ found in
    cc

fight_ends_example :
    (fuel : ℕ) × (outcome : ℕ × Fight) × (r' : ℕ) × ((more : ℕ)
      → fuel ≤ more
      → go whole true misses more (new_fight (fighter ∷ []) (fighter ∷ fighter ∷ [])) 3
        ≡ done (outcome, r'))
    × Won outcome
fight_ends_example =
    fight_ends Plain Plain-IsFit whole true misses (λ n. n) Plain-Deals (fighter ∷ [])
      (fighter ∷ fighter ∷ []) 3 (plain, tt) (plain, (plain, tt)) (refl, tt) (refl, (refl, tt))
      (omega arith)
