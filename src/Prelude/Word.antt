-- ===== src/Prelude/Word.antt =====
-- The `int` of the program: 32 bits, two's complement. Where a sum, difference or product leaves
-- the range the standard leaves C++ undefined; the model takes the value that wraps around.
use niba.Prelude.{
  ℕ, ◌+◌, ◌-◌, ◌/◌, ◌%◌, ◌≤◌, ◌<◌, ◌≡◌, ◌&&◌, Option, none, some, ◌==◌, arith, ltb, if◌then◌else◌,
}
use niba.Prelude.Int.{ℤ, pos, negsuc, ◌+ℤ◌, ◌-ℤ◌, ◌*ℤ◌, eqb_ℤ, sub_ℕ, pos_part, neg_part}

-- The bit pattern of an integer, and the integer of a bit pattern.
unfoldable pub to_word : ℤ → ℕ
to_word (pos n) = n % 4294967296
to_word (negsuc n) = 4294967295 - n % 4294967296

unfoldable pub of_word : ℕ → ℤ
of_word w = if ltb w 2147483648 then pos w else negsuc (4294967295 - w)

unfoldable pub wrap : ℤ → ℤ
unfolding to_word of_word
wrap a = of_word (to_word a)

unfoldable pub add_int : ℤ → ℤ → ℤ
unfolding wrap ◌+ℤ◌
add_int a b = wrap (a +ℤ b)

unfoldable pub sub_int : ℤ → ℤ → ℤ
unfolding wrap ◌-ℤ◌
sub_int a b = wrap (a -ℤ b)

unfoldable pub mul_int : ℤ → ℤ → ℤ
unfolding wrap ◌*ℤ◌
mul_int a b = wrap (a *ℤ b)

-- The quotient by a positive number, rounded towards zero.
abbrev truncated : ℤ → ℕ → ℤ
truncated (pos n) b = pos (n / b)
truncated (negsuc n) b = sub_ℕ 0 ((n + 1) / b)

abbrev negated : ℤ → ℤ
negated a = sub_ℕ (neg_part a) (pos_part a)

-- `a / b` rounds towards zero. `none`: a division by zero, or INT_MIN / -1.
unfoldable pub div_int : ℤ → ℤ → Option ℤ
div_int a (pos b) = if ltb 0 b then some (truncated a b) else none
div_int a (negsuc m) =
    if eqb_ℤ a (negsuc 2147483647) && m == 0 then none else some (negated (truncated a (m + 1)))

-- The integers that an `int` holds.
abbrev pub IsInt : ℤ → Type 0
IsInt a = (pos_part a < 2147483648) × (neg_part a ≤ 2147483648)

pub wrap-IsInt : (a : ℤ) → IsInt (wrap a)
unfolding wrap
wrap-IsInt (pos n) = ground arith
wrap-IsInt (negsuc n) = ground arith

pub wrap-eq : (a : ℤ) → IsInt a → wrap a ≡ a
unfolding wrap
wrap-eq (pos n) h = ground arith
wrap-eq (negsuc n) h = ground arith

pub add_int-eq : (a b : ℤ) → IsInt (a +ℤ b) → add_int a b ≡ a +ℤ b
add_int-eq a b h = unfold add_int in wrap-eq (a +ℤ b) h

pub sub_int-eq : (a b : ℤ) → IsInt (a -ℤ b) → sub_int a b ≡ a -ℤ b
sub_int-eq a b h = unfold sub_int in wrap-eq (a -ℤ b) h

pub mul_int-eq : (a b : ℤ) → IsInt (a *ℤ b) → mul_int a b ≡ a *ℤ b
mul_int-eq a b h = unfold mul_int in wrap-eq (a *ℤ b) h
