-- ===== src/Performance/Integers.antt =====
-- Products and quotients of Go's integers, and how sums are checked on their parts.
use ods.Common.{
  ℕ, zero, suc, ◌+◌, ◌*◌, ◌/◌, ◌≡◌, ap, arith, ℤ, pos, negsuc, pos_part, neg_part, sub_ℕ, ◌+ℤ◌,
  ◌-ℤ◌,
}

abbrev pub magnitude : ℤ → ℕ
magnitude (pos n) = n
magnitude (negsuc n) = suc n

-- The number of a magnitude with the sign of the product of two numbers.
abbrev pub signed : ℤ → ℤ → ℕ → ℤ
signed (pos m) (pos n) k = pos k
signed (negsuc m) (negsuc n) k = pos k
signed (pos m) (negsuc n) k = sub_ℕ 0 k
signed (negsuc m) (pos n) k = sub_ℕ 0 k

infixl 70 ◌*ℤ◌
unfoldable pub ◌*ℤ◌ : ℤ → ℤ → ℤ
a *ℤ b = signed a b (magnitude a * magnitude b)

-- Go's division rounds towards zero; the divisor is not zero.
unfoldable pub quot_ℤ : ℤ → ℤ → ℤ
quot_ℤ a (pos zero) = pos 0
quot_ℤ a (pos (suc n)) = signed a (pos (suc n)) (magnitude a / suc n)
quot_ℤ a (negsuc n) = signed a (negsuc n) (magnitude a / suc n)

-- What the parts of a difference of natural numbers are.
pub sub_parts : (a b : ℕ) → pos_part (sub_ℕ a b) + b ≡ a + neg_part (sub_ℕ a b)
sub_parts a b = ground arith

pub add_parts :
    (a b : ℤ)
    → pos_part (a +ℤ b) + (neg_part a + neg_part b) ≡ pos_part a + pos_part b + neg_part (a +ℤ b)
add_parts a b = sub_parts (pos_part a + pos_part b) (neg_part a + neg_part b)

pub minus_parts :
    (a b : ℤ)
    → pos_part (a -ℤ b) + (neg_part a + pos_part b) ≡ pos_part a + neg_part b + neg_part (a -ℤ b)
minus_parts a b = sub_parts (pos_part a + neg_part b) (neg_part a + pos_part b)

-- Two numbers whose parts agree crosswise are one.
pub parts_equal : (a b : ℤ) → pos_part a + neg_part b ≡ pos_part b + neg_part a → a ≡ b
parts_equal (pos m) (pos n) h = ap pos (omega arith)
parts_equal (pos m) (negsuc n) h = absurd (omega arith)
parts_equal (negsuc m) (pos n) h = absurd (omega arith)
parts_equal (negsuc m) (negsuc n) h = ap negsuc (omega arith)
