-- ===== src/Crypto/Xor.antt =====
-- Exclusive or on bytes, checked over all values.
use ods.Common.{
  ℕ, ◌<◌, ◌≡◌, refl, Bool, true, ◌&&◌, bit_xor, ltb, ◌==◌, checked_below, checked_at, arith,
}

byte_pair : ℕ → ℕ → Bool
byte_pair a b = bit_xor a (bit_xor a b) == b && ltb (bit_xor a b) 256

rows : checked_below (λ a. checked_below (byte_pair a) 256) 256 ≡ true
unfolding checked_below byte_pair
rows = refl

byte_pair_lem : (a b : ℕ) → a < 256 → b < 256 → byte_pair a b ≡ true
byte_pair_lem a b ha hb =
    checked_at (byte_pair a) 256 (checked_at (λ x. checked_below (byte_pair x) 256) 256 rows ha) hb

-- Applying the same byte twice gives the byte back.
pub xor_twice : (a b : ℕ) → a < 256 → b < 256 → bit_xor a (bit_xor a b) ≡ b
unfolding byte_pair
xor_twice a b ha hb = ground (arith, byte_pair_lem a b ha hb)

pub xor-lt : (a b : ℕ) → a < 256 → b < 256 → bit_xor a b < 256
unfolding byte_pair
xor-lt a b ha hb = ground (arith, byte_pair_lem a b ha hb)
