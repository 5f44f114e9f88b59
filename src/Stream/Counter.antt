-- ===== src/Stream/Counter.antt =====
-- adjustIV adds the blocks that are skipped to the counter of an IV that CreateIV made.
use ods.Common.{
  ℕ, zero, suc, ◌+◌, ◌*◌, ◌/◌, ◌%◌, ◌^◌, ◌<◌, ◌≡◌, refl, sym, ap, ◌∙◌, List, [], ◌∷◌, length, ltb,
  arith, inl, inr, Bool-cases, ltb→lt,
}
use native.Mathlib.Nat.{mod-eq_of_lt}
use ods.Crypto.{IsBytes}
use ods.Stream.{add_byte, add_blocks, create_iv}

-- bytes read as a number, the most significant first
unfoldable pub be_value : ℕ → List ℕ → ℕ
be_value acc [] = acc
be_value acc (b ∷ bs) = be_value (acc * 256 + b) bs

-- An IV with the given counter bytes.
with_counter : (a b c d e f g h i j k l w x y z : ℕ) → List ℕ
with_counter a b c d e f g h i j k l w x y z =
    a ∷ b ∷ c ∷ d ∷ e ∷ f ∷ g ∷ h ∷ i ∷ j ∷ k ∷ l ∷ w ∷ x ∷ y ∷ z ∷ []

module _ (a b c d e f g h i j k l : ℕ) (byte_l : l < 256) where
  abbrev iv : ℕ → ℕ → ℕ → ℕ → List ℕ
  iv = with_counter a b c d e f g h i j k l

  turn_0 : (n : ℕ) → add_byte (iv 0 0 0 0) 0 n ≡ iv 0 0 0 (n % 256)
  unfolding add_byte with_counter
  turn_0 n = ground arith

  turn_1 : (n z : ℕ) → add_byte (iv 0 0 0 z) 1 n ≡ iv 0 0 (n % 256) z
  unfolding add_byte with_counter
  turn_1 n z = ground arith

  turn_2 : (n y z : ℕ) → add_byte (iv 0 0 y z) 2 n ≡ iv 0 (n % 256) y z
  unfolding add_byte with_counter
  turn_2 n y z = ground arith

  turn_3 : (n x y z : ℕ) → add_byte (iv 0 x y z) 3 n ≡ iv (n % 256) x y z
  unfolding add_byte with_counter
  turn_3 n x y z = ground arith

  -- the counter bytes of a number of four bytes
  abbrev counted : ℕ → List ℕ
  counted n = iv (n / 256 / 256 / 256) (n / 256 / 256 % 256) (n / 256 % 256) (n % 256)

  done : (fuel i : ℕ) (v : List ℕ) → add_blocks fuel v i 0 ≡ v
  unfolding add_blocks
  done zero i v = refl
  done (suc fuel) i v = refl

  more :
      (fuel i n : ℕ) (v : List ℕ)
      → 0 < n
      → add_blocks (suc fuel) v i n ≡ add_blocks fuel (add_byte v i n) (i + 1) (n / 256)
  unfolding add_blocks
  more fuel i n v h = ground arith

  -- Once the count is used up, nothing changes.
  stop : (fuel i n : ℕ) (v : List ℕ) → n ≡ 0 → add_blocks fuel v i n ≡ v
  stop fuel i n v e = rw e (done fuel i v)

  from_3 : (n x y z : ℕ) → n < 256 → add_blocks 5 (iv 0 x y z) 3 n ≡ iv n x y z
  from_3 n x y z h = elim (Bool-cases (ltb 0 n)) [
    | inl go ↦
        more 4 3 n (iv 0 x y z) (ltb→lt 0 n go)
        ∙ stop 4 (3 + 1) (n / 256) _ (omega arith)
        ∙ turn_3 n x y z
        ∙ ap (λ b. iv b x y z) (mod-eq_of_lt h)
    | inr no' ↦
        let e : n ≡ 0 = ground arith in stop 5 3 n (iv 0 x y z) e ∙ ap (λ b. iv b x y z) (sym e)
  ]

  from_2 : (n y z : ℕ) → n < 256 * 256 → add_blocks 6 (iv 0 0 y z) 2 n ≡ iv (n / 256) (n % 256) y z
  from_2 n y z h = elim (Bool-cases (ltb 0 n)) [
    | inl go ↦
        more 5 2 n (iv 0 0 y z) (ltb→lt 0 n go)
        ∙ ap (λ v. add_blocks 5 v 3 (n / 256)) (turn_2 n y z)
        ∙ from_3 (n / 256) (n % 256) y z (omega arith)
    | inr no' ↦ let e : n ≡ 0 = ground arith in stop 6 2 n (iv 0 0 y z) e ∙ rw e refl
  ]

  from_1 :
      (n z : ℕ)
      → n < 256 * 256 * 256
      → add_blocks 7 (iv 0 0 0 z) 1 n ≡ iv (n / 256 / 256) (n / 256 % 256) (n % 256) z
  from_1 n z h = elim (Bool-cases (ltb 0 n)) [
    | inl go ↦
        more 6 1 n (iv 0 0 0 z) (ltb→lt 0 n go)
        ∙ ap (λ v. add_blocks 6 v 2 (n / 256)) (turn_1 n z)
        ∙ from_2 (n / 256) (n % 256) z (omega arith)
    | inr no' ↦ let e : n ≡ 0 = ground arith in stop 7 1 n (iv 0 0 0 z) e ∙ rw e refl
  ]

  from_0 : (n : ℕ) → n < 2 ^ 32 → add_blocks 8 (iv 0 0 0 0) 0 n ≡ counted n
  from_0 n h = elim (Bool-cases (ltb 0 n)) [
    | inl go ↦
        more 7 0 n (iv 0 0 0 0) (ltb→lt 0 n go)
        ∙ ap (λ v. add_blocks 7 v 1 (n / 256)) (turn_0 n)
        ∙ from_1 (n / 256) (n % 256) (omega arith)
    | inr no' ↦ let e : n ≡ 0 = ground arith in stop 8 0 n (iv 0 0 0 0) e ∙ rw e refl
  ]

  value_counted : (n : ℕ) → n < 2 ^ 32 → be_value 0 (counted n) ≡ be_value 0 (iv 0 0 0 0) + n
  unfolding be_value with_counter
  value_counted n h = omega arith

  length-counted : (n : ℕ) → length (counted n) ≡ 16
  unfolding with_counter
  length-counted n = refl

  cleared : (w x y z : ℕ) → create_iv (iv w x y z) ≡ iv 0 0 0 0
  unfolding create_iv with_counter
  cleared w x y z = refl

  exact :
      (n w x y z : ℕ)
      → n < 2 ^ 32
      → let s = create_iv (iv w x y z) in
        (be_value 0 (add_blocks 8 s 0 n) ≡ be_value 0 s + n) × (length (add_blocks 8 s 0 n) ≡ 16)
  exact n w x y z h =
      rw (cleared w x y z) (
        ap (be_value 0) (from_0 n h) ∙ value_counted n h,
        ap length (from_0 n h) ∙ length-counted n,
      )

-- What CreateIV makes of 16 random bytes.
abbrev pub CreatedIv : List ℕ → Type 0
CreatedIv v = (random : List ℕ) × (length random ≡ 16) × IsBytes random × (v ≡ create_iv random)

sixteen :
    (P : List ℕ → Type 0)
    → ((a b c d e f g h i j k l w x y z : ℕ)
        → l < 256
        → P (with_counter a b c d e f g h i j k l w x y z))
    → (r : List ℕ) → length r ≡ 16
    → IsBytes r
    → P r
unfolding with_counter
sixteen P f (a ∷ b ∷ c ∷ d ∷ e ∷ g ∷ h ∷ i ∷ j ∷ k ∷ l ∷ m ∷ w ∷ x ∷ y ∷ z ∷ []) len bytes =
    f a b c d e g h i j k l m w x y z (omega arith)
sixteen P f _ len bytes = absurd (omega arith)

-- Under an IV that CreateIV made, adjustIV's loop adds the number of skipped blocks to the IV as a
-- 128 bit number, for fewer than 2^32 blocks, and keeps its length: no carry is lost.
pub add_blocks_exact :
    (v : List ℕ) (n : ℕ)
    → CreatedIv v
    → n < 2 ^ 32
    → (be_value 0 (add_blocks 8 v 0 n) ≡ be_value 0 v + n) × (length (add_blocks 8 v 0 n) ≡ 16)
add_blocks_exact v n (r, len, bytes, e) h = rw e (
    sixteen
      (λ r.
        (be_value 0 (add_blocks 8 (create_iv r) 0 n) ≡ be_value 0 (create_iv r) + n)
        × (length (add_blocks 8 (create_iv r) 0 n) ≡ 16))
      (λ a b c d e f g h' i j k l w x y z lt. exact a b c d e f g h' i j k l lt n w x y z h) r len
      bytes)
