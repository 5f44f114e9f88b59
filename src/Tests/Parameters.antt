-- ===== src/Tests/Parameters.antt =====
-- Stand-ins for the parameters of the model.
use ods.Common.{ℕ, ◌+◌, ◌%◌, refl, List, [], ◌∷◌, Text, arith}
use ods.Crypto.{Sha256, IsBytes}
use ods.Stream.Copy.{Aes}

unfoldable pub total : Text → ℕ
total [] = 0
total (c ∷ s) = c + total s

abbrev pub row : ℕ → List ℕ
row n = n % 256 ∷ 1 ∷ 2 ∷ 3 ∷ 4 ∷ 5 ∷ 6 ∷ 7 ∷ (n + 9) % 256 ∷ 9 ∷ 10 ∷ 11 ∷ 12 ∷ 13 ∷ 14 ∷ 15 ∷ []

abbrev pub digest : ℕ → List ℕ
digest n =
    n % 256
    ∷ 1
    ∷ 2
    ∷ 3
    ∷ 4
    ∷ 5
    ∷ 6
    ∷ 7
    ∷ 8
    ∷ 9
    ∷ 10
    ∷ 11
    ∷ 12
    ∷ 13
    ∷ 14
    ∷ 15
    ∷ 16
    ∷ 17
    ∷ 18
    ∷ 19
    ∷ 20
    ∷ 21
    ∷ 22
    ∷ 23
    ∷ 24
    ∷ 25
    ∷ 26
    ∷ 27
    ∷ 28
    ∷ 29
    ∷ 30
    ∷ 31
    ∷ []

pub digest-IsBytes : (n : ℕ) → IsBytes (digest n)
digest-IsBytes n = omega arith

pub row-IsBytes : (n : ℕ) → IsBytes (row n)
row-IsBytes n = omega arith

-- a sum of bytes in place of SHA-256
abbrev pub sum_hash : Sha256
sum_hash = record {
  sum = λ s. digest (total s);
  length_sum = λ s. refl;
  bytes_sum = λ s. digest-IsBytes (total s);
}

-- a cipher that only copies the counter
abbrev pub counter_cipher : Aes
counter_cipher = record { block = λ key n. row n; bytes_block = λ key n. row-IsBytes n }
