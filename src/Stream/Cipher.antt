-- ===== src/Stream/Cipher.antt =====
-- The laws of the key stream.
use ods.Common.{
  ℕ, zero, suc, ◌+◌, ◌*◌, ◌/◌, ◌%◌, ◌<◌, ◌≡◌, refl, sym, ap, ◌∙◌, List, [], ◌∷◌, length, get_or,
  drop, arith,
}
use native.Mathlib.Nat.{add-zero}
use ods.Crypto.{IsBytes}
use ods.Crypto.Xor.{xor_twice}
use ods.Stream.Counter.{be_value}
use ods.Stream.Copy.{Aes, key_stream, xor_key_stream}

get_or-lt : (bs : List ℕ) (i : ℕ) → IsBytes bs → get_or bs i 0 < 256
get_or-lt [] i b = omega arith
get_or-lt (x ∷ bs) zero b = b.0
get_or-lt (x ∷ bs) (suc i) b = get_or-lt bs i b.1

module _ (C : Aes) (key iv : List ℕ) where
  key_stream-lt : (i : ℕ) → key_stream C key iv i < 256
  unfolding key_stream
  key_stream-lt i = get_or-lt _ (i % 16) (C.bytes_block key _)

  -- Applying the stream twice from one position gives the bytes back.
  pub xor_key_stream_twice :
      (i : ℕ) (bs : List ℕ)
      → IsBytes bs
      → xor_key_stream C key iv i (xor_key_stream C key iv i bs) ≡ bs
  unfolding xor_key_stream
  xor_key_stream_twice i [] b = refl
  xor_key_stream_twice i (x ∷ bs) b = cc (
    xor_twice (key_stream C key iv i) x (key_stream-lt i) b.0,
    xor_key_stream_twice (i + 1) bs b.1,
  )

  pub length-xor_key_stream :
      (i : ℕ) (bs : List ℕ) → length (xor_key_stream C key iv i bs) ≡ length bs
  unfolding xor_key_stream
  length-xor_key_stream i [] = refl
  length-xor_key_stream i (x ∷ bs) = ap suc (length-xor_key_stream (i + 1) bs)

  pub drop-xor_key_stream :
      (n i : ℕ) (bs : List ℕ)
      → drop n (xor_key_stream C key iv i bs) ≡ xor_key_stream C key iv (i + n) (drop n bs)
  unfolding xor_key_stream
  drop-xor_key_stream zero i bs = ap (λ k. xor_key_stream C key iv k bs) (sym (add-zero i))
  drop-xor_key_stream (suc n) i [] = refl
  drop-xor_key_stream (suc n) i (x ∷ bs) =
      let e : i + 1 + n ≡ i + suc n = omega arith in
      drop-xor_key_stream n (i + 1) bs ∙ ap (λ k. xor_key_stream C key iv k (drop n bs)) e

module _ (C : Aes) (key iv iv' : List ℕ) (n : ℕ) (e : be_value 0 iv' ≡ be_value 0 iv + n) where
  key_stream_shift : (i : ℕ) → key_stream C key iv' i ≡ key_stream C key iv (i + n * 16)
  unfolding key_stream
  key_stream_shift i =
      let blocks : be_value 0 iv' + i / 16 ≡ be_value 0 iv + (i + n * 16) / 16 = omega arith in
      let place : i % 16 ≡ (i + n * 16) % 16 = omega arith in cc (blocks, place)

  -- An IV that is further by n blocks gives the stream from position 16 n on.
  pub xor_key_stream_shift :
      (i : ℕ) (bs : List ℕ)
      → xor_key_stream C key iv' i bs ≡ xor_key_stream C key iv (i + n * 16) bs
  unfolding xor_key_stream
  xor_key_stream_shift i [] = refl
  xor_key_stream_shift i (x ∷ bs) =
      let step : i + 1 + n * 16 ≡ i + n * 16 + 1 = omega arith in
      cc (key_stream_shift i, xor_key_stream_shift (i + 1) bs, step)
