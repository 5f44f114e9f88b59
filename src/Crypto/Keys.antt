-- ===== src/Crypto/Keys.antt =====
-- ApplyPassphrase undoes itself: wrapped keys are unwrapped by the call that wrapped them.
use ods.Common.{
  ℕ, suc, ◌≤◌, ◌≡◌, refl, ap, sym, ◌∙◌, ◌++◌, some, List, [], ◌∷◌, Text, codes, length, arith,
}
use ods.Crypto.Xor.{xor_twice, xor-lt}
use ods.Crypto.{Sha256, IsBytes, hex_encode, xor_onto, apply_passphrase}

-- `xs` with zeros up to the length of `hs`
abbrev pub pad : List ℕ → List ℕ → List ℕ
pad [] ks = []
pad (h ∷ hs) [] = 0 ∷ pad hs []
pad (h ∷ hs) (k ∷ ks) = k ∷ pad hs ks

pub length-xor_onto : (hs ks : List ℕ) → length (xor_onto hs ks) ≡ length hs
unfolding xor_onto
length-xor_onto [] ks = refl
length-xor_onto (h ∷ hs) [] = ap suc (length-xor_onto hs [])
length-xor_onto (h ∷ hs) (k ∷ ks) = ap suc (length-xor_onto hs ks)

pub xor_onto-IsBytes : (hs ks : List ℕ) → IsBytes hs → IsBytes ks → IsBytes (xor_onto hs ks)
unfolding xor_onto
xor_onto-IsBytes [] ks bh bk = tt
xor_onto-IsBytes (h ∷ hs) [] bh bk = (omega arith, xor_onto-IsBytes hs [] bh.1 tt)
xor_onto-IsBytes (h ∷ hs) (k ∷ ks) bh bk = (xor-lt h k bh.0 bk.0, xor_onto-IsBytes hs ks bh.1 bk.1)

-- A key that fills the hash comes back.
pub xor_onto_twice :
    (hs ks : List ℕ)
    → IsBytes hs
    → IsBytes ks
    → length ks ≡ length hs
    → xor_onto hs (xor_onto hs ks) ≡ ks
unfolding xor_onto
xor_onto_twice [] [] bh bk e = refl
xor_onto_twice [] (k ∷ ks) bh bk e = absurd (omega arith)
xor_onto_twice (h ∷ hs) [] bh bk e = absurd (omega arith)
xor_onto_twice (h ∷ hs) (k ∷ ks) bh bk e =
    cc (xor_twice h k bh.0 bk.0, xor_onto_twice hs ks bh.1 bk.1 (omega arith))

module _ (H : Sha256) where
  abbrev pub pass_hash : Text → List ℕ → List ℕ
  pass_hash p iv = H.sum (p ++ (codes ":" ++ hex_encode iv))

  pub apply_passphrase-le :
      (p : Text) (iv k : List ℕ)
      → length k ≤ 32
      → apply_passphrase H p iv k ≡ some (xor_onto (pass_hash p iv) k)
  unfolding apply_passphrase
  apply_passphrase-le p iv k h = ground (arith, H.length_sum (p ++ (codes ":" ++ hex_encode iv)))

  pub apply_passphrase-inv :
      (p : Text) (iv k d : List ℕ)
      → apply_passphrase H p iv k ≡ some d
      → (length k ≤ 32) × (d ≡ xor_onto (pass_hash p iv) k)
  unfolding apply_passphrase
  apply_passphrase-inv p iv k d e = ground (arith, H.length_sum (p ++ (codes ":" ++ hex_encode iv)))

  -- What ApplyPassphrase returns is as long as the hash and consists of bytes.
  pub apply_passphrase_shape :
      (p : Text) (iv k d : List ℕ)
      → IsBytes k
      → apply_passphrase H p iv k ≡ some d
      → (length d ≡ 32) × IsBytes d
  apply_passphrase_shape p iv k d bk e =
      let (_, q) = apply_passphrase-inv p iv k d e in
      rw q (
        length-xor_onto (pass_hash p iv) k ∙ H.length_sum _,
        xor_onto-IsBytes (pass_hash p iv) k (H.bytes_sum _) bk,
      )

  -- ApplyPassphrase never stops the process on a 32 byte key, and a second application with the
  -- same passphrase and IV gives the key back.
  pub apply_passphrase_twice :
      (p : Text) (iv k : List ℕ)
      → IsBytes k
      → length k ≡ 32
      → (d : List ℕ) × (apply_passphrase H p iv k ≡ some d) × (apply_passphrase H p iv d ≡ some k)
  apply_passphrase_twice p iv k bk lk =
      let d : List ℕ = xor_onto (pass_hash p iv) k in
      let ld : length d ≡ 32 = length-xor_onto (pass_hash p iv) k ∙ H.length_sum _ in
      (
        d,
        apply_passphrase-le p iv k (omega arith),
        apply_passphrase-le p iv d (omega arith)
            ∙ ap some (xor_onto_twice _ k (H.bytes_sum _) bk (lk ∙ sym (H.length_sum _))),
      )
