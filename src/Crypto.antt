-- ===== src/Crypto.antt =====
-- crypto/crypto.go: keys wrapped by a passphrase, and the code that authenticates a permission.
-- SHA-256 is a parameter: what the code relies on is that it returns 32 bytes.
pub mod Xor
pub mod Keys
use ods.Common.{
  ℕ, suc, ◌+◌, ◌≤◌, ◌<◌, ◌≡◌, Bool, true, false, Option, none, some, List, [], ◌∷◌, ◌++◌, map, Text,
  codes, length, All, ltb, if◌then◌else◌, bit_xor, ◌/◌, ◌%◌,
}

-- crypto/sha256
pub record Sha256 : Type 0 where
  pub sum : Text → Text
  pub length_sum : (s : Text) → length (sum s) ≡ 32
  pub bytes_sum : (s : Text) → All (λ b. b < 256) (sum s)

abbrev pub IsBytes : List ℕ → Type 0
IsBytes = All (λ b. b < 256)

unfoldable pub hex_digit : ℕ → ℕ
hex_digit d = if ltb d 10 then 48 + d else 87 + d

-- hex.EncodeToString
unfoldable pub hex_encode : Text → Text
unfolding hex_digit
hex_encode [] = []
hex_encode (b ∷ bs) = hex_digit (b / 16) ∷ hex_digit (b % 16) ∷ hex_encode bs

-- %t
abbrev pub format_bool : Bool → Text
format_bool true = codes "true"
format_bool false = codes "false"

-- `result` starts as zeros and is as long as the hash; the loop writes over the key's length.
unfoldable pub xor_onto : List ℕ → List ℕ → List ℕ
xor_onto [] ks = []
xor_onto (h ∷ hs) [] = 0 ∷ xor_onto hs []
xor_onto (h ∷ hs) (k ∷ ks) = bit_xor h k ∷ xor_onto hs ks

-- the text that DoMAC hashes
unfoldable pub mac_text : Text → Text → Bool → Bool → Bool → Bool → Bool → List ℕ → Text
mac_text passphrase grantee c r u d s encrypted_key =
    passphrase
    ++ (codes ":"
        ++ (grantee
            ++ (codes ":"
                ++ (format_bool c
                    ++ (codes ","
                        ++ (format_bool r
                            ++ (codes ","
                                ++ (format_bool u
                                    ++ (codes ","
                                        ++ (format_bool d
                                            ++ (codes ","
                                                ++ (format_bool s
                                                    ++ (codes ":"
                                                        ++ hex_encode encrypted_key)))))))))))))

module _ (H : Sha256) where
  -- ApplyPassphrase. `none` is `log.Fatal`, which ends the process.
  unfoldable pub apply_passphrase : Text → List ℕ → List ℕ → Option (List ℕ)
  unfolding xor_onto
  apply_passphrase passphrase permission_iv file_key =
      let hash_bytes = H.sum (passphrase ++ (codes ":" ++ hex_encode permission_iv)) in
      if ltb (length hash_bytes) (length file_key)
      then none
      else some (xor_onto hash_bytes file_key)

  -- DoMAC. The IV is an argument of the source that its body does not read.
  unfoldable pub do_mac : Text → List ℕ → Text → Bool → Bool → Bool → Bool → Bool → List ℕ → List ℕ
  do_mac passphrase permission_iv grantee c r u d s encrypted_key =
      H.sum (mac_text passphrase grantee c r u d s encrypted_key)
