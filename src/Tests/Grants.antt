-- ===== src/Tests/Grants.antt =====
-- Keys, MACs and the check of a caller, at one object of one user.
use ods.Common.{
  ℕ, ◌≡◌, ◌≢◌, ◌⊎◌, ◌↔◌, refl, true, false, List, [], ◌∷◌, Text, codes, to_lower, text_eq, arith,
  some,
}
use ods.Crypto.{apply_passphrase, hex_encode, xor_onto, mac_text}
use ods.Crypto.Keys.{apply_passphrase-le, apply_passphrase_twice, pass_hash}
use ods.Models.Flatten.{aac_flatten}
use ods.Models.Permission.{
  OdObjectPermission, empty_permission, copy_encrypt_key, equals_permission_mac,
  calculate_permission_mac,
}
use ods.Models.Permission.Keys.{file_key, copy_encrypt_key_lem}
use ods.Models.Permission.Mac.{SameGrant, signed_text, mac_binds}
use ods.Access.{
  Caller, eligible, relevant, combine, satisfied, visit, visit_all, grantee_match,
  is_user_allowed_to,
}
use ods.Access.Capability.{Capability, allows, reading}
use ods.Access.Sound.{offers, is_user_allowed_to_sound}
use ods.Access.Complete.{is_user_allowed_to_iff}
use ods.Access.FileKey.{returned_permission_unwraps}
use ods.Tests.Parameters.{sum_hash, total}

abbrev master : Text
master = codes "master"

abbrev key_bytes : List ℕ
key_bytes =
    7 ∷ 1 ∷ 2 ∷ 3 ∷ 4 ∷ 5 ∷ 6 ∷ 7 ∷ 8 ∷ 9 ∷ 10 ∷ 11 ∷ 12 ∷ 13 ∷ 14 ∷ 15 ∷ 16 ∷ 17 ∷ 18 ∷ 19 ∷ 20
    ∷ 21 ∷ 22 ∷ 23 ∷ 24 ∷ 25 ∷ 26 ∷ 27 ∷ 28 ∷ 29 ∷ 30 ∷ 200 ∷ []

-- bob's permission to read, unsigned and signed
abbrev unsigned : OdObjectPermission
unsigned = record empty_permission {
  grantee = codes "cnbob";
  allow_read = true;
  encrypt_key = key_bytes;
  permission_iv = 9 ∷ [];
}

abbrev signed : OdObjectPermission
signed = record unsigned { permission_mac = calculate_permission_mac sum_hash master unsigned }

abbrev bob : Caller
bob = record { distinguished_name = codes "CN=bob"; groups = codes "staff" ∷ [] }

apply_passphrase_twice_example :
    (d : List ℕ) × (apply_passphrase sum_hash master (9 ∷ []) key_bytes ≡ some d)
    × (apply_passphrase sum_hash master (9 ∷ []) d ≡ some key_bytes)
apply_passphrase_twice_example =
    apply_passphrase_twice sum_hash master (9 ∷ []) key_bytes (omega arith) refl

abbrev unwrapped : List ℕ
unwrapped = xor_onto (pass_hash sum_hash master (9 ∷ [])) key_bytes

unwraps : file_key sum_hash master signed ≡ some unwrapped
unwraps = apply_passphrase-le sum_hash master (9 ∷ []) key_bytes (omega arith)

copy_encrypt_key_lem_example :
    (q : OdObjectPermission) × (copy_encrypt_key sum_hash master (5 ∷ []) signed empty_permission
      ≡ some q)
    × (file_key sum_hash master q ≡ some unwrapped)
    × (equals_permission_mac sum_hash master q ≡ true)
    × (q ≡ record empty_permission {
      permission_iv = q.permission_iv;
      encrypt_key = q.encrypt_key;
      permission_mac = q.permission_mac;
    })
copy_encrypt_key_lem_example =
    copy_encrypt_key_lem sum_hash master (5 ∷ []) unwrapped signed empty_permission (omega arith)
      unwraps

signed_passes : equals_permission_mac sum_hash master signed ≡ true
unfolding equals_permission_mac calculate_permission_mac text_eq mac_text hex_encode total
signed_passes = refl

-- To read turned into to update: the small hash, a sum of bytes, does not see it.
abbrev altered : OdObjectPermission
altered = record signed { allow_read = false; allow_update = true }

altered_passes : equals_permission_mac sum_hash master altered ≡ true
unfolding equals_permission_mac calculate_permission_mac text_eq mac_text hex_encode total
altered_passes = refl

mac_binds_example :
    SameGrant signed altered
    ⊎ ((signed_text master signed ≢ signed_text master altered)
        × (sum_hash.sum (signed_text master signed) ≡ sum_hash.sum (signed_text master altered)))
mac_binds_example =
    mac_binds sum_hash master signed altered (omega arith) (omega arith) refl signed_passes
      altered_passes refl

abbrev to_read : OdObjectPermission
to_read = record empty_permission { allow_read = true }

let_in : (is_user_allowed_to sum_hash master bob (signed ∷ []) to_read false).0 ≡ true
unfolding is_user_allowed_to visit_all visit eligible relevant combine satisfied grantee_match
    aac_flatten text_eq equals_permission_mac calculate_permission_mac mac_text hex_encode total
    to_lower
let_in = refl

is_user_allowed_to_sound_example : offers sum_hash master bob (signed ∷ []) reading ≡ true
is_user_allowed_to_sound_example =
    is_user_allowed_to_sound sum_hash master bob to_read false (signed ∷ []) reading let_in refl

is_user_allowed_to_iff_example :
    ((is_user_allowed_to sum_hash master bob (signed ∷ []) to_read true).0 ≡ true) ↔ (
      (d : Capability)
      → allows d to_read ≡ true
      → offers sum_hash master bob (signed ∷ []) d ≡ true)
is_user_allowed_to_iff_example =
    is_user_allowed_to_iff sum_hash master bob to_read true (signed ∷ []) reading refl (refl, tt)

returned_permission_unwraps_example :
    let p = (is_user_allowed_to sum_hash master bob (signed ∷ []) to_read false).1 in
    (file_key sum_hash master p ≡ some unwrapped) × (equals_permission_mac sum_hash master p ≡ true)
returned_permission_unwraps_example =
    returned_permission_unwraps sum_hash master bob unwrapped to_read false (signed ∷ [])
      ((λ _. unwraps), tt) let_in
