-- ===== src/Tests/Owners.antt =====
-- Bob gives the file that he owns to a group of his.
use ods.Common.{
  true, false, [], ◌∷◌, List, Text, codes, text_eq, is_empty, has_prefix, replace_first, split,
  join, trim_space, to_lower, ◌≡◌, refl, ◌⊎◌, arith, ok,
}
use ods.Crypto.{hex_encode, mac_text}
use ods.Models.Flatten.{aac_flatten}
use ods.Models.Grantee.{
  resource_name, get_resource_name, new_grantee_from_resource_name, new_grantee_from_group_resource,
  to_null_string,
}
use ods.Models.Permission.{
  OdObjectPermission, empty_permission, calculate_permission_mac, equals_permission_mac,
}
use ods.Access.{
  visit, visit_all, eligible, relevant, combine, satisfied, grantee_match, is_user_allowed_to, full,
  is_user_allowed_to_update, is_user_allowed_to_update_with_permission,
}
use ods.Tree.{OdObject}
use ods.Tree.Move.{is_user_owner}
use ods.Ownership.{check_owner, check_new_owner, check_state, check_change_owner}
use ods.Ownership.Granted.{change_owner_granted}
use ods.Tests.Parameters.{sum_hash, total}
use ods.Tests.Trashes.{master, bob, row}

abbrev unsigned : OdObjectPermission
unsigned = record empty_permission {
  grantee = codes "cnbob";
  allow_read = true;
  allow_update = true;
}

abbrev signed : OdObjectPermission
signed = record unsigned { permission_mac = calculate_permission_mac sum_hash master unsigned }

abbrev file : OdObject
file = row (codes "f") [] (signed ∷ [])

abbrev groups : List Text
groups = codes "group/a" ∷ []

updates : is_user_allowed_to_update sum_hash master bob (signed ∷ []) ≡ true
unfolding is_user_allowed_to_update is_user_allowed_to_update_with_permission is_user_allowed_to
    visit_all visit eligible relevant combine satisfied grantee_match aac_flatten text_eq
    equals_permission_mac calculate_permission_mac mac_text hex_encode total to_lower full
updates = refl

owns : check_owner sum_hash master bob groups file ≡ ok tt
unfolding check_owner is_user_owner text_eq trim_space
owns = let allowed = updates in ground arith

taken : check_new_owner bob groups (codes "group/A") ≡ ok (codes "group/a")
unfolding check_new_owner new_grantee_from_resource_name new_grantee_from_group_resource
    resource_name get_resource_name to_null_string text_eq has_prefix replace_first split join
    to_lower trim_space aac_flatten
taken = refl

state : check_state (codes "t") file ≡ ok tt
unfolding check_state text_eq
state = refl

checked :
    check_change_owner sum_hash master bob groups (codes "group/A") (codes "t") file
    ≡ ok (codes "group/a")
unfolding check_change_owner
checked = let a = owns in let b = taken in let c = state in ground arith

change_owner_granted_example :
    (is_user_allowed_to_update sum_hash master bob file.permissions ≡ true)
    × (is_user_owner bob.distinguished_name groups file.owned_by ≡ true)
    × (file.is_deleted ≡ false)
    × (text_eq (codes "t") file.change_token ≡ true)
    × (codes "group/a" ≡ resource_name (new_grantee_from_resource_name (codes "group/A")))
    × (((is_empty (new_grantee_from_resource_name (codes "group/A")).user_distinguished_name.string
            ≡ false)
          × (text_eq
                (new_grantee_from_resource_name (codes "group/A")).user_distinguished_name.string
                bob.distinguished_name
              ≡ false))
        ⊎ ((text_eq (codes "group/a") (codes "group/-everyone") ≡ false)
            × (is_user_owner bob.distinguished_name groups (codes "group/a") ≡ true)))
change_owner_granted_example =
    change_owner_granted sum_hash master bob groups (codes "group/A") (codes "t") file
      (codes "group/a") refl checked
