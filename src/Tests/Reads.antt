-- ===== src/Tests/Reads.antt =====
-- The file of Tests/Trashes, in bob's folder, which stands in a folder that he may not read.
use ods.Common.{
  true, Option, none, [], ◌∷◌, Text, codes, text_eq, any, has_prefix, if◌then◌else◌, ◌≡◌, inl, inr,
  false, refl, arith, to_lower,
}
use mathlib.Core.List.{reverse}
use ods.Crypto.{hex_encode, mac_text}
use ods.Models.Flatten.{aac_flatten}
use ods.Models.Permission.{calculate_permission_mac, equals_permission_mac}
use ods.Access.{
  visit, visit_all, eligible, relevant, combine, satisfied, grantee_match, is_user_allowed_to, full,
  is_user_allowed_to_read, is_user_allowed_to_read_with_permission,
}
use ods.Tree.{OdObject, Db, find, get_object}
use ods.Tree.Walk.{root, up}
use ods.Reading.{
  auth_http_err, refused, shown, breadcrumbs_from_parents, may_see, read_object, redact_from,
  redact_parents,
}
use ods.Tree.Parents.{told, gap, above}
use ods.Reading.Crumbs.{visible, read_object_lem}
use ods.Tests.Parameters.{sum_hash, total}
use ods.Tests.Trashes.{master, bob, row, signed}

abbrev closed : OdObject
closed = row (codes "z") [] []

abbrev folder : OdObject
folder = row (codes "a") (codes "z") (signed ∷ [])

abbrev file : OdObject
file = row (codes "f") (codes "a") (signed ∷ [])

abbrev db : Db
db = closed ∷ folder ∷ file ∷ []

abbrev passes : Text → OdObject → Option Text
passes = λ name o. none

reads : is_user_allowed_to_read sum_hash master bob (signed ∷ []) ≡ true
unfolding is_user_allowed_to_read is_user_allowed_to_read_with_permission is_user_allowed_to
    visit_all visit eligible relevant combine satisfied grantee_match aac_flatten text_eq
    equals_permission_mac calculate_permission_mac mac_text hex_encode total to_lower full
reads = refl

read_object_lem_example : read_object sum_hash master bob passes false 3 (codes "f") db ≡ (
    if any (λ p. p.is_deleted) (folder ∷ closed ∷ [])
    then refused 409
    else shown file (
        breadcrumbs_from_parents
          (reverse (visible (may_see sum_hash master bob passes) (folder ∷ closed ∷ [])))))
unfolding get_object find text_eq told
read_object_lem_example =
    read_object_lem sum_hash master bob passes false 3 (codes "f") db file (folder ∷ closed ∷ [])
      (inl (up refl (up refl root))) refl reads refl refl refl refl (omega arith)

-- Without the closed folder the file is shown too, and the folder is in no breadcrumb.
no_breadcrumbs :
    read_object sum_hash master bob passes false 3 (codes "f") (folder ∷ file ∷ []) ≡ shown file []
unfolding get_object find text_eq told visible breadcrumbs_from_parents
no_breadcrumbs =
    read_object_lem sum_hash master bob passes false 3 (codes "f") (folder ∷ file ∷ []) file
      (folder ∷ []) (inr (above refl (gap refl refl))) refl reads refl refl refl refl (omega arith)

-- The closed folder gives no breadcrumb.
only_folder : redact_parents sum_hash master bob passes (closed ∷ folder ∷ []) ≡ folder ∷ []
unfolding redact_parents redact_from may_see is_user_allowed_to_read
    is_user_allowed_to_read_with_permission is_user_allowed_to visit_all visit eligible relevant
    combine satisfied grantee_match aac_flatten text_eq equals_permission_mac
    calculate_permission_mac mac_text hex_encode total to_lower full
only_folder = refl

bad_gateway : auth_http_err (codes "auth: unable to flatten acm: timeout") ≡ 502
unfolding auth_http_err text_eq has_prefix
bad_gateway = refl
