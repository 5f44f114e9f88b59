-- ===== src/Reading.antt =====
-- server/getObject.go: getObject, with the breadcrumbs of an object, and authHTTPErr of
-- server/isUserAllowedForObjectACM.go. The check of an ACM by the authorization service is an argument, which gives the
-- text of its error. An answer has a status code or the object; the messages are left out.
pub mod Crumbs
use ods.Common.{
  ℕ, Bool, true, false, not, ◌||◌, Option, none, some, List, [], ◌∷◌, Text, codes, is_empty,
  has_prefix, any, map, if◌then◌else◌,
}
use mathlib.Core.List.{reverse}
use ods.Crypto.{Sha256}
use ods.Access.{Caller, is_user_allowed_to_read}
use ods.Tree.{OdObject, Db, get_object, parents_given, no_transaction, unanswered, get_parents}

pub record Breadcrumb : Type 0 where
  pub id : Text
  pub parent_id : Text

pub data Answer : Type 0 where
  refused : ℕ → Answer
  -- MapODObjectToDeletedObject
  deleted_object : OdObject → Answer
  shown : OdObject → List Breadcrumb → Answer
  -- a walk longer than the fuel
  no_answer : Answer

-- The errors of auth/interface.go.
abbrev pub user_not_authorized : Text
user_not_authorized = codes "auth: user not authorized"

abbrev pub bad_acm : List Text
bad_acm =
    codes "auth: acm not specified"
    ∷ codes "auth: acm not valid"
    ∷ codes "auth: acm response type marked as failed"
    ∷ []

abbrev pub failed_service : List Text
failed_service =
    codes "auth: unable to check user access to acm"
    ∷ codes "auth: unable to flatten acm"
    ∷ codes "auth: unable to inject permissions into acm"
    ∷ codes "auth: unable to normalize permissions"
    ∷ codes "auth: unable to rebuild acm from permissions"
    ∷ codes "auth: unable to retrieve snippets"
    ∷ []

-- authHTTPErr
unfoldable pub auth_http_err : Text → ℕ
auth_http_err e =
    if has_prefix e user_not_authorized
    then 403
    else if any (λ text. has_prefix e text) bad_acm
    then 400
    else if any (λ text. has_prefix e text) failed_service
    then 502
    else 403

-- isExpungedOrAnscestorDeletedErr, with no code where it is ok
unfoldable pub is_expunged_or_ancestor_deleted_err : OdObject → Option ℕ
is_expunged_or_ancestor_deleted_err o =
    if o.is_expunged then some 410 else if o.is_ancestor_deleted then some 409 else none

unfoldable pub err_on_deleted_parents : List OdObject → Option ℕ
err_on_deleted_parents [] = none
err_on_deleted_parents (parent ∷ parents) =
    let rest = err_on_deleted_parents parents in if parent.is_deleted then some 409 else rest

unfoldable pub breadcrumbs_from_parents : List OdObject → List Breadcrumb
breadcrumbs_from_parents = map (λ p. record { id = p.id; parent_id = p.parent_id })

module _ (H : Sha256) (master_key : Text) (caller : Caller)
    (acm_error : Text → OdObject → Option Text) where
  -- Both checks of a parent.
  unfoldable pub may_see : OdObject → Bool
  may_see p =
      if is_user_allowed_to_read H master_key caller p.permissions
      then (elim (acm_error caller.distinguished_name p) [ none ↦ true | some e ↦ false ])
      else false

  -- The loop of redactParents over the parents from the nearest on, with those that it has kept.
  unfoldable pub redact_from : List OdObject → List OdObject → List OdObject
  unfolding may_see
  redact_from [] filtered = filtered
  redact_from (p ∷ parents) filtered =
      let rest = redact_from parents (p ∷ filtered) in if may_see p then rest else filtered

  -- redactParents, on parents with the root first
  unfoldable pub redact_parents : List OdObject → List OdObject
  unfolding redact_from
  redact_parents parents = redact_from (reverse parents) []

  -- The end of getObject, once the object may be read.
  unfoldable pub with_parents : (begin_fails : Bool) → (fuel : ℕ) → OdObject → Db → Answer
  unfolding redact_parents err_on_deleted_parents breadcrumbs_from_parents
  with_parents begin_fails fuel o db = elim (get_parents begin_fails fuel db o) [
    | unanswered ↦ no_answer
    | no_transaction ↦ refused 500
    | parents_given parents ↦ elim (err_on_deleted_parents parents) [
      | some code ↦ refused code
      | none ↦ shown o (breadcrumbs_from_parents (redact_parents parents))
    ]
  ]

  -- AppServer.getObject; `begin_fails`: the transaction of GetParents cannot begin
  unfoldable pub read_object : (begin_fails : Bool) → (fuel : ℕ) → Text → Db → Answer
  unfolding get_object with_parents auth_http_err is_expunged_or_ancestor_deleted_err
  read_object begin_fails fuel id db = elim (get_object id db) [
    | none ↦ refused (if is_empty id then 400 else 404)
    | some o ↦
        if not (is_user_allowed_to_read H master_key caller o.permissions)
        then refused 403
        else elim (acm_error caller.distinguished_name o) [
          | some e ↦ refused (auth_http_err e)
          | none ↦ elim (is_expunged_or_ancestor_deleted_err o) [
            | some code ↦ refused code
            | none ↦ if o.is_deleted then deleted_object o else with_parents begin_fails fuel o db
          ]
        ]
  ]
