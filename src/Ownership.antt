-- ===== src/Ownership.antt =====
-- server/changeOwner.go: the checks of changeOwner, and those of the object's state in changeOwnerRaw. A check gives
-- the resource name of the new owner, or a status code. `resources` are those of getKnownResourceStringsFromUserGroups.
pub mod Granted
use ods.Common.{
  ℕ, Bool, true, false, not, List, [], ◌∷◌, Text, codes, text_eq, is_empty, any, length, ◌==◌,
  if◌then◌else◌, Result, ok, err, ◌>>=◌,
}
use ods.Crypto.{Sha256}
use ods.Access.{Caller, is_user_allowed_to_update}
use ods.Models.Grantee.{resource_name, new_grantee_from_resource_name}
use ods.Tree.{OdObject}
use ods.Tree.Move.{is_user_owner}

-- the caller's part of the checks
unfoldable pub check_owner :
    Sha256 → (master_key : Text) → Caller → (resources : List Text) → OdObject → Result ℕ (Unit {0})
unfolding is_user_owner
check_owner H master_key caller resources o =
    if not (is_user_allowed_to_update H master_key caller o.permissions)
    then err 403
    else if length resources == 0
    then err 500
    else if is_user_owner caller.distinguished_name resources o.owned_by
    then ok tt
    else err 403

-- the target's part
unfoldable pub check_new_owner :
    Caller → (resources : List Text) → (new_owner : Text) → Result ℕ Text
check_new_owner caller resources new_owner =
    let grantee = new_grantee_from_resource_name new_owner in
    let target = resource_name grantee in
    if not (is_empty grantee.user_distinguished_name.string)
    then (if text_eq grantee.user_distinguished_name.string caller.distinguished_name
        then err 400
        else ok target)
    else if not (is_empty grantee.group_name.string)
    then (if text_eq target (codes "group/-everyone")
        then err 428
        else if any (λ group. text_eq group target) resources
        then ok target
        else err 428)
    else err 400

-- the state's part
unfoldable pub check_state : (change_token : Text) → OdObject → Result ℕ (Unit {0})
check_state change_token o =
    if o.is_deleted
    then (if o.is_expunged then err 410 else err 405)
    else if text_eq change_token o.change_token
    then ok tt
    else err 428

-- What changeOwner does before the object changes.
unfoldable pub check_change_owner :
    Sha256
    → (master_key : Text) → Caller
    → (resources : List Text) → (new_owner change_token : Text) → OdObject
    → Result ℕ Text
unfolding check_owner check_new_owner check_state
check_change_owner H master_key caller resources new_owner change_token o =
    check_owner H master_key caller resources o >>= λ passed.
    check_new_owner caller resources new_owner >>= λ target.
    check_state change_token o >>= λ passed. ok target
