-- ===== src/Access.antt =====
-- server/isUserAllowedForObjectACM.go: what the permissions of an object allow the caller.
-- The caller's distinguished name, the groups of the request's context and the master key of the
-- cache are arguments.
pub mod Capability
pub mod Loop
pub mod Sound
pub mod Complete
pub mod FileKey
pub mod Match
use ods.Common.{
  ℕ, Bool, true, false, not, ◌&&◌, ◌||◌, List, [], ◌∷◌, Text, codes, to_lower, is_empty, text_eq,
  any, if◌then◌else◌,
}
use ods.Crypto.{Sha256}
use ods.Models.Flatten.{aac_flatten}
use ods.Models.Grantee.{OdAcmGrantee}
use ods.Models.Permission.{
  OdObjectPermission, empty_permission, equals_permission_mac, calculate_permission_mac,
  permission_for_user, permission_for_group,
}

-- models.EveryoneGroup
abbrev pub everyone_group : Text
everyone_group = codes "-Everyone"

-- strings.Compare(strings.ToLower(a), strings.ToLower(b)) == 0
abbrev pub same_fold : Text → Text → Bool
same_fold a b = text_eq (to_lower a) (to_lower b)

abbrev pub same_flat : Text → Text → Bool
same_flat a b = text_eq (aac_flatten a) (aac_flatten b)

pub record Caller : Type 0 where
  pub distinguished_name : Text
  pub groups : List Text

unfoldable pub grantee_match : Caller → OdObjectPermission → Bool
grantee_match caller p =
    if same_flat p.grantee caller.distinguished_name
    then true
    else if same_flat p.grantee everyone_group
    then true
    else if same_fold p.grantee caller.distinguished_name
    then true
    else if same_fold p.acm_grantee.group_name.string everyone_group
    then true
    else any (λ group. same_flat p.grantee group || same_fold p.grantee group) caller.groups

-- does the permission give any capability that is required?
unfoldable pub relevant : OdObjectPermission → OdObjectPermission → Bool
relevant required p =
    (required.allow_create && p.allow_create)
    || ((required.allow_read && p.allow_read)
        || ((required.allow_update && p.allow_update)
            || ((required.allow_delete && p.allow_delete)
                || (required.allow_share && p.allow_share))))

-- the combined permission after one more that is relevant
unfoldable pub combine : OdObjectPermission → OdObjectPermission → OdObjectPermission
combine user p = if is_empty user.grantee then p else record user {
  allow_create = user.allow_create || p.allow_create;
  allow_read = user.allow_read || p.allow_read;
  allow_update = user.allow_update || p.allow_update;
  allow_delete = user.allow_delete || p.allow_delete;
  allow_share = user.allow_share || p.allow_share;
}

unfoldable pub satisfied : OdObjectPermission → OdObjectPermission → Bool
satisfied required user =
    (not required.allow_create || user.allow_create)
    && ((not required.allow_read || user.allow_read)
        && ((not required.allow_update || user.allow_update)
            && ((not required.allow_delete || user.allow_delete)
                && (not required.allow_share || user.allow_share))))

unfoldable pub full : OdObjectPermission → Bool
full user =
    user.allow_create
    && (user.allow_read && (user.allow_update && (user.allow_delete && user.allow_share)))

-- authorizedTo and userPermission
pub record Rollup : Type 0 where
  pub authorized_to : Bool
  pub user_permission : OdObjectPermission

module _ (H : Sha256) (master_key : Text) (caller : Caller) where
  -- the three tests that skip a permission
  unfoldable pub eligible : OdObjectPermission → Bool
  eligible p = not p.is_deleted && (grantee_match caller p && equals_permission_mac H master_key p)

  -- One round of the loop, and whether it ends with `break`.
  unfoldable pub visit : OdObjectPermission → Bool → Rollup → OdObjectPermission → Rollup × Bool
  visit required rollup s p =
      let user = combine s.user_permission p in
      let authorized = s.authorized_to || satisfied required user in
      if eligible p && relevant required p
      then (
        record { authorized_to = authorized; user_permission = user },
        authorized && (not rollup || full user),
      )
      else (s, false)

  unfoldable pub visit_all : OdObjectPermission → Bool → Rollup → List OdObjectPermission → Rollup
  visit_all required rollup s [] = s
  visit_all required rollup s (p ∷ ps) =
      let r = visit required rollup s p in
      let rest = visit_all required rollup r.0 ps in if r.1 then r.0 else rest

  unfoldable pub is_user_allowed_to :
      List OdObjectPermission → OdObjectPermission → Bool → Bool × OdObjectPermission
  is_user_allowed_to permissions required rollup =
      let r =
        visit_all required rollup
          (record { authorized_to = false; user_permission = empty_permission }) permissions in
      (
        r.authorized_to,
        record r.user_permission {
          permission_mac = calculate_permission_mac H master_key r.user_permission;
        },
      )

  unfoldable pub is_user_allowed_to_read_with_permission :
      List OdObjectPermission → Bool × OdObjectPermission
  is_user_allowed_to_read_with_permission ps =
      is_user_allowed_to ps (record empty_permission { allow_read = true }) false

  unfoldable pub is_user_allowed_to_update_with_permission :
      List OdObjectPermission → Bool × OdObjectPermission
  is_user_allowed_to_update_with_permission ps =
      is_user_allowed_to ps (record empty_permission { allow_read = true; allow_update = true })
        true

  unfoldable pub is_user_allowed_to_share_with_permission :
      List OdObjectPermission → Bool × OdObjectPermission
  is_user_allowed_to_share_with_permission ps =
      is_user_allowed_to ps (record empty_permission { allow_read = true; allow_share = true }) true

  unfoldable pub is_user_allowed_to_create : List OdObjectPermission → Bool
  is_user_allowed_to_create ps =
      (is_user_allowed_to ps (record empty_permission { allow_read = true; allow_create = true })
        true).0

  unfoldable pub is_user_allowed_to_delete : List OdObjectPermission → Bool
  is_user_allowed_to_delete ps =
      (is_user_allowed_to ps (record empty_permission { allow_read = true; allow_delete = true })
        true).0

  unfoldable pub is_user_allowed_to_read : List OdObjectPermission → Bool
  unfolding is_user_allowed_to_read_with_permission
  is_user_allowed_to_read ps = (is_user_allowed_to_read_with_permission ps).0

  unfoldable pub is_user_allowed_to_update : List OdObjectPermission → Bool
  unfolding is_user_allowed_to_update_with_permission
  is_user_allowed_to_update ps = (is_user_allowed_to_update_with_permission ps).0

  unfoldable pub is_user_allowed_to_share : List OdObjectPermission → Bool
  unfolding is_user_allowed_to_share_with_permission
  is_user_allowed_to_share ps = (is_user_allowed_to_share_with_permission ps).0
