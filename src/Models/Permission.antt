-- ===== src/Models/Permission.antt =====
-- metadata/models/OdObjectPermission.go: permissions, their wrapped keys and their MAC.
-- Random IVs and keys are arguments; `none` stands for the `log.Fatal` of ApplyPassphrase.
pub mod Keys
pub mod Mac
use ods.Common.{
  ℕ, Bool, true, false, not, ◌&&◌, Option, none, some, List, [], ◌∷◌, ◌++◌, Text, codes, to_lower,
  has_prefix, replace_first, split, trim_space, is_empty, text_eq, get_or, if◌then◌else◌, Result,
  ok, err,
}
use ods.Crypto.{Sha256, apply_passphrase, do_mac}
use ods.Models.Flatten.{aac_flatten}
use ods.Models.Grantee.{
  OdAcmGrantee, NullString, to_null_string, empty_grantee, null_string,
  new_grantee_from_resource_name,
}

-- Dates are numbers.
pub record OdObjectPermission : Type 0 where
  pub id : Text
  pub created_date : ℕ
  pub created_by : Text
  pub modified_date : ℕ
  pub modified_by : Text
  pub is_deleted : Bool
  pub deleted_date : Option ℕ
  pub deleted_by : NullString
  pub change_count : ℕ
  pub change_token : Text
  pub object_id : Text
  pub grantee : Text
  pub acm_share : Text
  pub acm_grantee : OdAcmGrantee
  pub allow_create : Bool
  pub allow_read : Bool
  pub allow_update : Bool
  pub allow_delete : Bool
  pub allow_share : Bool
  pub explicit_share : Bool
  pub encrypt_key : List ℕ
  pub permission_iv : List ℕ
  pub permission_mac : List ℕ

-- OdObjectPermission{}
abbrev pub empty_permission : OdObjectPermission
empty_permission = record {
  id = [];
  created_date = 0;
  created_by = [];
  modified_date = 0;
  modified_by = [];
  is_deleted = false;
  deleted_date = none;
  deleted_by = null_string;
  change_count = 0;
  change_token = [];
  object_id = [];
  grantee = [];
  acm_share = [];
  acm_grantee = empty_grantee;
  allow_create = false;
  allow_read = false;
  allow_update = false;
  allow_delete = false;
  allow_share = false;
  explicit_share = false;
  encrypt_key = [];
  permission_iv = [];
  permission_mac = [];
}

module _ (H : Sha256) where
  unfoldable pub calculate_permission_mac : Text → OdObjectPermission → List ℕ
  unfolding do_mac
  calculate_permission_mac passphrase src =
      do_mac H passphrase src.permission_iv src.grantee src.allow_create src.allow_read
        src.allow_update src.allow_delete src.allow_share src.encrypt_key

  -- The loop over the bytes, after the lengths were found equal, is the comparison of the lists.
  unfoldable pub equals_permission_mac : Text → OdObjectPermission → Bool
  equals_permission_mac passphrase src =
      text_eq (calculate_permission_mac passphrase src) src.permission_mac

  -- A permission with a key wrapped under a new IV, and signed.
  unfoldable pub wrap_key : Text → List ℕ → List ℕ → OdObjectPermission → Option OdObjectPermission
  wrap_key passphrase new_iv key dst = elim (apply_passphrase H passphrase new_iv key) [
    | none ↦ none
    | some wrapped ↦
        let keyed : OdObjectPermission = record dst {
          permission_iv = new_iv;
          encrypt_key = wrapped;
        } in
        some (record keyed { permission_mac = calculate_permission_mac passphrase keyed })
  ]

  -- `new_iv` is what CreatePermissionIV returns.
  unfoldable pub copy_encrypt_key :
      Text → List ℕ → OdObjectPermission → OdObjectPermission → Option OdObjectPermission
  unfolding wrap_key
  copy_encrypt_key passphrase new_iv src dst =
      elim (apply_passphrase H passphrase src.permission_iv src.encrypt_key) [
        | none ↦ none
        | some d ↦ wrap_key passphrase new_iv d dst
      ]

  -- `k` is what CreateKey returns, `new_iv` what CreatePermissionIV returns.
  unfoldable pub set_encrypt_key :
      Text → List ℕ → List ℕ → OdObjectPermission → Option OdObjectPermission
  unfolding wrap_key
  set_encrypt_key passphrase k new_iv dst = wrap_key passphrase new_iv k dst

unfoldable pub is_read_only : OdObjectPermission → Bool
is_read_only p =
    not p.allow_create
    && (p.allow_read && (not p.allow_update && (not p.allow_delete && not p.allow_share)))

-- `common_name` is config.GetCommonName
module _ (common_name : Text → Text) where
  unfoldable pub permission_for_user : Text → Bool → Bool → Bool → Bool → Bool → OdObjectPermission
  permission_for_user user c r u d s = record empty_permission {
    grantee = aac_flatten user;
    acm_share = codes "{\"users\":[\"" ++ (user ++ codes "\"]}");
    acm_grantee = record empty_grantee {
      grantee = aac_flatten user;
      user_distinguished_name = to_null_string user;
      display_name = to_null_string (common_name user);
    };
    allow_create = c;
    allow_read = r;
    allow_update = u;
    allow_delete = d;
    allow_share = s;
  }

group_grantee : Text → Text → Text
group_grantee project_display_name group_name =
    if is_empty (trim_space project_display_name)
    then aac_flatten (trim_space group_name)
    else aac_flatten (trim_space (project_display_name ++ (codes "_" ++ group_name)))

group_share : Text → Text → Text → Text
group_share project_name project_display_name group_name =
    codes "{\"projects\":{\""
    ++ (to_lower project_name
        ++ (codes "\":{\"disp_nm\":\""
            ++ (project_display_name
                ++ (codes "\",\"groups\":[\"" ++ (group_name ++ codes "\"]}}}")))))

unfoldable pub permission_for_group :
    Text → Text → Text → Bool → Bool → Bool → Bool → Bool → OdObjectPermission
unfolding group_grantee group_share
permission_for_group project_name project_display_name group_name c r u d s =
    record empty_permission {
      grantee = group_grantee project_display_name group_name;
      acm_share = group_share project_name project_display_name group_name;
      acm_grantee = record empty_grantee {
        grantee = group_grantee project_display_name group_name;
        project_name = to_null_string (to_lower project_name);
        project_display_name = to_null_string project_display_name;
        group_name = to_null_string group_name;
        display_name =
            to_null_string (trim_space (project_display_name ++ (codes " " ++ group_name)));
      };
      allow_create = c;
      allow_read = r;
      allow_update = u;
      allow_delete = d;
      allow_share = s;
    }

-- the switch of createODPermissionFromGroupResource; `split` always gives a part
unfoldable pub group_of_parts : List Text → OdObjectPermission
unfolding permission_for_group
group_of_parts [] = empty_permission
group_of_parts (a ∷ []) = permission_for_group [] [] a false false false false false
group_of_parts (a ∷ b ∷ []) = permission_for_group [] [] b false false false false false
group_of_parts (a ∷ b ∷ c ∷ rest) = permission_for_group a b c false false false false false

module _ (common_name : Text → Text) where
  unfoldable pub permission_without_read : OdObjectPermission → OdObjectPermission
  unfolding permission_for_user permission_for_group
  permission_without_read i =
      let g = i.acm_grantee in
      if g.user_distinguished_name.valid && not (is_empty g.user_distinguished_name.string)
      then permission_for_user common_name g.user_distinguished_name.string i.allow_create false
          i.allow_update i.allow_delete i.allow_share
      else permission_for_group g.project_name.string g.project_display_name.string
          g.group_name.string i.allow_create false i.allow_update i.allow_delete i.allow_share

  -- The pair of the full grant and the read only grant of an owner.
  unfoldable pub permission_for_owner : Text → OdObjectPermission × OdObjectPermission
  unfolding permission_for_user permission_for_group
  permission_for_owner owner =
      let g = new_grantee_from_resource_name owner in
      let dn = g.user_distinguished_name.string in
      let pn = g.project_name.string in
      let pdn = g.project_display_name.string in
      let gn = g.group_name.string in
      if is_empty dn
      then (
        permission_for_group pn pdn gn true true true true true,
        permission_for_group pn pdn gn false true false false false,
      )
      else (
        permission_for_user common_name dn true true true true true,
        permission_for_user common_name dn false true false false false,
      )

  unfoldable pub create_from_user_resource : Text → OdObjectPermission
  unfolding permission_for_user
  create_from_user_resource resource =
      permission_for_user common_name
        (get_or (split b'/' (replace_first (codes "user/") [] resource)) 0 []) false false false
        false false

  unfoldable pub create_permission_from_resource : Text → Result Text OdObjectPermission
  unfolding create_from_user_resource group_of_parts
  create_permission_from_resource resource =
      if has_prefix resource (codes "user/")
      then ok (create_from_user_resource resource)
      else if has_prefix resource (codes "group/")
      then ok (group_of_parts (split b'/' (replace_first (codes "group/") [] resource)))
      else err (codes "unhandled format for resource string")

-- len(permission.ID) == 0
unfoldable pub is_creating : OdObjectPermission → Bool
is_creating p = is_empty p.id
