-- ===== src/Tests/Resources.antt =====
-- A permission with a resource listed twice and one both allowed and denied.
use ods.Common.{[], ◌∷◌, codes, ◌≡◌, refl, text_eq}
use ods.Access.{Caller}
use ods.Protocol.{
  Permission, PermissionCapability, consolidated, remove_duplicates, with_rolled_up, put, put_all,
  flagged,
}
use ods.Protocol.Consolidate.{consolidated_keeps_access}

abbrev caller : Caller
caller = record { distinguished_name = codes "cn=ann,c=us"; groups = codes "dctc_odrive" ∷ [] }

abbrev nobody : PermissionCapability
nobody = record { allowed_resources = []; denied_resources = [] }

abbrev mixed : PermissionCapability
mixed = record {
  allowed_resources =
      codes "user/cn=ann,c=us" ∷ codes "group/a/b/c" ∷ codes "user/cn=ann,c=us" ∷ [];
  denied_resources = codes "group/a/b/c" ∷ [];
}

abbrev permission : Permission
permission = record {
  create = nobody;
  read = mixed;
  update = nobody;
  delete = nobody;
  share = mixed;
}

once : remove_duplicates mixed ≡ record {
  allowed_resources = codes "user/cn=ann,c=us" ∷ [];
  denied_resources = codes "group/a/b/c" ∷ [];
}
unfolding remove_duplicates put put_all flagged text_eq
once = refl

consolidated_keeps_access_example :
    with_rolled_up caller (consolidated permission) ≡ with_rolled_up caller permission
consolidated_keeps_access_example = consolidated_keeps_access caller permission
