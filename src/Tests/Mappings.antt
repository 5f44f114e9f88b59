-- ===== src/Tests/Mappings.antt =====
-- The permissions of a user, of everyone and of a group, as resources and back.
use ods.Common.{
  true, false, ◌&&◌, ◌||◌, List, [], ◌∷◌, Text, codes, text_eq, any, All, ok, ◌≡◌, refl,
  replace_first, has_prefix, split, trim_space,
}
use ods.Models.Flatten.{aac_flatten}
use ods.Models.Permission.{
  OdObjectPermission, permission_for_user, permission_for_group, create_permission_from_resource,
}
use ods.Access.{everyone_group}
use ods.Access.Capability.{reading, updating, allows}
use ods.Protocol.{
  PermissionCapability, Permission, consolidated, remove_duplicates, flagged, put_all, put,
  get_flattened_name_from_resource,
}
use ods.Mapping.{
  giving, permission_resource_name, everyone_allows, value_in_string_array,
  map_od_permissions_to_permission, map_permission_to_od_permissions,
}
use ods.Mapping.Listed.{capability_of, map_od_permissions_to_permission_lem}
use ods.Mapping.Merged.{map_permission_to_od_permissions_lem}

abbrev name_itself : Text → Text
name_itself = λ s. s

abbrev bob : OdObjectPermission
bob = permission_for_user name_itself (codes "cn=bob") false true true false false

abbrev everyone : OdObjectPermission
everyone = permission_for_group [] [] everyone_group false true false false false

map_od_permissions_to_permission_lem_example :
    value_in_string_array
      (capability_of updating
        (map_od_permissions_to_permission (λ names. names) (bob ∷ everyone ∷ []))).allowed_resources
      (codes "user/cn=bob")
    ≡ any
        (λ q.
          text_eq (codes "user/cn=bob") (permission_resource_name q)
          && (allows updating q || everyone_allows updating (bob ∷ everyone ∷ [])))
        (bob ∷ everyone ∷ [])
map_od_permissions_to_permission_lem_example =
    map_od_permissions_to_permission_lem (λ names. names) updating (codes "user/cn=bob")
      (bob ∷ everyone ∷ []) (λ names. refl)

abbrev nobody : PermissionCapability
nobody = record { allowed_resources = []; denied_resources = [] }

abbrev by_bob : Permission
by_bob = record {
  create = nobody;
  read = record { allowed_resources = codes "user/cn=bob" ∷ []; denied_resources = [] };
  update = record { allowed_resources = codes "user/cn=bob" ∷ []; denied_resources = [] };
  delete = nobody;
  share = nobody;
}

abbrev bobs : List OdObjectPermission
bobs = bob ∷ []

by_bob_mapped : map_permission_to_od_permissions name_itself by_bob ≡ ok bobs
unfolding map_permission_to_od_permissions text_eq consolidated remove_duplicates flagged put_all
    put get_flattened_name_from_resource has_prefix aac_flatten split replace_first
    create_permission_from_resource giving
by_bob_mapped = refl

map_permission_to_od_permissions_lem_example :
    All
      (λ v.
        allows reading v
        ≡ any
            (λ r. text_eq (get_flattened_name_from_resource r) v.grantee)
            (capability_of reading (consolidated by_bob)).allowed_resources)
      bobs
map_permission_to_od_permissions_lem_example =
    map_permission_to_od_permissions_lem name_itself by_bob bobs reading by_bob_mapped

-- The grantee of a group goes by its project's display name, the flattened resource by the project's name.
abbrev by_group : Permission
by_group = record by_bob {
  read = record {
    allowed_resources = codes "group/dctc/Project One/odrive" ∷ [];
    denied_resources = [];
  };
  update = nobody;
}

by_group_dropped : map_permission_to_od_permissions name_itself by_group ≡ ok []
unfolding map_permission_to_od_permissions text_eq consolidated remove_duplicates flagged put_all
    put get_flattened_name_from_resource has_prefix aac_flatten split replace_first
    create_permission_from_resource trim_space
by_group_dropped = refl
