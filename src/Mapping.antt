-- ===== src/Mapping.antt =====
-- mapping/ODPermissionToPermission.go: permissions of the database as lists of resources, and back, with
-- GetResourceName of metadata/models/ODObjectPermission.go. A Go map from names to permissions is a list of pairs;
-- its values come in the order of that list. sort.Strings is an argument.
pub mod Listed
pub mod Merging
pub mod Merged
use ods.Common.{
  Bool, true, false, not, ◌&&◌, ◌||◌, Option, none, some, List, [], ◌∷◌, ◌++◌, Text, codes, text_eq,
  is_empty, has_prefix, any, map, if◌then◌else◌, ◌==◌, Result, ok, err, ◌>>=◌,
}
use ods.Models.Flatten.{aac_flatten}
use ods.Models.Grantee.{OdAcmGrantee, resource_name}
use ods.Models.Permission.{OdObjectPermission, empty_permission, create_permission_from_resource}
use ods.Access.{everyone_group}
use ods.Access.Capability.{Capability, creating, reading, updating, deleting, sharing, allows}
use ods.Protocol.{PermissionCapability, Permission, consolidated, get_flattened_name_from_resource}

-- s[0:strings.Index(s, `"`)]
unfoldable pub before_quote : Text → Text
before_quote [] = []
before_quote (c ∷ s) = let rest = before_quote s in if c == b'"' then [] else c ∷ rest

-- getResourceNameFromAcmShare. Its calls of strings.Replace are for 0 occurrences, and change nothing.
unfoldable pub name_from_acm_share : Text → Text
unfolding before_quote
name_from_acm_share share =
    if has_prefix share (codes "{\"users\"")
    then codes "user/" ++ share
    else if has_prefix share (codes "{\"projects\"")
    then codes "group/"
      ++ (before_quote share ++ (codes "/" ++ (before_quote share ++ (codes "/" ++ share))))
    else []

-- GetResourceName
unfoldable pub permission_resource_name : OdObjectPermission → Text
unfolding name_from_acm_share
permission_resource_name p =
    if not (is_empty p.acm_grantee.display_name.string)
    then resource_name p.acm_grantee
    else if not (is_empty p.acm_share)
    then name_from_acm_share p.acm_share
    else []

unfoldable pub everyone_permission : List OdObjectPermission → Option OdObjectPermission
everyone_permission [] = none
everyone_permission (p ∷ ps) =
    let rest = everyone_permission ps in
    if text_eq p.grantee (aac_flatten everyone_group) then some p else rest

unfoldable pub everyone_allows : Capability → List OdObjectPermission → Bool
unfolding everyone_permission
everyone_allows c ps = elim (everyone_permission ps) [ none ↦ false | some e ↦ allows c e ]

abbrev pub value_in_string_array : List Text → Text → Bool
value_in_string_array a v = any (text_eq v) a

-- the names of one capability, in the order of the permissions
unfoldable pub collect :
    (OdObjectPermission → Bool) → List OdObjectPermission → List Text → List Text
collect granted [] names = names
collect granted (q ∷ ps) names =
    let name = permission_resource_name q in
    let more =
      if granted q && not (value_in_string_array names name) then names ++ (name ∷ []) else names in
    collect granted ps more

unfoldable pub listed :
    (List Text → List Text) → Capability → List OdObjectPermission → PermissionCapability
unfolding collect
listed sort c ps = record {
  allowed_resources = sort (collect (λ q. allows c q || everyone_allows c ps) ps []);
  denied_resources = [];
}

unfoldable pub map_od_permissions_to_permission :
    (List Text → List Text) → List OdObjectPermission → Permission
unfolding listed
map_od_permissions_to_permission sort ps = record {
  create = listed sort creating ps;
  read = listed sort reading ps;
  update = listed sort updating ps;
  delete = listed sort deleting ps;
  share = listed sort sharing ps;
}

abbrev pub Permissions : Type 0
Permissions = List (Text × OdObjectPermission)

unfoldable pub permission_at : Text → Permissions → Option OdObjectPermission
permission_at k [] = none
permission_at k ((j, p) ∷ m) = let rest = permission_at k m in if text_eq j k then some p else rest

unfoldable pub put_permission : Text → OdObjectPermission → Permissions → Permissions
put_permission k v [] = (k, v) ∷ []
put_permission k v ((j, p) ∷ m) =
    let rest = put_permission k v m in if text_eq j k then (k, v) ∷ m else (j, p) ∷ rest

-- ODObjectPermission{AllowCreate: true} and the like
unfoldable pub giving : Capability → OdObjectPermission
giving creating = record empty_permission { allow_create = true }
giving reading = record empty_permission { allow_read = true }
giving updating = record empty_permission { allow_update = true }
giving deleting = record empty_permission { allow_delete = true }
giving sharing = record empty_permission { allow_share = true }

-- the capabilities of either
abbrev pub joined : OdObjectPermission → OdObjectPermission → OdObjectPermission
joined mapped p = record mapped {
  allow_create = mapped.allow_create || p.allow_create;
  allow_read = mapped.allow_read || p.allow_read;
  allow_update = mapped.allow_update || p.allow_update;
  allow_delete = mapped.allow_delete || p.allow_delete;
  allow_share = mapped.allow_share || p.allow_share;
}

-- the last loop, over the map's entries
unfoldable pub kept : Permissions → List OdObjectPermission
kept [] = []
kept ((k, v) ∷ m) = let rest = kept m in if text_eq v.grantee k then v ∷ rest else rest

-- `common_name` is config.GetCommonName
module _ (common_name : Text → Text) where
  unfoldable pub merge_od_permissions :
      Text → OdObjectPermission → Permissions → Result Text Permissions
  unfolding permission_at put_permission
  merge_od_permissions resource p m =
      let flattened = get_flattened_name_from_resource resource in
      if is_empty flattened then ok m else elim (permission_at flattened m) [
        | some mapped ↦ ok (put_permission flattened (joined mapped p) m)
        | none ↦ create_permission_from_resource common_name resource >>= λ mapped.
            ok (put_permission flattened (joined mapped p) m)
      ]

  -- one of the five loops
  unfoldable pub merge_all : OdObjectPermission → List Text → Permissions → Result Text Permissions
  unfolding merge_od_permissions
  merge_all p [] m = ok m
  merge_all p (r ∷ rs) m = merge_od_permissions r p m >>= λ n. merge_all p rs n

  unfoldable pub map_permission_to_od_permissions :
      Permission → Result Text (List OdObjectPermission)
  unfolding merge_all kept
  map_permission_to_od_permissions permission =
      let i = consolidated permission in
      merge_all (giving creating) i.create.allowed_resources [] >>= λ m.
      merge_all (giving reading) i.read.allowed_resources m >>= λ m.
      merge_all (giving updating) i.update.allowed_resources m >>= λ m.
      merge_all (giving deleting) i.delete.allowed_resources m >>= λ m.
      merge_all (giving sharing) i.share.allowed_resources m >>= λ m. ok (kept m)
