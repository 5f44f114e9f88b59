-- ===== src/Protocol.antt =====
-- protocol/Permission.go and protocol/CallerPermission.go: permissions as lists of resources, and
-- what they allow a caller, whose groups stand in protocol/Caller.go. A Go map from a resource to a
-- flag is a list of pairs; its keys come in the order of that list.
pub mod Consolidate
pub mod Duplicates
use ods.Common.{
  Bool, true, false, not, ◌&&◌, ◌||◌, List, [], ◌∷◌, ◌++◌, Text, codes, text_eq, is_empty,
  has_prefix, replace_first, split, any, if◌then◌else◌, get_or,
}
use ods.Models.Flatten.{aac_flatten}
use ods.Access.{Caller, everyone_group, same_flat}

pub record PermissionCapability : Type 0 where
  pub allowed_resources : List Text
  pub denied_resources : List Text

pub record Permission : Type 0 where
  pub create : PermissionCapability
  pub read : PermissionCapability
  pub update : PermissionCapability
  pub delete : PermissionCapability
  pub share : PermissionCapability

abbrev pub Flags : Type 0
Flags = List (Text × Bool)

-- m[k] = v
unfoldable pub put : Text → Bool → Flags → Flags
put k v [] = (k, v) ∷ []
put k v ((j, w) ∷ m) = let rest = put k v m in if text_eq j k then (k, v) ∷ m else (j, w) ∷ rest

unfoldable pub put_all : Bool → List Text → Flags → Flags
put_all v [] m = m
put_all v (k ∷ ks) m = put_all v ks (put k v m)

-- the keys whose flag is set
unfoldable pub flagged : Flags → List Text
flagged [] = []
flagged ((k, true) ∷ m) = k ∷ flagged m
flagged ((k, false) ∷ m) = flagged m

unfoldable pub remove_duplicates : PermissionCapability → PermissionCapability
remove_duplicates capability = record {
  allowed_resources =
      flagged
        (put_all false capability.denied_resources (put_all true capability.allowed_resources []));
  denied_resources = flagged (put_all true capability.denied_resources []);
}

unfoldable pub consolidated : Permission → Permission
consolidated permission = record {
  create = remove_duplicates permission.create;
  read = remove_duplicates permission.read;
  update = remove_duplicates permission.update;
  delete = remove_duplicates permission.delete;
  share = remove_duplicates permission.share;
}

-- the first piece of a name, once its prefix is replaced by nothing
first_piece : Text → Text → Text
first_piece prefix resource =
    aac_flatten (get_or (split b'/' (replace_first prefix [] resource)) 0 [])

group_of : List Text → Text
group_of (g ∷ []) = aac_flatten g
group_of (g ∷ d ∷ []) = aac_flatten g
group_of (p ∷ d ∷ g ∷ []) = aac_flatten (p ++ (codes "_" ++ g))
group_of (p ∷ d ∷ g ∷ h ∷ []) = aac_flatten (p ++ (codes "_" ++ g))
group_of pieces = []

unfoldable pub get_flattened_group_from_resource : Text → Text
unfolding group_of
get_flattened_group_from_resource resource =
    group_of (split b'/' (replace_first (codes "group/") [] resource))

unfoldable pub get_flattened_name_from_resource : Text → Text
unfolding first_piece get_flattened_group_from_resource
get_flattened_name_from_resource resource =
    if is_empty resource
    then []
    else if has_prefix resource (codes "user/")
    then first_piece (codes "user/") resource
    else if has_prefix resource (codes "group/")
    then get_flattened_group_from_resource resource
    else if has_prefix resource (codes "unknown/")
    then first_piece (codes "unknown/") resource
    else aac_flatten resource

unfoldable pub in_group : Caller → Text → Bool
in_group caller group = any (same_flat group) caller.groups

unfoldable pub is_resource_of : Caller → Text → Bool
unfolding in_group
is_resource_of caller resource =
    let flattened = get_flattened_name_from_resource resource in
    text_eq flattened (aac_flatten caller.distinguished_name)
    || (text_eq flattened (aac_flatten everyone_group) || in_group caller flattened)

unfoldable pub is_in_resources : Caller → List Text → Bool
is_in_resources caller resources = any (is_resource_of caller) resources

pub record CallerPermission : Type 0 where
  pub allow_create : Bool
  pub allow_read : Bool
  pub allow_update : Bool
  pub allow_delete : Bool
  pub allow_share : Bool

unfoldable pub allowed : Caller → PermissionCapability → Bool
allowed caller capability =
    is_in_resources caller capability.allowed_resources
    && not (is_in_resources caller capability.denied_resources)

unfoldable pub with_rolled_up : Caller → Permission → CallerPermission
with_rolled_up caller permission = record {
  allow_create = allowed caller permission.create;
  allow_read = allowed caller permission.read;
  allow_update = allowed caller permission.update;
  allow_delete = allowed caller permission.delete;
  allow_share = allowed caller permission.share;
}
