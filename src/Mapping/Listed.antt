-- ===== src/Mapping/Listed.antt =====
-- The resources that MapODPermissionsToPermission (mapping/ODPermissionToPermission.go) lists.
use ods.Common.{
  Bool, true, ◌&&◌, ◌||◌, List, [], ◌∷◌, ◌++◌, Text, text_eq, text_eq_sound, any, ◌≡◌, refl, sym,
  ◌∙◌, subst, arith, Bool-cases, inl, inr,
}
use ods.Models.Permission.{OdObjectPermission}
use ods.Access.Capability.{Capability, creating, reading, updating, deleting, sharing, allows}
use ods.Protocol.{PermissionCapability, Permission}
use ods.Mapping.{
  permission_resource_name, everyone_allows, value_in_string_array, collect, listed,
  map_od_permissions_to_permission,
}

any-append :
    (v : Text) (a b : List Text)
    → value_in_string_array (a ++ b) v ≡ (value_in_string_array a v || value_in_string_array b v)
any-append v [] b = refl
any-append v (s ∷ a) b = let ih = any-append v a b in ground arith

in_one_more :
    (v name : Text) (names : List Text)
    → value_in_string_array (names ++ (name ∷ [])) v
      ≡ (value_in_string_array names v || text_eq v name)
in_one_more v name names = let e = any-append v names (name ∷ []) in ground arith

same_in :
    (v name : Text) (names : List Text)
    → text_eq v name ≡ true
    → value_in_string_array names name ≡ true
    → value_in_string_array names v ≡ true
same_in v name names same here =
    subst (λ x. value_in_string_array names x ≡ true) (sym (text_eq_sound v name same)) here

collect_lem :
    (granted : OdObjectPermission → Bool) (v : Text) (ps : List OdObjectPermission)
    (names : List Text)
    → value_in_string_array (collect granted ps names) v ≡ (
        value_in_string_array names v
        || any (λ q. text_eq v (permission_resource_name q) && granted q) ps)
unfolding collect
collect_lem granted v [] names = ground arith
collect_lem granted v (q ∷ ps) names =
    let name = permission_resource_name q in
    let ih = collect_lem granted v ps (names ++ (name ∷ [])) in
    let ih' = collect_lem granted v ps names in
    let one = in_one_more v name names in
    let same = same_in v name names in
    elim (Bool-cases (granted q)) [
      | inr denied ↦ ground arith
      | inl given ↦ elim (Bool-cases (value_in_string_array names name)) [
        | inr absent ↦ ground arith
        | inl present ↦ elim (Bool-cases (text_eq v name)) [
          | inl is_name ↦ let there = same is_name present in ground arith
          | inr other ↦ ground arith
        ]
      ]
    ]

abbrev pub capability_of : Capability → Permission → PermissionCapability
capability_of creating p = p.create
capability_of reading p = p.read
capability_of updating p = p.update
capability_of deleting p = p.delete
capability_of sharing p = p.share

-- Where sort.Strings keeps what a list holds, MapODPermissionsToPermission lists for each capability exactly
-- the resource names of the permissions that have the capability, or of all of them where the
-- permission of everyone has it.
pub map_od_permissions_to_permission_lem :
    (sort : List Text → List Text) (c : Capability) (v : Text) (ps : List OdObjectPermission)
    → ((names : List Text) → value_in_string_array (sort names) v ≡ value_in_string_array names v)
    → value_in_string_array
        (capability_of c (map_od_permissions_to_permission sort ps)).allowed_resources
        v
      ≡ any (λ q. text_eq v (permission_resource_name q) && (allows c q || everyone_allows c ps)) ps
unfolding map_od_permissions_to_permission listed
map_od_permissions_to_permission_lem sort creating v ps keeps =
    keeps (collect (λ q. allows creating q || everyone_allows creating ps) ps [])
    ∙ collect_lem (λ q. allows creating q || everyone_allows creating ps) v ps []
map_od_permissions_to_permission_lem sort reading v ps keeps =
    keeps (collect (λ q. allows reading q || everyone_allows reading ps) ps [])
    ∙ collect_lem (λ q. allows reading q || everyone_allows reading ps) v ps []
map_od_permissions_to_permission_lem sort updating v ps keeps =
    keeps (collect (λ q. allows updating q || everyone_allows updating ps) ps [])
    ∙ collect_lem (λ q. allows updating q || everyone_allows updating ps) v ps []
map_od_permissions_to_permission_lem sort deleting v ps keeps =
    keeps (collect (λ q. allows deleting q || everyone_allows deleting ps) ps [])
    ∙ collect_lem (λ q. allows deleting q || everyone_allows deleting ps) v ps []
map_od_permissions_to_permission_lem sort sharing v ps keeps =
    keeps (collect (λ q. allows sharing q || everyone_allows sharing ps) ps [])
    ∙ collect_lem (λ q. allows sharing q || everyone_allows sharing ps) v ps []
