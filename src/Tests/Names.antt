-- ===== src/Tests/Names.antt =====
-- Flattened names, resource names.
use ods.Common.{
  ◌≡◌, refl, true, ◌++◌, codes, to_lower, trim_space, all, has_prefix, split, replace_first,
  text_eq, arith,
}
use ods.Models.Flatten.{aac_flatten, aac_flatten_canonical, flat_byte}
use ods.Models.Grantee.{
  new_grantee_from_resource_name, new_grantee_from_user_resource, resource_name,
}
use ods.Models.Grantee.RoundTrip.{user_round_trip, group_round_trip}

flattened : aac_flatten (codes "CN=Test Tester10,OU=x-y") ≡ codes "cntesttester10oux_y"
unfolding aac_flatten
flattened = refl

aac_flatten_canonical_example :
    let s = codes "A.b-C" in
    (aac_flatten (aac_flatten s) ≡ aac_flatten s)
    × (all flat_byte (aac_flatten s) ≡ true)
    × (aac_flatten (to_lower s) ≡ aac_flatten s)
aac_flatten_canonical_example = aac_flatten_canonical (codes "A.b-C") (omega arith)

user_round_trip_example :
    let g = new_grantee_from_resource_name (codes "user/" ++ codes "cn=bob,o=us") in
    (g.user_distinguished_name.string ≡ codes "cn=bob,o=us")
    × (g.grantee ≡ aac_flatten (codes "cn=bob,o=us"))
    × (resource_name g ≡ codes "user/" ++ codes "cn=bob,o=us")
unfolding new_grantee_from_resource_name new_grantee_from_user_resource has_prefix split
    replace_first text_eq
user_round_trip_example = user_round_trip (codes "cn=bob,o=us") refl refl refl

group_round_trip_example :
    let r = new_grantee_from_resource_name (codes "group/" ++ codes "dctc/dctc/odrive") in
    (r.project_name.string ≡ codes "dctc")
    × (r.project_display_name.string ≡ codes "dctc")
    × (r.group_name.string ≡ codes "odrive")
    × (resource_name r ≡ codes "group/" ++ codes "dctc/dctc/odrive")
unfolding to_lower trim_space
group_round_trip_example =
    group_round_trip (codes "dctc") (codes "dctc") (codes "odrive") refl refl refl refl refl refl
      refl refl refl refl refl
