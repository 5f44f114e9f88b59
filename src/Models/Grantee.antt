-- ===== src/Models/Grantee.antt =====
-- metadata/models/OdAcmGrantee.go and NullString.go: a grantee and its resource name.
pub mod RoundTrip
use ods.Common.{
  ℕ, ◌≡◌, Bool, true, false, not, ◌&&◌, List, [], ◌∷◌, ◌++◌, Text, codes, to_lower, has_prefix,
  replace_first, split, join, trim_space, is_empty, text_eq, length, ltb, get_or, if◌then◌else◌,
}
use ods.Models.Flatten.{aac_flatten}

pub record NullString : Type 0 where
  pub string : Text
  pub valid : Bool

unfoldable pub to_null_string : Text → NullString
to_null_string s = record { string = s; valid = not (is_empty s) }

-- the zero value
abbrev pub null_string : NullString
null_string = record { string = []; valid = false }

pub record OdAcmGrantee : Type 0 where
  pub grantee : Text
  pub resource_string : NullString
  pub project_name : NullString
  pub project_display_name : NullString
  pub group_name : NullString
  pub user_distinguished_name : NullString
  pub display_name : NullString

abbrev pub empty_grantee : OdAcmGrantee
empty_grantee = record {
  grantee = [];
  resource_string = null_string;
  project_name = null_string;
  project_display_name = null_string;
  group_name = null_string;
  user_distinguished_name = null_string;
  display_name = null_string;
}

project_parts : OdAcmGrantee → List Text
project_parts g =
    if is_empty g.project_name.string
    then []
    else if is_empty g.project_display_name.string
    then g.project_name.string ∷ g.project_name.string ∷ []
    else g.project_name.string ∷ g.project_display_name.string ∷ []

-- the parts that getResourceName joins, before the display name
resource_parts : OdAcmGrantee → List Text
unfolding project_parts
resource_parts g =
    if not (is_empty g.user_distinguished_name.string)
    then codes "user" ∷ g.user_distinguished_name.string ∷ []
    else if not (is_empty g.group_name.string)
    then codes "group" ∷ (project_parts g ++ g.group_name.string ∷ [])
    else codes "unknown" ∷ []

unfoldable pub get_resource_name : Bool → OdAcmGrantee → Text
unfolding resource_parts
get_resource_name with_display g =
    if is_empty g.display_name.string
    then []
    else join (codes "/")
        (resource_parts g ++ (if with_display then g.display_name.string ∷ [] else []))

unfoldable pub resource_name : OdAcmGrantee → Text
unfolding get_resource_name
resource_name = get_resource_name false

-- the display name that the last `cn=` part of a distinguished name gives
cn_display : NullString → List Text → NullString
cn_display shown [] = shown
cn_display shown (dnpart ∷ rest) =
    let dnkv = split b'=' dnpart in
    cn_display
      (if ltb 1 (length dnkv) && text_eq (get_or dnkv 0 []) (codes "cn")
        then to_null_string (get_or dnkv 1 [])
        else shown)
      rest

unfoldable pub new_grantee_from_user_resource : Text → OdAcmGrantee
unfolding cn_display to_null_string
new_grantee_from_user_resource resource =
    let parts = split b'/' (replace_first (codes "user/") [] resource) in
    let dn = get_or parts 0 [] in
    record empty_grantee {
      user_distinguished_name = to_null_string dn;
      grantee = aac_flatten dn;
      display_name =
          (if ltb 1 (length parts)
            then to_null_string (get_or parts 1 [])
            else cn_display (to_null_string dn) (split b',' dn));
    }

-- The switch on the number of parts. `split` always gives at least one.
group_parts : List Text → OdAcmGrantee
group_parts [] = empty_grantee
group_parts (a ∷ []) = record empty_grantee { group_name = to_null_string a }
group_parts (a ∷ b ∷ []) =
    if text_eq (aac_flatten a) (aac_flatten b)
    then record empty_grantee { group_name = to_null_string b }
    else record empty_grantee {
      group_name = to_null_string b;
      project_name = to_null_string a;
      project_display_name = to_null_string a;
    }
group_parts (a ∷ b ∷ c ∷ []) =
    if text_eq (aac_flatten a) (aac_flatten b)
    then record empty_grantee {
      project_name = to_null_string a;
      project_display_name = to_null_string b;
      group_name = to_null_string c;
    }
    else record empty_grantee {
      project_name = to_null_string a;
      project_display_name = to_null_string a;
      group_name = to_null_string b;
    }
group_parts (a ∷ b ∷ c ∷ d ∷ rest) = record empty_grantee {
  project_name = to_null_string a;
  project_display_name = to_null_string b;
  group_name = to_null_string c;
}

-- the grantee and the display name that the code derives at the end
name_group : OdAcmGrantee → OdAcmGrantee
name_group g =
    if is_empty g.project_display_name.string
    then record g {
      grantee = aac_flatten g.group_name.string;
      display_name = to_null_string g.group_name.string;
    }
    else record g {
      grantee =
          aac_flatten
            (trim_space (g.project_display_name.string ++ (codes "_" ++ g.group_name.string)));
      display_name =
          to_null_string
            (trim_space (g.project_display_name.string ++ (codes " " ++ g.group_name.string)));
    }

unfoldable pub new_grantee_from_group_resource : Text → OdAcmGrantee
unfolding group_parts name_group to_null_string
new_grantee_from_group_resource resource =
    name_group (group_parts (split b'/' (replace_first (codes "group/") [] (to_lower resource))))

unfoldable pub new_grantee_from_resource_name : Text → OdAcmGrantee
new_grantee_from_resource_name name =
    if has_prefix name (codes "user/")
    then new_grantee_from_user_resource name
    else if has_prefix name (codes "group/")
    then new_grantee_from_group_resource name
    else empty_grantee
