-- ===== src/Models/Grantee/RoundTrip.antt =====
-- Resource names read back: users always, groups where the project and its display name agree.
use ods.Common.{
  ℕ, ◌≡◌, ◌≢◌, refl, ap, ◌∙◌, Bool, false, List, [], ◌∷◌, ◌++◌, Text, codes, to_lower, has_prefix,
  replace_first, split, join, is_empty, text_eq_iff, get_or, trim_space, any, ◌==◌, arith,
}
use ods.Models.Flatten.{aac_flatten, to_lower-append}
use ods.Models.Grantee.{
  new_grantee_from_resource_name, new_grantee_from_user_resource, new_grantee_from_group_resource,
  resource_name, resource_parts, group_parts, name_group,
}

abbrev slash : ℕ
slash = b'/'

abbrev has_slash : Text → Bool
has_slash = any (λ c. c == b'/')

pub split-none : (s : Text) → has_slash s ≡ false → split slash s ≡ s ∷ []
unfolding split
split-none [] h = refl
split-none (c ∷ s) h = ground (arith, split-none s)

pub split-append :
    (s t : Text) → has_slash s ≡ false → split slash (s ++ b'/' ∷ t) ≡ s ∷ split slash t
unfolding split
split-append [] t h = refl
split-append (c ∷ s) t h = ground (arith, split-append s t)

module _ (dn : Text) (flat : has_slash dn ≡ false) where
  user_parts : split slash (replace_first (codes "user/") [] (codes "user/" ++ dn)) ≡ dn ∷ []
  unfolding replace_first
  user_parts = split-none dn flat

  -- The name of a user, where the DN has no slash, reads back as that user: the DN as it stands,
  -- its flattened form as the grantee, and the resource name that was read, provided that the DN
  -- and the display name found in it are not empty.
  pub user_round_trip :
      is_empty dn ≡ false
      → is_empty (new_grantee_from_resource_name (codes "user/" ++ dn)).display_name.string ≡ false
      → let g = new_grantee_from_resource_name (codes "user/" ++ dn) in
        (g.user_distinguished_name.string ≡ dn)
        × (g.grantee ≡ aac_flatten dn)
        × (resource_name g ≡ codes "user/" ++ dn)
  unfolding new_grantee_from_resource_name new_grantee_from_user_resource resource_name has_prefix
      join
  user_round_trip nonempty shown = (
    ap first user_parts,
    ap (λ ps. aac_flatten (first ps)) user_parts,
    ground (arith, user_parts),
  )
    where
      first : List Text → Text
      first ps = get_or ps 0 []

module _ (p d g : Text) (flat_p : has_slash p ≡ false) (flat_d : has_slash d ≡ false)
    (flat_g : has_slash g ≡ false) (low_p : to_lower p ≡ p) (low_d : to_lower d ≡ d)
    (low_g : to_lower g ≡ g) where
  abbrev group_text : Text
  group_text = p ++ (b'/' ∷ (d ++ (b'/' ∷ g)))

  group_text_lower : to_lower group_text ≡ group_text
  unfolding to_lower
  group_text_lower =
      to_lower-append p (b'/' ∷ (d ++ (b'/' ∷ g)))
      ∙ cc (low_p, low_d, low_g, to_lower-append d (b'/' ∷ g))

  three_parts : split slash group_text ≡ p ∷ d ∷ g ∷ []
  three_parts =
      split-append p (d ++ (b'/' ∷ g)) flat_p
      ∙ ap (λ r. p ∷ r) (split-append d g flat_d ∙ ap (λ r. d ∷ r) (split-none g flat_g))

  group_read :
      new_grantee_from_resource_name (codes "group/" ++ group_text)
      ≡ name_group (group_parts (p ∷ d ∷ g ∷ []))
  unfolding new_grantee_from_resource_name new_grantee_from_group_resource has_prefix to_lower
      replace_first
  group_read =
      ap (λ s. name_group (group_parts (split slash s))) group_text_lower
      ∙ ap (λ ps. name_group (group_parts ps)) three_parts

  -- A group's three part name, of lower case parts with no slash that are not empty, reads back with
  -- its three parts and prints as the name that was read, where the project and its display name
  -- flatten alike and the display name that is built from them is not blank.
  pub group_round_trip :
      aac_flatten p ≡ aac_flatten d
      → is_empty p ≡ false
      → is_empty d ≡ false
      → is_empty g ≡ false
      → is_empty (trim_space (d ++ (codes " " ++ g))) ≡ false
      → let r = new_grantee_from_resource_name (codes "group/" ++ group_text) in
        (r.project_name.string ≡ p)
        × (r.project_display_name.string ≡ d)
        × (r.group_name.string ≡ g)
        × (resource_name r ≡ codes "group/" ++ group_text)
  unfolding resource_name new_grantee_from_group_resource resource_parts join
  group_round_trip alike np nd ng shown =
      rw group_read (ground (arith, text_eq_iff (aac_flatten p) (aac_flatten d)))

  -- A three part name of lower case parts with no slash, whose project and display name flatten
  -- differently, is read with the second part as the group and the first as the project's display
  -- name: the third part, which names the group in what ResourceName prints, is lost.
  pub group_name_confused :
      aac_flatten p ≢ aac_flatten d
      → let r = new_grantee_from_resource_name (codes "group/" ++ group_text) in
        (r.group_name.string ≡ d) × (r.project_display_name.string ≡ p)
  unfolding new_grantee_from_group_resource
  group_name_confused differ =
      rw group_read (ground (arith, text_eq_iff (aac_flatten p) (aac_flatten d)))
