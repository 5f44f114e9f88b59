-- ===== src/Access/Match.antt =====
-- The tests of a grantee: comparing without case adds nothing to comparing flattened names.
use ods.Common.{
  ◌≡◌, refl, sym, ap, ◌∙◌, true, ◌||◌, List, [], ◌∷◌, Text, to_lower, text_eq_iff, any, arith, All,
}
use ods.Crypto.{IsBytes}
use ods.Models.Flatten.{aac_flatten, aac_flatten-to_lower}
use ods.Models.Permission.{OdObjectPermission}
use ods.Access.{Caller, grantee_match, same_fold, same_flat, everyone_group}

same_flat_of_fold :
    (a b : Text) → IsBytes a → IsBytes b → same_fold a b ≡ true → same_flat a b ≡ true
same_flat_of_fold a b ba bb h = (text_eq_iff (aac_flatten a) (aac_flatten b)).1 (
    sym (aac_flatten-to_lower a ba)
    ∙ (ap aac_flatten ((text_eq_iff (to_lower a) (to_lower b)).0 h) ∙ aac_flatten-to_lower b bb))

any_flat :
    (g : Text) (groups : List Text)
    → IsBytes g
    → All IsBytes groups
    → any (λ group. same_flat g group || same_fold g group) groups ≡ any (same_flat g) groups
any_flat g [] bg bs = refl
any_flat g (x ∷ xs) bg bs = ground (arith, same_flat_of_fold g x bg bs.0, any_flat g xs bg bs.1)

-- A permission applies to the caller exactly when its grantee flattens like the caller's
-- distinguished name, like the everyone group or like one of the caller's groups, or its group is
-- the everyone group up to case: for names made of bytes.
pub grantee_match_lem :
    (caller : Caller) (p : OdObjectPermission)
    → IsBytes p.grantee
    → IsBytes caller.distinguished_name
    → All IsBytes caller.groups
    → grantee_match caller p ≡ (
        same_flat p.grantee caller.distinguished_name
        || (same_flat p.grantee everyone_group
            || (same_fold p.acm_grantee.group_name.string everyone_group
                || any (same_flat p.grantee) caller.groups)))
unfolding grantee_match
grantee_match_lem caller p bg bd bs = ground (
  arith,
  same_flat_of_fold p.grantee caller.distinguished_name bg bd,
  any_flat p.grantee caller.groups bg bs,
)
