-- ===== src/Access/Sound.antt =====
-- Whoever is let in was granted every capability that is required.
use ods.Common.{
  ◌≡◌, refl, sym, ap, ◌∙◌, Bool, true, false, ◌&&◌, ◌||◌, List, [], ◌∷◌, Text, any, arith, inl, inr,
  Bool-cases,
}
use mathlib.Core.Bool.{false≢true}
use ods.Crypto.{Sha256}
use ods.Models.Permission.{OdObjectPermission, empty_permission}
use ods.Access.{Caller, Rollup, eligible, combine, satisfied, visit_all, is_user_allowed_to}
use ods.Access.Capability.{
  Capability, allows, satisfied-Satisfies, allows-combine, creating, reading, updating, deleting,
  sharing,
}
use ods.Access.Loop.{passed, stopped, went_on, round}

module _ (H : Sha256) (key : Text) (caller : Caller) where
  -- Some permission that counts for the caller (it is not deleted, its grantee matches, and its MAC
  -- is valid) gives the capability.
  abbrev pub offers : List OdObjectPermission → Capability → Bool
  offers ps c = any (λ p. eligible H key caller p && allows c p) ps

  abbrev pub Covered : OdObjectPermission → OdObjectPermission → List OdObjectPermission → Type 0
  Covered required user ps =
      (c : Capability) → allows c required ≡ true → (allows c user || offers ps c) ≡ true

  -- What the combined permission allows comes from before or from the permission just added.
  combined_from :
      (c : Capability) (user p : OdObjectPermission) (rest : Bool)
      → eligible H key caller p ≡ true
      → (allows c (combine user p) || rest) ≡ true
      → (allows c user || ((eligible H key caller p && allows c p) || rest)) ≡ true
  combined_from c user p rest e h = ground (arith, allows-combine c user p)

  module _ (required : OdObjectPermission) (rollup : Bool) where
    sound_loop :
        (ps : List OdObjectPermission) (s : Rollup)
        → s.authorized_to ≡ false
        → (visit_all H key caller required rollup s ps).authorized_to ≡ true
        → Covered required s.user_permission ps
    unfolding visit_all
    sound_loop [] s no_yet h = absurd (false≢true (sym no_yet ∙ h))
    sound_loop (p ∷ ps) s no_yet h = elim (round H key caller required rollup p ps s) [
      | passed miss e ↦ λ c r.
          ground
            (arith, sound_loop ps s no_yet (ap (λ (t : Rollup). t.authorized_to) (sym e) ∙ h) c r)
      | stopped el re met e ↦ λ c r. combined_from c s.user_permission p (offers ps c) el (
          ground
            (arith, satisfied-Satisfies required (combine s.user_permission p) (ground arith) c r))
      | went_on el re e ↦ elim (Bool-cases (satisfied required (combine s.user_permission p))) [
        | inl met ↦ λ c r.
            combined_from c s.user_permission p (offers ps c) el
              (ground (arith, satisfied-Satisfies required (combine s.user_permission p) met c r))
        | inr unmet ↦ λ c r.
            combined_from c s.user_permission p (offers ps c) el (
              sound_loop ps _ (ground arith) (ap (λ (t : Rollup). t.authorized_to) (sym e) ∙ h) c r)
      ]
    ]

    -- Whoever isUserAllowedTo lets in has, for every capability that is required, a permission among
    -- the object's that gives it and counts: one that is not deleted, whose grantee matches the
    -- caller, and whose MAC is valid under the master key.
    pub is_user_allowed_to_sound :
        (ps : List OdObjectPermission) (c : Capability)
        → (is_user_allowed_to H key caller ps required rollup).0 ≡ true
        → allows c required ≡ true
        → offers ps c ≡ true
    unfolding is_user_allowed_to
    is_user_allowed_to_sound ps c h r =
        let covered : (allows c empty_permission || offers ps c) ≡ true =
          sound_loop ps (record { authorized_to = false; user_permission = empty_permission }) refl
            h c r in
        none_at_first c (offers ps c) covered
      where
        none_at_first :
            (c : Capability) (b : Bool) → (allows c empty_permission || b) ≡ true → b ≡ true
        none_at_first creating b h = h
        none_at_first reading b h = h
        none_at_first updating b h = h
        none_at_first deleting b h = h
        none_at_first sharing b h = h
