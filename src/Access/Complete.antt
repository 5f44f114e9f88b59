-- ===== src/Access/Complete.antt =====
-- Whoever was granted every capability that is required is let in.
use ods.Common.{
  ◌≡◌, refl, sym, ◌∙◌, Bool, true, false, ◌&&◌, ◌||◌, List, [], ◌∷◌, Text, is_empty, arith, inl,
  inr, Bool-cases, All, ◌↔◌,
}
use mathlib.Core.Bool.{false≢true}
use ods.Crypto.{Sha256}
use ods.Models.Permission.{OdObjectPermission, empty_permission}
use ods.Access.{
  Caller, Rollup, eligible, relevant, combine, satisfied, visit_all, is_user_allowed_to,
}
use ods.Access.Capability.{
  Capability, allows, satisfied-Satisfies, satisfied_of, allows-combine, relevant_of, creating,
  reading, updating, deleting, sharing,
}
use ods.Access.Loop.{passed, stopped, went_on, round}
use ods.Access.Sound.{offers, Covered, is_user_allowed_to_sound}

-- A combined permission with no grantee is the initial one, which allows nothing.
abbrev Blank : OdObjectPermission → Type 0
Blank user = is_empty user.grantee ≡ true → (c : Capability) → allows c user ≡ false

abbrev pub Named : OdObjectPermission → Type 0
Named p = is_empty p.grantee ≡ false

combine-Named : (user p : OdObjectPermission) → Named p → Named (combine user p)
unfolding combine
combine-Named user p n = ground arith

combine_grows :
    (c : Capability) (user p : OdObjectPermission)
    → Blank user
    → allows c user ≡ true
    → allows c (combine user p) ≡ true
combine_grows c user p b h = elim (Bool-cases (is_empty user.grantee)) [
  | inl e ↦ absurd (false≢true (sym (b e c) ∙ h))
  | inr e ↦ ground (arith, allows-combine c user p)
]

combine_adds :
    (c : Capability) (user p : OdObjectPermission)
    → allows c p ≡ true
    → allows c (combine user p) ≡ true
combine_adds c user p h = ground (arith, allows-combine c user p)

module _ (H : Sha256) (key : Text) (caller : Caller) (required : OdObjectPermission) where
  keeps_satisfied :
      (user p : OdObjectPermission) (a : Bool)
      → Blank user
      → a ≡ satisfied required user
      → (a || satisfied required (combine user p)) ≡ satisfied required (combine user p)
  keeps_satisfied user p false b e = refl
  keeps_satisfied user p true b e = sym (
      satisfied_of required (combine user p)
        λ c r. combine_grows c user p b (satisfied-Satisfies required user (sym e) c r))

  passed-Covered :
      (user p : OdObjectPermission) (ps : List OdObjectPermission)
      → (eligible H key caller p && relevant required p) ≡ false
      → Covered H key caller required user (p ∷ ps)
      → Covered H key caller required user ps
  passed-Covered user p ps miss h c r = elim (Bool-cases (allows c p)) [
    | inl yes' ↦ ground (arith, h c r, relevant_of c required p r yes')
    | inr no' ↦ ground (arith, h c r)
  ]

  added-Covered :
      (user p : OdObjectPermission) (ps : List OdObjectPermission)
      → Blank user
      → Covered H key caller required user (p ∷ ps)
      → Covered H key caller required (combine user p) ps
  added-Covered user p ps b h c r = elim (Bool-cases (allows c user)) [
    | inl had ↦ ground (arith, combine_grows c user p b had)
    | inr had_not ↦ elim (Bool-cases (allows c p)) [
      | inl adds ↦ ground (arith, combine_adds c user p adds)
      | inr adds_not ↦ ground (arith, h c r)
    ]
  ]

  complete_loop :
      (rollup : Bool) (ps : List OdObjectPermission) (s : Rollup)
      → All Named ps
      → Blank s.user_permission
      → s.authorized_to ≡ satisfied required s.user_permission
      → Covered H key caller required s.user_permission ps
      → (visit_all H key caller required rollup s ps).authorized_to ≡ true
  unfolding visit_all
  complete_loop rollup [] s n b e h =
      e ∙ satisfied_of required s.user_permission λ c r. ground (arith, h c r)
  complete_loop rollup (p ∷ ps) s n b e h = elim (round H key caller required rollup p ps s) [
    | passed miss eq ↦
        rw eq (complete_loop rollup ps s n.1 b e (passed-Covered s.user_permission p ps miss h))
    | stopped el re met eq ↦ rw eq refl
    | went_on el re eq ↦ rw eq (
        complete_loop rollup ps _ n.1
          (λ empty. absurd (false≢true (sym (combine-Named s.user_permission p n.0) ∙ empty)))
          (keeps_satisfied s.user_permission p s.authorized_to b e)
          (added-Covered s.user_permission p ps b h))
  ]

  nothing_at_first : (c : Capability) → allows c empty_permission ≡ false
  nothing_at_first creating = refl
  nothing_at_first reading = refl
  nothing_at_first updating = refl
  nothing_at_first deleting = refl
  nothing_at_first sharing = refl

  unmet_at_first :
      (c : Capability) → allows c required ≡ true → false ≡ satisfied required empty_permission
  unmet_at_first c r = elim (Bool-cases (satisfied required empty_permission)) [
    | inl met ↦
        sym (nothing_at_first c) ∙ satisfied-Satisfies required empty_permission met c r ∙ sym met
    | inr unmet ↦ sym unmet
  ]

  -- isUserAllowedTo lets the caller in exactly when every capability that is required is given by
  -- some permission that counts for the caller (not deleted, matching, with a valid MAC), where
  -- something is required and every permission of the object names its grantee. The answer does
  -- not depend on the order of the permissions, nor on whether the loop rolls up or stops early.
  pub is_user_allowed_to_iff :
      (rollup : Bool) (ps : List OdObjectPermission) (c : Capability)
      → allows c required ≡ true
      → All Named ps
      → ((is_user_allowed_to H key caller ps required rollup).0 ≡ true)
        ↔ ((d : Capability) → allows d required ≡ true → offers H key caller ps d ≡ true)
  unfolding is_user_allowed_to
  is_user_allowed_to_iff rollup ps c r n = (
    λ h d q. is_user_allowed_to_sound H key caller required rollup ps d h q,
    λ h.
        complete_loop rollup ps _ n (λ _. nothing_at_first) (unmet_at_first c r)
          (λ d q. ground (arith, h d q)),
  )
