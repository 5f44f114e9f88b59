-- ===== src/Protocol/Consolidate.antt =====
-- Consolidating a permission does not change what it allows.
use ods.Common.{
  Bool, true, false, ◌||◌, List, [], ◌∷◌, Text, text_eq, text_eq_sound, any, ◌≡◌, refl, ap, ◌∙◌,
  arith, Bool-cases, inl, inr,
}
use ods.Access.{Caller}
use ods.Protocol.{
  PermissionCapability, Permission, Flags, put, put_all, flagged, remove_duplicates, consolidated,
  is_resource_of, is_in_resources, allowed, with_rolled_up,
}

module _ (p : Text → Bool) where
  any-put-true : (k : Text) (m : Flags) → any p (flagged (put k true m)) ≡ p k || any p (flagged m)
  unfolding put flagged
  any-put-true k [] = refl
  any-put-true k ((j, true) ∷ m) = elim (Bool-cases (text_eq j k)) [
    | inl same ↦ let e = ap p (text_eq_sound j k same) in ground arith
    | inr other ↦ let r = any-put-true k m in ground arith
  ]
  any-put-true k ((j, false) ∷ m) = elim (Bool-cases (text_eq j k)) [
    | inl same ↦ ground arith
    | inr other ↦ let r = any-put-true k m in ground arith
  ]

  any-put-false :
      (k : Text) (m : Flags) → p k ≡ false → any p (flagged (put k false m)) ≡ any p (flagged m)
  unfolding put flagged
  any-put-false k [] h = refl
  any-put-false k ((j, true) ∷ m) h = elim (Bool-cases (text_eq j k)) [
    | inl same ↦ let e = ap p (text_eq_sound j k same) in ground arith
    | inr other ↦ let r = any-put-false k m h in ground arith
  ]
  any-put-false k ((j, false) ∷ m) h = elim (Bool-cases (text_eq j k)) [
    | inl same ↦ ground arith
    | inr other ↦ let r = any-put-false k m h in ground arith
  ]

  pub any-put_all-true :
      (ks : List Text) (m : Flags)
      → any p (flagged (put_all true ks m)) ≡ any p ks || any p (flagged m)
  unfolding put_all
  any-put_all-true [] m = refl
  any-put_all-true (k ∷ ks) m =
      let r = any-put_all-true ks (put k true m) in let s = any-put-true k m in ground arith

  pub any-put_all-false :
      (ks : List Text) (m : Flags)
      → any p ks ≡ false
      → any p (flagged (put_all false ks m)) ≡ any p (flagged m)
  unfolding put_all
  any-put_all-false [] m h = refl
  any-put_all-false (k ∷ ks) m h =
      let r = any-put_all-false ks (put k false m) (ground arith) in
      let s = any-put-false k m (ground arith) in r ∙ s

-- The duplicates of a capability, and the resources that it both allows and denies, can go.
allowed-remove_duplicates :
    (caller : Caller) (c : PermissionCapability)
    → allowed caller (remove_duplicates c) ≡ allowed caller c
unfolding allowed is_in_resources remove_duplicates flagged
allowed-remove_duplicates caller c =
    let p = is_resource_of caller in
    let denied = any-put_all-true p c.denied_resources [] in
    let granted = any-put_all-true p c.allowed_resources [] in
    elim (Bool-cases (any p c.denied_resources)) [
      | inl deny ↦ ground arith
      | inr free ↦
          let dropped =
            any-put_all-false p c.denied_resources (put_all true c.allowed_resources []) free in
          ground arith
    ]

-- Consolidated changes no capability that WithRolledUp gives any caller.
pub consolidated_keeps_access :
    (caller : Caller) (permission : Permission)
    → with_rolled_up caller (consolidated permission) ≡ with_rolled_up caller permission
unfolding with_rolled_up consolidated
consolidated_keeps_access caller permission =
    rw
      (
        allowed-remove_duplicates caller permission.create,
        allowed-remove_duplicates caller permission.read,
        allowed-remove_duplicates caller permission.update,
        allowed-remove_duplicates caller permission.delete,
        allowed-remove_duplicates caller permission.share,
      )
      refl
