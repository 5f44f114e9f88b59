-- ===== src/Access/FileKey.antt =====
-- The permission that comes back with a positive answer unwraps to the file's key.
use ods.Common.{
  ℕ, ◌≡◌, sym, Bool, true, false, List, [], ◌∷◌, Text, some, is_empty, inl, inr, Bool-cases, All,
  text_eq_self,
}
use mathlib.Core.Bool.{false≢true}
use ods.Crypto.{Sha256}
use ods.Models.Permission.{
  OdObjectPermission, empty_permission, equals_permission_mac, calculate_permission_mac,
}
use ods.Models.Permission.Keys.{file_key}
use ods.Access.{Caller, Rollup, eligible, combine, visit_all, is_user_allowed_to}
use ods.Access.Loop.{passed, stopped, went_on, round}

module _ (H : Sha256) (key : Text) (caller : Caller) (k : List ℕ) where
  abbrev Unwraps : OdObjectPermission → Type 0
  Unwraps p = file_key H key p ≡ some k

  -- The permissions that count for the caller wrap one key.
  abbrev pub OneKey : List OdObjectPermission → Type 0
  OneKey = All (λ p. eligible H key caller p ≡ true → Unwraps p)

  record Carries (s : Rollup) : Type 0 where
    once_let_in : s.authorized_to ≡ true → Unwraps s.user_permission
    once_named : is_empty s.user_permission.grantee ≡ false → Unwraps s.user_permission

  combine-Unwraps :
      (user p : OdObjectPermission)
      → (is_empty user.grantee ≡ false → Unwraps user)
      → Unwraps p
      → Unwraps (combine user p)
  unfolding combine
  combine-Unwraps user p h u = elim (Bool-cases (is_empty user.grantee)) [
    | inl e ↦ rw (e, combine) u
    | inr e ↦ rw (e, combine) (h e)
  ]

  Carries-loop :
      (required : OdObjectPermission) (rollup : Bool) (ps : List OdObjectPermission) (s : Rollup)
      → OneKey ps
      → Carries s
      → Carries (visit_all H key caller required rollup s ps)
  unfolding visit_all
  Carries-loop required rollup [] s one c = c
  Carries-loop required rollup (p ∷ ps) s one c = elim (round H key caller required rollup p ps s) [
    | passed miss eq ↦ rw eq (Carries-loop required rollup ps s one.1 c)
    | stopped el re met eq ↦
        let u : Unwraps (combine s.user_permission p) =
          combine-Unwraps s.user_permission p c.once_named (one.0 el) in
        rw eq (record { once_let_in = λ _. u; once_named = λ _. u })
    | went_on el re eq ↦
        let u : Unwraps (combine s.user_permission p) =
          combine-Unwraps s.user_permission p c.once_named (one.0 el) in
        rw eq (
          Carries-loop required rollup ps _ one.1
            (record { once_let_in = λ _. u; once_named = λ _. u }))
  ]

  -- Where the object's permissions that count for the caller all wrap one file key, the permission
  -- that isUserAllowedTo returns to a caller that it lets in unwraps to that key, and carries a
  -- valid MAC.
  pub returned_permission_unwraps :
      (required : OdObjectPermission) (rollup : Bool) (ps : List OdObjectPermission)
      → OneKey ps
      → (is_user_allowed_to H key caller ps required rollup).0 ≡ true
      → (file_key H key (is_user_allowed_to H key caller ps required rollup).1 ≡ some k)
        × (equals_permission_mac H key (is_user_allowed_to H key caller ps required rollup).1
            ≡ true)
  unfolding is_user_allowed_to equals_permission_mac calculate_permission_mac
  returned_permission_unwraps required rollup ps one h =
      let first : Rollup = record { authorized_to = false; user_permission = empty_permission } in
      let kept : Carries (visit_all H key caller required rollup first ps) =
        Carries-loop required rollup ps first one (record {
          once_let_in = λ e. absurd (false≢true e);
          once_named = λ e. absurd (false≢true (sym e));
        }) in
      (kept.once_let_in h, text_eq_self _)
