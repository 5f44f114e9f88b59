-- ===== src/Access/Loop.antt =====
-- The rounds of the loop, one at a time.
use ods.Common.{
  ◌≡◌, Bool, true, false, not, ◌&&◌, ◌||◌, List, ◌∷◌, Text, arith, inl, inr, Bool-cases,
}
use ods.Crypto.{Sha256}
use ods.Models.Permission.{OdObjectPermission}
use ods.Access.{Caller, Rollup, eligible, relevant, combine, satisfied, full, visit, visit_all}

module _ (H : Sha256) (key : Text) (caller : Caller) (required : OdObjectPermission) (rollup : Bool)
    (p : OdObjectPermission) (ps : List OdObjectPermission) (s : Rollup) where
  abbrev user : OdObjectPermission
  user = combine s.user_permission p

  -- A permission is passed over, or it hits: it ends the loop, or the loop goes on from it.
  pub data Round : Type 0 where
    passed :
        (eligible H key caller p && relevant required p) ≡ false
        → visit_all H key caller required rollup s (p ∷ ps)
          ≡ visit_all H key caller required rollup s ps
        → Round
    stopped :
        eligible H key caller p ≡ true
        → relevant required p ≡ true
        → (s.authorized_to || satisfied required user) ≡ true
        → visit_all H key caller required rollup s (p ∷ ps)
          ≡ record { authorized_to = true; user_permission = user }
        → Round
    went_on :
        eligible H key caller p ≡ true
        → relevant required p ≡ true
        → visit_all H key caller required rollup s (p ∷ ps)
          ≡ visit_all H key caller required rollup
              (record {
                authorized_to = s.authorized_to || satisfied required user;
                user_permission = user;
              })
              ps
        → Round

  pub round : Round
  unfolding visit_all visit
  round = elim (Bool-cases (eligible H key caller p && relevant required p)) [
    | inl hit ↦
        elim (Bool-cases
          ((s.authorized_to || satisfied required user) && (not rollup || full user))) [
            | inl stop ↦ stopped (ground arith) (ground arith) (ground arith) (ground arith)
            | inr more ↦ went_on (ground arith) (ground arith) (rw (hit, more))
          ]
    | inr miss ↦ passed miss (rw miss)
  ]
