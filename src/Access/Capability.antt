-- ===== src/Access/Capability.antt =====
-- The five capabilities, so that a lemma speaks of each at once.
use ods.Common.{◌≡◌, Bool, true, ◌||◌, is_empty, if◌then◌else◌, arith}
use ods.Models.Permission.{OdObjectPermission}
use ods.Access.{relevant, combine, satisfied}

pub data Capability : Type 0 where
  creating reading updating deleting sharing : Capability

abbrev pub allows : Capability → OdObjectPermission → Bool
allows creating p = p.allow_create
allows reading p = p.allow_read
allows updating p = p.allow_update
allows deleting p = p.allow_delete
allows sharing p = p.allow_share

-- `user` has every capability that is required.
abbrev pub Satisfies : OdObjectPermission → OdObjectPermission → Type 0
Satisfies required user = (c : Capability) → allows c required ≡ true → allows c user ≡ true

pub satisfied-Satisfies :
    (required user : OdObjectPermission) → satisfied required user ≡ true → Satisfies required user
unfolding satisfied
satisfied-Satisfies required user h creating r = ground arith
satisfied-Satisfies required user h reading r = ground arith
satisfied-Satisfies required user h updating r = ground arith
satisfied-Satisfies required user h deleting r = ground arith
satisfied-Satisfies required user h sharing r = ground arith

pub satisfied_of :
    (required user : OdObjectPermission) → Satisfies required user → satisfied required user ≡ true
unfolding satisfied
satisfied_of required user h =
    ground (arith, h creating, h reading, h updating, h deleting, h sharing)

pub relevant_of :
    (c : Capability) (required p : OdObjectPermission)
    → allows c required ≡ true
    → allows c p ≡ true
    → relevant required p ≡ true
unfolding relevant
relevant_of creating required p r h = ground arith
relevant_of reading required p r h = ground arith
relevant_of updating required p r h = ground arith
relevant_of deleting required p r h = ground arith
relevant_of sharing required p r h = ground arith

pub allows-combine :
    (c : Capability) (user p : OdObjectPermission)
    → allows c (combine user p)
      ≡ (if is_empty user.grantee then allows c p else (allows c user || allows c p))
unfolding combine
allows-combine creating user p = ground arith
allows-combine reading user p = ground arith
allows-combine updating user p = ground arith
allows-combine deleting user p = ground arith
allows-combine sharing user p = ground arith
