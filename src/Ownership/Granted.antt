-- ===== src/Ownership/Granted.antt =====
-- What holds where the checks of changeOwner (server/changeOwner.go) let an owner change.
use ods.Common.{
  true, false, List, [], ◌∷◌, Text, codes, text_eq, text_eq_self, text_eq_sound, is_empty, any,
  trim_space, ◌≡◌, sym, subst, ◌⊎◌, inl, inr, arith, Bool-cases, ok, ◌>>=◌, bind_ok,
}
use ods.Crypto.{Sha256}
use ods.Access.{Caller, is_user_allowed_to_update}
use ods.Models.Grantee.{resource_name, new_grantee_from_resource_name}
use ods.Tree.{OdObject}
use ods.Tree.Move.{is_user_owner}
use ods.Ownership.{check_owner, check_new_owner, check_state, check_change_owner}

any-trimmed :
    (target : Text) (resources : List Text)
    → any (λ group. text_eq group target) resources ≡ true
    → any (λ r. text_eq (trim_space target) (trim_space r)) resources ≡ true
any-trimmed target [] h = cc
any-trimmed target (r ∷ resources) h = elim (Bool-cases (text_eq r target)) [
  | inl same ↦
      let e : text_eq (trim_space target) (trim_space r) ≡ true =
        subst (λ x. text_eq (trim_space target) (trim_space x) ≡ true)
          (sym (text_eq_sound r target same)) (text_eq_self (trim_space target)) in
      ground arith
  | inr other ↦ let ih = any-trimmed target resources (ground arith) in ground arith
]

-- The owner of a group's object is whoever has the group.
group_owner :
    (user target : Text) (resources : List Text)
    → is_empty user ≡ false
    → any (λ group. text_eq group target) resources ≡ true
    → is_user_owner user resources target ≡ true
unfolding is_user_owner
group_owner user target resources named h = let e = any-trimmed target resources h in ground arith

owner_passed :
    (H : Sha256) (master_key : Text) (caller : Caller) (resources : List Text) (o : OdObject)
    → check_owner H master_key caller resources o ≡ ok tt
    → (is_user_allowed_to_update H master_key caller o.permissions ≡ true)
      × (is_user_owner caller.distinguished_name resources o.owned_by ≡ true)
unfolding check_owner
owner_passed H master_key caller resources o h = ground arith

new_owner_passed :
    (caller : Caller) (resources : List Text) (new_owner target : Text)
    → is_empty caller.distinguished_name ≡ false
    → check_new_owner caller resources new_owner ≡ ok target
    → (target ≡ resource_name (new_grantee_from_resource_name new_owner))
      × (((is_empty (new_grantee_from_resource_name new_owner).user_distinguished_name.string
              ≡ false)
            × (text_eq
                  (new_grantee_from_resource_name new_owner).user_distinguished_name.string
                  caller.distinguished_name
                ≡ false))
          ⊎ ((text_eq target (codes "group/-everyone") ≡ false)
              × (is_user_owner caller.distinguished_name resources target ≡ true)))
unfolding check_new_owner
new_owner_passed caller resources new_owner target named h =
    let grantee = new_grantee_from_resource_name new_owner in
    let name = resource_name grantee in
    elim (Bool-cases (is_empty grantee.user_distinguished_name.string)) [
      | inr of_user ↦ (ground arith, inl (of_user, ground arith))
      | inl no_user ↦ elim (Bool-cases (is_empty grantee.group_name.string)) [
        | inl nobody ↦ absurd (ground arith)
        | inr of_group ↦ elim (Bool-cases (text_eq name (codes "group/-everyone"))) [
          | inl everyone ↦ absurd (ground arith)
          | inr someone ↦ elim (Bool-cases (any (λ group. text_eq group name) resources)) [
            | inr stranger ↦ absurd (ground arith)
            | inl known ↦
                let e : name ≡ target = ground arith in
                let owns = group_owner caller.distinguished_name name resources named known in
                (
                  sym e,
                  inr (
                    subst (λ x. text_eq x (codes "group/-everyone") ≡ false) e someone,
                    subst (λ x. is_user_owner caller.distinguished_name resources x ≡ true) e owns,
                  ),
                )
          ]
        ]
      ]
    ]

state_passed :
    (change_token : Text) (o : OdObject)
    → check_state change_token o ≡ ok tt
    → (o.is_deleted ≡ false) × (text_eq change_token o.change_token ≡ true)
unfolding check_state
state_passed change_token o h = ground arith

-- Where the checks of changeOwner pass, for a caller with a name, the caller may update the object and is its owner, the
-- object is not deleted and the change token is its own, and the new owner is the one named in the request, by its
-- resource name: a user with another name than the caller's, or a group that is not everyone, and then the caller is an
-- owner of what the group owns.
pub change_owner_granted :
    (H : Sha256) (master_key : Text) (caller : Caller) (resources : List Text)
    (new_owner change_token : Text) (o : OdObject) (target : Text)
    → is_empty caller.distinguished_name ≡ false
    → check_change_owner H master_key caller resources new_owner change_token o ≡ ok target
    → (is_user_allowed_to_update H master_key caller o.permissions ≡ true)
      × (is_user_owner caller.distinguished_name resources o.owned_by ≡ true)
      × (o.is_deleted ≡ false)
      × (text_eq change_token o.change_token ≡ true)
      × (target ≡ resource_name (new_grantee_from_resource_name new_owner))
      × (((is_empty (new_grantee_from_resource_name new_owner).user_distinguished_name.string
              ≡ false)
            × (text_eq
                  (new_grantee_from_resource_name new_owner).user_distinguished_name.string
                  caller.distinguished_name
                ≡ false))
          ⊎ ((text_eq target (codes "group/-everyone") ≡ false)
              × (is_user_owner caller.distinguished_name resources target ≡ true)))
unfolding check_change_owner
change_owner_granted H master_key caller resources new_owner change_token o target named h =
    let (u, first, second) =
      bind_ok (check_owner H master_key caller resources o)
        (λ passed. check_new_owner caller resources new_owner >>= λ target.
          check_state change_token o >>= λ passed. ok target)
        target h in
    let (t, found_target, third) =
      bind_ok (check_new_owner caller resources new_owner)
        (λ target. check_state change_token o >>= λ passed. ok target) target second in
    let (v, fourth, fifth) = bind_ok (check_state change_token o) (λ passed. ok t) target third in
    let same : t ≡ target = ground arith in
    let (allowed, owner) = owner_passed H master_key caller resources o first in
    let (alive, current) = state_passed change_token o fourth in
    let passed =
      new_owner_passed caller resources new_owner target named
        (subst (λ x. check_new_owner caller resources new_owner ≡ ok x) same found_target) in
    (allowed, owner, alive, current, passed.0, passed.1)
