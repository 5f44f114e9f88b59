-- ===== src/Tree/Move.antt =====
-- server/moveObject.go, moveObjectRaw, with IsUserOwner of auth/aacoff.go. The checks of permissions are
-- those of Access. An answer is a status code, 0 for success; the messages are left out.
use ods.Common.{
  ℕ, Bool, true, false, not, ◌||◌, Option, none, some, List, ◌++◌, Text, codes, text_eq, is_empty,
  trim_space, any, if◌then◌else◌, leb,
}
use ods.Crypto.{Sha256}
use ods.Access.{Caller, is_user_allowed_to_update, is_user_allowed_to_create}
use ods.Tree.{
  OdObject, Db, get_object, update_object, circular, clear, lost, unending, is_parent_id_descendent,
}

-- aacIsUserOwner
unfoldable pub is_user_owner : (user : Text) → (resources : List Text) → (owner : Text) → Bool
is_user_owner user resources owner =
    if is_empty user
    then false
    else if text_eq (trim_space user) (trim_space owner)
    then true
    else if text_eq (codes "user/" ++ trim_space user) (trim_space owner)
    then true
    else any (λ r. text_eq (trim_space owner) (trim_space r)) resources

-- What the request gives: the object, its new parent, and the change token.
pub record MoveRequest : Type 0 where
  pub id : Text
  pub parent_id : Text
  pub change_token : Text

pub data Check : Type 0 where
  passed : Check
  refused : ℕ → Check
  no_end : Check

module _ (H : Sha256) (master_key : Text) (caller : Caller) (resources : List Text) where
  -- the checks of the object
  unfoldable pub check_object : MoveRequest → OdObject → Check
  unfolding is_user_owner
  check_object request o =
      if not (is_user_allowed_to_update H master_key caller o.permissions)
      then refused 403
      else if not (is_user_owner caller.distinguished_name resources o.owned_by)
      then refused 403
      else if o.is_deleted
      then (if o.is_expunged then refused 410 else refused 400)
      else if not (text_eq request.change_token o.change_token)
      then refused 400
      else passed

  -- The checks of a new parent that is not the root. The code tests the flags of an object that it has made
  -- from the new parent's identifier, where they are never set; those of the parent stay untested.
  unfoldable pub check_parent : (fuel : ℕ) → MoveRequest → Db → Check
  unfolding get_object is_parent_id_descendent
  check_parent fuel request db = elim (get_object request.parent_id db) [
    | none ↦ refused 400
    | some parent ↦
        if not (is_user_allowed_to_create H master_key caller parent.permissions)
        then refused 403
        else if text_eq request.parent_id request.id
        then refused 400
        else elim (is_parent_id_descendent fuel db request.id request.parent_id) [
          | circular ↦ refused 400
          | clear ↦ passed
          | lost ↦ refused 500
          | unending ↦ no_end
        ]
  ]

  -- The checks where the parent changes; without a change there is none.
  unfoldable pub check_target : (fuel : ℕ) → MoveRequest → OdObject → Db → Check
  unfolding check_parent
  check_target fuel request o db =
      if text_eq request.parent_id o.parent_id || is_empty request.parent_id
      then passed
      else check_parent fuel request db

  -- The update, and the checks that it has changed the token and the count.
  unfoldable pub save_move :
      (token : Text → ℕ → Text) → MoveRequest → OdObject → Db → Db × (OdObject × ℕ)
  unfolding update_object
  save_move token request o db =
      let changed = record o {
        modified_by = caller.distinguished_name;
        parent_id = request.parent_id;
      } in
      let (after, e) = update_object token changed db in
      elim e [
        | none ↦ (after, (changed, 500))
        | some updated ↦ (
          after,
          (
            updated,
            if leb updated.change_count o.change_count
                then 500
                else if text_eq request.change_token updated.change_token
                then 500
                else 0,
          ),
        )
      ]

  -- moveObjectRaw; `none` where the walk takes more than the fuel
  unfoldable pub move_object_raw :
      (fuel : ℕ)
      → (token : Text → ℕ → Text) → MoveRequest
      → OdObject
      → Db
      → Option (Db × (OdObject × ℕ))
  unfolding check_object check_target save_move
  move_object_raw fuel token request o db = elim (check_object request o) [
    | refused code ↦ some (db, (o, code))
    | no_end ↦ none
    | passed ↦ elim (check_target fuel request o db) [
      | refused code ↦ some (db, (o, code))
      | no_end ↦ none
      | passed ↦ some (save_move token request o db)
    ]
  ]
