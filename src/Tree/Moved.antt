-- ===== src/Tree/Moved.antt =====
-- What moveObjectRaw (server/moveObject.go) does to the tree of objects.
use ods.Common.{
  text_eq_comm-false, ℕ, true, false, ◌||◌, none, some, List, [], ◌∷◌, Text, text_eq, text_eq_sound,
  is_empty, ◌≡◌, refl, sym, ap, ◌∙◌, subst, ◌⊎◌, inl, inr, arith, Bool-cases, Option-cases,
}
use ods.Crypto.{Sha256}
use ods.Access.{Caller, is_user_allowed_to_update, is_user_allowed_to_create}
use ods.Tree.{
  OdObject, Db, get_object, set_object, is_valid_parent, saved, update_object, clear,
  is_parent_id_descendent,
}
use ods.Tree.Walk.{root}
use ods.Tree.Rooted.{Rooted, Forest, get_object_id, Forest-set, Forest-set_same, clear-Rooted}
use ods.Tree.Move.{
  MoveRequest, Check, passed, refused, no_end, is_user_owner, check_object, check_parent,
  check_target, save_move, move_object_raw,
}

-- An update changes nothing, or it writes the row that is there.
pub update_object_cases :
    (token : Text → ℕ → Text) (o : OdObject) (db : Db)
    → (update_object token o db ≡ (db, none))
      ⊎ ((current : OdObject) × (get_object o.id db ≡ some current)
          × (current.is_deleted ≡ false)
          × (text_eq o.change_token current.change_token ≡ true)
          × (is_valid_parent o.parent_id db ≡ true)
          × (update_object token o db
              ≡ (set_object (saved token o current) db, some (saved token o current))))
unfolding update_object
update_object_cases token o db =
    elim (Bool-cases (is_empty o.id || (is_empty o.change_token || is_empty o.modified_by))) [
      | inl bad ↦ inl (ground arith)
      | inr good ↦ elim (Option-cases (get_object o.id db)) [
        | inl gone ↦ inl (ground arith)
        | inr (current, found) ↦ elim (Bool-cases (text_eq o.change_token current.change_token)) [
          | inr other ↦ inl (ground arith)
          | inl same ↦ elim (Bool-cases current.is_deleted) [
            | inl deleted ↦ inl (ground arith)
            | inr alive ↦ elim (Bool-cases (is_valid_parent o.parent_id db)) [
              | inr bad ↦ inl (ground arith)
              | inl valid ↦ inr (current, found, alive, same, valid, ground arith)
            ]
          ]
        ]
      ]
    ]

is_empty_sound : (s : Text) → is_empty s ≡ true → s ≡ []
is_empty_sound [] h = refl
is_empty_sound (c ∷ s) h = cc

pub Check-cases : (c : Check) → (c ≡ passed) ⊎ (((code : ℕ) × (c ≡ refused code)) ⊎ (c ≡ no_end))
Check-cases passed = inl refl
Check-cases (refused code) = inr (inl (code, refl))
Check-cases no_end = inr (inr refl)

module _ (H : Sha256) (master_key : Text) (caller : Caller) (resources : List Text)
    (token : Text → ℕ → Text) where
  -- the object with what a move changes, before it is saved
  changed : MoveRequest → OdObject → OdObject
  changed request o = record o {
    modified_by = caller.distinguished_name;
    parent_id = request.parent_id;
  }

  save_move_cases :
      (request : MoveRequest) (o : OdObject) (db : Db)
      → get_object o.id db ≡ some o
      → (save_move H master_key caller resources token request o db
          ≡ (db, (changed request o, 500)))
        ⊎ ((o.is_deleted ≡ false)
            × (is_valid_parent request.parent_id db ≡ true)
            × ((save_move H master_key caller resources token request o db).0
                ≡ set_object (saved token (changed request o) o) db))
  unfolding save_move changed
  save_move_cases request o db here = elim (update_object_cases token (changed request o) db) [
    | inl e ↦ inl (ground arith)
    | inr (current, found, alive, same, valid, e) ↦
        let is_o : current ≡ o = cc in
        inr (
          subst (λ (x : OdObject). x.is_deleted ≡ false) is_o alive,
          valid,
          subst
              (λ x.
                (save_move H master_key caller resources token request o db).0
                ≡ set_object (saved token (changed request o) x) db)
              is_o (ground arith),
        )
  ]

  -- A move changes nothing, or all its checks have passed and it is the update.
  move_cases :
      (fuel : ℕ) (request : MoveRequest) (o : OdObject) (db : Db) (result : Db × (OdObject × ℕ))
      → move_object_raw H master_key caller resources fuel token request o db ≡ some result
      → (result.0 ≡ db)
        ⊎ ((check_object H master_key caller resources request o ≡ passed)
            × (check_target H master_key caller resources fuel request o db ≡ passed)
            × (save_move H master_key caller resources token request o db ≡ result))
  unfolding move_object_raw
  move_cases fuel request o db result done =
      elim (Check-cases (check_object H master_key caller resources request o)) [
        | inr (inl (code, e)) ↦ inl (ground arith)
        | inr (inr e) ↦ absurd (ground arith)
        | inl good ↦
            elim (Check-cases (check_target H master_key caller resources fuel request o db)) [
              | inr (inl (code, e)) ↦ inl (ground arith)
              | inr (inr e) ↦ absurd (ground arith)
              | inl fits ↦ inr (good, fits, ground arith)
            ]
      ]

  check_object_passed :
      (request : MoveRequest) (o : OdObject)
      → check_object H master_key caller resources request o ≡ passed
      → (is_user_allowed_to_update H master_key caller o.permissions ≡ true)
        × (is_user_owner caller.distinguished_name resources o.owned_by ≡ true)
        × (o.is_deleted ≡ false)
        × (text_eq request.change_token o.change_token ≡ true)
  unfolding check_object
  check_object_passed request o good = ground arith

  check_parent_passed :
      (fuel : ℕ) (request : MoveRequest) (db : Db)
      → check_parent H master_key caller resources fuel request db ≡ passed
      → (text_eq request.parent_id request.id ≡ false)
        × (is_parent_id_descendent fuel db request.id request.parent_id ≡ clear)
  unfolding check_parent
  check_parent_passed fuel request db good = elim (Option-cases (get_object request.parent_id db)) [
    | inl gone ↦ absurd (ground arith)
    | inr (parent, found) ↦
        elim (Bool-cases (is_user_allowed_to_create H master_key caller parent.permissions)) [
          | inr denied ↦ absurd (ground arith)
          | inl allowed ↦ elim (Bool-cases (text_eq request.parent_id request.id)) [
            | inl same ↦ absurd (ground arith)
            | inr apart ↦ (apart, ground arith)
          ]
        ]
  ]

  -- The row that a move writes has a chain of parents.
  saved-Forest :
      (fuel : ℕ) (request : MoveRequest) (o : OdObject) (db : Db)
      → Forest db
      → get_object request.id db ≡ some o
      → check_target H master_key caller resources fuel request o db ≡ passed
      → Forest (set_object (saved token (changed request o) o) db)
  unfolding check_target saved changed Rooted
  saved-Forest fuel request o db forest here fits =
      let n = saved token (changed request o) o in
      let is_id : o.id ≡ request.id =
        text_eq_sound o.id request.id (get_object_id request.id db o here) in
      let here' : get_object n.id db ≡ some o =
        subst (λ x. get_object x db ≡ some o) (sym is_id) here in
      elim (Bool-cases (text_eq request.parent_id o.parent_id)) [
        | inl stays ↦
            Forest-set_same db n o here' forest (text_eq_sound request.parent_id o.parent_id stays)
        | inr moves ↦ elim (Bool-cases (is_empty request.parent_id)) [
          | inl top ↦ Forest-set db n o here' forest (
              subst (Rooted (set_object n db)) (sym (is_empty_sound request.parent_id top))
                ([], root))
          | inr below ↦
              let (apart, walked) = check_parent_passed fuel request db (ground arith) in
              Forest-set db n o here' forest (
                clear-Rooted db n o here' fuel request.parent_id
                  (subst (λ x. is_parent_id_descendent fuel db x request.parent_id ≡ clear)
                    (sym is_id) walked)
                  (subst (λ x. text_eq x request.parent_id ≡ false) (sym is_id)
                    (text_eq_comm-false request.parent_id request.id apart)))
        ]
      ]

-- No move makes a circle, or leaves an object without its parents: where every object of the database has a finite
-- chain of parents that are there, every object has one after moveObjectRaw, whoever moves whatever object
-- of the database wherever.
pub move_keeps_tree :
    (H : Sha256) (master_key : Text) (caller : Caller) (resources : List Text)
    (token : Text → ℕ → Text) (fuel : ℕ) (request : MoveRequest) (o : OdObject) (db : Db)
    (result : Db × (OdObject × ℕ))
    → Forest db
    → get_object request.id db ≡ some o
    → move_object_raw H master_key caller resources fuel token request o db ≡ some result
    → Forest result.0
move_keeps_tree H master_key caller resources token fuel request o db result forest here done =
    elim (move_cases H master_key caller resources token fuel request o db result done) [
      | inl same ↦ subst Forest (sym same) forest
      | inr (good, fits, save) ↦
          let is_id = text_eq_sound o.id request.id (get_object_id request.id db o here) in
          let here' : get_object o.id db ≡ some o =
            subst (λ x. get_object x db ≡ some o) (sym is_id) here in
          elim (save_move_cases H master_key caller resources token request o db here') [
            | inl e ↦ subst Forest (ap (λ r. r.0) (sym e ∙ save)) forest
            | inr (alive, valid, e) ↦ subst Forest (sym e ∙ ap (λ r. r.0) save) (
                saved-Forest H master_key caller resources token fuel request o db forest here fits)
          ]
    ]

-- The flags of the row that a move writes are those of the object, which is not deleted.
pub moved_row :
    (H : Sha256) (master_key : Text) (caller : Caller) (resources : List Text)
    (token : Text → ℕ → Text) (fuel : ℕ) (request : MoveRequest) (o : OdObject) (db : Db)
    (result : Db × (OdObject × ℕ))
    → get_object request.id db ≡ some o
    → move_object_raw H master_key caller resources fuel token request o db ≡ some result
    → (result.0 ≡ db)
      ⊎ ((n : OdObject) × (get_object n.id db ≡ some o)
          × (o.is_deleted ≡ false)
          × (n.is_deleted ≡ o.is_deleted)
          × (n.is_ancestor_deleted ≡ o.is_ancestor_deleted)
          × (n.is_expunged ≡ o.is_expunged)
          × (result.0 ≡ set_object n db))
unfolding saved changed
moved_row H master_key caller resources token fuel request o db result here done =
    elim (move_cases H master_key caller resources token fuel request o db result done) [
      | inl same ↦ inl same
      | inr (good, fits, save) ↦
          let is_id = text_eq_sound o.id request.id (get_object_id request.id db o here) in
          let here' : get_object o.id db ≡ some o =
            subst (λ x. get_object x db ≡ some o) (sym is_id) here in
          elim (save_move_cases H master_key caller resources token request o db here') [
            | inl e ↦ inl (ap (λ r. r.0) (sym save ∙ e))
            | inr (alive, valid, e) ↦ inr (
              saved token (changed H master_key caller resources token request o) o,
              here',
              alive,
              refl,
              refl,
              refl,
              ap (λ r. r.0) (sym save) ∙ e,
            )
          ]
    ]

-- What moveObjectRaw changes is the row of the object that is moved, and that only for a caller who may update the
-- object and is its owner, with the object's change token, where neither the object nor its new parent is deleted.
pub move_authorized :
    (H : Sha256) (master_key : Text) (caller : Caller) (resources : List Text)
    (token : Text → ℕ → Text) (fuel : ℕ) (request : MoveRequest) (o : OdObject) (db : Db)
    (result : Db × (OdObject × ℕ))
    → get_object request.id db ≡ some o
    → move_object_raw H master_key caller resources fuel token request o db ≡ some result
    → (result.0 ≡ db)
      ⊎ ((is_user_allowed_to_update H master_key caller o.permissions ≡ true)
          × (is_user_owner caller.distinguished_name resources o.owned_by ≡ true)
          × (text_eq request.change_token o.change_token ≡ true)
          × (o.is_deleted ≡ false)
          × (is_valid_parent request.parent_id db ≡ true)
          × ((n : OdObject) × (n.id ≡ o.id)
              × (n.parent_id ≡ request.parent_id)
              × (result.0 ≡ set_object n db)))
unfolding saved changed
move_authorized H master_key caller resources token fuel request o db result here done =
    elim (move_cases H master_key caller resources token fuel request o db result done) [
      | inl same ↦ inl same
      | inr (good, fits, save) ↦
          let is_id = text_eq_sound o.id request.id (get_object_id request.id db o here) in
          let here' : get_object o.id db ≡ some o =
            subst (λ x. get_object x db ≡ some o) (sym is_id) here in
          let (allowed, owner, alive, same_token) =
            check_object_passed H master_key caller resources token request o good in
          elim (save_move_cases H master_key caller resources token request o db here') [
            | inl e ↦ inl (ap (λ r. r.0) (sym save ∙ e))
            | inr (alive', valid, e) ↦ inr (
              allowed,
              owner,
              same_token,
              alive,
              valid,
              (
                saved token (changed H master_key caller resources token request o) o,
                refl,
                refl,
                ap (λ r. r.0) (sym save) ∙ e,
              ),
            )
          ]
    ]
