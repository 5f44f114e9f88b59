-- ===== src/Tree/Answer.antt =====
-- What moveObjectRaw (server/moveObject.go) answers.
use ods.Common.{
  ℕ, ◌+◌, ◌<◌, true, false, not, some, List, [], ◌∷◌, Text, text_eq, text_eq_sound, text_eq_self,
  is_empty, length, any, ◌≡◌, ◌≢◌, refl, sym, ap, ◌∙◌, subst, inl, inr, arith, Bool-cases,
}
use ods.Crypto.{Sha256}
use ods.Access.{Caller, is_user_allowed_to_update, is_user_allowed_to_create}
use ods.Tree.{
  OdObject, Db, get_object, set_object, is_valid_parent, saved, update_object, clear,
  is_parent_id_descendent,
}
use ods.Tree.Walk.{Lineage, is_parent_id_descendent_lem}
use ods.Tree.Moved.{Check-cases}
use ods.Tree.Rooted.{get_object_id}
use ods.Tree.Move.{
  MoveRequest, passed, no_end, is_user_owner, check_object, check_parent, check_target, save_move,
  move_object_raw,
}

module _ (H : Sha256) (master_key : Text) (caller : Caller) (resources : List Text) where
  check_parent_ends :
      (fuel : ℕ) (request : MoveRequest) (db : Db) (l : List OdObject)
      → Lineage db request.parent_id l
      → length l < fuel
      → check_parent H master_key caller resources fuel request db ≢ no_end
  unfolding check_parent
  check_parent_ends fuel request db l chain enough never =
      let walked =
        is_parent_id_descendent_lem db request.id request.parent_id l fuel chain enough in
      elim (Bool-cases (any (λ o. text_eq o.parent_id request.id) l)) [
        | inl circle ↦ ground arith
        | inr free ↦ ground arith
      ]

  check_target_ends :
      (fuel : ℕ) (request : MoveRequest) (o : OdObject) (db : Db) (l : List OdObject)
      → Lineage db request.parent_id l
      → length l < fuel
      → check_target H master_key caller resources fuel request o db ≢ no_end
  unfolding check_target
  check_target_ends fuel request o db l chain enough never =
      let ends = check_parent_ends fuel request db l chain enough in ground arith

  check_object_ends :
      (request : MoveRequest) (o : OdObject)
      → check_object H master_key caller resources request o ≢ no_end
  unfolding check_object
  check_object_ends request o never = ground arith

  -- The caller may move the object under `parent`, of the chain `l`.
  pub record MayMove (request : MoveRequest) (o parent : OdObject) (l : List OdObject) (db : Db)
      : Type 0 where
    pub stands : get_object request.id db ≡ some o
    pub updates : is_user_allowed_to_update H master_key caller o.permissions ≡ true
    pub owns : is_user_owner caller.distinguished_name resources o.owned_by ≡ true
    pub alive : o.is_deleted ≡ false
    pub current : text_eq request.change_token o.change_token ≡ true
    pub signed : is_empty o.change_token ≡ false
    pub named : is_empty caller.distinguished_name ≡ false
    pub target : get_object request.parent_id db ≡ some parent
    pub creates : is_user_allowed_to_create H master_key caller parent.permissions ≡ true
    pub apart : text_eq request.parent_id request.id ≡ false
    pub chain : Lineage db request.parent_id l
    pub no_circle : any (λ q. text_eq q.parent_id request.id) l ≡ false

  checks_pass :
      (request : MoveRequest) (o parent : OdObject) (l : List OdObject) (db : Db) (fuel : ℕ)
      → MayMove request o parent l db
      → length l < fuel
      → (check_object H master_key caller resources request o ≡ passed)
        × (check_target H master_key caller resources fuel request o db ≡ passed)
  unfolding check_object check_target check_parent
  checks_pass request o parent l db fuel may enough =
      let updates = may.updates in
      let owns = may.owns in
      let alive = may.alive in
      let current = may.current in
      let target = may.target in
      let creates = may.creates in
      let apart = may.apart in
      let no_circle = may.no_circle in
      let walked =
        is_parent_id_descendent_lem db request.id request.parent_id l fuel may.chain enough in
      let clears : is_parent_id_descendent fuel db request.id request.parent_id ≡ clear =
        ground arith in
      (ground arith, ground arith)

-- moveObjectRaw ends, with enough fuel for the walk, where the new parent's chain of parents up to the root is finite.
pub move_ends :
    (H : Sha256) (master_key : Text) (caller : Caller) (resources : List Text)
    (token : Text → ℕ → Text) (fuel : ℕ) (request : MoveRequest) (o : OdObject) (db : Db)
    (l : List OdObject)
    → Lineage db request.parent_id l
    → length l < fuel
    → (result : Db × (OdObject × ℕ)) × (move_object_raw H master_key caller resources fuel token
          request o db
        ≡ some result)
unfolding move_object_raw
move_ends H master_key caller resources token fuel request o db l chain enough =
    elim (Check-cases (check_object H master_key caller resources request o)) [
      | inr (inr e) ↦ absurd (check_object_ends H master_key caller resources request o e)
      | inr (inl (code, e)) ↦ ((db, (o, code)), ground arith)
      | inl good ↦
          elim (Check-cases (check_target H master_key caller resources fuel request o db)) [
            | inr (inr e) ↦
                absurd (
                  check_target_ends H master_key caller resources fuel request o db l chain enough
                    e)
            | inr (inl (code, e)) ↦ ((db, (o, code)), ground arith)
            | inl fits ↦ (save_move H master_key caller resources token request o db, ground arith)
          ]
    ]

object_valid :
    (p : Text) (q : OdObject) (db : Db)
    → get_object p db ≡ some q
    → is_valid_parent p db ≡ not q.is_deleted
unfolding get_object is_valid_parent
object_valid [] q db here = cc
object_valid (c ∷ p) q db here = ground arith

object_named : (p : Text) (q : OdObject) (db : Db) → get_object p db ≡ some q → is_empty p ≡ false
unfolding get_object
object_named [] q db here = cc
object_named (c ∷ p) q db here = refl

-- Whoever may update and owns an object that is not deleted, and may create in a new parent that is not deleted, moves it there
-- with its change token, where the parent is neither the object nor below it, its chain of parents is finite, and the
-- trigger makes a new token: the answer is success, and the row has the new parent, the next change count and the new token.
pub move_succeeds :
    (H : Sha256) (master_key : Text) (caller : Caller) (resources : List Text)
    (token : Text → ℕ → Text) (fuel : ℕ) (request : MoveRequest) (o parent : OdObject)
    (l : List OdObject) (db : Db)
    → MayMove H master_key caller resources request o parent l db
    → length l < fuel
    → parent.is_deleted ≡ false
    → text_eq request.change_token (token o.id (o.change_count + 1)) ≡ false
    → (n : OdObject) × (move_object_raw H master_key caller resources fuel token request o db
        ≡ some (set_object n db, (n, 0)))
      × (n.id ≡ o.id)
      × (n.parent_id ≡ request.parent_id)
      × (n.change_count ≡ o.change_count + 1)
      × (n.change_token ≡ token o.id (o.change_count + 1))
unfolding move_object_raw save_move update_object saved
move_succeeds H master_key caller resources token fuel request o parent l db may enough undeleted
      fresh =
    let (good, fits) =
      checks_pass H master_key caller resources request o parent l db fuel may enough in
    let n =
      saved token
        (record o { modified_by = caller.distinguished_name; parent_id = request.parent_id }) o in
    let is_id : o.id ≡ request.id =
      text_eq_sound o.id request.id (get_object_id request.id db o may.stands) in
    let here : get_object o.id db ≡ some o =
      subst (λ x. get_object x db ≡ some o) (sym is_id) may.stands in
    let valid : is_valid_parent request.parent_id db ≡ true =
      object_valid request.parent_id parent db may.target ∙ ap not undeleted in
    let named = object_named o.id o db here in
    let signed = may.signed in
    let caller_named = may.named in
    let alive = may.alive in
    let self = text_eq_self o.change_token in (n, ground arith, refl, refl, refl, refl)

-- The same move into a new parent that is deleted is answered with 500, and changes nothing.
pub move_under_deleted :
    (H : Sha256) (master_key : Text) (caller : Caller) (resources : List Text)
    (token : Text → ℕ → Text) (fuel : ℕ) (request : MoveRequest) (o parent : OdObject)
    (l : List OdObject) (db : Db)
    → MayMove H master_key caller resources request o parent l db
    → length l < fuel
    → parent.is_deleted ≡ true
    → (after : OdObject) × (move_object_raw H master_key caller resources fuel token request o db
        ≡ some (db, (after, 500)))
unfolding move_object_raw save_move update_object
move_under_deleted H master_key caller resources token fuel request o parent l db may enough
      deleted =
    let (good, fits) =
      checks_pass H master_key caller resources request o parent l db fuel may enough in
    let invalid : is_valid_parent request.parent_id db ≡ false =
      object_valid request.parent_id parent db may.target ∙ ap not deleted in
    let is_id : o.id ≡ request.id =
      text_eq_sound o.id request.id (get_object_id request.id db o may.stands) in
    let here : get_object o.id db ≡ some o =
      subst (λ x. get_object x db ≡ some o) (sym is_id) may.stands in
    (
      record o { modified_by = caller.distinguished_name; parent_id = request.parent_id },
      ground arith,
    )
