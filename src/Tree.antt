-- ===== src/Tree.antt =====
-- Objects and the folders that they stand in: the rows of the table `object` (metadata/models/ODObject.go),
-- dao/dao.GetObject.go, dao/dao.UpdateObject.go with the trigger on updates
-- (cmd/odrive-database/schema/triggers.object.tu_object.create.sql), and the walks of dao/dao.Logic.go and
-- dao/dao.GetParents.go. A database is the list of its rows; a transaction that fails leaves it as it was.
-- An empty parent is the nil one of an object at the root. A walk up the parents takes fuel.
pub mod Walk
pub mod Parents
pub mod Move
pub mod Rooted
pub mod Moved
pub mod Answer
use ods.Common.{
  ℕ, zero, suc, ◌+◌, Bool, true, false, not, ◌||◌, Option, none, some, List, [], ◌∷◌, Text, text_eq,
  is_empty, if◌then◌else◌,
}
use ods.Models.Permission.{OdObjectPermission}

pub record OdObject : Type 0 where
  pub id : Text
  pub created_by : Text
  pub modified_by : Text
  pub is_deleted : Bool
  pub is_ancestor_deleted : Bool
  pub is_expunged : Bool
  pub change_count : ℕ
  pub change_token : Text
  pub owned_by : Text
  pub parent_id : Text
  pub permissions : List OdObjectPermission

abbrev pub Db : Type 0
Db = List OdObject

unfoldable pub find : Text → Db → Option OdObject
find id [] = none
find id (o ∷ db) = let rest = find id db in if text_eq o.id id then some o else rest

-- getObjectInTransaction; no object is an error
unfoldable pub get_object : Text → Db → Option OdObject
unfolding find
get_object [] db = none
get_object (c ∷ id) db = find (c ∷ id) db

unfoldable pub set_object : OdObject → Db → Db
set_object o [] = []
set_object o (p ∷ db) = let rest = set_object o db in if text_eq p.id o.id then o ∷ db else p ∷ rest

-- The trigger's condition on the parent of a row whose isDeleted stays.
unfoldable pub is_valid_parent : Text → Db → Bool
unfolding find
is_valid_parent [] db = true
is_valid_parent (c ∷ parent) db = elim (find (c ∷ parent) db) [
  | none ↦ false
  | some p ↦ not p.is_deleted
]

-- What the statement and the trigger write, over the row that is there.
unfoldable pub saved : (token : Text → ℕ → Text) → OdObject → OdObject → OdObject
saved token o current = record current {
  modified_by = o.modified_by;
  owned_by = if is_empty o.owned_by then current.created_by else o.owned_by;
  parent_id = o.parent_id;
  change_count = current.change_count + 1;
  change_token = token current.id (current.change_count + 1);
}

-- UpdateObject, for an object whose permissions and properties stay; `token` is the trigger's MD5.
unfoldable pub update_object : (token : Text → ℕ → Text) → OdObject → Db → Db × Option OdObject
unfolding get_object set_object is_valid_parent saved
update_object token o db =
    if is_empty o.id || (is_empty o.change_token || is_empty o.modified_by)
    then (db, none)
    else elim (get_object o.id db) [
      | none ↦ (db, none)
      | some current ↦
          if not (text_eq o.change_token current.change_token)
          then (db, none)
          else if current.is_deleted
          then (db, none)
          else if is_valid_parent o.parent_id db
          then (set_object (saved token o current) db, some (saved token o current))
          else (db, none)
    ]

pub data Walked : Type 0 where
  circular : Walked
  clear : Walked
  -- an error: a parent is not there
  lost : Walked
  unending : Walked

-- isParentIDADescendentInTransaction
unfoldable pub is_parent_id_descendent : ℕ → Db → (id parent_id : Text) → Walked
unfolding get_object
is_parent_id_descendent zero db id parent_id = unending
is_parent_id_descendent (suc fuel) db id [] = clear
is_parent_id_descendent (suc fuel) db id (c ∷ parent) = elim (get_object (c ∷ parent) db) [
  | none ↦ lost
  | some o ↦
      let rest = is_parent_id_descendent fuel db id o.parent_id in
      if text_eq o.parent_id id then circular else rest
]

pub data ParentList : Type 0 where
  parents_are : List OdObject → ParentList
  parent_missing : ParentList
  endless : ParentList

-- the loop of getParentsInTransaction, with the parents found so far
unfoldable pub parents_from : ℕ → Db → Text → List OdObject → ParentList
unfolding get_object
parents_from zero db id parents = endless
parents_from (suc fuel) db id parents = elim (get_object id db) [
  | none ↦ parent_missing
  | some parent ↦
      let rest = parents_from fuel db parent.parent_id (parent ∷ parents) in
      if is_empty parent.parent_id then parents_are (parent ∷ parents) else rest
]

-- what GetParents returns: parents and no error, an error, or nothing within the fuel
pub data ParentAnswer : Type 0 where
  parents_given : List OdObject → ParentAnswer
  no_transaction : ParentAnswer
  unanswered : ParentAnswer

-- What GetParents makes of the outcome of its transaction: where a parent is not there, the parents are nil, and so
-- is the error.
unfoldable pub without_error : ParentList → ParentAnswer
without_error (parents_are parents) = parents_given parents
without_error parent_missing = parents_given []
without_error endless = unanswered

-- `begin_fails`: the transaction cannot begin
unfoldable pub get_parents : (begin_fails : Bool) → ℕ → Db → OdObject → ParentAnswer
unfolding parents_from without_error
get_parents begin_fails fuel db child =
    let found_parents = without_error (parents_from fuel db child.parent_id []) in
    if is_empty child.parent_id
    then parents_given []
    else if begin_fails
    then no_transaction
    else found_parents
