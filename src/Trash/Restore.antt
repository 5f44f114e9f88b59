-- ===== src/Trash/Restore.antt =====
-- dao/dao.UndeleteObject.go. The permissions of a row are all its rows in object_permission, deleted ones
-- included, as in the join of the update.
use ods.Common.{
  ℕ, zero, suc, false, not, ◌&&◌, ◌||◌, none, some, List, [], ◌∷◌, Text, text_eq, is_empty, filter,
  length, ◌==◌, if◌then◌else◌, Result, ok, err, ◌>>=◌,
}
use ods.Tree.{OdObject, Db, get_object}
use ods.Trash.{Stop, failed, unending, write}

-- what the query of undeleteAncestorChildren selects
unfoldable pub hidden_children : Text → Db → Db
hidden_children id db =
    filter (λ o. o.is_ancestor_deleted && (not o.is_expunged && text_eq o.parent_id id)) db

unfoldable pub uncovered : OdObject → OdObject
uncovered current = record current { is_deleted = false; is_ancestor_deleted = false }

unfoldable pub restored : OdObject → OdObject → OdObject
restored object current = record current { modified_by = object.modified_by; is_deleted = false }

-- The recursive calls, for the children in turn.
unfoldable pub descend : (Text → Db → Result Stop Db) → List OdObject → Db → Result Stop Db
descend act [] db = ok db
descend act (o ∷ os) db = act o.id db >>= λ db. descend act os db

module _ (token : Text → ℕ → Text) where
  -- The update of one child.
  unfoldable pub uncover : Text → Db → Result Stop Db
  unfolding get_object write uncovered
  uncover id db = elim (get_object id db) [
    | none ↦ ok db
    | some current ↦
        if current.is_expunged || length current.permissions == 0
        then ok db
        else write token (uncovered current) current db
  ]

  unfoldable pub undelete_ancestor_children : (fuel : ℕ) → Text → Db → Result Stop Db
  unfolding hidden_children descend uncover
  undelete_ancestor_children zero id db = err unending
  undelete_ancestor_children (suc fuel) id db =
      let results = hidden_children id db in
      descend uncover results db >>= λ db.
      descend (λ child db. undelete_ancestor_children fuel child db) results db

  -- undeleteObjectInTransaction
  unfoldable pub undelete_object : (fuel : ℕ) → OdObject → Db → Result Stop Db
  unfolding get_object write restored undelete_ancestor_children
  undelete_object fuel object db =
      if is_empty object.id || is_empty object.change_token
      then err failed
      else elim (get_object object.id db) [
        | none ↦ undelete_ancestor_children fuel object.id db
        | some current ↦ write token (restored object current) current db >>= λ db.
            undelete_ancestor_children fuel object.id db
      ]
