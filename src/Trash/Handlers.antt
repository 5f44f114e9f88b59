-- ===== src/Trash/Handlers.antt =====
-- The handlers of server/deleteObject.go, server/deleteObjectForever.go and server/removeObjectFromTrash.go, for a
-- request that is parsed. An answer is the database with a status code, 0 for success, and `none` where
-- the transaction takes more than the fuel; messages and events are left out.
use ods.Common.{
  ℕ, true, not, Option, none, some, List, Text, text_eq, is_empty, if◌then◌else◌, Result, ok, err,
}
use ods.Crypto.{Sha256}
use ods.Access.{Caller, is_user_allowed_to_delete}
use ods.Tree.{OdObject, Db, get_object}
use ods.Trash.{OdUser, RawSnippetFields, Stop, failed, unending, delete_object, expunge_object}
use ods.Trash.Restore.{undelete_object}

pub record TrashRequest : Type 0 where
  pub id : Text
  pub change_token : Text

-- A transaction that fails leaves the database as it was.
unfoldable pub settle : Db → Result Stop Db → Option (Db × ℕ)
settle db (ok after) = some (after, 0)
settle db (err failed) = some (db, 500)
settle db (err unending) = none

-- The object as the request's transaction takes it.
unfoldable pub requested : Caller → TrashRequest → OdObject → OdObject
requested caller request o = record o {
  modified_by = caller.distinguished_name;
  change_token = request.change_token;
}

module _ (H : Sha256) (master_key : Text) (token : Text → ℕ → Text) (order : Db → Db)
    (stored_snippets : Text → Option (List RawSnippetFields)) (caller : Caller)
    (user : OdUser) where
  -- AppServer.deleteObject
  unfoldable pub trash_object : (fuel : ℕ) → TrashRequest → Db → Option (Db × ℕ)
  unfolding get_object settle requested delete_object
  trash_object fuel request db = elim (get_object request.id db) [
    | none ↦ some (db, 500)
    | some o ↦
        if not (is_user_allowed_to_delete H master_key caller o.permissions)
        then some (db, 403)
        else if o.is_deleted
        then (if o.is_expunged then some (db, 410) else some (db, 0))
        else settle db (
            delete_object token order stored_snippets fuel user (requested caller request o) true
              db)
  ]

  -- AppServer.deleteObjectForever, with the assignment that ExpungeObject begins with
  unfoldable pub delete_object_forever : (fuel : ℕ) → TrashRequest → Db → Option (Db × ℕ)
  unfolding get_object settle requested expunge_object
  delete_object_forever fuel request db = elim (get_object request.id db) [
    | none ↦ some (db, 500)
    | some o ↦
        if not (is_user_allowed_to_delete H master_key caller o.permissions)
        then some (db, 403)
        else if o.is_expunged
        then some (db, 410)
        else settle db (
            expunge_object token order stored_snippets fuel user
              (record (requested caller request o) { modified_by = user.distinguished_name }) true
              db)
  ]

  -- AppServer.removeObjectFromTrash
  unfoldable pub remove_object_from_trash : (fuel : ℕ) → TrashRequest → Db → Option (Db × ℕ)
  unfolding get_object settle requested undelete_object
  remove_object_from_trash fuel request db = elim (get_object request.id db) [
    | none ↦ some (db, if is_empty request.id then 400 else 404)
    | some o ↦
        if o.is_expunged
        then some (db, 410)
        else if o.is_ancestor_deleted
        then some (db, 409)
        else if not (text_eq o.change_token request.change_token)
        then some (db, 409)
        else if not (is_user_allowed_to_delete H master_key caller o.permissions)
        then some (db, 403)
        else settle db
            (undelete_object token fuel (record o { modified_by = caller.distinguished_name }) db)
  ]
