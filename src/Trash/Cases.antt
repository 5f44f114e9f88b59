-- ===== src/Trash/Cases.antt =====
-- When the handlers of server/deleteObject.go, server/deleteObjectForever.go and server/removeObjectFromTrash.go
-- change the database.
use ods.Common.{
  ℕ, true, false, Option, some, List, Text, text_eq, ◌≡◌, ap, ◌⊎◌, inl, inr, arith, Bool-cases,
  Option-cases, Result, ok, err,
}
use ods.Crypto.{Sha256}
use ods.Access.{Caller, is_user_allowed_to_delete}
use ods.Tree.{OdObject, Db, get_object}
use ods.Trash.{OdUser, RawSnippetFields, Stop, failed, unending, delete_object, expunge_object}
use ods.Trash.Restore.{undelete_object}
use ods.Trash.Handlers.{
  TrashRequest, settle, requested, trash_object, delete_object_forever, remove_object_from_trash,
}

settle-cases :
    (db : Db) (outcome : Result Stop Db) (after : Db) (code : ℕ)
    → settle db outcome ≡ some (after, code)
    → (after ≡ db) ⊎ (outcome ≡ ok after)
unfolding settle
settle-cases db (ok d) after code h = inr (let e : d ≡ after = ground arith in ap ok e)
settle-cases db (err failed) after code h = inl (ground arith)
settle-cases db (err unending) after code h = absurd (ground arith)

module _ (H : Sha256) (master_key : Text) (token : Text → ℕ → Text) (order : Db → Db)
    (stored_snippets : Text → Option (List RawSnippetFields)) (caller : Caller) (user : OdUser)
    (fuel : ℕ) (request : TrashRequest) (db after : Db) (code : ℕ) where
  -- The handler changes nothing, or the transaction is through for a caller who may delete.
  pub trash_object-cases :
      trash_object H master_key token order stored_snippets caller user fuel request db
        ≡ some (after, code)
      → (after ≡ db)
        ⊎ ((o : OdObject) × (get_object request.id db ≡ some o)
            × (is_user_allowed_to_delete H master_key caller o.permissions ≡ true)
            × (o.is_deleted ≡ false)
            × (delete_object token order stored_snippets fuel user
                  (requested caller request o)
                  true
                  db
                ≡ ok after))
  unfolding trash_object
  trash_object-cases h = elim (Option-cases (get_object request.id db)) [
    | inl gone ↦ inl (ground arith)
    | inr (o, there) ↦
        elim (Bool-cases (is_user_allowed_to_delete H master_key caller o.permissions)) [
          | inr denied ↦ inl (ground arith)
          | inl allowed ↦ elim (Bool-cases o.is_deleted) [
            | inl deleted ↦ inl (ground arith)
            | inr alive ↦
                let e : settle db (
                      delete_object token order stored_snippets fuel user
                        (requested caller request o) true db)
                    ≡ some (after, code) =
                  ground arith in
                elim (settle-cases db _ after code e) [
                  | inl same ↦ inl same
                  | inr through ↦ inr (o, there, allowed, alive, through)
                ]
          ]
        ]
  ]

  pub delete_object_forever-cases :
      delete_object_forever H master_key token order stored_snippets caller user fuel request db
        ≡ some (after, code)
      → (after ≡ db)
        ⊎ ((o : OdObject) × (get_object request.id db ≡ some o)
            × (is_user_allowed_to_delete H master_key caller o.permissions ≡ true)
            × (o.is_expunged ≡ false)
            × (expunge_object token order stored_snippets fuel user
                  (record (requested caller request o) { modified_by = user.distinguished_name })
                  true
                  db
                ≡ ok after))
  unfolding delete_object_forever
  delete_object_forever-cases h = elim (Option-cases (get_object request.id db)) [
    | inl gone ↦ inl (ground arith)
    | inr (o, there) ↦
        elim (Bool-cases (is_user_allowed_to_delete H master_key caller o.permissions)) [
          | inr denied ↦ inl (ground arith)
          | inl allowed ↦ elim (Bool-cases o.is_expunged) [
            | inl expunged ↦ inl (ground arith)
            | inr unexpunged ↦
                let e : settle db (
                      expunge_object token order stored_snippets fuel user
                        (record (requested caller request o) {
                          modified_by = user.distinguished_name;
                        })
                        true db)
                    ≡ some (after, code) =
                  ground arith in
                elim (settle-cases db _ after code e) [
                  | inl same ↦ inl same
                  | inr through ↦ inr (o, there, allowed, unexpunged, through)
                ]
          ]
        ]
  ]

  pub remove_object_from_trash-cases :
      remove_object_from_trash H master_key token order stored_snippets caller user fuel request db
        ≡ some (after, code)
      → (after ≡ db)
        ⊎ ((o : OdObject) × (get_object request.id db ≡ some o)
            × (is_user_allowed_to_delete H master_key caller o.permissions ≡ true)
            × (o.is_expunged ≡ false)
            × (o.is_ancestor_deleted ≡ false)
            × (undelete_object token fuel (record o { modified_by = caller.distinguished_name }) db
                ≡ ok after))
  unfolding remove_object_from_trash
  remove_object_from_trash-cases h = elim (Option-cases (get_object request.id db)) [
    | inl gone ↦ inl (ground arith)
    | inr (o, there) ↦ elim (Bool-cases o.is_expunged) [
      | inl expunged ↦ inl (ground arith)
      | inr unexpunged ↦ elim (Bool-cases o.is_ancestor_deleted) [
        | inl hidden ↦ inl (ground arith)
        | inr shown ↦ elim (Bool-cases (text_eq o.change_token request.change_token)) [
          | inr stale ↦ inl (ground arith)
          | inl current ↦
              elim (Bool-cases (is_user_allowed_to_delete H master_key caller o.permissions)) [
                | inr denied ↦ inl (ground arith)
                | inl allowed ↦
                    let e : settle db (
                          undelete_object token fuel
                            (record o { modified_by = caller.distinguished_name }) db)
                        ≡ some (after, code) =
                      ground arith in
                    elim (settle-cases db _ after code e) [
                      | inl same ↦ inl same
                      | inr through ↦ inr (o, there, allowed, unexpunged, shown, through)
                    ]
              ]
        ]
      ]
    ]
  ]
