-- ===== src/Trash/Ended.antt =====
-- DeleteObject (dao/dao.DeleteObject.go) ends, and what server/deleteObject.go answers.
use ods.Common.{
  ℕ, zero, suc, ◌<◌, Bool, true, false, Option, some, List, Text, text_eq_sound, ◌≡◌, ◌≢◌, refl,
  sym, ◌∙◌, subst, ◌⊎◌, inl, inr, arith, Bool-cases, Option-cases, ok, err,
}
use ods.Crypto.{Sha256}
use ods.Access.{Caller, is_user_allowed_to_delete}
use ods.Tree.{OdObject, Db, get_object, set_object}
use ods.Tree.Rooted.{get_object_id}
use ods.Trash.{
  OdUser, RawSnippetFields, failed, fire, accepts, write, with_snippets, marked_deleted,
  delete_object,
}
use ods.Trash.Writes.{distinct, distinct-set}
use ods.Trash.Children.{Ordering}
use ods.Trash.Marked.{Gone, fetch-cases, fetch_ok}
use ods.Trash.Deleted.{delete_object-Writes}
use ods.Trash.Guarded.{requested-Reason}
use ods.Trash.Counted.{undeleted, undeleted-set}
use ods.Trash.Ends.{Ended, Dead, Enough, process_children_ends}
use ods.Trash.Handlers.{TrashRequest, settle, requested, trash_object}

write-cases :
    (token : Text → ℕ → Text) (new old : OdObject) (db : Db)
    → (write token new old db ≡ err failed)
      ⊎ (write token new old db ≡ ok (set_object (fire token new old) db))
unfolding write
write-cases token new old db = elim (Bool-cases (accepts new old db)) [
  | inl good ↦ inr (ground arith)
  | inr bad ↦ inl (ground arith)
]

with_snippets-cases :
    (stored : Text → Option (List RawSnippetFields)) (explicit : Bool) (user : OdUser)
    → (with_snippets stored explicit user ≡ err failed)
      ⊎ ((known : OdUser) × (with_snippets stored explicit user ≡ ok known))
unfolding with_snippets
with_snippets-cases stored false user = inr (user, refl)
with_snippets-cases stored true user = elim (Option-cases user.snippets) [
  | inr (s, e) ↦ inr (user, ground arith)
  | inl unknown ↦ elim (Option-cases (stored user.distinguished_name)) [
    | inl gone ↦ inl (ground arith)
    | inr (s, e) ↦ inr (record user { snippets = some s }, ground arith)
  ]
]

module _ (token : Text → ℕ → Text) (order : Db → Db) (ordered : Ordering order)
    (stored : Text → Option (List RawSnippetFields)) where
  pub delete_object_ends :
      (fuel : ℕ) (user : OdUser) (object : OdObject) (explicit : Bool) (db : Db)
      → distinct db ≡ true
      → undeleted db < fuel
      → Ended (delete_object token order stored fuel user object explicit db) db (Dead object.id db)
  unfolding delete_object Ended Dead marked_deleted fire Enough
  delete_object_ends zero user object explicit db keyed few = absurd (omega arith)
  delete_object_ends (suc fuel) user object explicit db keyed few = elim (fetch-cases object db) [
    | inl bad ↦ inl (ground arith)
    | inr (current, fetched) ↦
        let there = fetch_ok object db current fetched in
        elim (Bool-cases current.is_deleted) [
          | inl dead ↦ inr (
            db,
            ground arith,
            keyed,
            inl (
              refl,
              λ r here. let e : current ≡ r = cc in subst (λ x. x.is_deleted ≡ true) e dead,
            ),
          )
          | inr alive ↦ elim (with_snippets-cases stored explicit user) [
            | inl bad ↦ inl (ground arith)
            | inr (known, k) ↦
                let new = marked_deleted object explicit current in
                let n = fire token new current in
                elim (write-cases token new current db) [
                  | inl bad ↦ inl (ground arith)
                  | inr written ↦
                      let is_id : current.id ≡ object.id =
                        text_eq_sound current.id object.id
                          (get_object_id object.id db current there) in
                      let there' : get_object n.id db ≡ some current =
                        subst (λ x. get_object x db ≡ some current) (sym is_id) there in
                      let less = undeleted-set n current db there' alive refl in
                      let keyed' = distinct-set n db ∙ keyed in
                      elim (process_children_ends known object.modified_by
                        (λ child db. delete_object token order stored fuel known child false db)
                        order current.id fuel ordered
                        (λ child db keyed few.
                          delete_object_ends fuel known child false db keyed few)
                        (suc fuel) 1 true (set_object n db) keyed' (omega arith) (omega arith)
                        (inr (omega arith))) [
                          | inl bad ↦ inl (ground arith)
                          | inr (after, ended, keyed'', least) ↦
                              inr (after, ground arith, keyed'', inr (omega arith))
                        ]
                ]
          ]
        ]
  ]

-- deleteObject ends, with fuel for one call more than there are objects that are not deleted, whatever the tree of
-- objects, where identifiers are distinct: it answers with success, and the requested object is deleted, or with
-- an error, and nothing has changed.
-- The user has snippets, and the ORDER BY of a query adds no rows.
pub trash_object_ends :
    (H : Sha256) (master_key : Text) (token : Text → ℕ → Text) (order : Db → Db)
    (stored_snippets : Text → Option (List RawSnippetFields)) (caller : Caller) (user : OdUser)
    (snippets : List RawSnippetFields) (fuel : ℕ) (request : TrashRequest) (db : Db)
    → Ordering order
    → user.snippets ≡ some snippets
    → distinct db ≡ true
    → undeleted db < fuel
    → (after : Db) × (code : ℕ) × (trash_object H master_key token order stored_snippets caller user
          fuel request db
        ≡ some (after, code))
      × (((code ≡ 0) × Gone request.id after) ⊎ ((code ≢ 0) × (after ≡ db)))
unfolding trash_object Ended Gone requested settle
trash_object_ends H master_key token order stored caller user snippets fuel request db ordered known
      keyed few =
    elim (Option-cases (get_object request.id db)) [
      | inl gone ↦ (db, 500, ground arith, inr ((λ e. omega arith), refl))
      | inr (o, there) ↦
          elim (Bool-cases (is_user_allowed_to_delete H master_key caller o.permissions)) [
            | inr denied ↦ (db, 403, ground arith, inr ((λ e. omega arith), refl))
            | inl allowed ↦ elim (Bool-cases o.is_deleted) [
              | inl deleted ↦ elim (Bool-cases o.is_expunged) [
                | inl expunged ↦ (db, 410, ground arith, inr ((λ e. omega arith), refl))
                | inr unexpunged ↦ (db, 0, ground arith, inl (refl, (o, there, deleted)))
              ]
              | inr alive ↦
                  elim (delete_object_ends token order ordered stored fuel user
                    (requested caller request o) true db keyed few) [
                      | inl bad ↦ (db, 500, ground arith, inr ((λ e. omega arith), refl))
                      | inr (after, through, keyed', less) ↦
                          let is_id : o.id ≡ request.id =
                            text_eq_sound o.id request.id (get_object_id request.id db o there) in
                          let marks =
                            delete_object-Writes user request.id token order ordered stored snippets
                              fuel (requested caller request o) true db after known
                              (requested-Reason H master_key token order stored caller user snippets
                                fuel request db after 0 o there)
                              keyed through in
                          (
                            after,
                            0,
                            ground arith,
                            inl (refl, subst (λ x. Gone x after) is_id marks.1),
                          )
                    ]
            ]
          ]
    ]
