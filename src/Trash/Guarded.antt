-- ===== src/Trash/Guarded.antt =====
-- What the handlers of server/deleteObject.go and server/deleteObjectForever.go change, and for whom.
use ods.Common.{
  ℕ, true, false, Option, some, List, Text, text_eq, text_eq_sound, ◌≡◌, refl, sym, ap, ◌∙◌, subst,
  ◌⊎◌, inl, inr,
}
use ods.Crypto.{Sha256}
use ods.Access.{Caller, is_user_allowed_to_delete}
use ods.Tree.{OdObject, Db, get_object}
use ods.Tree.Rooted.{get_object_id}
use ods.Trash.{OdUser, RawSnippetFields, authorized_to_delete}
use ods.Trash.Writes.{Writes, Writes-row, distinct}
use ods.Trash.Children.{Ordering}
use ods.Trash.Marked.{Reason, Marking, authorized-permissions}
use ods.Trash.Deleted.{delete_object-Writes, expunge_object-Writes}
use ods.Trash.Cases.{trash_object-cases, delete_object_forever-cases}
use ods.Trash.Handlers.{TrashRequest, requested, trash_object, delete_object_forever}

-- The row stays as it was, or it is deleted now, and is the requested one or one that the user may delete.
unfoldable pub Accounted : OdUser → (root : Text) → OdObject → OdObject → Type 0
Accounted user root o m =
    (m ≡ o)
    ⊎ ((m.is_deleted ≡ true) × ((text_eq o.id root ≡ true) ⊎ (authorized_to_delete user o ≡ true)))

record Change (user : OdUser) (root : Text) (o m : OdObject) : Type 0 where
  same_id : m.id ≡ o.id
  same_permissions : m.permissions ≡ o.permissions
  accounted : Accounted user root o m

Change-refl : (user : OdUser) (root : Text) (o : OdObject) → Change user root o o
unfolding Accounted
Change-refl user root o = record { same_id = refl; same_permissions = refl; accounted = inl refl }

Change-trans :
    (user : OdUser) (root : Text) (a b c : OdObject)
    → Change user root a b
    → Change user root b c
    → Change user root a c
unfolding Accounted
Change-trans user root a b c s t = record {
  same_id = t.same_id ∙ s.same_id;
  same_permissions = t.same_permissions ∙ s.same_permissions;
  accounted = elim t.accounted [
    | inl same ↦ subst (λ x. Accounted user root a x) (sym same) s.accounted
    | inr (deleted, inl at_root) ↦
        inr (deleted, inl (subst (λ x. text_eq x root ≡ true) s.same_id at_root))
    | inr (deleted, inr allowed) ↦
        inr (deleted, inr (sym (authorized-permissions user a b s.same_permissions) ∙ allowed))
  ];
}

Marking-Change :
    (user : OdUser) (root : Text) (db : Db) (o n : OdObject)
    → Marking user root db o n
    → Change user root o n
unfolding Accounted Reason
Marking-Change user root db o n mark = record {
  same_id = mark.same_id;
  same_permissions = mark.same_permissions;
  accounted = elim mark.because [
    | inl (at_root, shown) ↦ inr (mark.deleted, inl at_root)
    | inr (hidden, allowed, gone) ↦ inr (mark.deleted, inr allowed)
  ];
}

Writes-Accounted :
    (user : OdUser) (root p : Text) (db after : Db) (o : OdObject)
    → Writes (Marking user root) db after
    → get_object p db ≡ some o
    → (m : OdObject) × (get_object p after ≡ some m) × Accounted user root o m
Writes-Accounted user root p db after o writes here =
    let (m, now, change) =
      Writes-row (Change user root) (Change-refl user root) (Change-trans user root)
        (Marking-Change user root) p db after o writes here in
    (m, now, change.accounted)

module _ (H : Sha256) (master_key : Text) (token : Text → ℕ → Text) (order : Db → Db)
    (stored_snippets : Text → Option (List RawSnippetFields)) (caller : Caller) (user : OdUser)
    (snippets : List RawSnippetFields) (fuel : ℕ) (request : TrashRequest) (db after : Db)
    (code : ℕ) where
  pub requested-Reason :
      (o : OdObject)
      → get_object request.id db ≡ some o
      → (r : OdObject) → get_object o.id db ≡ some r
      → Reason user request.id db r false
  unfolding Reason
  requested-Reason o there r here =
      let is_id : o.id ≡ request.id =
        text_eq_sound o.id request.id (get_object_id request.id db o there) in
      inl (subst (λ x. text_eq r.id x ≡ true) is_id (get_object_id o.id db r here), refl)

  -- Either handler changes nothing, or it marks rows for a caller who may delete the requested object.
  pub handled :
      Ordering order
      → user.snippets ≡ some snippets
      → distinct db ≡ true
      → (trash_object H master_key token order stored_snippets caller user fuel request db
          ≡ some (after, code))
        ⊎ (delete_object_forever H master_key token order stored_snippets caller user fuel request
              db
            ≡ some (after, code))
      → (after ≡ db)
        ⊎ ((o : OdObject) × (get_object request.id db ≡ some o)
            × (is_user_allowed_to_delete H master_key caller o.permissions ≡ true)
            × Writes (Marking user request.id) db after)
  unfolding requested
  handled ordered known keyed (inl run) =
      elim (trash_object-cases H master_key token order stored_snippets caller user fuel request db
        after code run) [
          | inl same ↦ inl same
          | inr (o, there, allowed, alive, through) ↦ inr (
            o,
            there,
            allowed,
            (delete_object-Writes user request.id token order ordered stored_snippets snippets fuel
                (requested caller request o) true db after known (requested-Reason o there) keyed
                through).0,
          )
        ]
  handled ordered known keyed (inr run) =
      elim (delete_object_forever-cases H master_key token order stored_snippets caller user fuel
        request db after code run) [
          | inl same ↦ inl same
          | inr (o, there, allowed, unexpunged, through) ↦ inr (
            o,
            there,
            allowed,
            expunge_object-Writes user request.id token order ordered stored_snippets snippets fuel
                (record (requested caller request o) { modified_by = user.distinguished_name }) true
                db after known (requested-Reason o there) keyed through,
          )
        ]

  -- A run of the transaction for an object that the caller may delete.
  guarded :
      (p : Text) (row o : OdObject)
      → get_object request.id db ≡ some o
      → is_user_allowed_to_delete H master_key caller o.permissions ≡ true
      → Writes (Marking user request.id) db after
      → get_object p db ≡ some row
      → (m : OdObject) × (get_object p after ≡ some m)
        × ((m ≡ row)
            ⊎ ((m.is_deleted ≡ true)
                × (((text_eq p request.id ≡ true)
                      × (is_user_allowed_to_delete H master_key caller row.permissions ≡ true))
                    ⊎ (authorized_to_delete user row ≡ true))))
  unfolding Accounted
  guarded p row o there allowed writes here =
      let (m, now, why) = Writes-Accounted user request.id p db after row writes here in
      let is_p : row.id ≡ p = text_eq_sound row.id p (get_object_id p db row here) in
      elim why [
        | inl same ↦ (m, now, inl same)
        | inr (deleted, inr may) ↦ (m, now, inr (deleted, inr may))
        | inr (deleted, inl at_root) ↦
            let e : p ≡ request.id = sym is_p ∙ text_eq_sound row.id request.id at_root in
            let here' : get_object request.id db ≡ some row =
              subst (λ x. get_object x db ≡ some row) e here in
            let same : o ≡ row = cc in
            (
              m,
              now,
              inr (
                deleted,
                inl (
                  subst (λ x. text_eq x request.id ≡ true) is_p at_root,
                  subst (λ x. is_user_allowed_to_delete H master_key caller x.permissions ≡ true)
                      same allowed,
                ),
              ),
            )
      ]

-- Whatever deleteObject or deleteObjectForever deletes is the requested object, for a caller who may delete it,
-- or an object with a permission that is not deleted, allows to delete, and has a grantee among the shares of
-- the user's snippets; every other object stays as it was. The identifiers of the database are distinct.
-- The user has snippets, and the ORDER BY of a query adds no rows.
pub deleting_is_guarded :
    (H : Sha256) (master_key : Text) (token : Text → ℕ → Text) (order : Db → Db)
    (stored_snippets : Text → Option (List RawSnippetFields)) (caller : Caller) (user : OdUser)
    (snippets : List RawSnippetFields) (fuel : ℕ) (request : TrashRequest) (db after : Db)
    (code : ℕ) (p : Text) (row : OdObject)
    → Ordering order
    → user.snippets ≡ some snippets
    → distinct db ≡ true
    → (trash_object H master_key token order stored_snippets caller user fuel request db
        ≡ some (after, code))
      ⊎ (delete_object_forever H master_key token order stored_snippets caller user fuel request db
          ≡ some (after, code))
    → get_object p db ≡ some row
    → (m : OdObject) × (get_object p after ≡ some m)
      × ((m ≡ row)
          ⊎ ((m.is_deleted ≡ true)
              × (((text_eq p request.id ≡ true)
                    × (is_user_allowed_to_delete H master_key caller row.permissions ≡ true))
                  ⊎ (authorized_to_delete user row ≡ true))))
deleting_is_guarded H master_key token order stored caller user snippets fuel request db after code
      p row ordered known keyed run here =
    elim (handled H master_key token order stored caller user snippets fuel request db after code
      ordered known keyed run) [
        | inl same ↦ (row, ap (get_object p) same ∙ here, inl refl)
        | inr (o, there, allowed, writes) ↦
            guarded H master_key token order stored caller user snippets fuel request db after code
              p row o there allowed writes here
      ]
