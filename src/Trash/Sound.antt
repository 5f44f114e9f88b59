-- ===== src/Trash/Sound.antt =====
-- The rows that the handlers leave: server/moveObject.go, server/deleteObject.go, server/deleteObjectForever.go and
-- server/removeObjectFromTrash.go as steps of one database, each for any caller and any request.
use ods.Common.{
  ℕ, true, false, Option, some, List, [], Text, text_eq, text_eq_sound, ◌≡◌, sym, ◌∙◌, subst, inl,
  inr, arith,
}
use ods.Crypto.{Sha256}
use ods.Access.{Caller}
use ods.Tree.{OdObject, Db, get_object, set_object}
use ods.Tree.Move.{MoveRequest, move_object_raw}
use ods.Tree.Rooted.{Forest, get_object_id}
use ods.Tree.Moved.{move_keeps_tree, moved_row}
use ods.Trash.{OdUser, RawSnippetFields}
use ods.Trash.Writes.{Writes, Writes-Forest, Writes-distinct, distinct, distinct-set}
use ods.Trash.Children.{Ordering}
use ods.Trash.Marked.{Gone, Marking}
use ods.Trash.Guarded.{handled}
use ods.Trash.Covered.{
  flagged, Flagged, Flagged-set, Gone-set_other, CoveredBut, CoveredBut-set, waiting,
  Marking-Flagged, Marking-CoveredBut,
}
use ods.Trash.Cases.{remove_object_from_trash-cases}
use ods.Trash.Restored.{Restoring-Flagged, undelete_object-Covered}
use ods.Trash.Handlers.{TrashRequest, trash_object, delete_object_forever, remove_object_from_trash}

-- Identifiers are distinct, every object has a finite chain of parents that are there, a row that is expunged
-- or has the flag of a deleted ancestor is deleted, and a row that waits for its parent has a deleted one.
pub record Sound (db : Db) : Type 0 where
  pub keyed : distinct db ≡ true
  pub forest : Forest db
  pub flags : Flagged db
  pub covered : CoveredBut [] db

module _ (H : Sha256) (master_key : Text) (token : Text → ℕ → Text) (order : Db → Db)
    (stored_snippets : Text → Option (List RawSnippetFields)) where
  -- One request. The user has the snippets that the handlers take from the request's context.
  pub data Step : Db → Db → Type 0 where
    moves :
        (caller : Caller) (resources : List Text) (fuel : ℕ) (request : MoveRequest)
        (o x : OdObject) (code : ℕ) {db after : Db}
        → get_object request.id db ≡ some o
        → move_object_raw H master_key caller resources fuel token request o db
          ≡ some (after, (x, code))
        → Step db after
    trashes :
        (caller : Caller) (user : OdUser) (snippets : List RawSnippetFields) (fuel : ℕ)
        (request : TrashRequest) (code : ℕ) {db after : Db}
        → user.snippets ≡ some snippets
        → trash_object H master_key token order stored_snippets caller user fuel request db
          ≡ some (after, code)
        → Step db after
    expunges :
        (caller : Caller) (user : OdUser) (snippets : List RawSnippetFields) (fuel : ℕ)
        (request : TrashRequest) (code : ℕ) {db after : Db}
        → user.snippets ≡ some snippets
        → delete_object_forever H master_key token order stored_snippets caller user fuel request db
          ≡ some (after, code)
        → Step db after
    restores :
        (caller : Caller) (user : OdUser) (fuel : ℕ) (request : TrashRequest) (code : ℕ)
        {db after : Db}
        → remove_object_from_trash H master_key token order stored_snippets caller user fuel request
            db
          ≡ some (after, code)
        → Step db after

  pub data Reached : Db → Db → Type 0 where
    start : {db : Db} → Reached db db
    step : {db middle after : Db} → Step db middle → Reached middle after → Reached db after

-- How the steps keep a database sound.
marked :
    (user : OdUser) (root : Text) (db after : Db)
    → Writes (Marking user root) db after
    → Sound db
    → Sound after
marked user root db after writes s = record {
  keyed = Writes-distinct db after writes s.keyed;
  forest = Writes-Forest (λ db o n mark. mark.same_parent) db after writes s.forest;
  flags = Marking-Flagged user root db after writes s.flags;
  covered = Marking-CoveredBut user root db after writes s.covered;
}

alive_not-Gone :
    (db : Db) (n o : OdObject)
    → get_object n.id db ≡ some o
    → o.is_deleted ≡ false
    → (id : Text) → text_eq n.id id ≡ true
    → Gone id db
    → ⊥
unfolding Gone
alive_not-Gone db n o there alive id same (q, here, deleted) =
    let here' : get_object n.id db ≡ some q =
      subst (λ x. get_object x db ≡ some q) (sym (text_eq_sound n.id id same)) here in
    let e : o ≡ q = cc in
    let dead : o.is_deleted ≡ true = subst (λ x. x.is_deleted ≡ true) (sym e) deleted in
    ground arith

moved :
    (db : Db) (n o : OdObject)
    → get_object n.id db ≡ some o
    → o.is_deleted ≡ false
    → n.is_deleted ≡ o.is_deleted
    → n.is_ancestor_deleted ≡ o.is_ancestor_deleted
    → n.is_expunged ≡ o.is_expunged
    → Sound db
    → Forest (set_object n db)
    → Sound (set_object n db)
unfolding Flagged flagged waiting
moved db n o there alive same_deleted same_hidden same_expunged s forest =
    let good : flagged o ≡ true = s.flags n.id o there in
    record {
      keyed = distinct-set n db ∙ s.keyed;
      forest = forest;
      flags = Flagged-set db n o there (ground arith) s.flags;
      covered =
          CoveredBut-set db n o there [] [] (λ id h. h)
            (λ id gone. elim (Gone-set_other db n o there id gone) [
              | inr stays ↦ inr stays
              | inl same ↦ absurd (alive_not-Gone db n o there alive id same gone)
            ])
            (λ waits. absurd (ground arith)) s.covered;
    }

Step-Sound :
    (H : Sha256) (master_key : Text) (token : Text → ℕ → Text) (order : Db → Db)
    (stored_snippets : Text → Option (List RawSnippetFields)) (db after : Db)
    → Ordering order
    → Step H master_key token order stored_snippets db after
    → Sound db
    → Sound after
Step-Sound H master_key token order stored db after ordered
      (moves caller resources fuel request o x code there run) s =
    let forest =
      move_keeps_tree H master_key caller resources token fuel request o db (after, (x, code))
        s.forest there run in
    elim (moved_row H master_key caller resources token fuel request o db (after, (x, code)) there
      run) [
        | inl same ↦ subst Sound (sym same) s
        | inr (n, there', alive, deleted, hidden, expunged, e) ↦
            subst Sound (sym e)
              (moved db n o there' alive deleted hidden expunged s (subst Forest e forest))
      ]
Step-Sound H master_key token order stored db after ordered
      (trashes caller user snippets fuel request code known run) s =
    elim (handled H master_key token order stored caller user snippets fuel request db after code
      ordered known s.keyed (inl run)) [
        | inl same ↦ subst Sound (sym same) s
        | inr (o, there, allowed, writes) ↦ marked user request.id db after writes s
      ]
Step-Sound H master_key token order stored db after ordered
      (expunges caller user snippets fuel request code known run) s =
    elim (handled H master_key token order stored caller user snippets fuel request db after code
      ordered known s.keyed (inr run)) [
        | inl same ↦ subst Sound (sym same) s
        | inr (o, there, allowed, writes) ↦ marked user request.id db after writes s
      ]
Step-Sound H master_key token order stored db after ordered
      (restores caller user fuel request code run) s =
    elim (remove_object_from_trash-cases H master_key token order stored caller user fuel request db
      after code run) [
        | inl same ↦ subst Sound (sym same) s
        | inr (o, there, allowed, unexpunged, shown, through) ↦
            let object = record o { modified_by = caller.distinguished_name } in
            let is_id : o.id ≡ request.id =
              text_eq_sound o.id request.id (get_object_id request.id db o there) in
            let (writes, covers) =
              undelete_object-Covered token fuel object o db after
                (subst (λ x. get_object x db ≡ some o) (sym is_id) there) unexpunged shown
                through in
            record {
              keyed = Writes-distinct db after writes s.keyed;
              forest = Writes-Forest (λ db o n why. why.same_parent) db after writes s.forest;
              flags = Restoring-Flagged db after writes s.flags;
              covered = covers s.covered;
            }
      ]

-- Whatever requests to move, trash, delete forever and restore objects are handled, for whatever callers and in
-- whatever order, from a database with distinct identifiers in which every object has a finite chain of parents,
-- every row that is expunged or has the flag of a deleted ancestor is deleted, and every unexpunged row with that
-- flag and with permissions has a deleted parent, they lead to a database that has all this.
-- The users have snippets, and the ORDER BY of a query adds no rows.
pub reached-Sound :
    (H : Sha256) (master_key : Text) (token : Text → ℕ → Text) (order : Db → Db)
    (stored_snippets : Text → Option (List RawSnippetFields)) (db after : Db)
    → Ordering order
    → Reached H master_key token order stored_snippets db after
    → Sound db
    → Sound after
reached-Sound H master_key token order stored db _ ordered start s = s
reached-Sound H master_key token order stored db after ordered (step {middle = middle} first rest)
      s =
    reached-Sound H master_key token order stored middle after ordered rest
      (Step-Sound H master_key token order stored db middle ordered first s)
