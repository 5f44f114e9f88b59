-- ===== src/Tests/Restores.antt =====
-- The folder of Tests/Trashes goes to the trash and back, with what it holds.
use ods.Common.{
  Bool, true, false, not, some, [], ◌∷◌, Text, codes, text_eq, all, ◌≡◌, refl, sym, ◌||◌,
  text_eq_sound, inl, inr, arith, Bool-cases, subst, ok, err,
}
use ods.Access.{is_user_allowed_to_delete}
use ods.Tree.{OdObject, Db, find, get_object, set_object}
use ods.Tree.Walk.{root, up}
use ods.Tree.Rooted.{Rooted, Forest}
use ods.Trash.{failed, accepts, write, fire, fetch, with_snippets, marked_expunged, expunge_object}
use ods.Trash.Restore.{
  hidden_children, restored, uncovered, uncover, descend, undelete_ancestor_children,
  undelete_object,
}
use ods.Trash.Covered.{flagged, Flagged, CoveredBut, waiting}
use ods.Trash.Sound.{Sound, trashes, restores, start, step, reached-Sound}
use ods.Trash.Handlers.{settle, remove_object_from_trash}
use ods.Tests.Parameters.{sum_hash}
use ods.Tests.Trashes.{
  master, bob, user, folder, file, foreign, db, token, request, no_snippets, same_order, ordered,
  deleted_row, after, keyed, deletes, moved_to_trash,
}

abbrev back : Db
back = record folder { change_count = 2 } ∷ record file { change_count = 2 } ∷ foreign ∷ []

undeleted_all : undelete_object token 3 (deleted_row folder false) after ≡ ok back
unfolding undelete_object get_object find text_eq write accepts fire set_object restored
    undelete_ancestor_children hidden_children descend uncover uncovered
undeleted_all = refl

taken_back :
    remove_object_from_trash sum_hash master token same_order no_snippets bob user 3 request after
    ≡ some (back, 0)
unfolding remove_object_from_trash settle get_object find text_eq
taken_back =
    let allowed : is_user_allowed_to_delete sum_hash master bob folder.permissions ≡ true =
      deletes in
    let through = undeleted_all in ground arith

-- What all rows of a database have.
get-all :
    (P : OdObject → Bool) (p : Text) (db : Db) (o : OdObject)
    → all P db ≡ true
    → get_object p db ≡ some o
    → P o ≡ true
unfolding get_object find
get-all P [] db o h here = absurd (ground arith)
get-all P (c ∷ p) [] o h here = absurd (ground arith)
get-all P (c ∷ p) (q ∷ db) o h here = elim (Bool-cases (text_eq q.id (c ∷ p))) [
  | inl same ↦ let e : q ≡ o = grind arith in subst (λ x. P x ≡ true) e (ground arith)
  | inr other ↦ get-all P (c ∷ p) db o (ground arith) (ground arith)
]

-- Every row stands at the root or in the folder.
unfoldable at_home : OdObject → Bool
at_home o = text_eq o.parent_id [] || text_eq o.parent_id (codes "a")

home-Rooted : (o : OdObject) → at_home o ≡ true → Rooted db o.parent_id
unfolding at_home Rooted get_object find text_eq
home-Rooted o h = elim (Bool-cases (text_eq o.parent_id [])) [
  | inl top ↦ subst (Rooted db) (sym (text_eq_sound o.parent_id [] top)) ([], root)
  | inr below ↦
      let inside : text_eq o.parent_id (codes "a") ≡ true = ground arith in
      subst (Rooted db) (sym (text_eq_sound o.parent_id (codes "a") inside))
        (folder ∷ [], up refl root)
]

db-Sound : Sound db
unfolding Flagged flagged CoveredBut waiting Forest Rooted at_home text_eq
db-Sound = record {
  keyed = keyed;
  forest = λ p o here.
      let parent = home-Rooted o (get-all at_home p db o refl here) in
      (o ∷ parent.0, up here parent.1);
  flags = λ p o here. get-all flagged p db o refl here;
  covered = λ p o here waits.
      absurd (let quiet = get-all (λ q. not (waiting q)) p db o refl here in ground arith);
}

reached-Sound_example : Sound back
reached-Sound_example =
    reached-Sound sum_hash master token same_order no_snippets db back ordered
      (step
        (trashes bob user
          (record {
            field_name = codes "f_share";
            treatment = codes "allowed";
            values = codes "cnBob" ∷ [];
          }
            ∷ [])
          4 request 0 refl moved_to_trash)
        (step (restores bob user 3 request 0 taken_back) start))
      db-Sound

-- The folder and the file went to the trash each for itself, the file first.
abbrev both_deleted : Db
both_deleted = deleted_row folder false ∷ deleted_row file false ∷ foreign ∷ []

-- The file comes back into the folder that stays in the trash.
restored_under_deleted :
    undelete_object token 1 (deleted_row file false) both_deleted
    ≡ ok (deleted_row folder false ∷ record file { change_count = 2 } ∷ foreign ∷ [])
unfolding undelete_object get_object find text_eq write accepts fire set_object restored
    undelete_ancestor_children hidden_children descend
restored_under_deleted = refl

-- It cannot be deleted forever: the trigger wants a parent that is not deleted, for a row that stays deleted.
not_expunged :
    expunge_object token same_order no_snippets 1 user (deleted_row file false) true both_deleted
    ≡ err failed
unfolding expunge_object get_object find text_eq write accepts fetch with_snippets marked_expunged
not_expunged = refl
