-- ===== src/Trash.antt =====
-- The trash: dao/dao.DeleteObject.go, dao/dao.ExpungeObject.go and dao/dao.GetChildObjects.go on the rows of
-- Tree.antt, with the trigger on updates (cmd/odrive-database/schema/triggers.object.tu_object.create.sql).
-- A transaction that fails is rolled back: its error stands without a database. `order` is the ORDER BY of
-- the paged query, `token` the trigger's MD5, `stored_snippets` the query of a user's snippets. The recursion
-- over descendants takes fuel, and the loop over pages of children takes rounds.
pub mod Writes
pub mod Selected
pub mod Children
pub mod Marked
pub mod Deleted
pub mod Guarded
pub mod Covered
pub mod Uncovered
pub mod Restored
pub mod Sound
pub mod Counted
pub mod Ends
pub mod Ended
pub mod Restore
pub mod Empty
pub mod Handlers
pub mod Cases
use ods.Common.{
  ℕ, zero, suc, ◌+◌, Bool, true, false, not, ◌&&◌, ◌||◌, ◌==◌, Option, none, some, List, [], ◌∷◌,
  Text, codes, text_eq, is_empty, any, filter, length, ltb, pos, if◌then◌else◌, Result, ok, err,
  ◌>>=◌,
}
use ods.Models.Permission.{OdObjectPermission}
use ods.Access.{same_fold}
use ods.Paging.{get_page_count}
use ods.Paging.Pages.{page}
use ods.Tree.{OdObject, Db, find, get_object, set_object}

pub record RawSnippetFields : Type 0 where
  pub field_name : Text
  pub treatment : Text
  pub values : List Text

pub record OdUser : Type 0 where
  pub distinguished_name : Text
  pub snippets : Option (List RawSnippetFields)

-- The last snippet of the field; without one its values are none.
unfoldable pub share_values : List Text → List RawSnippetFields → List Text
share_values values [] = values
share_values values (s ∷ snippets) =
    share_values (if text_eq s.field_name (codes "f_share") then s.values else values) snippets

unfoldable pub is_user_member_of : OdUser → Text → Bool
unfolding share_values
is_user_member_of user group_name = elim user.snippets [
  | none ↦ false
  | some snippets ↦ any (λ value. same_fold value group_name) (share_values [] snippets)
]

-- The permissions that are loaded with an object.
unfoldable pub loaded : List OdObjectPermission → List OdObjectPermission
loaded = filter (λ p. not p.is_deleted)

-- authorizedToDelete, for a child
unfoldable pub authorized_to_delete : OdUser → OdObject → Bool
unfolding is_user_member_of loaded
authorized_to_delete user child =
    any (λ p. p.allow_delete && is_user_member_of user p.grantee) (loaded child.permissions)

pub data Stop : Type 0 where
  -- an error of the validation, the database or its trigger
  failed : Stop
  -- more calls or rounds than the fuel
  unending : Stop

-- The trigger on the new row: a count and a token, and an owner where there is none.
unfoldable pub fire : (token : Text → ℕ → Text) → (new old : OdObject) → OdObject
fire token new old = record new {
  owned_by = if is_empty new.owned_by then new.created_by else new.owned_by;
  change_count = old.change_count + 1;
  change_token = token old.id (old.change_count + 1);
}

-- The trigger's test of the parent: it is there, and not deleted unless the row's isDeleted changes.
unfoldable pub accepts : (new old : OdObject) → Db → Bool
unfolding get_object
accepts new old db = if is_empty new.parent_id then true else elim (get_object new.parent_id db) [
  | none ↦ false
  | some parent ↦
      not parent.is_deleted
      || ((new.is_deleted && not old.is_deleted) || (old.is_deleted && not new.is_deleted))
]

-- An update of the row `old` that is there.
unfoldable pub write : (token : Text → ℕ → Text) → (new old : OdObject) → Db → Result Stop Db
unfolding accepts fire
write token new old db =
    if accepts new old db then ok (set_object (fire token new old) db) else err failed

-- the rows that getChildObjectsInTransaction selects
unfoldable pub undeleted_children : Text → Db → Db
undeleted_children id db = filter (λ o. not o.is_deleted && text_eq o.parent_id id) db

abbrev pub page_size : ℕ
page_size = 100

-- What is done with a child.
abbrev pub Act : Type 0
Act = OdObject → Db → Result Stop Db

module _ (user : OdUser) (modified_by : Text) (act : Act) where
  -- One child of a page that was read from `seen`, and whether it was acted upon.
  unfoldable pub visit_child : (seen : Db) → OdObject → Db → Result Stop (Db × Bool)
  unfolding get_object authorized_to_delete
  visit_child seen o db = elim (get_object o.id seen) [
    | none ↦ ok (db, false)
    | some child ↦
        if not child.is_ancestor_deleted && authorized_to_delete user child
        then (act (record child { modified_by = modified_by }) db >>= λ after. ok (after, true))
        else ok (db, false)
  ]

  -- The children of a page, with deletedAtLeastOne.
  unfoldable pub visit_children : (seen : Db) → List OdObject → Bool → Db → Result Stop (Db × Bool)
  unfolding visit_child
  visit_children seen [] deleted_at_least_one db = ok (db, deleted_at_least_one)
  visit_children seen (o ∷ os) deleted_at_least_one db =
      visit_child seen o db >>= λ s. visit_children seen os s.1 s.0

  -- The loop over the pages of children.
  unfoldable pub process_children :
      (order : Db → Db) → (rounds : ℕ) → Text → (page_number : ℕ) → Bool → Db → Result Stop Db
  unfolding undeleted_children page get_page_count visit_children
  process_children order zero id page_number deleted_at_least_one db = err unending
  process_children order (suc rounds) id page_number deleted_at_least_one db =
      let rows = order (undeleted_children id db) in
      elim (get_page_count (length rows) page_size) [
        | none ↦ err failed
        | some page_count ↦
            visit_children db (page (pos page_size) rows (pos page_number)) deleted_at_least_one db
            >>= λ s.
                let rest =
                  process_children order rounds id (if s.1 then page_number else page_number + 1)
                    s.1 s.0 in
                if ltb page_number page_count && deleted_at_least_one then rest else ok s.0
      ]

-- getUserSnippets, which is asked on an explicit call only
unfoldable pub with_snippets :
    (stored_snippets : Text → Option (List RawSnippetFields)) → Bool → OdUser → Result Stop OdUser
with_snippets stored_snippets false user = ok user
with_snippets stored_snippets true user = elim user.snippets [
  | some snippets ↦ ok user
  | none ↦ elim (stored_snippets user.distinguished_name) [
    | none ↦ err failed
    | some snippets ↦ ok (record user { snippets = some snippets })
  ]
]

-- The checks before anything is changed, and the row.
unfoldable pub fetch : OdObject → Db → Result Stop OdObject
unfolding get_object
fetch object db =
    if is_empty object.id || is_empty object.change_token
    then err failed
    else elim (get_object object.id db) [
      | none ↦ err failed
      | some current ↦
          if text_eq object.change_token current.change_token then ok current else err failed
    ]

-- the row as DeleteObject marks it
unfoldable pub marked_deleted : OdObject → Bool → OdObject → OdObject
marked_deleted object explicit current = record current {
  modified_by = object.modified_by;
  is_deleted = true;
  is_ancestor_deleted = not explicit;
}

-- the row as ExpungeObject marks it
unfoldable pub marked_expunged : OdObject → Bool → OdObject → OdObject
marked_expunged object explicit current = record current {
  modified_by = object.modified_by;
  is_deleted = true;
  is_ancestor_deleted = not explicit;
  is_expunged = true;
}

module _ (token : Text → ℕ → Text) (order : Db → Db)
    (stored_snippets : Text → Option (List RawSnippetFields)) where
  -- deleteObjectInTransaction
  unfoldable pub delete_object :
      (fuel : ℕ) → OdUser → OdObject → (explicit : Bool) → Db → Result Stop Db
  unfolding fetch with_snippets write marked_deleted process_children
  delete_object zero user object explicit db = err unending
  delete_object (suc fuel) user object explicit db = fetch object db >>= λ current.
      if current.is_deleted
      then ok db
      else (with_snippets stored_snippets explicit user >>= λ user.
          write token (marked_deleted object explicit current) current db >>= λ db.
          process_children user object.modified_by
            (λ child db. delete_object fuel user child false db) order (suc fuel) current.id 1 true
            db)

  -- expungeObjectInTransaction
  unfoldable pub expunge_object :
      (fuel : ℕ) → OdUser → OdObject → (explicit : Bool) → Db → Result Stop Db
  unfolding fetch with_snippets write marked_expunged process_children
  expunge_object zero user object explicit db = err unending
  expunge_object (suc fuel) user object explicit db = fetch object db >>= λ current.
      if current.is_expunged
      then ok db
      else (with_snippets stored_snippets explicit user >>= λ user.
          write token (marked_expunged object explicit current) current db >>= λ db.
          process_children user object.modified_by
            (λ child db. expunge_object fuel user child false db) order (suc fuel) current.id 1 true
            db)
