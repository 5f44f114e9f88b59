-- ===== src/Tests/Trashes.antt =====
-- A folder of bob's with a file that he may delete and one that he may not: the folder goes to the trash and back.
use ods.Common.{
  ℕ, Bool, true, false, some, none, [], ◌∷◌, List, Text, codes, text_eq, ◌≡◌, ◌≢◌, refl, Option, ok,
  ◌⊎◌, inl, arith, to_lower,
}
use ods.Crypto.{hex_encode, mac_text}
use ods.Models.Flatten.{aac_flatten}
use ods.Models.Permission.{
  OdObjectPermission, empty_permission, calculate_permission_mac, equals_permission_mac,
}
use ods.Access.{
  Caller, visit, visit_all, eligible, relevant, combine, satisfied, grantee_match,
  is_user_allowed_to, is_user_allowed_to_delete, full,
}
use ods.Paging.{
  get_page_count, count_up, get_limit, get_offset, get_sanitized_page_number,
  get_sanitized_page_size,
}
use ods.Paging.Pages.{page}
use ods.Tree.{OdObject, Db, find, get_object, set_object}
use ods.Trash.{
  RawSnippetFields, OdUser, share_values, is_user_member_of, loaded, authorized_to_delete, fire,
  accepts, write, undeleted_children, visit_child, visit_children, process_children, with_snippets,
  fetch, marked_deleted, delete_object,
}
use ods.Trash.Writes.{distinct}
use ods.Trash.Children.{Ordering}
use ods.Trash.Counted.{undeleted}
use ods.Trash.Marked.{Gone}
use ods.Trash.Ended.{trash_object_ends}
use ods.Trash.Guarded.{deleting_is_guarded}
use ods.Trash.Handlers.{TrashRequest, settle, requested, trash_object}
use ods.Tests.Parameters.{sum_hash, total}

abbrev pub master : Text
master = codes "master"

abbrev pub bob : Caller
bob = record { distinguished_name = codes "CN=bob"; groups = [] }

abbrev pub user : OdUser
user = record {
  distinguished_name = codes "CN=bob";
  snippets = some (
      record {
        field_name = codes "f_share";
        treatment = codes "allowed";
        values = codes "cnBob" ∷ [];
      }
      ∷ []);
}

abbrev unsigned : OdObjectPermission
unsigned = record empty_permission {
  grantee = codes "cnbob";
  allow_read = true;
  allow_delete = true;
}

abbrev pub signed : OdObjectPermission
signed = record unsigned { permission_mac = calculate_permission_mac sum_hash master unsigned }

abbrev pub row : (id parent : Text) → List OdObjectPermission → OdObject
row id parent permissions = record {
  id = id;
  created_by = codes "CN=bob";
  modified_by = codes "CN=bob";
  is_deleted = false;
  is_ancestor_deleted = false;
  is_expunged = false;
  change_count = 0;
  change_token = codes "t";
  owned_by = codes "user/CN=bob";
  parent_id = parent;
  permissions = permissions;
}

abbrev pub folder : OdObject
folder = row (codes "a") [] (signed ∷ [])

abbrev pub file : OdObject
file = row (codes "f") (codes "a") (signed ∷ [])

abbrev pub foreign : OdObject
foreign = row (codes "g") (codes "a") []

abbrev pub db : Db
db = folder ∷ file ∷ foreign ∷ []

abbrev pub token : Text → ℕ → Text
token = λ id count. codes "t"

abbrev pub request : TrashRequest
request = record { id = codes "a"; change_token = codes "t" }

abbrev pub no_snippets : Text → Option (List RawSnippetFields)
no_snippets = λ name. none

abbrev pub same_order : Db → Db
same_order = λ rows. rows

pub ordered : Ordering same_order
ordered P rows h = h

abbrev pub deleted_row : OdObject → Bool → OdObject
deleted_row o hidden = record o {
  is_deleted = true;
  is_ancestor_deleted = hidden;
  change_count = 1;
}

abbrev pub after : Db
after = deleted_row folder false ∷ deleted_row file true ∷ foreign ∷ []

pub keyed : distinct db ≡ true
unfolding distinct text_eq
keyed = refl

few : undeleted db ≡ 3
unfolding undeleted
few = refl

pub deletes : is_user_allowed_to_delete sum_hash master bob (signed ∷ []) ≡ true
unfolding is_user_allowed_to_delete is_user_allowed_to visit_all visit eligible relevant combine
    satisfied grantee_match aac_flatten text_eq equals_permission_mac calculate_permission_mac
    mac_text hex_encode total to_lower full
deletes = refl

trashed : delete_object token same_order no_snippets 4 user folder true db ≡ ok after
unfolding delete_object fetch get_object find text_eq with_snippets write accepts fire set_object
    marked_deleted process_children undeleted_children page get_limit get_offset
    get_sanitized_page_number get_sanitized_page_size get_page_count count_up visit_children
    visit_child authorized_to_delete is_user_member_of share_values loaded to_lower
trashed = refl

pub moved_to_trash :
    trash_object sum_hash master token same_order no_snippets bob user 4 request db
    ≡ some (after, 0)
unfolding trash_object requested settle get_object find text_eq
moved_to_trash =
    let allowed : is_user_allowed_to_delete sum_hash master bob folder.permissions ≡ true =
      deletes in
    let through = trashed in ground arith

deleting_is_guarded_example :
    (m : OdObject) × (get_object (codes "g") after ≡ some m)
    × ((m ≡ foreign)
        ⊎ ((m.is_deleted ≡ true)
            × (((text_eq (codes "g") request.id ≡ true)
                  × (is_user_allowed_to_delete sum_hash master bob foreign.permissions ≡ true))
                ⊎ (authorized_to_delete user foreign ≡ true))))
unfolding get_object find text_eq
deleting_is_guarded_example =
    deleting_is_guarded sum_hash master token same_order no_snippets bob user
      (record {
        field_name = codes "f_share";
        treatment = codes "allowed";
        values = codes "cnBob" ∷ [];
      }
        ∷ [])
      4 request db after 0 (codes "g") foreign ordered refl keyed (inl moved_to_trash) refl

trash_object_ends_example :
    (later : Db) × (code : ℕ) × (trash_object sum_hash master token same_order no_snippets bob user
        4 request db
      ≡ some (later, code))
    × (((code ≡ 0) × Gone request.id later) ⊎ ((code ≢ 0) × (later ≡ db)))
unfolding undeleted
trash_object_ends_example =
    trash_object_ends sum_hash master token same_order no_snippets bob user
      (record {
        field_name = codes "f_share";
        treatment = codes "allowed";
        values = codes "cnBob" ∷ [];
      }
        ∷ [])
      4 request db ordered refl keyed (omega arith)
