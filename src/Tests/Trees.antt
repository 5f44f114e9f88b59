-- ===== src/Tests/Trees.antt =====
-- A database of a folder with a folder in it, a file, and a folder in the trash, all of bob's.
use ods.Common.{
  ℕ, ◌+◌, Bool, true, false, some, [], ◌∷◌, Text, codes, text_eq, any, to_lower, trim_space,
  if◌then◌else◌, ◌≡◌, refl, ◌⊎◌, arith, Bool-cases, inl, inr, subst,
}
use mathlib.Core.List.{reverse}
use ods.Crypto.{hex_encode, mac_text}
use ods.Models.Flatten.{aac_flatten}
use ods.Models.Permission.{
  OdObjectPermission, empty_permission, calculate_permission_mac, equals_permission_mac,
}
use ods.Access.{
  Caller, visit, visit_all, eligible, relevant, combine, satisfied, grantee_match,
  is_user_allowed_to, is_user_allowed_to_update, full, is_user_allowed_to_update_with_permission,
  is_user_allowed_to_create,
}
use ods.Tree.{
  OdObject, Db, find, get_object, set_object, is_valid_parent, circular, clear,
  is_parent_id_descendent, parents_given, parents_from, without_error, get_parents,
}
use ods.Tree.Walk.{Lineage, root, up, is_parent_id_descendent_lem}
use ods.Tree.Parents.{told, get_parents_lem}
use ods.Tree.Move.{MoveRequest, is_user_owner, move_object_raw}
use ods.Tree.Rooted.{Rooted, Forest}
use ods.Tree.Moved.{move_keeps_tree, move_authorized}
use ods.Tree.Answer.{MayMove, move_succeeds}
use ods.Tests.Parameters.{sum_hash, total}

abbrev master : Text
master = codes "master"

abbrev bob : Caller
bob = record { distinguished_name = codes "CN=bob"; groups = [] }

abbrev unsigned : OdObjectPermission
unsigned = record empty_permission {
  grantee = codes "cnbob";
  allow_create = true;
  allow_read = true;
  allow_update = true;
}

abbrev signed : OdObjectPermission
signed = record unsigned { permission_mac = calculate_permission_mac sum_hash master unsigned }

abbrev row : (id parent : Text) → Bool → OdObject
row id parent deleted = record {
  id = id;
  created_by = bob.distinguished_name;
  modified_by = bob.distinguished_name;
  is_deleted = deleted;
  is_ancestor_deleted = false;
  is_expunged = false;
  change_count = 0;
  change_token = codes "t0";
  owned_by = codes "user/CN=bob";
  parent_id = parent;
  permissions = signed ∷ [];
}

abbrev outer : OdObject
outer = row (codes "a") [] false

abbrev inner : OdObject
inner = row (codes "b") (codes "a") false

abbrev file : OdObject
file = row (codes "f") [] false

abbrev trash : OdObject
trash = row (codes "x") [] true

abbrev db : Db
db = outer ∷ inner ∷ file ∷ trash ∷ []

abbrev token : Text → ℕ → Text
token = λ id count. codes "t1"

-- the file into the inner folder
abbrev request : MoveRequest
request = record { id = codes "f"; parent_id = codes "b"; change_token = codes "t0" }

chain : Lineage db (codes "b") (inner ∷ outer ∷ [])
unfolding get_object find text_eq
chain = up refl (up refl root)

is_parent_id_descendent_lem_example :
    is_parent_id_descendent 3 db (codes "f") (codes "b")
    ≡ (if any (λ o. text_eq o.parent_id (codes "f")) (inner ∷ outer ∷ []) then circular else clear)
is_parent_id_descendent_lem_example =
    is_parent_id_descendent_lem db (codes "f") (codes "b") (inner ∷ outer ∷ []) 3 chain
      (omega arith)

get_parents_lem_example :
    get_parents false 3 db (record file { parent_id = codes "b" })
    ≡ parents_given (reverse (inner ∷ outer ∷ []))
unfolding told
get_parents_lem_example =
    get_parents_lem false db (record file { parent_id = codes "b" }) (inner ∷ outer ∷ []) 3
      (inl chain) (omega arith)

-- Without the outer folder the inner one's parent is not there, and nothing is told of the inner one.
parents_swallowed :
    get_parents false 3 (inner ∷ file ∷ []) (record file { parent_id = codes "b" })
    ≡ parents_given []
unfolding get_parents parents_from without_error get_object find text_eq
parents_swallowed = refl

updates : is_user_allowed_to_update sum_hash master bob (signed ∷ []) ≡ true
unfolding is_user_allowed_to_update is_user_allowed_to_update_with_permission is_user_allowed_to
    visit_all visit eligible relevant combine satisfied grantee_match aac_flatten text_eq
    equals_permission_mac calculate_permission_mac mac_text hex_encode total to_lower full
updates = refl

creates : is_user_allowed_to_create sum_hash master bob (signed ∷ []) ≡ true
unfolding is_user_allowed_to_create is_user_allowed_to visit_all visit eligible relevant combine
    satisfied grantee_match aac_flatten text_eq equals_permission_mac calculate_permission_mac
    mac_text hex_encode total to_lower full
creates = refl

may_move : MayMove sum_hash master bob [] request file inner (inner ∷ outer ∷ []) db
unfolding get_object find text_eq is_user_owner trim_space
may_move = record {
  stands = refl;
  updates = updates;
  owns = refl;
  alive = refl;
  current = refl;
  signed = refl;
  named = refl;
  target = refl;
  creates = creates;
  apart = refl;
  chain = chain;
  no_circle = refl;
}

move_succeeds_example :
    (n : OdObject) × (move_object_raw sum_hash master bob [] 3 token request file db
      ≡ some (set_object n db, (n, 0)))
    × (n.id ≡ file.id)
    × (n.parent_id ≡ request.parent_id)
    × (n.change_count ≡ file.change_count + 1)
    × (n.change_token ≡ token file.id (file.change_count + 1))
unfolding text_eq
move_succeeds_example =
    move_succeeds sum_hash master bob [] token 3 request file inner (inner ∷ outer ∷ []) db may_move
      (omega arith) refl refl

file_stands : get_object (codes "f") db ≡ some file
unfolding get_object find text_eq
file_stands = refl

-- Every row's parent has a chain.
ParentsRooted : Db → Db → Type 0
ParentsRooted whole [] = Unit
ParentsRooted whole (o ∷ rows) = Rooted whole o.parent_id × ParentsRooted whole rows

find-Rooted :
    (whole : Db) (p : Text) (rows : Db) (o : OdObject)
    → ParentsRooted whole rows
    → find p rows ≡ some o
    → Rooted whole o.parent_id
unfolding find ParentsRooted
find-Rooted whole p [] o rooted here = absurd (ground arith)
find-Rooted whole p (q ∷ rows) o (first, rest) here = elim (Bool-cases (text_eq q.id p)) [
  | inl same ↦
      let e : q ≡ o = grind arith in subst (λ (x : OdObject). Rooted whole x.parent_id) e first
  | inr other ↦ find-Rooted whole p rows o rest (ground arith)
]

db-Forest : Forest db
unfolding Forest Rooted get_object ParentsRooted find text_eq
db-Forest [] o here = absurd (ground arith)
db-Forest (c ∷ p) o here =
    let parent =
      find-Rooted db (c ∷ p) db o
        (([], root), (((outer ∷ []), up refl root), (([], root), (([], root), tt)))) here in
    (o ∷ parent.0, up here parent.1)

abbrev moved : OdObject
moved = move_succeeds_example.0

move_keeps_tree_example : Forest (set_object moved db)
move_keeps_tree_example =
    move_keeps_tree sum_hash master bob [] token 3 request file db (set_object moved db, (moved, 0))
      db-Forest file_stands move_succeeds_example.1

move_authorized_example :
    (set_object moved db ≡ db)
    ⊎ ((is_user_allowed_to_update sum_hash master bob file.permissions ≡ true)
        × (is_user_owner bob.distinguished_name [] file.owned_by ≡ true)
        × (text_eq request.change_token file.change_token ≡ true)
        × (file.is_deleted ≡ false)
        × (is_valid_parent request.parent_id db ≡ true)
        × ((n : OdObject) × (n.id ≡ file.id)
            × (n.parent_id ≡ request.parent_id)
            × (set_object moved db ≡ set_object n db)))
move_authorized_example =
    move_authorized sum_hash master bob [] token 3 request file db (set_object moved db, (moved, 0))
      file_stands move_succeeds_example.1
