-- ===== src/Trash/Selected.antt =====
-- The rows that getChildObjectsInTransaction (dao/dao.GetChildObjects.go) selects, and reads again by identifier.
use ods.Common.{
  ℕ, zero, suc, Bool, true, false, not, ◌&&◌, Option, none, some, List, [], ◌∷◌, Text, text_eq,
  text_eq_self, text_eq_comm-false, all, filter, take, drop, pos, ◌≡◌, refl, ◌∙◌, ◌⊎◌, ap, inl, inr,
  arith, Bool-cases,
}
use ods.Paging.{get_limit, get_offset}
use ods.Paging.Pages.{page}
use ods.Tree.{OdObject, Db, find, get_object}
use ods.Trash.{undeleted_children, page_size}
use ods.Trash.Writes.{distinct}

module _ {ℓ} {A : Type ℓ} where
  pub all-take : (P : A → Bool) (k : ℕ) (xs : List A) → all P xs ≡ true → all P (take k xs) ≡ true
  all-take P zero xs h = refl
  all-take P (suc k) [] h = refl
  all-take P (suc k) (x ∷ xs) h = let ih = all-take P k xs in ground arith

  pub all-drop : (P : A → Bool) (k : ℕ) (xs : List A) → all P xs ≡ true → all P (drop k xs) ≡ true
  all-drop P zero xs h = h
  all-drop P (suc k) [] h = refl
  all-drop P (suc k) (x ∷ xs) h = let ih = all-drop P k xs in ground arith

  pub all-page :
      (P : A → Bool) (n : ℕ) (xs : List A)
      → all P xs ≡ true
      → all P (page (pos page_size) xs (pos n)) ≡ true
  unfolding page
  all-page P n xs h =
      let size = get_limit (pos n) (pos page_size) in
      let start = get_offset (pos n) (pos page_size) in
      all-take P size (drop start xs) (all-drop P start xs h)

-- The row that is read for a selected one is an undeleted child.
unfoldable pub is_child : (id : Text) → Option OdObject → Bool
is_child id none = true
is_child id (some c) = text_eq c.parent_id id && not c.is_deleted

unfoldable pub reads_child : (id : Text) → Db → OdObject → Bool
unfolding is_child get_object
reads_child id db o = is_child id (get_object o.id db)

get-cons_other :
    (q : OdObject) (p : Text) (db : Db)
    → text_eq q.id p ≡ false
    → get_object p (q ∷ db) ≡ get_object p db
unfolding get_object find
get-cons_other q [] db other = refl
get-cons_other q (c ∷ p) db other = ground arith

get-cons_same :
    (q : OdObject) (p : Text) (db : Db)
    → text_eq q.id p ≡ true
    → (get_object p (q ∷ db) ≡ none) ⊎ (get_object p (q ∷ db) ≡ some q)
unfolding get_object find
get-cons_same q [] db same = inl refl
get-cons_same q (c ∷ p) db same = inr (ground arith)

-- One more row in front, with another identifier.
reads-cons :
    (id : Text) (q : OdObject) (db rows : Db)
    → all (λ o. not (text_eq o.id q.id)) rows ≡ true
    → all (reads_child id db) rows ≡ true
    → all (reads_child id (q ∷ db)) rows ≡ true
unfolding reads_child
reads-cons id q db [] apart h = refl
reads-cons id q db (o ∷ rows) apart h =
    let ih = reads-cons id q db rows (ground arith) (ground arith) in
    let other : text_eq o.id q.id ≡ false = ground arith in
    let other' : text_eq q.id o.id ≡ false = text_eq_comm-false o.id q.id other in
    let e : reads_child id (q ∷ db) o ≡ reads_child id db o =
      ap (is_child id) (get-cons_other q o.id db other') in
    ground arith

reads_self :
    (id : Text) (q : OdObject) (db : Db)
    → not q.is_deleted && text_eq q.parent_id id ≡ true
    → reads_child id (q ∷ db) q ≡ true
unfolding reads_child is_child
reads_self id q db selected = elim (get-cons_same q q.id db (text_eq_self q.id)) [
  | inl none_there ↦ ap (is_child id) none_there
  | inr there ↦ ap (is_child id) there ∙ (let e : is_child id (some q) ≡ true = ground arith in e)
]

all-filter : (P Q : OdObject → Bool) (rows : Db) → all P rows ≡ true → all P (filter Q rows) ≡ true
all-filter P Q [] h = refl
all-filter P Q (o ∷ rows) h = let ih = all-filter P Q rows in ground arith

pub reads-selected :
    (id : Text) (db : Db)
    → distinct db ≡ true
    → all (reads_child id db) (undeleted_children id db) ≡ true
unfolding distinct undeleted_children
reads-selected id [] d = refl
reads-selected id (q ∷ db) d =
    let ih = reads-selected id db (ground arith) in
    let apart =
      all-filter (λ o. not (text_eq o.id q.id)) (λ o. not o.is_deleted && text_eq o.parent_id id) db
        (ground arith) in
    let rest = reads-cons id q db (undeleted_children id db) apart ih in
    elim (Bool-cases (not q.is_deleted && text_eq q.parent_id id)) [
      | inr skipped ↦ ground arith
      | inl selected ↦
          let first : reads_child id (q ∷ db) q ≡ true = reads_self id q db selected in ground arith
    ]
