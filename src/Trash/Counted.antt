-- ===== src/Trash/Counted.antt =====
-- How many rows are not deleted, and when a page of the children's query has a row (dao/dao.GetChildObjects.go).
use ods.Common.{
  ℕ, zero, suc, ◌+◌, ◌*◌, ◌<◌, ◌≤◌, true, false, some, [], ◌∷◌, Text, text_eq, length, take, drop,
  ltb, ltb→lt, pos, if◌then◌else◌, ◌≡◌, ◌≢◌, refl, subst, inl, inr, arith, Bool-cases,
}
use ods.Paging.{
  get_page_count, get_limit, get_offset, get_sanitized_page_number, get_sanitized_page_size,
}
use ods.Paging.Pages.{page, get_page_count_least}
use ods.Tree.{OdObject, Db, find, get_object, set_object}
use ods.Trash.{page_size}

unfoldable pub undeleted : Db → ℕ
undeleted [] = 0
undeleted (o ∷ db) = let rest = undeleted db in if o.is_deleted then rest else suc rest

undeleted-find :
    (n o : OdObject) (db : Db)
    → find n.id db ≡ some o
    → o.is_deleted ≡ false
    → n.is_deleted ≡ true
    → undeleted (set_object n db) + 1 ≡ undeleted db
unfolding find undeleted set_object
undeleted-find n o [] here alive dead = absurd cc
undeleted-find n o (q ∷ db) here alive dead =
    let ih = undeleted-find n o db in
    elim (Bool-cases (text_eq q.id n.id)) [
      | inl same ↦
          let e : o ≡ q = grind arith in
          let alive' : q.is_deleted ≡ false = subst (λ x. x.is_deleted ≡ false) e alive in
          ground arith
      | inr other ↦
          let less = ih (ground arith) alive dead in
          elim (Bool-cases q.is_deleted) [ inl d ↦ ground arith | inr a ↦ ground arith ]
    ]

get-find : (p : Text) (o : OdObject) (db : Db) → get_object p db ≡ some o → find p db ≡ some o
unfolding get_object
get-find [] o db here = cc
get-find (c ∷ p) o db here = here

pub undeleted-set :
    (n o : OdObject) (db : Db)
    → get_object n.id db ≡ some o
    → o.is_deleted ≡ false
    → n.is_deleted ≡ true
    → undeleted (set_object n db) + 1 ≡ undeleted db
undeleted-set n o db here = undeleted-find n o db (get-find n.id o db here)

take-nonempty : (k : ℕ) (m : ℕ) (xs : Db) → k < length xs → 0 < m → take m (drop k xs) ≢ []
take-nonempty k zero xs low positive e = absurd (omega arith)
take-nonempty k (suc m) [] low positive e = absurd (omega arith)
take-nonempty zero (suc m) (x ∷ xs) low positive e = absurd cc
take-nonempty (suc k) (suc m) (x ∷ xs) low positive e =
    take-nonempty k (suc m) xs (omega arith) positive e

offset_of : (n : ℕ) → 0 < n → get_offset (pos n) (pos page_size) + page_size ≡ n * page_size
unfolding get_offset get_sanitized_page_number get_sanitized_page_size
offset_of zero low = absurd (omega arith)
offset_of (suc n) low = ground arith

limit_of : (n : ℕ) → get_limit (pos n) (pos page_size) ≡ page_size
unfolding get_limit get_sanitized_page_size
limit_of n = refl

pub nonempty-page :
    (n count : ℕ) (rows : Db)
    → get_page_count (length rows) page_size ≡ some count
    → 0 < n
    → n < count
    → page (pos page_size) rows (pos n) ≢ []
unfolding page
nonempty-page n count rows counted low more =
    let (c, counted', least) = get_page_count_least (length rows) page_size (omega arith) in
    let same : c ≡ count = cc in
    let rows_left : n * page_size < length rows =
      elim (Bool-cases (ltb (n * page_size) (length rows))) [
        | inl yes_more ↦ ltb→lt (n * page_size) (length rows) yes_more
        | inr done ↦ absurd (
            let few : length rows ≤ n * page_size = ground arith in
            let enough = (least n).0 few in omega arith)
      ] in
    let at = offset_of n low in
    let size = limit_of n in
    take-nonempty (get_offset (pos n) (pos page_size)) (get_limit (pos n) (pos page_size)) rows
      (omega arith) (omega arith)
