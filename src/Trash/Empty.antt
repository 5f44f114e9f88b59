-- ===== src/Trash/Empty.antt =====
-- dao/dao.ExpungeDeletedByUser.go: the roots of a user's trash are expunged, a page to a transaction. `trashed` is the
-- query of dao/dao.GetTrashedObjectsByUser.go for the first page, with its tables of users and ACMs.
use ods.Common.{
  ℕ, zero, suc, ◌==◌, Bool, true, false, Option, none, some, List, [], ◌∷◌, ◌++◌, Text, length, ℤ,
  pos, ltb_ℤ, if◌then◌else◌, ◌≡◌, ◌<◌, ap, ◌∙◌, arith, Result, ok, err, ◌>>=◌,
}
use ods.Paging.{get_page_count, get_sanitized_page_size}
use ods.Paging.Pages.{get_page_count_least}
use ods.Tree.{OdObject, Db}
use ods.Trash.{OdUser, RawSnippetFields, Stop, failed, unending, expunge_object}

-- What a transaction expunged, with the PageCount that it tells.
pub record Expunged : Type 0 where
  pub objects : List OdObject
  pub page_count : ℕ

module _ (token : Text → ℕ → Text) (order : Db → Db)
    (stored_snippets : Text → Option (List RawSnippetFields)) (trashed : ℤ → Db → List OdObject)
    (fuel : ℕ) (user : OdUser) where
  -- The loop of expungeDeletedByUserInTransaction: TotalRows is set after PageCount is computed from it.
  unfoldable pub expunge_rows : ℤ → List OdObject → Expunged → Db → Result Stop (Db × Expunged)
  unfolding expunge_object get_page_count
  expunge_rows page_size [] expunged db = ok (db, expunged)
  expunge_rows page_size (r ∷ rows) expunged db =
      expunge_object token order stored_snippets fuel user r true db >>= λ after.
      elim (get_page_count (length expunged.objects) (get_sanitized_page_size page_size)) [
        | none ↦ err failed
        | some page_count ↦
            expunge_rows page_size rows
              (record { objects = expunged.objects ++ (r ∷ []); page_count = page_count }) after
      ]

  -- The rounds of ExpungeDeletedByUser: the database, what is reported, and whether it ends with an error.
  unfoldable pub expunge_rounds :
      (rounds : ℕ) → ℤ → (overall : List OdObject) → Db → Option (Db × (List OdObject × Bool))
  unfolding expunge_rows
  expunge_rounds zero page_size overall db = none
  expunge_rounds (suc rounds) page_size overall db =
      elim (expunge_rows page_size (trashed page_size db) (record { objects = []; page_count = 0 })
        db) [
          | err failed ↦ some (db, (overall, true))
          | err unending ↦ none
          | ok (after, expunged) ↦
              let rest = expunge_rounds rounds page_size (overall ++ expunged.objects) after in
              if expunged.page_count == 0 then some (after, (overall, false)) else rest
        ]

  unfoldable pub expunge_deleted_by_user :
      (rounds : ℕ) → ℤ → Db → Option (Db × (List OdObject × Bool))
  unfolding expunge_rounds
  expunge_deleted_by_user rounds page_size db =
      expunge_rounds rounds (if ltb_ℤ (pos 0) page_size then page_size else pos 100) [] db

  no_pages : (size : ℤ) → get_page_count 0 (get_sanitized_page_size size) ≡ some 0
  unfolding get_sanitized_page_size
  no_pages size =
      let positive : 0 < get_sanitized_page_size size = ground arith in
      let (count, counted, least) =
        get_page_count_least 0 (get_sanitized_page_size size) positive in
      let l = (least 0).0 (omega arith) in let e : count ≡ 0 = omega arith in counted ∙ ap some e

  -- A trash that holds one root is emptied, and the answer reports that nothing was: the page count of the transaction
  -- is computed from a total that is not set yet.
  pub one_root_unreported :
      (rounds : ℕ) (page_size : ℤ) (r : OdObject) (db after : Db)
      → ltb_ℤ (pos 0) page_size ≡ true
      → trashed page_size db ≡ r ∷ []
      → expunge_object token order stored_snippets fuel user r true db ≡ ok after
      → expunge_deleted_by_user (suc rounds) page_size db ≡ some (after, ([], false))
  unfolding expunge_deleted_by_user expunge_rounds expunge_rows
  one_root_unreported rounds page_size r db after positive alone through =
      let zero_pages = no_pages page_size in ground arith
