-- ===== src/Reading/Crumbs.antt =====
-- Which parents getObject (server/getObject.go) shows.
use ods.Common.{
  ℕ, ◌<◌, Bool, true, false, ◌||◌, ◌&&◌, not, is_empty, ◌⊎◌, Option, none, some, List, [], ◌∷◌,
  ◌++◌, Text, length, any, append-nil, append_assoc, if◌then◌else◌, ◌≡◌, refl, ap, ◌∙◌, arith,
  Bool-cases, inl, inr,
}
use mathlib.Core.List.{reverse, reverse-cons, reverse-reverse}
use ods.Crypto.{Sha256}
use ods.Access.{Caller, is_user_allowed_to_read}
use ods.Tree.{OdObject, Db, get_object}
use ods.Tree.Walk.{Lineage}
use ods.Tree.Parents.{Broken, told, get_parents_lem}
use ods.Reading.{
  refused, shown, is_expunged_or_ancestor_deleted_err, err_on_deleted_parents,
  breadcrumbs_from_parents, may_see, redact_from, redact_parents, with_parents, read_object,
}

any-append : (P : OdObject → Bool) (xs ys : List OdObject) → any P (xs ++ ys) ≡ any P xs || any P ys
any-append P [] ys = refl
any-append P (x ∷ xs) ys = let ih = any-append P xs ys in ground arith

any-reverse : (P : OdObject → Bool) (xs : List OdObject) → any P (reverse xs) ≡ any P xs
any-reverse P [] = refl
any-reverse P (x ∷ xs) =
    let e : any P (reverse (x ∷ xs)) ≡ any P (reverse xs ++ (x ∷ [])) =
      ap (any P) (reverse-cons x xs) in
    let a = any-append P (reverse xs) (x ∷ []) in let ih = any-reverse P xs in ground arith

deleted_parents :
    (parents : List OdObject)
    → err_on_deleted_parents parents ≡ (if any (λ p. p.is_deleted) parents then some 409 else none)
unfolding err_on_deleted_parents
deleted_parents [] = refl
deleted_parents (p ∷ parents) = let ih = deleted_parents parents in ground arith

-- The objects from the nearest parent up to the first that the caller may not see.
unfoldable pub visible : (OdObject → Bool) → List OdObject → List OdObject
visible see [] = []
visible see (p ∷ parents) = let rest = visible see parents in if see p then p ∷ rest else []

module _ (H : Sha256) (master_key : Text) (caller : Caller)
    (acm_error : Text → OdObject → Option Text) where
  redact_from_lem :
      (l before : List OdObject)
      → redact_from H master_key caller acm_error l before
        ≡ reverse (visible (may_see H master_key caller acm_error) l) ++ before
  unfolding redact_from visible
  redact_from_lem [] before = refl
  redact_from_lem (p ∷ l) before =
      let see = may_see H master_key caller acm_error in
      elim (Bool-cases (see p)) [
        | inr hidden ↦ ground arith
        | inl seen ↦
            let ih = redact_from_lem l (p ∷ before) in
            let order : reverse (p ∷ visible see l) ++ before
                ≡ reverse (visible see l) ++ (p ∷ before) =
              ap (λ r. r ++ before) (reverse-cons p (visible see l))
              ∙ append_assoc (reverse (visible see l)) (p ∷ []) before in
            ground arith
      ]

  redact_parents_lem :
      (l : List OdObject)
      → redact_parents H master_key caller acm_error (reverse l)
        ≡ reverse (visible (may_see H master_key caller acm_error) l)
  unfolding redact_parents
  redact_parents_lem l =
      ap (λ x. redact_from H master_key caller acm_error x []) (reverse-reverse l)
      ∙ (redact_from_lem l []
          ∙ append-nil (reverse (visible (may_see H master_key caller acm_error) l)))

-- getObject of an object that the caller may read, with an ACM that the service passes, which is not deleted, and whose
-- chain of parents goes up to the root, or to a parent that is not there: where the object has a parent and the
-- transaction for the parents cannot begin the answer is 500; where a parent of the whole chain is deleted it is
-- 409; and else it is the object, with breadcrumbs of exactly those parents, the root first, that stand below the
-- nearest one that the caller may not read or whose ACM does not pass. Of a chain with a parent that is not there
-- no parent counts: the object is shown without breadcrumbs.
pub read_object_lem :
    (H : Sha256) (master_key : Text) (caller : Caller) (acm_error : Text → OdObject → Option Text)
    (begin_fails : Bool) (fuel : ℕ) (id : Text) (db : Db) (o : OdObject) (l : List OdObject)
    (chain : Lineage db o.parent_id l ⊎ Broken db o.parent_id l)
    → get_object id db ≡ some o
    → is_user_allowed_to_read H master_key caller o.permissions ≡ true
    → acm_error caller.distinguished_name o ≡ none
    → o.is_expunged ≡ false
    → o.is_ancestor_deleted ≡ false
    → o.is_deleted ≡ false
    → length l < fuel
    → read_object H master_key caller acm_error begin_fails fuel id db ≡ (
        if not (is_empty o.parent_id) && begin_fails
        then refused 500
        else if any (λ p. p.is_deleted) (told chain)
        then refused 409
        else shown o (
            breadcrumbs_from_parents
              (reverse (visible (may_see H master_key caller acm_error) (told chain)))))
unfolding read_object is_expunged_or_ancestor_deleted_err with_parents
read_object_lem H master_key caller acm_error begin_fails fuel id db o l chain here readable passes
      unexpunged shown' alive enough =
    let parents = get_parents_lem begin_fails db o l fuel chain enough in
    let some_deleted = deleted_parents (reverse (told chain)) in
    let same = any-reverse (λ p. p.is_deleted) (told chain) in
    let crumbs =
      ap breadcrumbs_from_parents (redact_parents_lem H master_key caller acm_error (told chain)) in
    elim (Bool-cases (not (is_empty o.parent_id) && begin_fails)) [
      | inl unbegun ↦ ground arith
      | inr begun ↦ elim (Bool-cases (any (λ p. p.is_deleted) (told chain))) [
        | inl deleted ↦ ground arith
        | inr undeleted ↦ ground arith
      ]
    ]
