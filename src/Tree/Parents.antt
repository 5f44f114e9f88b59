-- ===== src/Tree/Parents.antt =====
-- GetParents (dao/dao.GetParents.go) against the chain of parents.
use ods.Common.{
  ℕ, zero, suc, ◌<◌, Bool, false, not, ◌&&◌, none, some, ◌⊎◌, inl, inr, if◌then◌else◌, List, [],
  ◌∷◌, ◌++◌, Text, length, is_empty, ◌≡◌, refl, sym, ap, ◌∙◌, arith, append_assoc,
}
use mathlib.Core.List.{reverse, reverse-cons}
use ods.Tree.{
  OdObject, Db, get_object, parents_are, parent_missing, parents_given, no_transaction,
  parents_from, without_error, get_parents,
}
use ods.Tree.Walk.{Lineage, root, up}

Lineage-top : (db : Db) (p : Text) → Lineage db p [] → p ≡ []
Lineage-top db _ root = refl

Lineage-next :
    (db : Db) (p : Text) (o : OdObject) (l : List OdObject)
    → Lineage db p (o ∷ l)
    → (get_object p db ≡ some o) × Lineage db o.parent_id l
Lineage-next db p o l (up here rest) = (here, rest)

Lineage-more :
    (db : Db) (p : Text) (o : OdObject) (l : List OdObject)
    → Lineage db p (o ∷ l)
    → is_empty p ≡ false
unfolding get_object
Lineage-more db [] o l (up here rest) = cc
Lineage-more db (c ∷ p) o l (up here rest) = refl

parents_from_lem :
    (db : Db) (p : Text) (l before : List OdObject) (o : OdObject) (fuel : ℕ)
    → get_object p db ≡ some o
    → Lineage db o.parent_id l
    → length l < fuel
    → parents_from fuel db p before ≡ parents_are (reverse l ++ (o ∷ before))
unfolding parents_from
parents_from_lem db p l before o zero here chain enough = absurd (ground arith)
parents_from_lem db p [] before o (suc fuel) here chain enough =
    let top : o.parent_id ≡ [] = Lineage-top db o.parent_id chain in ground arith
parents_from_lem db p (q ∷ l) before o (suc fuel) here chain enough =
    let (next, rest) = Lineage-next db o.parent_id q l chain in
    let more = Lineage-more db o.parent_id q l chain in
    let ih = parents_from_lem db o.parent_id l (o ∷ before) q fuel next rest (ground arith) in
    let order : reverse (q ∷ l) ++ (o ∷ before) ≡ reverse l ++ (q ∷ (o ∷ before)) =
      ap (λ r. r ++ (o ∷ before)) (reverse-cons q l)
      ∙ append_assoc (reverse l) (q ∷ []) (o ∷ before) in
    let step : parents_from (suc fuel) db p before ≡ parents_from fuel db o.parent_id (o ∷ before) =
      ground arith in
    step ∙ (ih ∙ ap parents_are (sym order))

-- The chain of parents ends at a parent that is not there, after the objects of the list.
pub data Broken : Db → Text → List OdObject → Type 0 where
  gap : {db : Db} {p : Text} → is_empty p ≡ false → get_object p db ≡ none → Broken db p []
  above :
      {db : Db} {p : Text} {o : OdObject} {l : List OdObject}
      → get_object p db ≡ some o
      → Broken db o.parent_id l
      → Broken db p (o ∷ l)

Broken-named : (db : Db) (p : Text) (l : List OdObject) → Broken db p l → is_empty p ≡ false
unfolding get_object
Broken-named db p _ (gap named gone) = named
Broken-named db [] _ (above here rest) = cc
Broken-named db (c ∷ p) _ (above here rest) = refl

parents_from-Broken :
    (db : Db) (p : Text) (l before : List OdObject) (fuel : ℕ)
    → Broken db p l
    → length l < fuel
    → parents_from fuel db p before ≡ parent_missing
unfolding parents_from
parents_from-Broken db p l before zero chain enough = absurd (ground arith)
parents_from-Broken db p _ before (suc fuel) (gap named gone) enough = ground arith
parents_from-Broken db p _ before (suc fuel) (above {o = o} {l = l} here rest) enough =
    let more = Broken-named db o.parent_id l rest in
    let ih = parents_from-Broken db o.parent_id l (o ∷ before) fuel rest (ground arith) in
    ground arith

-- What is told of the chain: all of it, or nothing where it is broken.
unfoldable pub told :
    {db : Db} {p : Text} {l : List OdObject} → Lineage db p l ⊎ Broken db p l → List OdObject
told {l = l} (inl whole) = l
told (inr broken) = []

-- GetParents, within one step more than there are objects in the chain of parents of an object, which goes up to
-- the root or to a parent that is not there: where the object has a parent and the transaction cannot begin,
-- there is an error; else there is none, and the parents are the whole chain, the object at the root first, or
-- none of it where a parent is not there.
pub get_parents_lem :
    (begin_fails : Bool) (db : Db) (child : OdObject) (l : List OdObject) (fuel : ℕ)
    (chain : Lineage db child.parent_id l ⊎ Broken db child.parent_id l)
    → length l < fuel
    → get_parents begin_fails fuel db child ≡ (
        if not (is_empty child.parent_id) && begin_fails
        then no_transaction
        else parents_given (reverse (told chain)))
unfolding get_parents without_error told
get_parents_lem begin_fails db child l fuel (inr broken) enough =
    let more = Broken-named db child.parent_id l broken in
    let missing = parents_from-Broken db child.parent_id l [] fuel broken enough in ground arith
get_parents_lem begin_fails db child [] fuel (inl chain) enough =
    let top : child.parent_id ≡ [] = Lineage-top db child.parent_id chain in ground arith
get_parents_lem begin_fails db child (o ∷ l) fuel (inl chain) enough =
    let (next, rest) = Lineage-next db child.parent_id o l chain in
    let more = Lineage-more db child.parent_id o l chain in
    let all_of_them : parents_from fuel db child.parent_id [] ≡ parents_are (reverse (o ∷ l)) =
      parents_from_lem db child.parent_id l [] o fuel next rest (ground arith)
      ∙ ap parents_are (sym (reverse-cons o l)) in
    ground arith
