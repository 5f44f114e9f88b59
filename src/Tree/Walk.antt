-- ===== src/Tree/Walk.antt =====
-- IsParentIDADescendent (dao/dao.Logic.go) against the chain of parents that it walks.
use ods.Common.{
  ℕ, zero, suc, ◌<◌, some, List, [], ◌∷◌, Text, text_eq, length, any, if◌then◌else◌, ◌≡◌, refl,
  arith, Bool-cases, inl, inr,
}
use ods.Tree.{OdObject, Db, get_object, circular, clear, is_parent_id_descendent}

-- The objects from `p` up to the root, the nearest first.
pub data Lineage (db : Db) : Text → List OdObject → Type 0 where
  root : Lineage db [] []
  up :
      {p : Text} {o : OdObject} {l : List OdObject}
      → get_object p db ≡ some o
      → Lineage db o.parent_id l
      → Lineage db p (o ∷ l)

-- Where the chain of parents from the target up to the root is finite, IsParentIDADescendent ends within one
-- call more than there are objects in the chain, without an error, and finds a circle exactly when an object of the chain has
-- the given object as its parent.
pub is_parent_id_descendent_lem :
    (db : Db) (id target : Text) (l : List OdObject) (fuel : ℕ)
    → Lineage db target l
    → length l < fuel
    → is_parent_id_descendent fuel db id target
      ≡ (if any (λ o. text_eq o.parent_id id) l then circular else clear)
unfolding is_parent_id_descendent get_object
is_parent_id_descendent_lem db id _ l zero chain enough = absurd (ground arith)
is_parent_id_descendent_lem db id _ _ (suc fuel) root enough = refl
is_parent_id_descendent_lem db id [] _ (suc fuel) (up {o = o} {l = l} here rest) enough = cc
is_parent_id_descendent_lem db id (c ∷ p) _ (suc fuel) (up {o = o} {l = l} here rest) enough =
    let ih = is_parent_id_descendent_lem db id o.parent_id l fuel rest (ground arith) in
    elim (Bool-cases (text_eq o.parent_id id)) [
      | inl same ↦ ground arith
      | inr other ↦ ground arith
    ]
