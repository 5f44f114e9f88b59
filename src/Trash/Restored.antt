-- ===== src/Trash/Restored.antt =====
-- What undeleteObjectInTransaction (dao/dao.UndeleteObject.go) restores.
use ods.Common.{
  ℕ, zero, suc, true, false, ◌||◌, some, List, [], ◌∷◌, Text, text_eq, text_eq_sound, text_eq_self,
  is_empty, any, ◌≡◌, refl, sym, ◌∙◌, subst, inl, inr, arith, Bool-cases, Result, ok, ◌>>=◌,
  bind_ok,
}
use ods.Tree.{OdObject, Db, get_object}
use ods.Tree.Rooted.{get_object_id}
use ods.Trash.{Stop, fire, write}
use ods.Trash.Writes.{Writes, done, Writes-append, Writes-keeps, write-Writes}
use ods.Trash.Marked.{write_ok}
use ods.Trash.Restore.{
  hidden_children, restored, descend, uncover, undelete_ancestor_children, undelete_object,
}
use ods.Trash.Covered.{
  flagged, Flagged, Flagged-set, Gone-set_other, CoveredBut, CoveredBut-set, among, waiting,
}
use ods.Trash.Uncovered.{
  Restoring, waits_before, Calm, above, above-wider, above-but, hidden_children_complete,
  uncover_all-Writes,
}

pub Restoring-Flagged : (db after : Db) → Writes Restoring db after → Flagged db → Flagged after
unfolding flagged
Restoring-Flagged = Writes-keeps Flagged (λ db o n there why before.
    let shown = why.shown in
    let unexpunged = why.unexpunged in Flagged-set db n o there (ground arith) before)

above-any :
    (os : List OdObject) (ids : List Text) (p : Text)
    → any (λ r. text_eq r.id p) os ≡ true
    → among p (above os ids) ≡ true
above-any [] ids p h = absurd cc
above-any (o ∷ os) ids p h =
    let ih = above-any os ids p in
    elim (Bool-cases (text_eq o.id p)) [
      | inl same ↦ ground arith
      | inr other ↦ let later = ih (ground arith) in ground arith
    ]

-- What a recursive call gives: it takes an exception away.
Frees : (Text → Db → Result Stop Db) → Type 0
Frees act =
    (id : Text) (db after : Db)
    → act id db ≡ ok after
    → Writes Restoring db after
      × ((ids : List Text) → CoveredBut (id ∷ ids) db → CoveredBut ids after)

descend-Frees :
    (act : Text → Db → Result Stop Db)
    → Frees act
    → (os : List OdObject) (db after : Db) → descend act os db ≡ ok after
    → Writes Restoring db after
      × ((ids : List Text) → CoveredBut (above os ids) db → CoveredBut ids after)
unfolding descend Frees
descend-Frees act frees [] db after h =
    let e : db ≡ after = ground arith in
    (subst (Writes Restoring db) e done, λ ids before. subst (CoveredBut ids) e before)
descend-Frees act frees (o ∷ os) db after h =
    let (middle, first, rest) = bind_ok (act o.id db) (λ db. descend act os db) after h in
    let (writes, free) = frees o.id db middle first in
    let (writes', free') = descend-Frees act frees os middle after rest in
    (
      Writes-append db middle after writes writes',
      λ ids before. free' ids (free (above os ids) before),
    )

widen :
    (os : List OdObject) (ids : List Text) (db : Db)
    → CoveredBut ids db
    → CoveredBut (above os ids) db
unfolding CoveredBut
widen os ids db before p q here waits = elim (before p q here waits) [
  | inl excepted ↦ inl (above-wider os ids q.parent_id excepted)
  | inr gone ↦ inr gone
]

module _ (token : Text → ℕ → Text) where
  -- Once its children are uncovered, no row waits under the row itself.
  drop_exception :
      (id : Text) (ids : List Text) (db middle : Db)
      → Writes Restoring db middle
      → ((p : Text) → any (λ r. text_eq r.id p) (hidden_children id db) ≡ true → Calm p middle)
      → CoveredBut (above (hidden_children id db) (id ∷ ids)) middle
      → CoveredBut (above (hidden_children id db) ids) middle
  unfolding CoveredBut Calm
  drop_exception id ids db middle writes calm before p q here waits = elim (before p q here waits) [
    | inr gone ↦ inr gone
    | inl excepted ↦ elim (above-but (hidden_children id db) id ids q.parent_id excepted) [
      | inr stays ↦ inl stays
      | inl same ↦ absurd (
          let there = waits_before db middle writes p q here waits in
          let parent = sym (text_eq_sound id q.parent_id same) in
          let quiet = calm p (hidden_children_complete id p q db there waits parent) q here in
          ground arith)
    ]
  ]

  undelete_ancestor_children-Frees :
      (fuel : ℕ) → Frees (λ id db. undelete_ancestor_children token fuel id db)
  unfolding undelete_ancestor_children Frees
  undelete_ancestor_children-Frees zero id db after h = absurd cc
  undelete_ancestor_children-Frees (suc fuel) id db after h =
      let rows = hidden_children id db in
      let act : Text → Db → Result Stop Db =
        λ child db. undelete_ancestor_children token fuel child db in
      let (middle, first, rest) =
        bind_ok (descend (uncover token) rows db) (λ db. descend act rows db) after h in
      let (writes, calm, covers) = uncover_all-Writes token rows db middle first in
      let (writes', frees) =
        descend-Frees act (λ id db after h. undelete_ancestor_children-Frees fuel id db after h)
          rows middle after rest in
      (
        Writes-append db middle after writes writes',
        λ ids before. frees ids (
            drop_exception id ids db middle writes calm (
              covers (above rows (id ∷ ids)) (λ p here. above-any rows (id ∷ ids) p here)
                (widen rows (id ∷ ids) db before))),
      )

  -- An object that is neither expunged nor waiting.
  pub undelete_object-Covered :
      (fuel : ℕ) (object o : OdObject) (db after : Db)
      → get_object object.id db ≡ some o
      → o.is_expunged ≡ false
      → o.is_ancestor_deleted ≡ false
      → undelete_object token fuel object db ≡ ok after
      → Writes Restoring db after × (CoveredBut [] db → CoveredBut [] after)
  unfolding undelete_object restored fire Frees waiting
  undelete_object-Covered fuel object o db after there unexpunged shown h =
      let new = restored object o in
      let n = fire token new o in
      let e : write token new o db >>= (λ db. undelete_ancestor_children token fuel object.id db)
          ≡ ok after =
        elim (Bool-cases (is_empty object.id || is_empty object.change_token)) [
          | inl bad ↦ absurd (ground arith)
          | inr good ↦ ground arith
        ] in
      let (middle, written, rest) =
        bind_ok (write token new o db) (λ db. undelete_ancestor_children token fuel object.id db)
          after e in
      let is_id : text_eq n.id object.id ≡ true = get_object_id object.id db o there in
      let there' : get_object n.id db ≡ some o =
        subst (λ x. get_object x db ≡ some o) (sym (text_eq_sound n.id object.id is_id)) there in
      let first : Writes Restoring db middle =
        write-Writes token new o db middle there'
          (record { same_parent = refl; shown = shown; undeleted = refl; unexpunged = unexpunged })
          written in
      let (writes, frees) = undelete_ancestor_children-Frees fuel object.id middle after rest in
      (
        Writes-append db middle after first writes,
        λ before. frees [] (
            subst (CoveredBut (object.id ∷ [])) (write_ok token new o db middle written) (
              CoveredBut-set db n o there' [] (object.id ∷ []) (λ p h. absurd cc)
                (λ p gone. elim (Gone-set_other db n o there' p gone) [
                  | inr stays ↦ inr stays
                  | inl same ↦ inl (
                      let e : object.id ≡ p =
                        sym (text_eq_sound n.id object.id is_id) ∙ text_eq_sound n.id p same in
                      let self : text_eq object.id p ≡ true =
                        subst (λ x. text_eq object.id x ≡ true) e (text_eq_self object.id) in
                      ground arith)
                ])
                (λ waits. absurd (ground arith)) before)),
      )
