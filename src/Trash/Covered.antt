-- ===== src/Trash/Covered.antt =====
-- The flags of the rows: those that every operation of the trash keeps, and which row hides under which.
use ods.Common.{
  Bool, true, not, ◌&&◌, ◌||◌, ◌==◌, some, List, [], Text, text_eq, text_eq_sound, any, length, ◌≡◌,
  sym, ◌∙◌, subst, ◌⊎◌, inl, inr, arith, Bool-cases,
}
use ods.Tree.{OdObject, Db, get_object, set_object}
use ods.Tree.Rooted.{get-set_same, get-set_other}
use ods.Trash.{OdUser}
use ods.Trash.Writes.{Writes, Writes-keeps}
use ods.Trash.Marked.{Gone, Reason, Marking}

-- A row with the flag of a deleted ancestor, or one that is expunged, is deleted.
unfoldable pub flagged : OdObject → Bool
flagged o = (not o.is_ancestor_deleted || o.is_deleted) && (not o.is_expunged || o.is_deleted)

unfoldable pub Flagged : Db → Type 0
Flagged db = (p : Text) (o : OdObject) → get_object p db ≡ some o → flagged o ≡ true

-- The row waits for its parent to be restored: it has the flag of a deleted ancestor, is not expunged, and has a
-- row of permissions.
unfoldable pub waiting : OdObject → Bool
waiting o = o.is_ancestor_deleted && (not o.is_expunged && not (length o.permissions == 0))

abbrev pub among : Text → List Text → Bool
among p ids = any (λ id. text_eq id p) ids

-- Whatever waits has a deleted parent, or one of the identifiers as its parent.
unfoldable pub CoveredBut : List Text → Db → Type 0
CoveredBut ids db =
    (p : Text) (o : OdObject)
    → get_object p db ≡ some o
    → waiting o ≡ true
    → (among o.parent_id ids ≡ true) ⊎ Gone o.parent_id db

-- One row gives way to another of the same identifier.
module _ (db : Db) (n o : OdObject) (there : get_object n.id db ≡ some o) where
  pub Flagged-set : flagged n ≡ true → Flagged db → Flagged (set_object n db)
  unfolding Flagged
  Flagged-set good before p q here = elim (Bool-cases (text_eq n.id p)) [
    | inl same ↦
        let now =
          get-set_same n o p db same
            (subst (λ x. get_object x db ≡ some o) (text_eq_sound n.id p same) there) in
        let e : n ≡ q = cc in subst (λ x. flagged x ≡ true) e good
    | inr other ↦ before p q (sym (get-set_other n p db other) ∙ here)
  ]

  pub Gone-set_other :
      (id : Text) → Gone id db → (text_eq n.id id ≡ true) ⊎ Gone id (set_object n db)
  unfolding Gone
  Gone-set_other id (q, here, deleted) = elim (Bool-cases (text_eq n.id id)) [
    | inl same ↦ inl same
    | inr other ↦ inr (q, get-set_other n id db other ∙ here, deleted)
  ]

  pub Gone-set : n.is_deleted ≡ true → (id : Text) → Gone id db → Gone id (set_object n db)
  unfolding Gone
  Gone-set deleted id gone = elim (Gone-set_other id gone) [
    | inr after ↦ after
    | inl same ↦ (
      n,
      get-set_same n o id db same
          (subst (λ x. get_object x db ≡ some o) (text_eq_sound n.id id same) there),
      deleted,
    )
  ]

  pub CoveredBut-set :
      (ids more : List Text)
      → ((id : Text) → among id ids ≡ true → among id more ≡ true)
      → ((id : Text) → Gone id db → (among id more ≡ true) ⊎ Gone id (set_object n db))
      → (waiting n ≡ true → (among n.parent_id more ≡ true) ⊎ Gone n.parent_id (set_object n db))
      → CoveredBut ids db
      → CoveredBut more (set_object n db)
  unfolding CoveredBut
  CoveredBut-set ids more wider others new before p q here waits =
      elim (Bool-cases (text_eq n.id p)) [
        | inl same ↦
            let now =
              get-set_same n o p db same
                (subst (λ x. get_object x db ≡ some o) (text_eq_sound n.id p same) there) in
            let e : n ≡ q = cc in
            subst (λ x. (among x.parent_id more ≡ true) ⊎ Gone x.parent_id (set_object n db)) e
              (new (subst (λ x. waiting x ≡ true) (sym e) waits))
        | inr other ↦ elim (before p q (sym (get-set_other n p db other) ∙ here) waits) [
          | inl excepted ↦ inl (wider q.parent_id excepted)
          | inr gone ↦ others q.parent_id gone
        ]
      ]

module _ (user : OdUser) (root : Text) where
  pub Marking-Flagged :
      (db after : Db) → Writes (Marking user root) db after → Flagged db → Flagged after
  unfolding flagged
  Marking-Flagged = Writes-keeps Flagged (λ db o n there mark before.
      let deleted = mark.deleted in Flagged-set db n o there (ground arith) before)

  pub Marking-CoveredBut :
      (db after : Db) → Writes (Marking user root) db after → CoveredBut [] db → CoveredBut [] after
  unfolding waiting Reason
  Marking-CoveredBut = Writes-keeps (CoveredBut []) (λ db o n there mark before.
      let deleted = mark.deleted in
      CoveredBut-set db n o there [] [] (λ id h. h)
        (λ id gone. inr (Gone-set db n o there deleted id gone))
        (λ waits. elim mark.because [
          | inl (at_root, shown) ↦ absurd (ground arith)
          | inr (hidden, allowed, gone) ↦ inr (
              subst (λ x. Gone x (set_object n db)) (sym mark.same_parent)
                (Gone-set db n o there deleted o.parent_id gone))
        ])
        before)
