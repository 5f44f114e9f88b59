-- ===== src/Trash/Uncovered.antt =====
-- The loops of undeleteAncestorChildren (dao/dao.UndeleteObject.go) over the rows that its query selects.
use ods.Common.{
  ℕ, true, false, not, ◌&&◌, ◌||◌, ◌==◌, some, List, [], ◌∷◌, Text, text_eq, text_eq_sound,
  text_eq_self, any, length, ◌≡◌, refl, sym, ◌∙◌, subst, ◌⊎◌, inl, inr, arith, Bool-cases,
  Option-cases, ok, bind_ok,
}
use ods.Tree.{OdObject, Db, find, get_object, set_object}
use ods.Tree.Rooted.{get-set_same, get-set_other, get_object_id}
use ods.Trash.{fire, write}
use ods.Trash.Writes.{Writes, done, Writes-append, Writes-keeps, write-Writes}
use ods.Trash.Marked.{write_ok}
use ods.Trash.Restore.{hidden_children, uncovered, descend, uncover}
use ods.Trash.Covered.{Gone-set_other, CoveredBut, CoveredBut-set, among, waiting}

-- The new row is shown again.
pub record Restoring (db : Db) (o n : OdObject) : Type 0 where
  pub same_parent : n.parent_id ≡ o.parent_id
  pub shown : n.is_ancestor_deleted ≡ false
  pub undeleted : n.is_deleted ≡ false
  pub unexpunged : n.is_expunged ≡ false

-- A row that waits was there before.
pub waits_before :
    (db after : Db)
    → Writes Restoring db after
    → (p : Text) (q : OdObject) → get_object p after ≡ some q
    → waiting q ≡ true
    → get_object p db ≡ some q
unfolding waiting
waits_before db after writes =
    Writes-keeps
      (λ d.
        (p : Text) (q : OdObject)
        → get_object p d ≡ some q
        → waiting q ≡ true
        → get_object p db ≡ some q)
      (λ d o n there why before p q here waits. elim (Bool-cases (text_eq n.id p)) [
        | inl same ↦
            let now =
              get-set_same n o p d same
                (subst (λ x. get_object x d ≡ some o) (text_eq_sound n.id p same) there) in
            let e : n ≡ q = cc in
            let shown : q.is_ancestor_deleted ≡ false =
              subst (λ x. x.is_ancestor_deleted ≡ false) e why.shown in
            absurd (ground arith)
        | inr other ↦ before p q (sym (get-set_other n p d other) ∙ here) waits
      ])
      db after writes (λ p q here waits. here)

-- The row of the identifier does not wait.
unfoldable pub Calm : Text → Db → Type 0
Calm p db = (q : OdObject) → get_object p db ≡ some q → waiting q ≡ false

Calm-Writes : (p : Text) (db after : Db) → Writes Restoring db after → Calm p db → Calm p after
unfolding Calm
Calm-Writes p db after writes calm q here = elim (Bool-cases (waiting q)) [
  | inr not_waiting ↦ not_waiting
  | inl waits ↦
      let before = calm q (waits_before db after writes p q here waits) in absurd (ground arith)
]

-- The exceptions with the identifiers of some rows before them.
abbrev pub above : List OdObject → List Text → List Text
above [] ids = ids
above (o ∷ os) ids = o.id ∷ above os ids

pub above-wider :
    (os : List OdObject) (ids : List Text) (id : Text)
    → among id ids ≡ true
    → among id (above os ids) ≡ true
above-wider [] ids id h = h
above-wider (o ∷ os) ids id h = let ih = above-wider os ids id h in ground arith

-- Without the exception behind the rows.
pub above-but :
    (os : List OdObject) (q : Text) (ids : List Text) (id : Text)
    → among id (above os (q ∷ ids)) ≡ true
    → (text_eq q id ≡ true) ⊎ (among id (above os ids) ≡ true)
above-but [] q ids id h = elim (Bool-cases (text_eq q id)) [
  | inl same ↦ inl same
  | inr other ↦ inr (ground arith)
]
above-but (o ∷ os) q ids id h = elim (Bool-cases (text_eq o.id id)) [
  | inl same ↦ inr (ground arith)
  | inr other ↦ elim (above-but os q ids id (ground arith)) [
    | inl same ↦ inl same
    | inr later ↦ inr (ground arith)
  ]
]

find_selected :
    (id p : Text) (o : OdObject) (db : Db)
    → find p db ≡ some o
    → waiting o ≡ true
    → text_eq o.parent_id id ≡ true
    → any (λ r. text_eq r.id p) (hidden_children id db) ≡ true
unfolding find waiting hidden_children
find_selected id p o [] here waits parent = absurd cc
find_selected id p o (q ∷ db) here waits parent =
    let ih = find_selected id p o db in
    let test = q.is_ancestor_deleted && (not q.is_expunged && text_eq q.parent_id id) in
    elim (Bool-cases (text_eq q.id p)) [
      | inl same ↦
          let e : o ≡ q = grind arith in
          let waits' = subst (λ x. waiting x ≡ true) e waits in
          let parent' = subst (λ (x : OdObject). text_eq x.parent_id id ≡ true) e parent in
          ground arith
      | inr other ↦
          let later = ih (ground arith) waits parent in
          elim (Bool-cases test) [ inl chosen ↦ ground arith | inr unchosen ↦ ground arith ]
    ]

-- The query misses no row that waits.
pub hidden_children_complete :
    (id p : Text) (o : OdObject) (db : Db)
    → get_object p db ≡ some o
    → waiting o ≡ true
    → o.parent_id ≡ id
    → any (λ r. text_eq r.id p) (hidden_children id db) ≡ true
unfolding get_object
hidden_children_complete id [] o db here waits parent = absurd cc
hidden_children_complete id (c ∷ p) o db here waits parent =
    find_selected id (c ∷ p) o db here waits
      (subst (λ x. text_eq o.parent_id x ≡ true) parent (text_eq_self o.parent_id))

module _ (token : Text → ℕ → Text) where
  uncover-cases :
      (id : Text) (db after : Db)
      → uncover token id db ≡ ok after
      → ((after ≡ db) × Calm id db)
        ⊎ ((o : OdObject) × (get_object id db ≡ some o)
            × (o.is_expunged ≡ false)
            × (write token (uncovered o) o db ≡ ok after))
  unfolding uncover Calm waiting
  uncover-cases id db after h = elim (Option-cases (get_object id db)) [
    | inl gone ↦ inl (ground arith, λ q here. absurd cc)
    | inr (o, there) ↦ elim (Bool-cases (o.is_expunged || length o.permissions == 0)) [
      | inl skipped ↦ inl (
        ground arith,
        λ q here. let e : o ≡ q = cc in subst (λ x. waiting x ≡ false) e (ground arith),
      )
      | inr taken ↦ inr (o, there, ground arith, ground arith)
    ]
  ]

  uncover-Writes :
      (id : Text) (db after : Db)
      → uncover token id db ≡ ok after
      → Writes Restoring db after
        × Calm id after
        × ((ids : List Text) → among id ids ≡ true → CoveredBut ids db → CoveredBut ids after)
  unfolding uncovered fire Calm waiting
  uncover-Writes id db after h = elim (uncover-cases id db after h) [
    | inl (same, calm) ↦ (
      subst (Writes Restoring db) (sym same) done,
      subst (Calm id) (sym same) calm,
      λ ids excepted before. subst (CoveredBut ids) (sym same) before,
    )
    | inr (o, there, unexpunged, written) ↦
        let n = fire token (uncovered o) o in
        let is_id : text_eq n.id id ≡ true = get_object_id id db o there in
        let there' : get_object n.id db ≡ some o =
          subst (λ x. get_object x db ≡ some o) (sym (text_eq_sound n.id id is_id)) there in
        let e : set_object n db ≡ after = write_ok token (uncovered o) o db after written in
        (
          write-Writes token (uncovered o) o db after there'
              (record {
                same_parent = refl;
                shown = refl;
                undeleted = refl;
                unexpunged = unexpunged;
              })
              written,
          subst (Calm id) e (λ q here.
              let now = get-set_same n o id db is_id there in
              let same : n ≡ q = cc in subst (λ x. waiting x ≡ false) same refl),
          λ ids excepted before. subst (CoveredBut ids) e (
              CoveredBut-set db n o there' ids ids (λ p h. h)
                (λ p gone. elim (Gone-set_other db n o there' p gone) [
                  | inr stays ↦ inr stays
                  | inl same ↦ inl (
                      subst (λ x. among x ids ≡ true)
                        (sym (text_eq_sound n.id id is_id) ∙ text_eq_sound n.id p same) excepted)
                ])
                (λ waits. absurd cc) before),
        )
  ]

  pub uncover_all-Writes :
      (os : List OdObject) (db after : Db)
      → descend (uncover token) os db ≡ ok after
      → Writes Restoring db after
        × ((p : Text) → any (λ r. text_eq r.id p) os ≡ true → Calm p after)
        × ((ids : List Text)
            → ((p : Text) → any (λ r. text_eq r.id p) os ≡ true → among p ids ≡ true)
            → CoveredBut ids db
            → CoveredBut ids after)
  unfolding descend
  uncover_all-Writes [] db after h =
      let e : db ≡ after = ground arith in
      (
        subst (Writes Restoring db) e done,
        λ p here. absurd cc,
        λ ids excepted before. subst (CoveredBut ids) e before,
      )
  uncover_all-Writes (o ∷ os) db after h =
      let (middle, first, rest) =
        bind_ok (uncover token o.id db) (λ db. descend (uncover token) os db) after h in
      let (writes, calm, covers) = uncover-Writes o.id db middle first in
      let (writes', calm', covers') = uncover_all-Writes os middle after rest in
      let self = text_eq_self o.id in
      (
        Writes-append db middle after writes writes',
        λ p here. elim (Bool-cases (text_eq o.id p)) [
          | inl same ↦
              Calm-Writes p middle after writes'
                (subst (λ x. Calm x middle) (text_eq_sound o.id p same) calm)
          | inr other ↦ calm' p (ground arith)
        ],
        λ ids excepted before.
            covers' ids (λ p here. excepted p (ground arith))
              (covers ids (excepted o.id (ground arith)) before),
      )
