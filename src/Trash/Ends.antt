-- ===== src/Trash/Ends.antt =====
-- The loops of dao/dao.DeleteObject.go over the children of a row end: a count of the rows that are not deleted.
use ods.Common.{
  ℕ, zero, suc, ◌+◌, ◌<◌, ◌≤◌, Bool, true, false, not, ◌&&◌, some, List, [], ◌∷◌, Text,
  text_eq_sound, all, length, ltb, ltb→lt, pos, if◌then◌else◌, ◌≡◌, ◌≢◌, refl, sym, ap, subst, ◌⊎◌,
  inl, inr, arith, Bool-cases, Option-cases, Result, ok, err,
}
use ods.Paging.{get_page_count}
use ods.Paging.Pages.{page}
use ods.Tree.{OdObject, Db, get_object}
use ods.Tree.Rooted.{get_object_id}
use ods.Trash.{
  OdUser, Act, Stop, failed, page_size, authorized_to_delete, undeleted_children, visit_child,
  visit_children, process_children,
}
use ods.Trash.Writes.{distinct}
use ods.Trash.Selected.{is_child, reads_child, reads-selected, all-page}
use ods.Trash.Children.{Ordering}
use ods.Trash.Counted.{undeleted, nonempty-page}

-- An outcome that is no endless one: an error, or a database with less to delete, or the same one for a reason.
unfoldable pub Ended : Result Stop Db → Db → Type 0 → Type 0
Ended outcome db Still =
    (outcome ≡ err failed)
    ⊎ ((after : Db) × (outcome ≡ ok after)
        × (distinct after ≡ true)
        × (((after ≡ db) × Still) ⊎ (undeleted after < undeleted db)))

-- The row of the identifier, if there is one, is deleted.
unfoldable pub Dead : Text → Db → Type 0
Dead id db = (r : OdObject) → get_object id db ≡ some r → r.is_deleted ≡ true

module _ (user : OdUser) (modified_by : Text) (act : Act) (order : Db → Db) (id : Text) (k : ℕ)
    (ordered : Ordering order)
    (ends : (child : OdObject) (db : Db)
      → distinct db ≡ true
      → undeleted db < k
      → Ended (act child db) db (Dead child.id db)) where
  -- What has become of the database that a page was read from, with deletedAtLeastOne.
  unfoldable Progress : Db → Db × Bool → Type 0
  Progress seen s = ((s.0 ≡ seen) × (s.1 ≡ false)) ⊎ (undeleted s.0 < undeleted seen)

  idle : (seen db : Db) → (db ≡ seen) ⊎ (undeleted db < undeleted seen) → Progress seen (db, false)
  unfolding Progress
  idle seen db (inl same) = inl (same, refl)
  idle seen db (inr less) = inr less

  fewer :
      (seen db : Db)
      → (db ≡ seen) ⊎ (undeleted db < undeleted seen)
      → undeleted seen < k
      → undeleted db < k
  fewer seen db (inl same) few = subst (λ x. undeleted x < k) (sym same) few
  fewer seen db (inr less) few = omega arith

  further :
      (seen db after : Db)
      → (db ≡ seen) ⊎ (undeleted db < undeleted seen)
      → undeleted after < undeleted db
      → undeleted after < undeleted seen
  further seen db after (inl same) less = subst (λ x. undeleted after < undeleted x) same less
  further seen db after (inr before) less = omega arith

  visit_child_ends :
      (seen : Db) (o : OdObject) (db : Db)
      → reads_child id seen o ≡ true
      → distinct db ≡ true
      → undeleted seen < k
      → (db ≡ seen) ⊎ (undeleted db < undeleted seen)
      → (visit_child user modified_by act seen o db ≡ err failed)
        ⊎ ((s : Db × Bool) × (visit_child user modified_by act seen o db ≡ ok s)
            × (distinct s.0 ≡ true)
            × Progress seen s)
  unfolding visit_child reads_child is_child Ended Progress Dead
  visit_child_ends seen o db reads keyed few since = elim (Option-cases (get_object o.id seen)) [
    | inl gone ↦ inr ((db, false), ground arith, keyed, idle seen db since)
    | inr (child, there) ↦
        elim (Bool-cases (not child.is_ancestor_deleted && authorized_to_delete user child)) [
          | inr skipped ↦ inr ((db, false), ground arith, keyed, idle seen db since)
          | inl allowed ↦
              elim (ends (record child { modified_by = modified_by }) db keyed
                (fewer seen db since few)) [
                  | inl bad ↦ inl (ground arith)
                  | inr (after, acted, keyed', inr less) ↦
                      inr (
                        (after, true),
                        ground arith,
                        keyed',
                        inr (further seen db after since less),
                      )
                  | inr (after, acted, keyed', inl (same, dead)) ↦ elim since [
                    | inr before ↦ inr (
                      (after, true),
                      ground arith,
                      keyed',
                      inr (subst (λ x. undeleted x < undeleted seen) (sym same) before),
                    )
                    | inl unchanged ↦ absurd (
                        let is_id =
                          text_eq_sound child.id o.id (get_object_id o.id seen child there) in
                        let here : get_object child.id db ≡ some child =
                          subst (λ x. get_object x db ≡ some child) (sym is_id)
                            (subst (λ x. get_object o.id x ≡ some child) (sym unchanged) there) in
                        let died = dead child here in ground arith)
                  ]
                ]
        ]
  ]

  visit_more_ends :
      (seen : Db) (os : List OdObject) (s : Db × Bool)
      → all (reads_child id seen) os ≡ true
      → distinct s.0 ≡ true
      → undeleted seen < k
      → Progress seen s
      → (visit_children user modified_by act seen os s.1 s.0 ≡ err failed)
        ⊎ ((t : Db × Bool) × (visit_children user modified_by act seen os s.1 s.0 ≡ ok t)
            × (distinct t.0 ≡ true)
            × Progress seen t)
  unfolding visit_children Progress
  visit_more_ends seen [] s reads keyed few so_far = inr (s, refl, keyed, so_far)
  visit_more_ends seen (o ∷ os) s reads keyed few so_far =
      elim (visit_child_ends seen o s.0 (ground arith) keyed few
        (elim so_far [ inl (same, flag) ↦ inl same | inr less ↦ inr less ])) [
          | inl bad ↦ inl (ground arith)
          | inr (t, visited, keyed', progress) ↦
              elim (visit_more_ends seen os t (ground arith) keyed' few progress) [
                | inl bad ↦ inl (ground arith)
                | inr (u, later, keyed'', progress') ↦ inr (u, ground arith, keyed'', progress')
              ]
        ]

  -- A page with a row on it tells whether there was progress; one without leaves all as it was.
  visit_children_ends :
      (os : List OdObject) (flag : Bool) (db : Db)
      → all (reads_child id db) os ≡ true
      → distinct db ≡ true
      → undeleted db < k
      → (visit_children user modified_by act db os flag db ≡ err failed)
        ⊎ ((s : Db × Bool) × (visit_children user modified_by act db os flag db ≡ ok s)
            × (distinct s.0 ≡ true)
            × (Progress db s ⊎ ((s.0 ≡ db) × (os ≡ []))))
  unfolding visit_children
  visit_children_ends [] flag db reads keyed few = inr ((db, flag), refl, keyed, inr (refl, refl))
  visit_children_ends (o ∷ os) flag db reads keyed few =
      elim (visit_child_ends db o db (ground arith) keyed few (inl refl)) [
        | inl bad ↦ inl (ground arith)
        | inr (t, visited, keyed', progress) ↦
            elim (visit_more_ends db os t (ground arith) keyed' few progress) [
              | inl bad ↦ inl (ground arith)
              | inr (u, later, keyed'', progress') ↦ inr (u, ground arith, keyed'', inl progress')
            ]
      ]

  -- The rounds that a loop wants.
  unfoldable pub Enough : ℕ → Bool → Db → Type 0
  Enough rounds flag db = ((flag ≡ false) × (1 ≤ rounds)) ⊎ (undeleted db + 2 ≤ rounds)

  next_page : (flag : Bool) (n : ℕ) → 0 < n → 0 < (if flag then n else n + 1)
  next_page true n low = low
  next_page false n low = omega arith

  least-Progress :
      (db : Db) (s : Db × Bool) (os : Db)
      → Progress db s ⊎ ((s.0 ≡ db) × (os ≡ []))
      → undeleted s.0 ≤ undeleted db
  unfolding Progress
  least-Progress db s os (inl (inl (same, off))) = let e = ap undeleted same in omega arith
  least-Progress db s os (inl (inr less)) = omega arith
  least-Progress db s os (inr (same, blank)) = let e = ap undeleted same in omega arith

  Enough-left :
      (rounds : ℕ) (flag : Bool) (db : Db) (s : Db × Bool) (os : Db)
      → flag ≡ true
      → os ≢ []
      → Enough (suc rounds) flag db
      → Progress db s ⊎ ((s.0 ≡ db) × (os ≡ []))
      → Enough rounds s.1 s.0
  unfolding Enough Progress
  Enough-left rounds flag db s os on full (inl (off, few)) progress = absurd cc
  Enough-left rounds flag db s os on full (inr many) (inr (same, blank)) = absurd (full blank)
  Enough-left rounds flag db s os on full (inr many) (inl (inl (same, off))) =
      inl (off, omega arith)
  Enough-left rounds flag db s os on full (inr many) (inl (inr less)) = inr (omega arith)

  pub process_children_ends :
      (rounds n : ℕ) (flag : Bool) (db : Db)
      → distinct db ≡ true
      → undeleted db < k
      → 0 < n
      → Enough rounds flag db
      → (process_children user modified_by act order rounds id n flag db ≡ err failed)
        ⊎ ((after : Db) × (process_children user modified_by act order rounds id n flag db
              ≡ ok after)
            × (distinct after ≡ true)
            × (undeleted after ≤ undeleted db))
  unfolding process_children Enough Progress
  process_children_ends zero n flag db keyed few low (inl (off, enough)) = absurd (omega arith)
  process_children_ends zero n flag db keyed few low (inr enough) = absurd (omega arith)
  process_children_ends (suc rounds) n flag db keyed few low enough =
      let rows = order (undeleted_children id db) in
      let reads =
        all-page (reads_child id db) n rows
          (ordered (reads_child id db) (undeleted_children id db) (reads-selected id db keyed)) in
      elim (Option-cases (get_page_count (length rows) page_size)) [
        | inl never ↦ inl (ground arith)
        | inr (count, counted) ↦
            elim (visit_children_ends (page (pos page_size) rows (pos n)) flag db reads keyed few) [
              | inl bad ↦ inl (ground arith)
              | inr (s, visited, keyed', progress) ↦
                  let least : undeleted s.0 ≤ undeleted db = least-Progress db s _ progress in
                  elim (Bool-cases (ltb n count && flag)) [
                    | inr last ↦ inr (s.0, ground arith, keyed', least)
                    | inl more ↦
                        let next = if s.1 then n else n + 1 in
                        let on : flag ≡ true = ground arith in
                        let full =
                          nonempty-page n count rows counted low (ltb→lt n count (ground arith)) in
                        elim (process_children_ends rounds next s.1 s.0 keyed' (omega arith)
                          (next_page s.1 n low)
                          (Enough-left rounds flag db s _ on full enough progress)) [
                            | inl bad ↦ inl (ground arith)
                            | inr (after, ended, keyed'', less) ↦
                                inr (after, ground arith, keyed'', (omega arith))
                          ]
                  ]
            ]
      ]
