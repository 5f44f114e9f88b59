-- ===== src/Trash/Children.antt =====
-- What the loops of dao/dao.DeleteObject.go and dao/dao.ExpungeObject.go over the children of a row write, for
-- whatever is done with a child.
use ods.Common.{
  ℕ, zero, suc, ◌+◌, Bool, true, not, ◌&&◌, some, List, [], ◌∷◌, Text, text_eq, text_eq_sound, all,
  length, ltb, pos, if◌then◌else◌, ◌≡◌, sym, subst, inl, inr, arith, Bool-cases, Option-cases,
  Result, ok, ◌>>=◌, bind_ok,
}
use ods.Paging.{get_page_count}
use ods.Paging.Pages.{page}
use ods.Tree.{OdObject, Db, get_object}
use ods.Tree.Rooted.{get_object_id}
use ods.Trash.{
  OdUser, Act, Stop, page_size, authorized_to_delete, undeleted_children, visit_child,
  visit_children, process_children,
}
use ods.Trash.Writes.{Writes, done, Writes-append, distinct, Writes-distinct}
use ods.Trash.Selected.{is_child, reads_child, reads-selected, all-page}

-- What all rows have, the ordered rows have.
abbrev pub Ordering : (Db → Db) → Type 0
Ordering order = (P : OdObject → Bool) (rows : Db) → all P rows ≡ true → all P (order rows) ≡ true

module _ (R : Db → OdObject → OdObject → Type 0) (Inv : Db → Type 0) (user : OdUser)
    (modified_by : Text) (act : Act) (order : Db → Db) (id : Text) (ordered : Ordering order)
    (carries : (db after : Db) → Writes R db after → Inv db → Inv after)
    (acts : (seen db after : Db) (child : OdObject)
      → get_object child.id seen ≡ some child
      → child.parent_id ≡ id
      → authorized_to_delete user child ≡ true
      → Inv db
      → Writes R seen db
      → act (record child { modified_by = modified_by }) db ≡ ok after
      → Writes R db after) where
  visit_child-Writes :
      (seen : Db) (o : OdObject) (db : Db) (s : Db × Bool)
      → reads_child id seen o ≡ true
      → Inv db
      → Writes R seen db
      → visit_child user modified_by act seen o db ≡ ok s
      → Writes R db s.0
  unfolding visit_child reads_child is_child
  visit_child-Writes seen o db s reads inv since h = elim (Option-cases (get_object o.id seen)) [
    | inl gone ↦ let e : db ≡ s.0 = ground arith in subst (Writes R db) e done
    | inr (child, there) ↦
        elim (Bool-cases (not child.is_ancestor_deleted && authorized_to_delete user child)) [
          | inr skipped ↦ let e : db ≡ s.0 = ground arith in subst (Writes R db) e done
          | inl allowed ↦
              let e : act (record child { modified_by = modified_by }) db
                    >>= (λ after. ok (after, true))
                  ≡ ok s =
                ground arith in
              let (after, acted, is_s) =
                bind_ok (act (record child { modified_by = modified_by }) db)
                  (λ after. ok (after, true)) s e in
              let parent : text_eq child.parent_id id ≡ true = ground arith in
              let same : o.id ≡ child.id =
                sym (text_eq_sound child.id o.id (get_object_id o.id seen child there)) in
              let itself : get_object child.id seen ≡ some child =
                subst (λ x. get_object x seen ≡ some child) same there in
              let e' : after ≡ s.0 = ground arith in
              subst (Writes R db) e' (
                acts seen db after child itself (text_eq_sound child.parent_id id parent)
                  (ground arith) inv since acted)
        ]
  ]

  visit_children-Writes :
      (seen : Db) (os : List OdObject) (flag : Bool) (db : Db) (s : Db × Bool)
      → all (reads_child id seen) os ≡ true
      → Inv db
      → Writes R seen db
      → visit_children user modified_by act seen os flag db ≡ ok s
      → Writes R db s.0
  unfolding visit_children
  visit_children-Writes seen [] flag db s reads inv since h =
      let e : db ≡ s.0 = ground arith in subst (Writes R db) e done
  visit_children-Writes seen (o ∷ os) flag db s reads inv since h =
      let (t, first, rest) =
        bind_ok (visit_child user modified_by act seen o db)
          (λ t. visit_children user modified_by act seen os t.1 t.0) s h in
      let writes = visit_child-Writes seen o db t (ground arith) inv since first in
      Writes-append db t.0 s.0 writes (
        visit_children-Writes seen os t.1 t.0 s (ground arith) (carries db t.0 writes inv)
          (Writes-append seen db t.0 since writes) rest)

  pub process_children-Writes :
      (rounds n : ℕ) (flag : Bool) (db after : Db)
      → distinct db ≡ true
      → Inv db
      → process_children user modified_by act order rounds id n flag db ≡ ok after
      → Writes R db after
  unfolding process_children
  process_children-Writes zero n flag db after keyed inv h = absurd cc
  process_children-Writes (suc rounds) n flag db after keyed inv h =
      let rows = order (undeleted_children id db) in
      elim (Option-cases (get_page_count (length rows) page_size)) [
        | inl never ↦ absurd (ground arith)
        | inr (count, counted) ↦
            let go : Db × Bool → Result Stop Db = λ s.
              let rest =
                process_children user modified_by act order rounds id (if s.1 then n else n + 1) s.1
                  s.0 in
              if ltb n count && flag then rest else ok s.0 in
            let e : visit_children user modified_by act db (page (pos page_size) rows (pos n)) flag
                    db
                  >>= go
                ≡ ok after =
              ground arith in
            let (s, visited, rest) =
              bind_ok
                (visit_children user modified_by act db (page (pos page_size) rows (pos n)) flag db)
                go after e in
            let writes =
              visit_children-Writes db (page (pos page_size) rows (pos n)) flag db s
                (all-page (reads_child id db) n rows (
                  ordered (reads_child id db) (undeleted_children id db)
                    (reads-selected id db keyed)))
                inv done visited in
            elim (Bool-cases (ltb n count && flag)) [
              | inl more ↦ Writes-append db s.0 after writes (
                  process_children-Writes rounds (if s.1 then n else n + 1) s.1 s.0 after
                    (Writes-distinct db s.0 writes keyed) (carries db s.0 writes inv)
                    (ground arith))
              | inr last ↦ let e' : s.0 ≡ after = ground arith in subst (Writes R db) e' writes
            ]
      ]
