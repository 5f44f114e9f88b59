-- ===== src/Trash/Deleted.antt =====
-- Which rows dao/dao.DeleteObject.go and dao/dao.ExpungeObject.go mark, and why.
use ods.Common.{
  text_eq_sound, text_eq_self, ℕ, zero, suc, Bool, true, false, not, Option, some, List, Text,
  text_eq, ◌≡◌, refl, sym, ◌∙◌, subst, inl, inr, arith, Bool-cases, Result, ok, ◌>>=◌, bind_ok,
}
use ods.Tree.{OdObject, Db, get_object, set_object}
use ods.Tree.Rooted.{get_object_id, get-set_same}
use ods.Trash.{
  OdUser, RawSnippetFields, Stop, fire, write, marked_deleted, marked_expunged, process_children,
  delete_object, expunge_object,
}
use ods.Trash.Writes.{Writes, done, Writes-append, write-Writes, distinct, Writes-distinct}
use ods.Trash.Children.{Ordering, process_children-Writes}
use ods.Trash.Marked.{
  Gone, Reason, Marking, authorized-permissions, write_ok, fetch_ok, fetch-cases,
  with_snippets_known, steady, Gone-Writes,
}

module _ (user : OdUser) (root : Text) where
  module _ (token : Text → ℕ → Text) (order : Db → Db) (ordered : Ordering order) where
    -- The update of a row and then its children, where what is done with a child marks rows for a reason.
    sweep-Writes :
        (act : OdObject → Db → Result Stop Db)
        → ((child : OdObject) (db after : Db)
            → ((r : OdObject) → get_object child.id db ≡ some r → Reason user root db r true)
            → distinct db ≡ true
            → act child db ≡ ok after
            → Writes (Marking user root) db after)
        → (new current : OdObject) (modified_by : Text) (rounds : ℕ) (db after : Db)
        → get_object new.id db ≡ some current
        → new.id ≡ current.id
        → Marking user root db current (fire token new current)
        → distinct db ≡ true
        → write token new current db
            >>= (λ db. process_children user modified_by act order rounds current.id 1 true db)
          ≡ ok after
        → Writes (Marking user root) db after × Gone current.id after
    unfolding Gone fire Reason
    sweep-Writes act acts new current modified_by rounds db after there same mark keyed h =
        let n = fire token new current in
        let (middle, written, rest) =
          bind_ok (write token new current db)
            (λ db. process_children user modified_by act order rounds current.id 1 true db) after
            h in
        let first : Writes (Marking user root) db middle =
          write-Writes token new current db middle there mark written in
        let there' : get_object current.id db ≡ some current =
          subst (λ x. get_object x db ≡ some current) same there in
        let now : get_object current.id (set_object n db) ≡ some n =
          get-set_same n current current.id db
            (subst (λ x. text_eq n.id x ≡ true) same (text_eq_self n.id)) there' in
        let gone : Gone current.id middle =
          subst (Gone current.id) (write_ok token new current db middle written)
            (n, now, mark.deleted) in
        let later =
          process_children-Writes (Marking user root)
            (λ db. Gone current.id db × (distinct db ≡ true)) user modified_by act order current.id
            ordered
            (λ db after writes inv. (
              Gone-Writes user root current.id db after writes inv.0,
              Writes-distinct db after writes inv.1,
            ))
            (λ seen db after child there parent allowed inv since done.
              acts (record child { modified_by = modified_by }) db after
                (λ r here.
                  let (m, here', s) = steady user root child.id seen db child since there in
                  let e : m ≡ r = cc in
                  let perms = s.same_permissions in
                  let parents = s.same_parent in
                  subst (λ x. Reason user root db x true) e
                    (inr (
                      refl,
                      authorized-permissions user child m perms ∙ allowed,
                      subst (λ x. Gone x db) (sym (parents ∙ parent)) inv.0,
                    )))
                inv.1 done)
            rounds 1 true middle after (Writes-distinct db middle first keyed)
            (gone, Writes-distinct db middle first keyed) rest in
        (
          Writes-append db middle after first later,
          Gone-Writes user root current.id middle after later gone,
        )

    pub delete_object-Writes :
        (stored_snippets : Text → Option (List RawSnippetFields)) (snippets : List RawSnippetFields)
        (fuel : ℕ) (object : OdObject) (explicit : Bool) (db after : Db)
        → user.snippets ≡ some snippets
        → ((r : OdObject) → get_object object.id db ≡ some r → Reason user root db r (not explicit))
        → distinct db ≡ true
        → delete_object token order stored_snippets fuel user object explicit db ≡ ok after
        → Writes (Marking user root) db after × Gone object.id after
    unfolding delete_object marked_deleted fire Gone
    delete_object-Writes stored snippets zero object explicit db after known why keyed h = absurd cc
    delete_object-Writes stored snippets (suc fuel) object explicit db after known why keyed h =
        let act : OdObject → Db → Result Stop Db =
          λ child db. delete_object token order stored fuel user child false db in
        let known' = with_snippets_known stored explicit user snippets known in
        elim (fetch-cases object db) [
          | inl bad ↦ absurd (ground arith)
          | inr (current, fetched) ↦ elim (Bool-cases current.is_deleted) [
            | inl noop ↦
                let e : db ≡ after = ground arith in
                (
                  subst (Writes (Marking user root) db) e done,
                  subst (Gone object.id) e (current, fetch_ok object db current fetched, noop),
                )
            | inr alive ↦
                let there = fetch_ok object db current fetched in
                let same : current.id ≡ object.id =
                  text_eq_sound current.id object.id (get_object_id object.id db current there) in
                let swept =
                  sweep-Writes act
                    (λ child db after why keyed h.
                      (delete_object-Writes stored snippets fuel child false db after known why
                        keyed h).0)
                    (marked_deleted object explicit current) current object.modified_by (suc fuel)
                    db after (subst (λ x. get_object x db ≡ some current) (sym same) there) refl
                    (record {
                      same_id = refl;
                      same_parent = refl;
                      same_permissions = refl;
                      counted = refl;
                      deleted = refl;
                      expunged = inl refl;
                      because = why current there;
                    })
                    keyed (ground arith) in
                (swept.0, subst (λ x. Gone x after) same swept.1)
          ]
        ]

    pub expunge_object-Writes :
        (stored_snippets : Text → Option (List RawSnippetFields)) (snippets : List RawSnippetFields)
        (fuel : ℕ) (object : OdObject) (explicit : Bool) (db after : Db)
        → user.snippets ≡ some snippets
        → ((r : OdObject) → get_object object.id db ≡ some r → Reason user root db r (not explicit))
        → distinct db ≡ true
        → expunge_object token order stored_snippets fuel user object explicit db ≡ ok after
        → Writes (Marking user root) db after
    unfolding expunge_object marked_expunged fire
    expunge_object-Writes stored snippets zero object explicit db after known why keyed h =
        absurd cc
    expunge_object-Writes stored snippets (suc fuel) object explicit db after known why keyed h =
        let act : OdObject → Db → Result Stop Db =
          λ child db. expunge_object token order stored fuel user child false db in
        let known' = with_snippets_known stored explicit user snippets known in
        elim (fetch-cases object db) [
          | inl bad ↦ absurd (ground arith)
          | inr (current, fetched) ↦ elim (Bool-cases current.is_expunged) [
            | inl noop ↦ let e : db ≡ after = ground arith in subst (Writes _ db) e done
            | inr alive ↦
                let there = fetch_ok object db current fetched in
                let same : current.id ≡ object.id =
                  text_eq_sound current.id object.id (get_object_id object.id db current there) in
                (sweep-Writes act
                  (λ child db after why keyed h.
                    expunge_object-Writes stored snippets fuel child false db after known why keyed
                      h)
                  (marked_expunged object explicit current) current object.modified_by (suc fuel) db
                  after (subst (λ x. get_object x db ≡ some current) (sym same) there) refl
                  (record {
                    same_id = refl;
                    same_parent = refl;
                    same_permissions = refl;
                    counted = refl;
                    deleted = refl;
                    expunged = inr refl;
                    because = why current there;
                  })
                  keyed (ground arith)).0
          ]
        ]
