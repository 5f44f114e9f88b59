-- ===== src/Tree/Rooted.antt =====
-- Writing a row of a database in which every object has a finite chain of parents.
use ods.Common.{
  text_eq_comm-false, ℕ, zero, suc, true, false, some, List, [], ◌∷◌, Text, text_eq, text_eq_sound,
  text_eq_self, ◌≡◌, refl, sym, ap, ◌∙◌, subst, inl, inr, arith, Bool-cases, Option-cases,
}
use ods.Tree.{
  OdObject, Db, find, get_object, set_object, circular, clear, lost, is_parent_id_descendent,
}
use ods.Tree.Walk.{Lineage, root, up}

unfoldable pub Rooted : Db → Text → Type 0
Rooted db p = (l : List OdObject) × Lineage db p l

-- Every object of the database has a finite chain of parents, all of which are there.
unfoldable pub Forest : Db → Type 0
Forest db = (p : Text) (o : OdObject) → get_object p db ≡ some o → Rooted db p

find_id : (p : Text) (db : Db) (o : OdObject) → find p db ≡ some o → text_eq o.id p ≡ true
unfolding find
find_id p [] o here = cc
find_id p (q ∷ db) o here = elim (Bool-cases (text_eq q.id p)) [
  | inl same ↦ let e : q ≡ o = grind arith in ap (λ o. text_eq o.id p) (sym e) ∙ same
  | inr other ↦ find_id p db o (ground arith)
]

pub get_object_id :
    (p : Text) (db : Db) (o : OdObject) → get_object p db ≡ some o → text_eq o.id p ≡ true
unfolding get_object
get_object_id [] db o here = cc
get_object_id (c ∷ p) db o here = find_id (c ∷ p) db o here

find-set_other :
    (n : OdObject) (p : Text) (db : Db)
    → text_eq n.id p ≡ false
    → find p (set_object n db) ≡ find p db
unfolding find set_object
find-set_other n p [] other = refl
find-set_other n p (q ∷ db) other =
    let ih = find-set_other n p db other in
    elim (Bool-cases (text_eq q.id n.id)) [
      | inl same ↦
          let e : text_eq q.id p ≡ false =
            subst (λ x. text_eq x p ≡ false) (sym (text_eq_sound q.id n.id same)) other in
          ground arith
      | inr apart ↦ ground arith
    ]

find-set_same :
    (n o : OdObject) (db : Db) → find n.id db ≡ some o → find n.id (set_object n db) ≡ some n
unfolding find set_object
find-set_same n o [] here = cc
find-set_same n o (q ∷ db) here =
    let ih = find-set_same n o db in
    let self = text_eq_self n.id in
    elim (Bool-cases (text_eq q.id n.id)) [
      | inl same ↦ ground arith
      | inr apart ↦ let later = ih (ground arith) in ground arith
    ]

pub get-set_other :
    (n : OdObject) (p : Text) (db : Db)
    → text_eq n.id p ≡ false
    → get_object p (set_object n db) ≡ get_object p db
unfolding get_object
get-set_other n [] db other = refl
get-set_other n (c ∷ p) db other = find-set_other n (c ∷ p) db other

pub get-set_same :
    (n o : OdObject) (p : Text) (db : Db)
    → text_eq n.id p ≡ true
    → get_object p db ≡ some o
    → get_object p (set_object n db) ≡ some n
unfolding get_object
get-set_same n o [] db same here = cc
get-set_same n o (c ∷ p) db same here =
    let e = text_eq_sound n.id (c ∷ p) same in
    subst (λ x. find x (set_object n db) ≡ some n) e
      (find-set_same n o db (subst (λ x. find x db ≡ some o) (sym e) here))

-- A row `o` gives way to `n`, which has its identifier.
module _ (db : Db) (n o : OdObject) (here : get_object n.id db ≡ some o) where
  -- It stands under a parent that has a chain after the change.
  Rooted-set :
      (p : Text) (l : List OdObject)
      → Rooted (set_object n db) n.parent_id
      → Lineage db p l
      → Rooted (set_object n db) p
  unfolding Rooted
  Rooted-set _ _ parents root = ([], root)
  Rooted-set p _ parents (up {o = q} {l = l} found rest) = elim (Bool-cases (text_eq n.id p)) [
    | inl same ↦ (n ∷ parents.0, up (get-set_same n q p db same found) parents.1)
    | inr other ↦
        let (l', chain) = Rooted-set q.parent_id l parents rest in
        (q ∷ l', up (get-set_other n p db other ∙ found) chain)
  ]

  pub Forest-set : Forest db → Rooted (set_object n db) n.parent_id → Forest (set_object n db)
  unfolding Forest Rooted
  Forest-set forest parents p q found = elim (Bool-cases (text_eq n.id p)) [
    | inl same ↦
        let e : get_object p db ≡ some o =
          subst (λ x. get_object x db ≡ some o) (text_eq_sound n.id p same) here in
        Rooted-set p (forest p o e).0 parents (forest p o e).1
    | inr other ↦
        let e : get_object p db ≡ some q = sym (get-set_other n p db other) ∙ found in
        Rooted-set p (forest p q e).0 parents (forest p q e).1
  ]

  -- It keeps its parent.
  same_parent-Rooted :
      (p : Text) (l : List OdObject)
      → n.parent_id ≡ o.parent_id
      → Lineage db p l
      → Rooted (set_object n db) p
  unfolding Rooted
  same_parent-Rooted _ _ same root = ([], root)
  same_parent-Rooted p _ same (up {o = q} {l = l} found rest) =
      let (l', chain) = same_parent-Rooted q.parent_id l same rest in
      elim (Bool-cases (text_eq n.id p)) [
        | inl is_n ↦
            let e : get_object n.id db ≡ some q =
              subst (λ x. get_object x db ≡ some q) (sym (text_eq_sound n.id p is_n)) found in
            let is_o : q ≡ o = cc in
            (
              n ∷ l',
              up (get-set_same n q p db is_n found) (
                  subst (λ x. Lineage (set_object n db) x l')
                    (ap (λ x. x.parent_id) is_o ∙ sym same) chain),
            )
        | inr other ↦ (q ∷ l', up (get-set_other n p db other ∙ found) chain)
      ]

  pub Forest-set_same : Forest db → n.parent_id ≡ o.parent_id → Forest (set_object n db)
  unfolding Forest Rooted
  Forest-set_same forest same p q found = elim (Bool-cases (text_eq n.id p)) [
    | inl is_n ↦
        let e : get_object p db ≡ some o =
          subst (λ x. get_object x db ≡ some o) (text_eq_sound n.id p is_n) here in
        same_parent-Rooted p (forest p o e).0 same (forest p o e).1
    | inr other ↦
        let e : get_object p db ≡ some q = sym (get-set_other n p db other) ∙ found in
        same_parent-Rooted p (forest p q e).0 same (forest p q e).1
  ]

  -- The walk from its new parent does not meet it.
  pub clear-Rooted :
      (fuel : ℕ) (target : Text)
      → is_parent_id_descendent fuel db n.id target ≡ clear
      → text_eq n.id target ≡ false
      → Rooted (set_object n db) target
  unfolding is_parent_id_descendent Rooted
  clear-Rooted zero target walked apart = absurd cc
  clear-Rooted (suc fuel) [] walked apart = ([], root)
  clear-Rooted (suc fuel) (c ∷ target) walked apart =
      elim (Option-cases (get_object (c ∷ target) db)) [
        | inl gone ↦ absurd (
            let e : is_parent_id_descendent (suc fuel) db n.id (c ∷ target) ≡ lost = ground arith in
            cc)
        | inr (q, found) ↦ elim (Bool-cases (text_eq q.parent_id n.id)) [
          | inl same ↦ absurd (
              let e : is_parent_id_descendent (suc fuel) db n.id (c ∷ target) ≡ circular =
                ground arith in
              cc)
          | inr other ↦
              let e : is_parent_id_descendent fuel db n.id q.parent_id ≡ clear = ground arith in
              let (l, chain) =
                clear-Rooted fuel q.parent_id e (text_eq_comm-false q.parent_id n.id other) in
              (q ∷ l, up (get-set_other n (c ∷ target) db apart ∙ found) chain)
        ]
      ]
