-- ===== src/Trash/Writes.antt =====
-- What a chain of updates of rows leaves as it was, by induction on the chain.
use ods.Common.{
  ℕ, Bool, true, not, ◌&&◌, some, [], ◌∷◌, Text, text_eq, text_eq_sound, all, ◌≡◌, refl, sym, ap,
  ◌∙◌, subst, inl, inr, arith, Bool-cases, ok,
}
use ods.Tree.{OdObject, Db, get_object, set_object}
use ods.Tree.Rooted.{Forest, Forest-set_same, get-set_other, get-set_same}
use ods.Trash.{fire, accepts, write}

-- Updates, each of a row that is there, where `R` relates the database before to the old and the new row.
pub data Writes (R : Db → OdObject → OdObject → Type 0) : Db → Db → Type 0 where
  done : {db : Db} → Writes R db db
  wrote :
      {db after : Db} {n o : OdObject}
      → get_object n.id db ≡ some o
      → R db o n
      → Writes R (set_object n db) after
      → Writes R db after

module _ {R : Db → OdObject → OdObject → Type 0} where
  pub Writes-append :
      (db middle after : Db) → Writes R db middle → Writes R middle after → Writes R db after
  Writes-append _ _ after done later = later
  Writes-append db middle after (wrote {n = n} there why rest) later =
      wrote there why (Writes-append (set_object n db) middle after rest later)

  -- What every update keeps, all of them keep.
  pub Writes-keeps :
      (P : Db → Type 0)
      → ((db : Db) (o n : OdObject)
          → get_object n.id db ≡ some o
          → R db o n
          → P db
          → P (set_object n db))
      → (db after : Db) → Writes R db after
      → P db
      → P after
  Writes-keeps P step _ _ done p = p
  Writes-keeps P step db after (wrote {n = n} {o = o} there why rest) p =
      Writes-keeps P step (set_object n db) after rest (step db o n there why p)

  -- Where no update changes a parent, every object keeps its finite chain of parents.
  pub Writes-Forest :
      ((db : Db) (o n : OdObject) → R db o n → n.parent_id ≡ o.parent_id)
      → (db after : Db) → Writes R db after
      → Forest db
      → Forest after
  Writes-Forest same =
      Writes-keeps Forest
        (λ db o n there why forest. Forest-set_same db n o there forest (same db o n why))

  -- How the row of an identifier changes, for a relation that every update has and that composes.
  pub Writes-row :
      (S : OdObject → OdObject → Type 0)
      → ((o : OdObject) → S o o)
      → ((a b c : OdObject) → S a b → S b c → S a c)
      → ((db : Db) (o n : OdObject) → R db o n → S o n)
      → (p : Text) (db after : Db) (o : OdObject) → Writes R db after
      → get_object p db ≡ some o
      → (m : OdObject) × (get_object p after ≡ some m) × S o m
  Writes-row S self chain step p _ _ o done here = (o, here, self o)
  Writes-row S self chain step p db after o (wrote {n = n} {o = old} there why rest) here =
      elim (Bool-cases (text_eq n.id p)) [
        | inl same ↦
            let is_old : old ≡ o =
              let e : get_object n.id db ≡ some o =
                subst (λ x. get_object x db ≡ some o) (sym (text_eq_sound n.id p same)) here in
              cc in
            let (m, now, s) =
              Writes-row S self chain step p (set_object n db) after n rest
                (get-set_same n o p db same here) in
            (m, now, chain o n m (subst (λ x. S x n) is_old (step db old n why)) s)
        | inr other ↦
            Writes-row S self chain step p (set_object n db) after o rest
              (get-set_other n p db other ∙ here)
      ]

  pub write-Writes :
      (token : Text → ℕ → Text) (new old : OdObject) (db after : Db)
      → get_object new.id db ≡ some old
      → R db old (fire token new old)
      → write token new old db ≡ ok after
      → Writes R db after
  unfolding write fire
  write-Writes token new old db after there why h = elim (Bool-cases (accepts new old db)) [
    | inr bad ↦ absurd (ground arith)
    | inl good ↦
        let e : set_object (fire token new old) db ≡ after = ground arith in
        subst (Writes R db) e (wrote there why done)
  ]

-- No identifier stands twice.
unfoldable pub distinct : Db → Bool
distinct [] = true
distinct (o ∷ db) = all (λ p. not (text_eq p.id o.id)) db && distinct db

all_ids :
    (p : Text) (n : OdObject) (db : Db)
    → all (λ q. not (text_eq q.id p)) (set_object n db) ≡ all (λ q. not (text_eq q.id p)) db
unfolding set_object
all_ids p n [] = refl
all_ids p n (q ∷ db) =
    let ih = all_ids p n db in
    elim (Bool-cases (text_eq q.id n.id)) [
      | inl same ↦
          let e : text_eq n.id p ≡ text_eq q.id p =
            ap (λ x. text_eq x p) (sym (text_eq_sound q.id n.id same)) in
          ground arith
      | inr other ↦ ground arith
    ]

pub distinct-set : (n : OdObject) (db : Db) → distinct (set_object n db) ≡ distinct db
unfolding distinct set_object
distinct-set n [] = refl
distinct-set n (q ∷ db) =
    let ih = distinct-set n db in
    let ids = all_ids q.id n db in
    elim (Bool-cases (text_eq q.id n.id)) [
      | inl same ↦
          let e : n.id ≡ q.id = sym (text_eq_sound q.id n.id same) in
          let f : all (λ p. not (text_eq p.id n.id)) db ≡ all (λ p. not (text_eq p.id q.id)) db =
            ap (λ x. all (λ (p : OdObject). not (text_eq p.id x)) db) e in
          ground arith
      | inr other ↦ ground arith
    ]

pub Writes-distinct :
    {R : Db → OdObject → OdObject → Type 0}
    → (db after : Db) → Writes R db after
    → distinct db ≡ true
    → distinct after ≡ true
Writes-distinct =
    Writes-keeps (λ db. distinct db ≡ true) (λ db o n there why d. distinct-set n db ∙ d)
