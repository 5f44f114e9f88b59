-- ===== src/Trash/Marked.antt =====
-- A row that is marked as deleted or expunged, why it is, and what a marked row keeps.
use ods.Common.{
  ℕ, ◌+◌, Bool, true, false, ◌||◌, Option, some, List, Text, text_eq, is_empty, ◌≡◌, refl, ap, ◌∙◌,
  ◌⊎◌, inl, inr, arith, Bool-cases, Option-cases, ok, err,
}
use ods.Tree.{OdObject, Db, get_object, set_object}
use ods.Trash.{
  OdUser, RawSnippetFields, failed, authorized_to_delete, fire, write, fetch, with_snippets,
}
use ods.Trash.Writes.{Writes, Writes-row}

-- The row of the identifier is deleted.
unfoldable pub Gone : Text → Db → Type 0
Gone id db = (p : OdObject) × (get_object id db ≡ some p) × (p.is_deleted ≡ true)

-- Why a row is marked: it is the requested one, or a child of a deleted row that the user may delete, and then it
-- gets the flag of a deleted ancestor.
unfoldable pub Reason : OdUser → (root : Text) → Db → OdObject → Bool → Type 0
Reason user root db o hidden =
    ((text_eq o.id root ≡ true) × (hidden ≡ false))
    ⊎ ((hidden ≡ true) × (authorized_to_delete user o ≡ true) × Gone o.parent_id db)

pub record Marking (user : OdUser) (root : Text) (db : Db) (o n : OdObject) : Type 0 where
  pub same_id : n.id ≡ o.id
  pub same_parent : n.parent_id ≡ o.parent_id
  pub same_permissions : n.permissions ≡ o.permissions
  pub counted : n.change_count ≡ o.change_count + 1
  pub deleted : n.is_deleted ≡ true
  pub expunged : (n.is_expunged ≡ o.is_expunged) ⊎ (n.is_expunged ≡ true)
  pub because : Reason user root db o n.is_ancestor_deleted

-- What the marks of a row leave.
pub record Steady (o n : OdObject) : Type 0 where
  pub same_id : n.id ≡ o.id
  pub same_parent : n.parent_id ≡ o.parent_id
  pub same_permissions : n.permissions ≡ o.permissions
  pub deleted : o.is_deleted ≡ true → n.is_deleted ≡ true

Steady-refl : (o : OdObject) → Steady o o
Steady-refl o = record {
  same_id = refl;
  same_parent = refl;
  same_permissions = refl;
  deleted = λ h. h;
}

Steady-trans : (a b c : OdObject) → Steady a b → Steady b c → Steady a c
Steady-trans a b c s t = record {
  same_id = t.same_id ∙ s.same_id;
  same_parent = t.same_parent ∙ s.same_parent;
  same_permissions = t.same_permissions ∙ s.same_permissions;
  deleted = λ h. t.deleted (s.deleted h);
}

pub authorized-permissions :
    (user : OdUser) (o n : OdObject)
    → n.permissions ≡ o.permissions
    → authorized_to_delete user n ≡ authorized_to_delete user o
unfolding authorized_to_delete
authorized-permissions user o n same =
    ap (λ ps. authorized_to_delete user (record o { permissions = ps })) same

pub write_ok :
    (token : Text → ℕ → Text) (new old : OdObject) (db after : Db)
    → write token new old db ≡ ok after
    → set_object (fire token new old) db ≡ after
unfolding write
write_ok token new old db after h = ground arith

pub fetch_ok :
    (object : OdObject) (db : Db) (current : OdObject)
    → fetch object db ≡ ok current
    → get_object object.id db ≡ some current
unfolding fetch
fetch_ok object db current h = elim (Option-cases (get_object object.id db)) [
  | inl gone ↦ absurd (ground arith)
  | inr (o, there) ↦ let e : o ≡ current = ground arith in there ∙ ap some e
]

pub fetch-cases :
    (object : OdObject) (db : Db)
    → (fetch object db ≡ err failed) ⊎ ((current : OdObject) × (fetch object db ≡ ok current))
unfolding fetch
fetch-cases object db = elim (Bool-cases (is_empty object.id || is_empty object.change_token)) [
  | inl bad ↦ inl (ground arith)
  | inr good ↦ elim (Option-cases (get_object object.id db)) [
    | inl gone ↦ inl (ground arith)
    | inr (o, there) ↦ elim (Bool-cases (text_eq object.change_token o.change_token)) [
      | inl same ↦ inr (o, ground arith)
      | inr other ↦ inl (ground arith)
    ]
  ]
]

pub with_snippets_known :
    (stored : Text → Option (List RawSnippetFields)) (explicit : Bool) (user : OdUser)
    (snippets : List RawSnippetFields)
    → user.snippets ≡ some snippets
    → with_snippets stored explicit user ≡ ok user
unfolding with_snippets
with_snippets_known stored false user snippets known = refl
with_snippets_known stored true user snippets known = ground arith

module _ (user : OdUser) (root : Text) where
  Marking-Steady : (db : Db) (o n : OdObject) → Marking user root db o n → Steady o n
  Marking-Steady db o n mark = record {
    same_id = mark.same_id;
    same_parent = mark.same_parent;
    same_permissions = mark.same_permissions;
    deleted = λ h. mark.deleted;
  }

  -- How the row of an identifier has changed after some marks.
  pub steady :
      (p : Text) (db after : Db) (o : OdObject)
      → Writes (Marking user root) db after
      → get_object p db ≡ some o
      → (m : OdObject) × (get_object p after ≡ some m) × Steady o m
  steady = Writes-row Steady Steady-refl Steady-trans Marking-Steady

  pub Gone-Writes :
      (id : Text) (db after : Db) → Writes (Marking user root) db after → Gone id db → Gone id after
  unfolding Gone
  Gone-Writes id db after writes (p, there, deleted) =
      let (m, now, s) = steady id db after p writes there in (m, now, s.deleted deleted)
