-- ===== src/Mapping/Merged.antt =====
-- The permissions that MapPermissionToODPermissions (mapping/ODPermissionToPermission.go) makes.
use ods.Common.{
  Bool, false, ◌&&◌, ◌||◌, none, some, List, [], ◌∷◌, Text, codes, text_eq, text_eq_sound,
  text_eq_self, is_empty, All, has_prefix, replace_first, split, any, ok, bind_ok, ◌≡◌, refl, sym,
  ap, ◌∙◌, subst, arith, Bool-cases, Option-cases, inl, inr,
}
use ods.Models.Permission.{
  OdObjectPermission, create_permission_from_resource, create_from_user_resource, group_of_parts,
  permission_for_user,
}
use ods.Access.Capability.{Capability, creating, reading, updating, deleting, sharing, allows}
use ods.Protocol.{Permission, consolidated, get_flattened_name_from_resource}
use ods.Mapping.Listed.{capability_of}
use ods.Mapping.{
  Permissions, permission_at, put_permission, joined, giving, merge_od_permissions, merge_all, kept,
  map_permission_to_od_permissions,
}
use ods.Mapping.Merging.{
  allows_of, allows_at, empty_other, put_lem, Distinct, Distinct-put, Bare, Bare-of, group-Bare,
}

module _ (common_name : Text → Text) where
  user-Bare : (resource : Text) → Bare (create_from_user_resource common_name resource)
  unfolding Bare create_from_user_resource permission_for_user
  user-Bare resource =
      Bare-of (create_from_user_resource common_name resource) refl refl refl refl refl

  created-Bare :
      (resource : Text) (p : OdObjectPermission)
      → create_permission_from_resource common_name resource ≡ ok p
      → Bare p
  unfolding create_permission_from_resource
  created-Bare resource p made = elim (Bool-cases (has_prefix resource (codes "user/"))) [
    | inl user ↦
        let e : create_from_user_resource common_name resource ≡ p = ground arith in
        subst Bare e (user-Bare resource)
    | inr other ↦ elim (Bool-cases (has_prefix resource (codes "group/"))) [
      | inl group ↦
          let parts = split b'/' (replace_first (codes "group/") [] resource) in
          let e : group_of_parts parts ≡ p = ground arith in subst Bare e (group-Bare parts)
      | inr neither ↦ absurd (ground arith)
    ]
  ]

  -- One resource merged in, seen at one name.
  merge_lem :
      (c : Capability) (resource k : Text) (p : OdObjectPermission) (m n : Permissions)
      → merge_od_permissions common_name resource p m ≡ ok n
      → Distinct m
      → is_empty k ≡ false
      → (allows_at c k n ≡ (
          allows_at c k m || (text_eq (get_flattened_name_from_resource resource) k && allows c p)))
        × Distinct n
  unfolding merge_od_permissions Bare
  merge_lem c resource k p m n merged d named =
      let flat = get_flattened_name_from_resource resource in
      elim (Bool-cases (is_empty flat)) [
        | inl nameless ↦
            let same : m ≡ n = ground arith in
            let other : text_eq flat k ≡ false = empty_other flat k nameless named in
            subst
              (λ x.
                (allows_at c k x ≡ (allows_at c k m || (text_eq flat k && allows c p)))
                × Distinct x)
              same (ground arith, d)
        | inr good ↦ elim (Option-cases (permission_at flat m)) [
          | inr (mapped, found) ↦
              let e : put_permission flat (joined mapped p) m ≡ n = ground arith in
              subst
                (λ x.
                  (allows_at c k x ≡ (allows_at c k m || (text_eq flat k && allows c p)))
                  × Distinct x)
                e
                (
                  put_lem c flat k mapped p m (ap (λ o. allows_of c o) found),
                  Distinct-put flat (joined mapped p) m good d,
                )
          | inl absent ↦
              let (mapped, made, e) =
                bind_ok (create_permission_from_resource common_name resource)
                  (λ mapped. ok (put_permission flat (joined mapped p) m)) n (ground arith) in
              let is_n : put_permission flat (joined mapped p) m ≡ n = ground arith in
              subst
                (λ x.
                  (allows_at c k x ≡ (allows_at c k m || (text_eq flat k && allows c p)))
                  × Distinct x)
                is_n
                (
                  put_lem c flat k mapped p m
                      (ap (λ o. allows_of c o) absent ∙ sym (created-Bare resource mapped made c)),
                  Distinct-put flat (joined mapped p) m good d,
                )
        ]
      ]

  merge_all_lem :
      (c : Capability) (k : Text) (p : OdObjectPermission) (rs : List Text) (m n : Permissions)
      → merge_all common_name p rs m ≡ ok n
      → Distinct m
      → is_empty k ≡ false
      → (allows_at c k n ≡ (
          allows_at c k m
          || (any (λ r. text_eq (get_flattened_name_from_resource r) k) rs && allows c p)))
        × Distinct n
  unfolding merge_all
  merge_all_lem c k p [] m n merged d named =
      let same : m ≡ n = ground arith in
      subst (λ x. (allows_at c k x ≡ (allows_at c k m || (false && allows c p))) × Distinct x) same
        (ground arith, d)
  merge_all_lem c k p (r ∷ rs) m n merged d named =
      let (next, one, more) =
        bind_ok (merge_od_permissions common_name r p m) (λ x. merge_all common_name p rs x) n
          merged in
      let (here, d') = merge_lem c r k p m next one d named in
      let (later, d'') = merge_all_lem c k p rs next n more d' named in (ground arith, d'')

kept-All :
    (P : Text → OdObjectPermission → Type 0) (m : Permissions)
    → ((k : Text) (v : OdObjectPermission)
        → is_empty k ≡ false
        → permission_at k m ≡ some v
        → P k v)
    → Distinct m
    → All (λ v. P v.grantee v) (kept m)
unfolding Distinct kept permission_at
kept-All P [] holds d = tt
kept-All P ((j, p) ∷ m) holds (named, alone, d) =
    let rest =
      kept-All P m
        (λ k v named' found. holds k v named' (elim (Bool-cases (text_eq j k)) [
          | inl same ↦ absurd (
              let e : permission_at k m ≡ none =
                subst (λ x. permission_at x m ≡ none) (text_eq_sound j k same) alone in
              cc)
          | inr other ↦ ground arith
        ]))
        d in
    let self = text_eq_self j in
    elim (Bool-cases (text_eq p.grantee j)) [
      | inl same ↦
          let first : P j p = holds j p named (ground arith) in
          let e : p ∷ kept m ≡ kept ((j, p) ∷ m) = ground arith in
          subst (All (λ v. P v.grantee v)) e
            (subst (λ x. P x p) (sym (text_eq_sound p.grantee j same)) first, rest)
      | inr other ↦
          let e : kept m ≡ kept ((j, p) ∷ m) = ground arith in
          subst (All (λ v. P v.grantee v)) e rest
    ]

Distinct-through :
    (common_name : Text → Text) (i : Permission) (m1 m2 m3 m4 m5 : Permissions)
    → merge_all common_name (giving creating) i.create.allowed_resources [] ≡ ok m1
    → merge_all common_name (giving reading) i.read.allowed_resources m1 ≡ ok m2
    → merge_all common_name (giving updating) i.update.allowed_resources m2 ≡ ok m3
    → merge_all common_name (giving deleting) i.delete.allowed_resources m3 ≡ ok m4
    → merge_all common_name (giving sharing) i.share.allowed_resources m4 ≡ ok m5
    → Distinct m1 × (Distinct m2 × (Distinct m3 × (Distinct m4 × Distinct m5)))
unfolding Distinct
Distinct-through common_name i m1 m2 m3 m4 m5 loop1 loop2 loop3 loop4 loop5 =
    let k = codes "k" in
    let d1 =
      (merge_all_lem common_name creating k (giving creating) i.create.allowed_resources [] m1 loop1
        tt refl).1 in
    let d2 =
      (merge_all_lem common_name creating k (giving reading) i.read.allowed_resources m1 m2 loop2 d1
        refl).1 in
    let d3 =
      (merge_all_lem common_name creating k (giving updating) i.update.allowed_resources m2 m3 loop3
        d2 refl).1 in
    let d4 =
      (merge_all_lem common_name creating k (giving deleting) i.delete.allowed_resources m3 m4 loop4
        d3 refl).1 in
    let d5 =
      (merge_all_lem common_name creating k (giving sharing) i.share.allowed_resources m4 m5 loop5
        d4 refl).1 in
    (d1, (d2, (d3, (d4, d5))))

-- Of what the five loops add, one capability is one loop's.
pick :
    (c : Capability) (b : Capability → Bool)
    → (((((false || (b creating && allows c (giving creating)))
              || (b reading && allows c (giving reading)))
            || (b updating && allows c (giving updating)))
          || (b deleting && allows c (giving deleting)))
        || (b sharing && allows c (giving sharing)))
      ≡ b c
unfolding giving
pick creating b = ground arith
pick reading b = ground arith
pick updating b = ground arith
pick deleting b = ground arith
pick sharing b = ground arith

-- Where MapPermissionToODPermissions gives permissions, each of them has a capability exactly when some
-- resource that is allowed that capability, once consolidated, flattens to the permission's grantee.
pub map_permission_to_od_permissions_lem :
    (common_name : Text → Text) (permission : Permission) (l : List OdObjectPermission)
    (c : Capability)
    → map_permission_to_od_permissions common_name permission ≡ ok l
    → All
        (λ v.
          allows c v
          ≡ any
              (λ r. text_eq (get_flattened_name_from_resource r) v.grantee)
              (capability_of c (consolidated permission)).allowed_resources)
        l
unfolding map_permission_to_od_permissions Distinct permission_at
map_permission_to_od_permissions_lem common_name permission l c done =
    let i = consolidated permission in
    let (m1, loop1, rest1) =
      bind_ok (merge_all common_name (giving creating) i.create.allowed_resources []) _ l done in
    let (m2, loop2, rest2) =
      bind_ok (merge_all common_name (giving reading) i.read.allowed_resources m1) _ l rest1 in
    let (m3, loop3, rest3) =
      bind_ok (merge_all common_name (giving updating) i.update.allowed_resources m2) _ l rest2 in
    let (m4, loop4, rest4) =
      bind_ok (merge_all common_name (giving deleting) i.delete.allowed_resources m3) _ l rest3 in
    let (m5, loop5, rest5) =
      bind_ok (merge_all common_name (giving sharing) i.share.allowed_resources m4) _ l rest4 in
    let (d1, (d2, (d3, (d4, d5)))) =
      Distinct-through common_name i m1 m2 m3 m4 m5 loop1 loop2 loop3 loop4 loop5 in
    let is_l : kept m5 ≡ l = ground arith in
    let names : Text → Capability → Bool = λ k x.
      any (λ r. text_eq (get_flattened_name_from_resource r) k)
        (capability_of x i).allowed_resources in
    subst (All (λ v. allows c v ≡ names v.grantee c)) is_l (
      kept-All (λ k v. allows c v ≡ names k c) m5
        (λ k v named found.
          let e1 =
            (merge_all_lem common_name c k (giving creating) i.create.allowed_resources [] m1 loop1
              tt named).0 in
          let e2 =
            (merge_all_lem common_name c k (giving reading) i.read.allowed_resources m1 m2 loop2 d1
              named).0 in
          let e3 =
            (merge_all_lem common_name c k (giving updating) i.update.allowed_resources m2 m3 loop3
              d2 named).0 in
          let e4 =
            (merge_all_lem common_name c k (giving deleting) i.delete.allowed_resources m3 m4 loop4
              d3 named).0 in
          let e5 =
            (merge_all_lem common_name c k (giving sharing) i.share.allowed_resources m4 m5 loop5 d4
              named).0 in
          let got : allows_at c k m5 ≡ allows c v = ap (allows_of c) found in
          let all : allows_at c k m5 ≡ names k c = rw (e5, e4, e3, e2, e1) (pick c (names k)) in
          sym got ∙ all)
        d5)
