-- ===== src/Mapping/Merging.antt =====
-- One permission put among others, for mergeODPermissions (mapping/ODPermissionToPermission.go).
use ods.Common.{
  Bool, true, false, ◌&&◌, ◌||◌, Option, none, some, List, [], ◌∷◌, Text, text_eq, text_eq_sound,
  text_eq_self, text_eq_comm-false, is_empty, ◌≡◌, refl, sym, ap, ◌∙◌, subst, arith, Bool-cases,
  inl, inr,
}
use ods.Models.Permission.{OdObjectPermission, group_of_parts, permission_for_group}
use ods.Access.Capability.{Capability, creating, reading, updating, deleting, sharing, allows}
use ods.Mapping.{Permissions, permission_at, put_permission, joined}

pub allows-joined :
    (c : Capability) (mapped p : OdObjectPermission)
    → allows c (joined mapped p) ≡ (allows c mapped || allows c p)
allows-joined creating mapped p = refl
allows-joined reading mapped p = refl
allows-joined updating mapped p = refl
allows-joined deleting mapped p = refl
allows-joined sharing mapped p = refl

pub at-put_same :
    (k : Text) (v : OdObjectPermission) (m : Permissions)
    → permission_at k (put_permission k v m) ≡ some v
unfolding permission_at put_permission
at-put_same k v [] = let self = text_eq_self k in ground arith
at-put_same k v ((j, p) ∷ m) =
    let self = text_eq_self k in let ih = at-put_same k v m in ground arith

pub at-put_other :
    (k j : Text) (v : OdObjectPermission) (m : Permissions)
    → text_eq k j ≡ false
    → permission_at j (put_permission k v m) ≡ permission_at j m
unfolding permission_at put_permission
at-put_other k j v [] other = ground arith
at-put_other k j v ((i, p) ∷ m) other =
    let ih = at-put_other k j v m other in
    elim (Bool-cases (text_eq i k)) [
      | inl same ↦
          let e : text_eq i j ≡ false =
            subst (λ x. text_eq x j ≡ false) (sym (text_eq_sound i k same)) other in
          ground arith
      | inr apart ↦ ground arith
    ]

-- whether the permission under a name has a capability
abbrev pub allows_of : Capability → Option OdObjectPermission → Bool
allows_of c none = false
allows_of c (some p) = allows c p

-- whether the permission under a name has a capability
abbrev pub allows_at : Capability → Text → Permissions → Bool
allows_at c k m = allows_of c (permission_at k m)

pub empty_other : (s k : Text) → is_empty s ≡ true → is_empty k ≡ false → text_eq s k ≡ false
unfolding text_eq
empty_other s [] h i = cc
empty_other [] (c ∷ k) h i = refl
empty_other (d ∷ s) (c ∷ k) h i = cc

-- A permission put under its name, seen at one name.
pub put_lem :
    (c : Capability) (j k : Text) (mapped p : OdObjectPermission) (m : Permissions)
    → allows_at c j m ≡ allows c mapped
    → allows_at c k (put_permission j (joined mapped p) m)
      ≡ (allows_at c k m || (text_eq j k && allows c p))
put_lem c j k mapped p m was = elim (Bool-cases (text_eq j k)) [
  | inl same ↦
      let e : allows_at c j (put_permission j (joined mapped p) m)
          ≡ (allows_at c j m || allows c p) =
        ap (allows_of c) (at-put_same j (joined mapped p) m)
        ∙ (allows-joined c mapped p ∙ ap (λ b. b || allows c p) (sym was)) in
      rw same (
        subst
          (λ x.
            allows_at c x (put_permission j (joined mapped p) m) ≡ (allows_at c x m || allows c p))
          (text_eq_sound j k same) e)
  | inr other ↦
      let e = ap (allows_of c) (at-put_other j k (joined mapped p) m other) in ground arith
]

-- Every name is there, and none stands twice.
unfoldable pub Distinct : Permissions → Type 0
Distinct [] = Unit
Distinct ((k, p) ∷ m) = (is_empty k ≡ false) × (permission_at k m ≡ none) × Distinct m

pub Distinct-put :
    (k : Text) (v : OdObjectPermission) (m : Permissions)
    → is_empty k ≡ false
    → Distinct m
    → Distinct (put_permission k v m)
unfolding Distinct put_permission permission_at
Distinct-put k v [] named d = (named, refl, tt)
Distinct-put k v ((j, p) ∷ m) named (named', alone, d) = elim (Bool-cases (text_eq j k)) [
  | inl same ↦
      let gone : permission_at k m ≡ none =
        subst (λ x. permission_at x m ≡ none) (text_eq_sound j k same) alone in
      let e : (k, v) ∷ m ≡ put_permission k v ((j, p) ∷ m) = ground arith in
      subst Distinct e (named, gone, d)
  | inr other ↦
      let e : (j, p) ∷ put_permission k v m ≡ put_permission k v ((j, p) ∷ m) = ground arith in
      subst Distinct e (
        named',
        at-put_other k j v m (text_eq_comm-false j k other) ∙ alone,
        Distinct-put k v m named d,
      )
]

-- A permission that gives nothing.
unfoldable pub Bare : OdObjectPermission → Type 0
Bare p = (c : Capability) → allows c p ≡ false

pub Bare-of :
    (p : OdObjectPermission)
    → p.allow_create ≡ false
    → p.allow_read ≡ false
    → p.allow_update ≡ false
    → p.allow_delete ≡ false
    → p.allow_share ≡ false
    → Bare p
unfolding Bare
Bare-of p c r u d s creating = c
Bare-of p c r u d s reading = r
Bare-of p c r u d s updating = u
Bare-of p c r u d s deleting = d
Bare-of p c r u d s sharing = s

pub group-Bare : (parts : List Text) → Bare (group_of_parts parts)
unfolding Bare group_of_parts permission_for_group
group-Bare [] = Bare-of (group_of_parts []) refl refl refl refl refl
group-Bare (a ∷ []) = Bare-of (group_of_parts (a ∷ [])) refl refl refl refl refl
group-Bare (a ∷ b ∷ []) = Bare-of (group_of_parts (a ∷ b ∷ [])) refl refl refl refl refl
group-Bare (a ∷ b ∷ d ∷ rest) = Bare-of (group_of_parts (a ∷ b ∷ d ∷ rest)) refl refl refl refl refl
