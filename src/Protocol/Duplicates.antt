-- ===== src/Protocol/Duplicates.antt =====
-- What RemoveDuplicates leaves of a capability.
use ods.Common.{
  ℕ, suc, ◌≤◌, Bool, true, false, not, ◌&&◌, List, [], ◌∷◌, Text, text_eq, text_eq_sound, any, ◌≡◌,
  refl, sym, ap, ◌∙◌, arith, Bool-cases, inl, inr, if◌then◌else◌,
}
use ods.Protocol.{PermissionCapability, Flags, put, put_all, flagged, remove_duplicates}
use ods.Protocol.Consolidate.{any-put_all-true, any-put_all-false}

module _ (r : Text) where
  -- how often the resource stands in a list, and among the keys of a map
  unfoldable pub times : List Text → ℕ
  times [] = 0
  times (k ∷ ks) = if text_eq k r then suc (times ks) else times ks

  keys : Flags → ℕ
  keys [] = 0
  keys ((k, v) ∷ m) = if text_eq k r then suc (keys m) else keys m

  unfoldable pub listed : List Text → Bool
  listed ks = any (λ k. text_eq k r) ks

  keys-put_other :
      (k : Text) (v : Bool) (m : Flags) → text_eq k r ≡ false → keys (put k v m) ≡ keys m
  unfolding keys put
  keys-put_other k v [] h = ground arith
  keys-put_other k v ((j, w) ∷ m) h = elim (Bool-cases (text_eq j k)) [
    | inl same ↦ let e = ap (λ j. text_eq j r) (text_eq_sound j k same) in ground arith
    | inr other ↦ let i = keys-put_other k v m h in ground arith
  ]

  keys-put_same :
      (k : Text) (v : Bool) (m : Flags) → text_eq k r ≡ true → keys m ≤ 1 → keys (put k v m) ≤ 1
  unfolding keys put
  keys-put_same k v [] h l = ground arith
  keys-put_same k v ((j, w) ∷ m) h l = elim (Bool-cases (text_eq j k)) [
    | inl same ↦ let e = ap (λ j. text_eq j r) (text_eq_sound j k same) in ground arith
    | inr other ↦
        let e = text_eq_sound k r h in
        let apart : text_eq j r ≡ false = ap (text_eq j) (sym e) ∙ other in
        let i = keys-put_same k v m h (ground arith) in ground arith
  ]

  keys-put : (k : Text) (v : Bool) (m : Flags) → keys m ≤ 1 → keys (put k v m) ≤ 1
  keys-put k v m l = elim (Bool-cases (text_eq k r)) [
    | inl same ↦ keys-put_same k v m same l
    | inr other ↦ let e = keys-put_other k v m other in omega (arith, e)
  ]

  keys-put_all : (v : Bool) (ks : List Text) (m : Flags) → keys m ≤ 1 → keys (put_all v ks m) ≤ 1
  unfolding put_all
  keys-put_all v [] m l = l
  keys-put_all v (k ∷ ks) m l = keys-put_all v ks (put k v m) (keys-put k v m l)

  times-flagged : (m : Flags) → times (flagged m) ≤ keys m
  unfolding times flagged keys
  times-flagged [] = omega arith
  times-flagged ((k, true) ∷ m) = let i = times-flagged m in ground arith
  times-flagged ((k, false) ∷ m) = let i = times-flagged m in ground arith

  -- A cleared flag stays cleared while only flags are cleared.
  times-put-false : (k : Text) (m : Flags) → times (flagged (put k false m)) ≤ times (flagged m)
  unfolding times flagged put
  times-put-false k [] = omega arith
  times-put-false k ((j, true) ∷ m) = let i = times-put-false k m in ground arith
  times-put-false k ((j, false) ∷ m) = let i = times-put-false k m in ground arith

  times-put_all-false :
      (ks : List Text) (m : Flags) → times (flagged (put_all false ks m)) ≤ times (flagged m)
  unfolding put_all
  times-put_all-false [] m = omega arith
  times-put_all-false (k ∷ ks) m =
      let i = times-put_all-false ks (put k false m) in let j = times-put-false k m in omega arith

  times-put_same :
      (k : Text) (m : Flags) → text_eq k r ≡ true → keys m ≤ 1 → times (flagged (put k false m)) ≡ 0
  unfolding times flagged put keys
  times-put_same k [] h l = refl
  times-put_same k ((j, true) ∷ m) h l = elim (Bool-cases (text_eq j k)) [
    | inl same ↦
        let e = ap (λ j. text_eq j r) (text_eq_sound j k same) in
        let i = times-flagged m in ground arith
    | inr other ↦
        let apart : text_eq j r ≡ false = ap (text_eq j) (sym (text_eq_sound k r h)) ∙ other in
        let i = times-put_same k m h (ground arith) in ground arith
  ]
  times-put_same k ((j, false) ∷ m) h l = elim (Bool-cases (text_eq j k)) [
    | inl same ↦
        let e = ap (λ j. text_eq j r) (text_eq_sound j k same) in
        let i = times-flagged m in ground arith
    | inr other ↦
        let apart : text_eq j r ≡ false = ap (text_eq j) (sym (text_eq_sound k r h)) ∙ other in
        let i = times-put_same k m h (ground arith) in ground arith
  ]

  cleared :
      (ks : List Text) (m : Flags)
      → keys m ≤ 1
      → listed ks ≡ true
      → times (flagged (put_all false ks m)) ≡ 0
  unfolding put_all listed
  cleared [] m l h = absurd cc
  cleared (k ∷ ks) m l h = elim (Bool-cases (text_eq k r)) [
    | inl same ↦
        let i = times-put_same k m same l in
        let j = times-put_all-false ks (put k false m) in omega arith
    | inr other ↦ cleared ks (put k false m) (keys-put k false m l) (ground arith)
  ]

  unlisted : (ks : List Text) → times ks ≡ 0 → listed ks ≡ false
  unfolding times listed
  unlisted [] h = refl
  unlisted (k ∷ ks) h = let i = unlisted ks in ground arith

-- After RemoveDuplicates a resource is allowed exactly when it was allowed and was not denied, it is
-- denied exactly when it was, and neither list holds it twice.
pub remove_duplicates_lem :
    (r : Text) (c : PermissionCapability)
    → (listed r (remove_duplicates c).allowed_resources
        ≡ listed r c.allowed_resources && not (listed r c.denied_resources))
      × (listed r (remove_duplicates c).denied_resources ≡ listed r c.denied_resources)
      × (times r (remove_duplicates c).allowed_resources ≤ 1)
      × (times r (remove_duplicates c).denied_resources ≤ 1)
unfolding remove_duplicates listed flagged keys
remove_duplicates_lem r c =
    let p : Text → Bool = λ k. text_eq k r in
    let granted = any-put_all-true p c.allowed_resources [] in
    let denied = any-put_all-true p c.denied_resources [] in
    let granted_map = put_all true c.allowed_resources [] in
    let one = keys-put_all r true c.allowed_resources [] (omega arith) in
    let a = keys-put_all r false c.denied_resources granted_map one in
    let b = keys-put_all r true c.denied_resources [] (omega arith) in
    let a' = times-flagged r (put_all false c.denied_resources granted_map) in
    let b' = times-flagged r (put_all true c.denied_resources []) in
    (
      (elim (Bool-cases (listed r c.denied_resources)) [
        | inl deny ↦
            let none_left =
              unlisted r (flagged (put_all false c.denied_resources granted_map))
                (cleared r c.denied_resources granted_map one deny) in
            ground arith
        | inr free ↦
            let same = any-put_all-false p c.denied_resources granted_map free in ground arith
      ]),
      ground arith,
      omega arith,
      omega arith,
    )
