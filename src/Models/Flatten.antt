-- ===== src/Models/Flatten.antt =====
-- AACFlatten of metadata/models/OdObjectPermission.go: the canonical form of a grantee.
use ods.Common.{
  ℕ, ◌<◌, ◌≡◌, refl, ap, ◌∙◌, Bool, true, ◌&&◌, ◌||◌, not, List, [], ◌∷◌, ◌++◌, Text, codes,
  to_lower, lower_byte, replace_byte, leb, ◌==◌, arith, text_eq, text_eq_sound, append_assoc, any,
  all, checked_below, checked_at,
}
use ods.Crypto.{IsBytes}

abbrev empty_list : List ℕ
empty_list = codes " ,=':()$[]{}|\\"

abbrev underscore_list : List ℕ
underscore_list = codes ".-"

-- `for _, s := range list { outVal = strings.Replace(outVal, s, new, -1) }`
replace_each : List ℕ → Text → Text → Text
unfolding replace_byte
replace_each [] new out = out
replace_each (c ∷ cs) new out = replace_each cs new (replace_byte c new out)

unfoldable pub aac_flatten : Text → Text
unfolding replace_each to_lower
aac_flatten in_val =
    replace_each underscore_list (codes "_") (replace_each empty_list [] (to_lower in_val))

replace_byte-append :
    (c : ℕ) (n s t : Text) → replace_byte c n (s ++ t) ≡ replace_byte c n s ++ replace_byte c n t
unfolding replace_byte
replace_byte-append c n [] t = refl
replace_byte-append c n (x ∷ s) t =
    ground
      (arith, replace_byte-append c n s t, append_assoc n (replace_byte c n s) (replace_byte c n t))

replace_each-append :
    (cs : List ℕ) (n s t : Text)
    → replace_each cs n (s ++ t) ≡ replace_each cs n s ++ replace_each cs n t
unfolding replace_each
replace_each-append [] n s t = refl
replace_each-append (c ∷ cs) n s t =
    ap (replace_each cs n) (replace_byte-append c n s t)
    ∙ replace_each-append cs n (replace_byte c n s) (replace_byte c n t)

pub to_lower-append : (s t : Text) → to_lower (s ++ t) ≡ to_lower s ++ to_lower t
unfolding to_lower
to_lower-append [] t = refl
to_lower-append (x ∷ s) t = ap (λ r. lower_byte x ∷ r) (to_lower-append s t)

pub aac_flatten-append : (s t : Text) → aac_flatten (s ++ t) ≡ aac_flatten s ++ aac_flatten t
unfolding aac_flatten
aac_flatten-append s t =
    ap (λ r. replace_each underscore_list (codes "_") (replace_each empty_list [] r))
      (to_lower-append s t)
    ∙ (ap (replace_each underscore_list (codes "_"))
          (replace_each-append empty_list [] (to_lower s) (to_lower t))
        ∙ replace_each-append underscore_list (codes "_") (replace_each empty_list [] (to_lower s))
            (replace_each empty_list [] (to_lower t)))

-- A byte that flattening leaves alone.
unfoldable pub flat_byte : ℕ → Bool
flat_byte c = not (
    any (λ d. c == d) empty_list || any (λ d. c == d) underscore_list || (leb b'A' c && leb c b'Z'))

-- What AACFlatten does to one byte: one byte that is flat, or nothing.
byte_case : ℕ → Bool
unfolding flat_byte
byte_case c =
    text_eq (aac_flatten (aac_flatten (c ∷ []))) (aac_flatten (c ∷ []))
    && (text_eq (aac_flatten (lower_byte c ∷ [])) (aac_flatten (c ∷ []))
        && all flat_byte (aac_flatten (c ∷ [])))

table : checked_below byte_case 256 ≡ true
unfolding checked_below byte_case aac_flatten text_eq
table = refl

byte_case_lem : (c : ℕ) → c < 256 → byte_case c ≡ true
byte_case_lem c h = checked_at byte_case 256 table h

module _ (c : ℕ) (h : c < 256) where
  flatten_byte_idem : aac_flatten (aac_flatten (c ∷ [])) ≡ aac_flatten (c ∷ [])
  unfolding byte_case
  flatten_byte_idem = text_eq_sound _ _ (ground (arith, byte_case_lem c h))

  flatten_byte_lower : aac_flatten (lower_byte c ∷ []) ≡ aac_flatten (c ∷ [])
  unfolding byte_case
  flatten_byte_lower = text_eq_sound _ _ (ground (arith, byte_case_lem c h))

  flatten_byte_flat : all flat_byte (aac_flatten (c ∷ [])) ≡ true
  unfolding byte_case
  flatten_byte_flat = ground (arith, byte_case_lem c h)

all-append : (p : ℕ → Bool) (s t : Text) → all p s ≡ true → all p t ≡ true → all p (s ++ t) ≡ true
all-append p [] t hs ht = ht
all-append p (x ∷ s) t hs ht = ground (arith, all-append p s t)

abbrev flatten_cons :
    (c : ℕ) (s : Text) → aac_flatten (c ∷ s) ≡ aac_flatten (c ∷ []) ++ aac_flatten s
flatten_cons c s = aac_flatten-append (c ∷ []) s

flatten_idem : (s : Text) → IsBytes s → aac_flatten (aac_flatten s) ≡ aac_flatten s
flatten_idem [] b = unfold aac_flatten in refl
flatten_idem (c ∷ s) b =
    ap aac_flatten (flatten_cons c s)
    ∙ (aac_flatten-append (aac_flatten (c ∷ [])) (aac_flatten s)
        ∙ (cc (flatten_byte_idem c b.0, flatten_idem s b.1, flatten_cons c s)))

pub aac_flatten-to_lower : (s : Text) → IsBytes s → aac_flatten (to_lower s) ≡ aac_flatten s
unfolding to_lower
aac_flatten-to_lower [] b = refl
aac_flatten-to_lower (c ∷ s) b =
    to_lower_cons ∙ cc (flatten_byte_lower c b.0, aac_flatten-to_lower s b.1, flatten_cons c s)
  where
    to_lower_cons :
        aac_flatten (to_lower (c ∷ s)) ≡ aac_flatten (lower_byte c ∷ []) ++ aac_flatten (to_lower s)
    to_lower_cons = flatten_cons (lower_byte c) (to_lower s)

flatten_flat : (s : Text) → IsBytes s → all flat_byte (aac_flatten s) ≡ true
flatten_flat [] b = unfold aac_flatten in refl
flatten_flat (c ∷ s) b = rw (flatten_cons c s) (
    all-append flat_byte (aac_flatten (c ∷ [])) (aac_flatten s) (flatten_byte_flat c b.0)
      (flatten_flat s b.1))

-- A flattened name is canonical, for a name made of bytes: flattening it again changes nothing, it
-- holds no capital and none of the bytes that flattening takes out or turns into an underscore,
-- and names that differ in the case of their letters flatten to one name.
pub aac_flatten_canonical :
    (s : Text)
    → IsBytes s
    → (aac_flatten (aac_flatten s) ≡ aac_flatten s)
      × (all flat_byte (aac_flatten s) ≡ true)
      × (aac_flatten (to_lower s) ≡ aac_flatten s)
aac_flatten_canonical s b = (flatten_idem s b, flatten_flat s b, aac_flatten-to_lower s b)
