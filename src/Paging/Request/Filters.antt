-- ===== src/Paging/Request/Filters.antt =====
-- The filters of a query string, position by position.
use ods.Common.{
  ℕ, zero, suc, ◌+◌, ◌<◌, ◌≡◌, refl, ap, ◌∙◌, some, List, [], ◌∷◌, Text, codes, length, arith,
  get_elem?, get_or,
}
use ods.Paging.Request.{
  FilterSetting, Values, make_filter_settings_from_query_param, filter_settings_from, by_position,
}

filter : (conditions expressions : List Text) → ℕ → Text → FilterSetting
filter conditions expressions i f = record {
  filter_field = f;
  condition = by_position conditions i;
  expression = by_position expressions i;
}

filter_at :
    (conditions expressions : List Text) (k : ℕ) (fields : List Text) (i : ℕ) (f : Text)
    → get_elem? fields i ≡ some f
    → get_elem? (filter_settings_from conditions expressions k fields) i
      ≡ some (filter conditions expressions (k + i) f)
unfolding filter_settings_from filter
filter_at conditions expressions k [] i f h = cc
filter_at conditions expressions k (g ∷ fields) zero f h =
    let e : k ≡ k + 0 = omega arith in
    let same : g ≡ f = cc in
    ap (λ g. some (filter conditions expressions k g)) same
    ∙ ap (λ j. some (filter conditions expressions j f)) e
filter_at conditions expressions k (g ∷ fields) (suc i) f h =
    let e : k + 1 + i ≡ k + suc i = omega arith in
    filter_at conditions expressions (k + 1) fields i f h
    ∙ ap (λ j. some (filter conditions expressions j f)) e

get_or_within :
    (xs : List Text) (i : ℕ) (d e : Text) → i < length xs → get_or xs i d ≡ get_or xs i e
get_or_within [] i d e h = absurd (omega arith)
get_or_within (x ∷ xs) zero d e h = refl
get_or_within (x ∷ xs) (suc i) d e h = get_or_within xs i d e (omega arith)

get_or_beyond : (xs : List Text) (i : ℕ) (d : Text) → length xs < i + 1 → get_or xs i d ≡ d
get_or_beyond [] i d h = refl
get_or_beyond (x ∷ xs) zero d h = absurd (omega arith)
get_or_beyond (x ∷ xs) (suc i) d h = get_or_beyond xs i d (omega arith)

by_position_lem : (xs : List Text) (i : ℕ) → by_position xs i ≡ get_or xs i (get_or xs 0 [])
unfolding by_position
by_position_lem xs i =
    ground (arith, get_or_within xs i [] (get_or xs 0 []), get_or_beyond xs i (get_or xs 0 []))

filled : (xs : List Text) (i : ℕ) (f : Text) → get_elem? xs i ≡ some f → 0 < length xs
filled [] i f h = cc
filled (x ∷ xs) i f h = omega arith

-- Where the query string gives conditions and expressions, its i-th filter field becomes the i-th
-- filter, with the condition and the expression of that position, or the first where there are fewer.
pub filters_by_position :
    (values : Values) (i : ℕ) (f : Text)
    → get_elem? (values (codes "filterField")) i ≡ some f
    → 0 < length (values (codes "condition"))
    → 0 < length (values (codes "expression"))
    → get_elem? (make_filter_settings_from_query_param values) i
      ≡ some (record {
        filter_field = f;
        condition =
            get_or (values (codes "condition")) i (get_or (values (codes "condition")) 0 []);
        expression =
            get_or (values (codes "expression")) i (get_or (values (codes "expression")) 0 []);
      })
unfolding make_filter_settings_from_query_param filter
filters_by_position values i f h c e =
    let conditions = values (codes "condition") in
    let expressions = values (codes "expression") in
    let n = filled (values (codes "filterField")) i f h in
    let l : get_elem? (make_filter_settings_from_query_param values) i
        ≡ get_elem? (filter_settings_from conditions expressions 0 (values (codes "filterField")))
            i =
      ground arith in
    let z : 0 + i ≡ i = omega arith in
    l
    ∙ filter_at conditions expressions 0 (values (codes "filterField")) i f h
    ∙ ap (λ j. some (filter conditions expressions j f)) z
    ∙ rw (by_position_lem conditions i, by_position_lem expressions i) refl
