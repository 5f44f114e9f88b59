-- ===== src/Paging.antt =====
-- dao/paging.go: the numbers that a page request becomes in a query, and mapping/PagingRequest.go.
-- A row count is a natural number. A query's page is `limit` rows from `offset` on.
pub mod Request
pub mod Pages
use ods.Common.{
  ℕ, zero, suc, ◌+◌, ◌-◌, ◌*◌, ◌/◌, Bool, true, false, Option, none, some, List, [], ◌∷◌, Text, ltb,
  ltb_ℤ, if◌then◌else◌, ℤ, pos, pos_part, map,
}

abbrev pub absolute_max_page_size : ℕ
absolute_max_page_size = 10000

-- The sanitized numbers are at least 1.
unfoldable pub get_sanitized_page_number : ℤ → ℕ
get_sanitized_page_number n = if ltb_ℤ n (pos 1) then 1 else pos_part n

unfoldable pub get_sanitized_page_size : ℤ → ℕ
get_sanitized_page_size n =
    if ltb_ℤ n (pos 1)
    then 1
    else if ltb_ℤ (pos absolute_max_page_size) n
    then absolute_max_page_size
    else pos_part n

unfoldable pub get_limit : ℤ → ℤ → ℕ
unfolding get_sanitized_page_size
get_limit page_number page_size = get_sanitized_page_size page_size

unfoldable pub get_offset : ℤ → ℤ → ℕ
unfolding get_sanitized_page_number get_sanitized_page_size
get_offset page_number page_size =
    (get_sanitized_page_number page_number - 1) * get_sanitized_page_size page_size

-- GetPageCount's loop; `none` where the rounds run out
unfoldable pub count_up : ℕ → ℕ → ℕ → ℕ → Option ℕ
count_up zero total_rows page_size page_count = none
count_up (suc rounds) total_rows page_size page_count =
    let rest = count_up rounds total_rows page_size (page_count + 1) in
    if ltb (page_count * page_size) total_rows then rest else some page_count

-- A page size of 0 panics in the division, here `none`.
unfoldable pub get_page_count : ℕ → ℕ → Option ℕ
unfolding count_up
get_page_count total_rows zero = none
get_page_count total_rows (suc n) = count_up 2 total_rows (suc n) (total_rows / suc n)

pub record FilterSetting : Type 0 where
  pub filter_field : Text
  pub condition : Text
  pub expression : Text

pub record SortSetting : Type 0 where
  pub sort_field : Text
  pub sort_ascending : Bool

pub record PagingRequest : Type 0 where
  pub page_number : ℤ
  pub page_size : ℤ
  pub filter_settings : List FilterSetting
  pub sort_settings : List SortSetting
  pub filter_match_type : Text
