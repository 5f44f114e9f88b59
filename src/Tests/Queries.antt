-- ===== src/Tests/Queries.antt =====
-- A query string with filters, and five rows in pages of two.
use ods.Common.{
  ℕ, ◌≤◌, ◌<◌, ◌≡◌, ◌↔◌, refl, true, List, [], ◌∷◌, codes, some, length, arith, ok, pos, text_eq,
  if◌then◌else◌,
}
use ods.Paging.{get_page_count, get_limit}
use ods.Paging.Pages.{pages, pages_complete}
use ods.Paging.Request.{
  PagingRequest, Values, get, post, decoded, new_paging_request,
  map_paging_request_to_dao_paging_request, get_value,
}
use ods.Paging.Request.Bounds.{accepted_bounds, parent_id_unchecked}

abbrev rows : List ℕ
rows = 4 ∷ 8 ∷ 15 ∷ 16 ∷ 23 ∷ []

pages_complete_example :
    (count : ℕ) × (get_page_count 5 2 ≡ some count) × (pages (pos 2) rows count ≡ rows)
pages_complete_example = pages_complete 2 (omega arith) (omega arith) rows

-- ?filterField=name&filterField=size&condition=equals&expression=a&expression=b, with a parent
abbrev values : Values
values name =
    if text_eq name (codes "filterField")
    then codes "name" ∷ codes "size" ∷ []
    else if text_eq name (codes "condition")
    then codes "equals" ∷ []
    else if text_eq name (codes "expression")
    then codes "a" ∷ codes "b" ∷ []
    else if text_eq name (codes "parentId")
    then codes "not a hex string of 32 letters.." ∷ []
    else []

parent_id_unchecked_example :
    ((r : PagingRequest) × (new_paging_request (pos 100) (get values) [] true ≡ ok r))
    ↔ (length (get_value values (codes "parentId")) ≡ 32)
parent_id_unchecked_example = parent_id_unchecked (pos 100) values

abbrev sent : PagingRequest
sent = record {
  page_number = pos 3;
  page_size = pos 5000;
  object_id = codes "11e5e4867a6e3d8389020242ac110002";
  filter_settings = [];
  sort_settings = [];
  filter_match_type = [];
}

abbrev held : PagingRequest
held = record sent { page_size = pos 100 }

accepted : new_paging_request (pos 100) (post true (decoded sent)) [] true ≡ ok held
unfolding new_paging_request
accepted = refl

accepted_bounds_example :
    (size : ℕ) × (held.page_size ≡ pos size)
    × (0 < size)
    × (size ≤ 100)
    × (get_limit
          (map_paging_request_to_dao_paging_request held).page_number
          (map_paging_request_to_dao_paging_request held).page_size
        ≡ size)
    × (true ≡ true → length held.object_id ≡ 32)
accepted_bounds_example =
    accepted_bounds 100 (omega arith) (omega arith) (post true (decoded sent)) [] true held accepted
