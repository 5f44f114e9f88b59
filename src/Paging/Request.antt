-- ===== src/Paging/Request.antt =====
-- protocol/PagingRequest.go, with FilterSetting.go and SortSetting.go: the paging of a request, from
-- the query string of a GET or the JSON body of a POST, and mapping/PagingRequest.go.
-- The query string is a function from a name to the values given for it. The largest page size is
-- the number that the configuration holds.
pub mod Bounds
pub mod Filters
use ods.Common.{
  ℕ, zero, suc, ◌+◌, ◌-◌, ◌*◌, ◌%◌, Bool, true, false, not, ◌&&◌, ◌||◌, Option, none, some, List,
  [], ◌∷◌, Text, codes, text_eq, is_empty, to_lower, trim_space, parse_int, length, get_or, all,
  ltb, leb, ltb_ℤ, leb_ℤ, ◌==◌, if◌then◌else◌, ℤ, pos, map, Result, ok, err, ◌>>=◌,
}
use ods.Paging

pub record FilterSetting : Type 0 where
  pub filter_field : Text
  pub condition : Text
  pub expression : Text

pub record SortSetting : Type 0 where
  pub sort_field : Text
  pub sort_ascending : Bool

pub record PagingRequest : Type 0 where
  pub page_number : ℤ
  pub page_size : ℤ
  pub object_id : Text
  pub filter_settings : List FilterSetting
  pub sort_settings : List SortSetting
  pub filter_match_type : Text

abbrev pub Values : Type 0
Values = Text → List Text

-- url.Values.Get: the first value, or the empty text
unfoldable pub get_value : Values → Text → Text
get_value values name = get_or (values name) 0 []

abbrev pub positive : Option ℕ → Option ℕ
positive none = none
positive (some n) = if ltb 0 n then some n else none

unfoldable pub get_query_param_as_positive_int : Values → List Text → ℕ → ℕ
unfolding get_value
get_query_param_as_positive_int values [] default_value = default_value
get_query_param_as_positive_int values (n ∷ names) default_value =
    let rest = get_query_param_as_positive_int values names default_value in
    if is_empty n || is_empty (get_value values n)
    then rest
    else elim (positive (parse_int (get_value values n))) [ some v ↦ v | none ↦ rest ]

-- The entry of that position, or the first where there are fewer.
unfoldable pub by_position : List Text → ℕ → Text
by_position xs i = if ltb i (length xs) then get_or xs i [] else get_or xs 0 []

filter_settings_from : List Text → List Text → ℕ → List Text → List FilterSetting
unfolding by_position
filter_settings_from conditions expressions i [] = []
filter_settings_from conditions expressions i (f ∷ fields) =
    record {
      filter_field = f;
      condition = by_position conditions i;
      expression = by_position expressions i;
    }
    ∷ filter_settings_from conditions expressions (i + 1) fields

unfoldable pub make_filter_settings_from_query_param : Values → List FilterSetting
unfolding filter_settings_from
make_filter_settings_from_query_param values =
    let fields = values (codes "filterField") in
    let conditions = values (codes "condition") in
    let expressions = values (codes "expression") in
    if ltb 0 (length fields) && (ltb 0 (length conditions) && ltb 0 (length expressions))
    then filter_settings_from conditions expressions 0 fields
    else []

ascending : List Text → ℕ → Bool
unfolding by_position
ascending [] i = false
ascending (v ∷ vs) i = text_eq (by_position (v ∷ vs) i) (codes "true")

sort_settings_from : List Text → ℕ → List Text → List SortSetting
unfolding ascending
sort_settings_from values i [] = []
sort_settings_from values i (f ∷ fields) =
    record { sort_field = f; sort_ascending = ascending values i }
    ∷ sort_settings_from values (i + 1) fields

unfoldable pub make_sort_settings_from_query_param : Values → List SortSetting
unfolding sort_settings_from
make_sort_settings_from_query_param values =
    sort_settings_from (values (codes "sortAscending")) 0 (values (codes "sortField"))

is_hex_digit : ℕ → Bool
is_hex_digit c = (leb 48 c && leb c 57) || ((leb 97 c && leb c 102) || (leb 65 c && leb c 70))

-- what hex.DecodeString decodes
unfoldable pub is_hex : Text → Bool
unfolding is_hex_digit
is_hex s = length s % 2 == 0 && all is_hex_digit s

pub data PagingError : Type 0 where
  not_hex : PagingError
  bad_body : PagingError
  bad_content_type : PagingError
  bad_method : PagingError
  no_object_id : PagingError

match_type : Text → Text
match_type s =
    if text_eq s (codes "all") || text_eq s (codes "and") then codes "and" else codes "or"

-- The request is returned beside the error.
unfoldable pub new_paging_request_from_url_values : Values → PagingRequest × Option PagingError
unfolding get_value get_query_param_as_positive_int make_filter_settings_from_query_param
    make_sort_settings_from_query_param match_type is_hex
new_paging_request_from_url_values values =
    let parent = get_value values (codes "parentId") in
    let request : PagingRequest = record {
      page_number =
          pos (
            get_query_param_as_positive_int values (codes "PageNumber" ∷ codes "pageNumber" ∷ [])
              1);
      page_size =
          pos
            (get_query_param_as_positive_int values (codes "PageSize" ∷ codes "pageSize" ∷ []) 20);
      object_id = parent;
      filter_settings = make_filter_settings_from_query_param values;
      sort_settings = make_sort_settings_from_query_param values;
      filter_match_type =
          match_type (to_lower (trim_space (get_value values (codes "filterMatchType"))));
    } in
    (request, (if is_empty parent then none else if is_hex parent then none else some not_hex))

-- What the decoder makes of a body: no body, a request, an empty body (io.EOF), or another error.
pub data Body : Type 0 where
  no_body : Body
  decoded : PagingRequest → Body
  ended : Body
  malformed : Body

unfoldable pub new_paging_request_from_json_body : Body → Result PagingError PagingRequest
new_paging_request_from_json_body no_body = err bad_body
new_paging_request_from_json_body (decoded request) = ok request
new_paging_request_from_json_body ended = ok (record {
  page_number = pos 1;
  page_size = pos 20;
  object_id = [];
  filter_settings = [];
  sort_settings = [];
  filter_match_type = [];
})
new_paging_request_from_json_body malformed = err bad_body

-- An http.Request, as far as paging reads it; `is_json` is what IsApplicationJSON says of its type.
pub data Asked : Type 0 where
  get : Values → Asked
  post : (is_json : Bool) → Body → Asked
  other_method : Asked

unfoldable pub request_of : Asked → Result PagingError PagingRequest
unfolding new_paging_request_from_url_values new_paging_request_from_json_body
request_of (get values) = ok ((new_paging_request_from_url_values values).0)
request_of (post is_json body) =
    if is_json then new_paging_request_from_json_body body else err bad_content_type
request_of other_method = err bad_method

unfoldable pub constrain_page_size : ℤ → ℤ → ℤ
constrain_page_size largest size =
    let at_least_one = if leb_ℤ size (pos 0) then pos 1 else size in
    if ltb_ℤ largest at_least_one then largest else at_least_one

-- The id in the path stands before that of the query or the body.
unfoldable pub take_captured : Text → PagingRequest → Result PagingError PagingRequest
unfolding is_hex
take_captured captured r =
    if is_empty captured
    then ok r
    else if is_hex captured
    then ok (record r { object_id = captured })
    else err not_hex

unfoldable pub check_object_id : Bool → PagingRequest → Result PagingError PagingRequest
check_object_id required r =
    if required && not (length r.object_id == 32) then err no_object_id else ok r

-- The request that NewPagingRequest returns beside the error for a captured id is left out.
unfoldable pub new_paging_request :
    ℤ → Asked → (captured : Text) → (required : Bool) → Result PagingError PagingRequest
unfolding request_of constrain_page_size take_captured check_object_id
new_paging_request largest asked captured required = request_of asked >>= λ r.
    take_captured captured (record r { page_size = constrain_page_size largest r.page_size })
    >>= check_object_id required

-- mapping/PagingRequest.go
map_filter_setting_to_dao_filter_setting : FilterSetting → Paging.FilterSetting
map_filter_setting_to_dao_filter_setting i = record {
  filter_field = i.filter_field;
  condition = i.condition;
  expression = i.expression;
}

map_sort_setting_to_dao_sort_setting : SortSetting → Paging.SortSetting
map_sort_setting_to_dao_sort_setting i = record {
  sort_field = i.sort_field;
  sort_ascending = i.sort_ascending;
}

unfoldable pub map_paging_request_to_dao_paging_request : PagingRequest → Paging.PagingRequest
unfolding map_filter_setting_to_dao_filter_setting map_sort_setting_to_dao_sort_setting
map_paging_request_to_dao_paging_request i = record {
  page_number = i.page_number;
  page_size = i.page_size;
  filter_settings = map map_filter_setting_to_dao_filter_setting i.filter_settings;
  sort_settings = map map_sort_setting_to_dao_sort_setting i.sort_settings;
  filter_match_type = i.filter_match_type;
}
