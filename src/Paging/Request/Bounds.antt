-- ===== src/Paging/Request/Bounds.antt =====
-- What NewPagingRequest promises of a request that it accepts.
use Prim.Native.Nat.{max}
use ods.Common.{
  ℕ, ◌≤◌, ◌<◌, ◌≡◌, sym, ap, ◌∙◌, ◌↔◌, Bool, true, [], Text, codes, length, min, bind_ok, ℤ, pos,
  negsuc, arith, ok,
}
use ods.Paging.{get_limit, get_sanitized_page_size}
use ods.Paging.Request.{
  PagingRequest, Asked, Values, get, new_paging_request, request_of, constrain_page_size,
  take_captured, check_object_id, map_paging_request_to_dao_paging_request, get_value,
  new_paging_request_from_url_values,
}

constrained :
    (largest : ℕ)
    → 0 < largest
    → (n : ℤ)
    → (size : ℕ) × (constrain_page_size (pos largest) n ≡ pos size) × (0 < size) × (size ≤ largest)
unfolding constrain_page_size
constrained largest low (pos n) = (max 1 (min n largest), ground arith, omega arith, omega arith)
constrained largest low (negsuc n) = (1, ground arith, omega arith, omega arith)

captured-keeps :
    (captured : Text) (r s : PagingRequest)
    → take_captured captured r ≡ ok s
    → s.page_size ≡ r.page_size
unfolding take_captured
captured-keeps captured r s e = ground arith

checked :
    (required : Bool) (r s : PagingRequest)
    → check_object_id required r ≡ ok s
    → (r ≡ s) × (required ≡ true → length r.object_id ≡ 32)
unfolding check_object_id
checked required r s e = ground arith

limit-kept : (size : ℕ) (n : ℤ) → 0 < size → size ≤ 10000 → get_limit n (pos size) ≡ size
unfolding get_limit get_sanitized_page_size
limit-kept size n low high = ground arith

-- A request that NewPagingRequest accepts, for a largest page size from 1 to 10000, has a page size
-- from 1 to that largest size, which the
-- mapping and the database's own limit keep, and an object id of 32 bytes where one is required.
pub accepted_bounds :
    (largest : ℕ)
    → 0 < largest
    → largest ≤ 10000
    → (asked : Asked) (captured : Text) (required : Bool) (r : PagingRequest)
    → new_paging_request (pos largest) asked captured required ≡ ok r
    → (size : ℕ) × (r.page_size ≡ pos size)
      × (0 < size)
      × (size ≤ largest)
      × (get_limit
            (map_paging_request_to_dao_paging_request r).page_number
            (map_paging_request_to_dao_paging_request r).page_size
          ≡ size)
      × (required ≡ true → length r.object_id ≡ 32)
unfolding new_paging_request map_paging_request_to_dao_paging_request
accepted_bounds largest low high asked captured required r e =
    let (q, read, rest) = bind_ok (request_of asked) _ r e in
    let (inner, held, done) =
      bind_ok
        (take_captured captured
          (record q { page_size = constrain_page_size (pos largest) q.page_size }))
        (check_object_id required) r rest in
    let (same, long) = checked required inner r done in
    let (size, sized, least, most) = constrained largest low q.page_size in
    let e2 : r.page_size ≡ pos size =
      ap (λ x. x.page_size) (sym same) ∙ captured-keeps captured _ inner held ∙ sized in
    (
      size,
      e2,
      least,
      most,
      (rw e2 (limit-kept size r.page_number least (omega arith))),
      λ h. ap (λ x. length x.object_id) (sym same) ∙ long h,
    )

accepts : (r : PagingRequest) → length r.object_id ≡ 32 → check_object_id true r ≡ ok r
unfolding check_object_id
accepts r h = ground arith

-- A GET without an id in its path is accepted, where an object id is required, exactly when its
-- parentId has 32 bytes, whether or not they are hex digits.
pub parent_id_unchecked :
    (largest : ℤ) (values : Values)
    → ((r : PagingRequest) × (new_paging_request largest (get values) [] true ≡ ok r))
      ↔ (length (get_value values (codes "parentId")) ≡ 32)
unfolding new_paging_request request_of new_paging_request_from_url_values take_captured
    check_object_id
parent_id_unchecked largest values = ((λ (r, e). ground arith), (λ h. (_, accepts _ h)))
