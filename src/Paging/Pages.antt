-- ===== src/Paging/Pages.antt =====
-- The page count against the pages that the queries return.
use native.Mathlib.Nat.{
  div-add-mod, mod-lt, mul-le-mul_right, le_of_mul-le-mul_right, lt_of_mul-lt-mul_right, mul_comm,
}
use ods.Common.{
  ℕ, zero, suc, ◌+◌, ◌*◌, ◌/◌, ◌%◌, ◌≤◌, ◌<◌, ◌≡◌, ap, ◌∙◌, ◌↔◌, some, List, [], ◌∷◌, ◌++◌, length,
  take, drop, ltb, ℤ, pos, arith, take-of_length_le, Bool-cases, inl, inr,
}
use ods.Paging.{
  absolute_max_page_size, get_sanitized_page_size, get_sanitized_page_number, get_limit, get_offset,
  get_page_count, count_up,
}

-- What GetPageCount's loop starts from, on a page size that is not zero.
div-bounds : (total k : ℕ) → (total / suc k * suc k ≤ total) × (total < (total / suc k + 1) * suc k)
div-bounds total k =
    let e = div-add-mod total (suc k) in
    let c = mul_comm (suc k) (total / suc k) in
    let l : total % suc k < suc k = mod-lt total (omega arith) in (omega arith, omega arith)

least_of :
    (total size count : ℕ)
    → total ≤ count * size
    → ((k : ℕ) → total ≤ k * size → count < k + 1)
    → (k : ℕ) → (total ≤ k * size) ↔ (count ≤ k)
least_of total size count enough least k = (
  (λ h. let l = least k h in omega arith),
  (λ h. let m : count * size ≤ k * size = mul-le-mul_right size h in omega arith),
)

-- Fewer pages than the count hold fewer rows.
below_count : (total size q k : ℕ) → q * size < total → total ≤ k * size → q + 1 < k + 1
below_count total size q k short h =
    let l : q * size < k * size = omega arith in
    let m : q < k = lt_of_mul-lt-mul_right size l in omega arith

loop-exact : (total size q : ℕ) → q * size ≡ total → count_up 2 total size q ≡ some q
unfolding count_up
loop-exact total size q e = ground arith

loop-short :
    (total size q : ℕ)
    → q * size < total
    → total ≤ (q + 1) * size
    → count_up 2 total size q ≡ some (q + 1)
unfolding count_up
loop-short total size q short enough = ground arith

-- GetPageCount, for a page size that is not zero, returns the least number of pages that hold all rows.
pub get_page_count_least :
    (total size : ℕ)
    → 0 < size
    → (count : ℕ) × (get_page_count total size ≡ some count)
      × ((k : ℕ) → (total ≤ k * size) ↔ (count ≤ k))
unfolding get_page_count
get_page_count_least total zero positive = absurd (omega arith)
get_page_count_least total (suc n) positive =
    let q = total / suc n in
    let (low, high) = div-bounds total n in
    elim (Bool-cases (ltb (q * suc n) total)) [
      | inl more ↦
          let short : q * suc n < total = ground arith in
          (
            q + 1,
            loop-short total (suc n) q short (omega arith),
            least_of total (suc n) (q + 1) (omega arith)
                (λ k h. below_count total (suc n) q k short h),
          )
      | inr done ↦
          let e : q * suc n ≡ total = ground arith in
          (
            q,
            loop-exact total (suc n) q e,
            least_of total (suc n) q (omega arith) (λ k h.
                let m : q ≤ k =
                  le_of_mul-le-mul_right (let l : q * suc n ≤ k * suc n = omega arith in l)
                    positive in
                omega arith),
          )
    ]

sized :
    (size : ℕ)
    → 0 < size
    → size ≤ absolute_max_page_size
    → get_sanitized_page_size (pos size) ≡ size
unfolding get_sanitized_page_size
sized size low high = ground arith

offset :
    (size n : ℕ)
    → 0 < size
    → size ≤ absolute_max_page_size
    → get_offset (pos (suc n)) (pos size) ≡ n * size
unfolding get_offset get_sanitized_page_number get_sanitized_page_size
offset size n low high = ground arith

module _ {ℓ} {A : Type ℓ} where
  -- What a query with LIMIT and OFFSET returns of the rows that match.
  unfoldable pub page : ℤ → List A → ℤ → List A
  unfolding get_limit get_offset
  page size rows n = take (get_limit n size) (drop (get_offset n size) rows)

  -- The first pages, from page 1 on.
  unfoldable pub pages : ℤ → List A → ℕ → List A
  unfolding page
  pages size rows zero = []
  pages size rows (suc n) = pages size rows n ++ page size rows (pos (suc n))

  take-extend : (m k : ℕ) (xs : List A) → take m xs ++ take k (drop m xs) ≡ take (m + k) xs
  take-extend zero k xs = ap (λ j. take j xs) (let e : k ≡ 0 + k = omega arith in e)
  take-extend (suc m) zero [] = ap (λ j. take j []) (let e : suc m ≡ suc m + 0 = omega arith in e)
  take-extend (suc m) (suc k) [] =
      ap (λ j. take j []) (let e : suc (m + suc k) ≡ suc m + suc k = omega arith in e)
  take-extend (suc m) k (x ∷ xs) =
      ap (λ t. x ∷ t) (take-extend m k xs)
      ∙ ap (λ j. take j (x ∷ xs)) (let e : suc (m + k) ≡ suc m + k = omega arith in e)

  pages-take :
      (size : ℕ)
      → 0 < size
      → size ≤ absolute_max_page_size
      → (rows : List A) (n : ℕ) → pages (pos size) rows n ≡ take (n * size) rows
  unfolding pages page get_limit get_offset
  pages-take size low high rows zero =
      ap (λ j. take j rows) (let e : 0 ≡ 0 * size = omega arith in e)
  pages-take size low high rows (suc n) =
      rw
        (
          pages-take size low high rows n,
          offset size n low high,
          sized size low high,
          take-extend (n * size) size rows,
        )
        (ap (λ j. take j rows) (let e : n * size + size ≡ suc n * size = omega arith in e))

  -- For a page size from 1 to the limit, pages 1 to the page count hold all the rows in their order.
  pub pages_complete :
      (size : ℕ)
      → 0 < size
      → size ≤ absolute_max_page_size
      → (rows : List A)
      → (count : ℕ) × (get_page_count (length rows) size ≡ some count)
        × (pages (pos size) rows count ≡ rows)
  pages_complete size low high rows =
      let (count, counted, least) = get_page_count_least (length rows) size low in
      (
        count,
        counted,
        pages-take size low high rows count
            ∙ take-of_length_le (count * size) rows ((least count).1 (omega arith)),
      )
