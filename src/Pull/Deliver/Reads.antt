-- ===== src/Pull/Deliver/Reads.antt =====
-- What a puller delivers: the ciphertext from its first byte on, in whatever pieces it is read.
use ods.Common.{
  ℕ, zero, suc, ◌+◌, ◌-◌, ◌<◌, ◌≤◌, min, true, false, Option, none, some, List, [], ◌∷◌, ◌++◌,
  length, take, drop, ◌≡◌, refl, sym, ap, subst, ◌∙◌, pos, ltb_ℤ, eqb_ℤ, arith, ltb, ltb→lt,
  Bool-cases, Option-cases, inl, inr, length-take, length-drop, take-append-drop, drop-drop,
  append_assoc, append-nil, length-append, All,
}
use ods.Pull.{Puller, Sources, PullError, eof, more, read, read_file, more_at_end}
use ods.Pull.Deliver.{IsHonest, IsOpen, more-IsOpen, more-eof}

drop-take : (k r : ℕ) (xs : List ℕ) → k ≤ r → drop k (take r xs) ≡ take (r - k) (drop k xs)
drop-take zero r xs h = ap (λ n. take n xs) (let e : r ≡ r - 0 = omega arith in e)
drop-take (suc k) zero xs h = absurd (omega arith)
drop-take (suc k) (suc r) [] h = elim (suc r - suc k) as (λ n. ◌≡◌ {A = List ℕ} [] (take n [])) [
  | zero ↦ refl
  | suc n ↦ refl
]
drop-take (suc k) (suc r) (x ∷ xs) h =
    drop-take k r xs (omega arith)
    ∙ ap (λ n. take n (drop k xs)) (let e : r - k ≡ suc r - suc k = omega arith in e)

take-take : (k r : ℕ) (xs : List ℕ) → take k (take r xs) ≡ take (min k r) xs
take-take zero r xs = ap (λ n. take n xs) (let e : 0 ≡ min 0 r = omega arith in e)
take-take (suc k) zero xs = ap (λ n. take n xs) (let e : 0 ≡ min (suc k) 0 = omega arith in e)
take-take (suc k) (suc r) [] =
    ap (λ n. take n []) (let e : suc (min k r) ≡ min (suc k) (suc r) = omega arith in e)
take-take (suc k) (suc r) (x ∷ xs) =
    ap (λ t. x ∷ t) (take-take k r xs)
    ∙ ap (λ n. take n (x ∷ xs)) (let e : suc (min k r) ≡ min (suc k) (suc r) = omega arith in e)

-- What a Read of `k` bytes gives.
module _ (cipher : List ℕ) (world : Sources) (honest : IsHonest cipher world) (k : ℕ)
    (positive : 0 < k) where
  unfoldable IsRead : Puller → List ℕ × Puller × Option PullError → Type 0
  IsRead p (bytes, q, e) =
      (bytes ++ drop (p.index + length bytes) cipher ≡ drop p.index cipher)
      × (0 < length bytes)
      × (e ≡ none → IsOpen cipher q × (q.index ≡ p.index + length bytes))
      × (e ≡ some eof → p.index + length bytes ≡ length cipher)

  read_started :
      (p : Puller)
      → ltb_ℤ (pos 0) p.remaining ≡ true
      → read world k p ≡ (
          let (bytes, q, e) = read_file k p in
          let (r, e') = more_at_end world q e in (bytes, r, e'))
  unfolding read
  read_started p h = rw h refl

  at_none :
      (q : Puller) (r : ℕ) (e : Option PullError)
      → q.remaining ≡ pos r
      → 0 < r
      → more_at_end world q e ≡ (q, e)
  at_none q r e h some_left =
      let z : eqb_ℤ q.remaining (pos 0) ≡ false = rw h (ground arith) in ground arith

  at_all :
      (q : Puller) (e : Option PullError)
      → q.remaining ≡ pos 0
      → more_at_end world q e ≡ more world false q
  at_all q e h = let z : eqb_ℤ q.remaining (pos 0) ≡ true = rw h refl in ground arith

  fetched :
      (k : ℕ) (file : List ℕ)
      → 0 < length file
      → (elim file as (λ x. Option PullError) [ [] ↦ some eof | x ∷ xs ↦ none ]) ≡ none
  fetched k [] h = absurd (omega arith)
  fetched k (x ∷ xs) h = refl

  -- What File.Read took out of an open handle.
  taken :
      (p : Puller) (r : ℕ)
      → p.file ≡ take r (drop p.index cipher)
      → p.index + r ≤ length cipher
      → (length (take k p.file) ≡ min k r)
        × (length p.file ≡ r)
        × (take k p.file ++ drop (p.index + length (take k p.file)) cipher ≡ drop p.index cipher)
  taken p r held inside =
      let rest = drop p.index cipher in
      let file_size : length p.file ≡ r =
        ap length held ∙ length-take r rest ∙ rw (length-drop p.index cipher) (omega arith) in
      let size : length (take k p.file) ≡ min k r = length-take k p.file ∙ ap (min k) file_size in
      let m = length (take k p.file) in
      let front : take k p.file ≡ take m rest =
        ap (take k) held ∙ take-take k r rest ∙ ap (λ n. take n rest) (sym size) in
      (
        size,
        file_size,
        ap (λ t. t ++ drop (p.index + m) cipher) front
            ∙ ap (λ t. take m rest ++ t) (sym (drop-drop m p.index cipher))
            ∙ take-append-drop m rest,
      )

  read-IsRead : (p : Puller) → IsOpen cipher p → IsRead p (read world k p)
  unfolding IsRead IsOpen read_file
  read-IsRead p (r, counts, held, inside, whole, small, chunked, some_left) =
      let (size, file_size, joined) = taken p r held inside in
      let m = length (take k p.file) in
      let q = (read_file k p).1 in
      let left : q.remaining ≡ pos (r - m) = rw counts (ground arith) in
      let started : ltb_ℤ (pos 0) p.remaining ≡ true = rw counts (ground arith) in
      subst (IsRead p) (sym (read_started p started)) (elim (Bool-cases (ltb k r)) [
        | inl within ↦
            let lt = ltb→lt k r within in
            let all_given : m ≡ k = omega arith in
            let next : drop k p.file ≡ take (r - m) (drop (p.index + m) cipher) =
              ap (drop k) held
              ∙ drop-take k r (drop p.index cipher) (omega arith)
              ∙ ap (take (r - k)) (drop-drop k p.index cipher)
              ∙ ap (λ n. take (r - n) (drop (p.index + n) cipher)) (sym all_given) in
            subst (λ (s : Puller × Option PullError). IsRead p (take k p.file, s.0, s.1))
              (sym (at_none q (r - m) (read_file k p).2 left (omega arith)))
              (
                joined,
                omega arith,
                (λ e. ((r - m, left, next, omega arith, whole, small, chunked, omega arith), refl)),
                (λ e. absurd (
                    let wrong : ◌≡◌ {A = Option PullError} none (some eof) =
                      sym (fetched k p.file (omega (arith, file_size))) ∙ e in
                    cc)),
              )
        | inr all ↦
            let ge : r ≤ k = ground arith in
            let done : m ≡ r = omega arith in
            let none_left : q.remaining ≡ pos 0 =
              left ∙ ap pos (let z : r - m ≡ 0 = omega arith in z) in
            subst (λ (s : Puller × Option PullError). IsRead p (take k p.file, s.0, s.1))
              (sym (at_all q (read_file k p).2 none_left))
              (
                joined,
                omega arith,
                (λ e. more-IsOpen cipher world honest false q (omega arith) whole small chunked e),
                (λ e. more-eof cipher world honest false q e ∙ whole),
              )
      ])

-- A caller that reads until an error, with the number of bytes that each Read hands over.
unfoldable pub reads : Sources → List ℕ → Puller → List ℕ × Puller × Option PullError
reads world [] p = ([], p, none)
reads world (k ∷ ks) p =
    let (bytes, q, e) = read world k p in
    let (rest, r, e') = reads world ks q in
    elim e [ some x ↦ (bytes, q, some x) | none ↦ (bytes ++ rest, r, e') ]

drop_all : (n : ℕ) (xs : List ℕ) → n ≡ length xs → drop n xs ≡ []
drop_all zero [] h = refl
drop_all zero (x ∷ xs) h = absurd (omega arith)
drop_all (suc n) [] h = refl
drop_all (suc n) (x ∷ xs) h = drop_all n xs (omega arith)

-- What the reads of those sizes give from there on.
unfoldable pub IsDelivered : List ℕ → List ℕ → ℕ → List ℕ × Puller × Option PullError → Type 0
IsDelivered cipher ks start (bytes, q, e) =
    (bytes ++ drop (start + length bytes) cipher ≡ drop start cipher)
    × (e ≡ some eof → bytes ≡ drop start cipher)
    × (e ≡ none → length ks ≤ length bytes)

module _ (cipher : List ℕ) (world : Sources) (honest : IsHonest cipher world) where
  pub reads-IsDelivered :
      (ks : List ℕ)
      → All (λ k. 0 < k) ks
      → (p : Puller) → IsOpen cipher p
      → IsDelivered cipher ks p.index (reads world ks p)
  unfolding reads IsDelivered IsRead
  reads-IsDelivered [] u p opened = (
    ap (λ n. drop n cipher) (let e : p.index + 0 ≡ p.index = omega arith in e),
    (λ e. absurd cc),
    (λ e. omega arith),
  )
  reads-IsDelivered (k ∷ ks) (positive, rest_positive) p opened =
      let (joined, given, on_none, on_eof) = read-IsRead cipher world honest k positive p opened in
      let bytes = (read world k p).0 in
      let q = (read world k p).1 in
      elim (Option-cases (read world k p).2) [
        | inr (x, failed) ↦
            let e : reads world (k ∷ ks) p ≡ (bytes, q, some x) = ground arith in
            subst (IsDelivered cipher (k ∷ ks) p.index) (sym e) (
              joined,
              (λ h.
                  sym (append-nil bytes)
                  ∙ ap (λ t. bytes ++ t)
                      (sym (drop_all (p.index + length bytes) cipher (on_eof (failed ∙ h))))
                  ∙ joined),
              (λ h. absurd cc),
            )
        | inl fine ↦
            let (opened', at) = on_none fine in
            let (joined', on_eof', on_none') = reads-IsDelivered ks rest_positive q opened' in
            let rest = (reads world ks q).0 in
            let e : reads world (k ∷ ks) p
                ≡ (bytes ++ rest, (reads world ks q).1, (reads world ks q).2) =
              ground arith in
            let size = length-append bytes rest in
            subst (IsDelivered cipher (k ∷ ks) p.index) (sym e) (
              append_assoc bytes rest (drop (p.index + length (bytes ++ rest)) cipher)
                  ∙ ap (λ n. bytes ++ (rest ++ drop n cipher))
                      (let z : p.index + length (bytes ++ rest) ≡ q.index + length rest =
                          omega (arith, size, at) in
                        z)
                  ∙ ap (λ t. bytes ++ t) joined'
                  ∙ ap (λ n. bytes ++ drop n cipher) at
                  ∙ joined,
              (λ h.
                  ap (λ t. bytes ++ t) (on_eof' h) ∙ ap (λ n. bytes ++ drop n cipher) at ∙ joined),
              (λ h. let l = on_none' h in omega (arith, size)),
            )
      ]
