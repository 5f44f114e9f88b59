-- ===== src/Performance/Spread.antt =====
-- What the loop at the end of InsertStat (performance/performance.go) adds to the entries, and when it ends.
use native.Mathlib.Nat.{mod-lt}
use ods.Common.{
  ℕ, zero, suc, ◌+◌, ◌-◌, ◌%◌, ◌<◌, true, false, List, [], ◌∷◌, length, ◌≡◌, refl, sym, ap, ◌∙◌,
  subst, arith, Bool-cases, inl, inr, ℤ, pos, pos_part, neg_part, ◌+ℤ◌, ◌-ℤ◌, leb_ℤ, eqb_ℤ, ok,
}
use ods.Performance.{QEntry, entry_at, change_at, add_bytes, distribute}
use ods.Performance.Integers.{◌*ℤ◌, quot_ℤ, add_parts, minus_parts, parts_equal}

-- the bytes of all entries
unfoldable pub total : List QEntry → ℤ
total [] = pos 0
total (e ∷ entries) = e.bytes +ℤ total entries

total-add :
    (i : ℕ) (d : ℤ) (entries : List QEntry)
    → i < length entries
    → total (add_bytes i d entries) ≡ total entries +ℤ d
unfolding total add_bytes change_at
total-add i d [] low = absurd (omega arith)
total-add zero d (e ∷ entries) low =
    let t = total entries in
    let a = add_parts e.bytes d in
    let b = add_parts (e.bytes +ℤ d) t in
    let c = add_parts e.bytes t in
    let s = add_parts (e.bytes +ℤ t) d in
    parts_equal (e.bytes +ℤ d +ℤ t) (e.bytes +ℤ t +ℤ d) (omega arith)
total-add (suc i) d (e ∷ entries) low =
    let ih = total-add i d entries (omega arith) in
    let t = total entries in
    let a = add_parts t d in
    let b = add_parts e.bytes (t +ℤ d) in
    let c = add_parts e.bytes t in
    let s = add_parts (e.bytes +ℤ t) d in
    ap (λ x. e.bytes +ℤ x) ih ∙ parts_equal (e.bytes +ℤ (t +ℤ d)) (e.bytes +ℤ t +ℤ d) (omega arith)

length-add :
    (i : ℕ) (d : ℤ) (entries : List QEntry) → length (add_bytes i d entries) ≡ length entries
unfolding add_bytes change_at
length-add i d [] = refl
length-add zero d (e ∷ entries) = refl
length-add (suc i) d (e ∷ entries) = ap suc (length-add i d entries)

pub stamp-add :
    (k i : ℕ) (d : ℤ) (entries : List QEntry)
    → (entry_at k (add_bytes i d entries)).t_stamp ≡ (entry_at k entries).t_stamp
unfolding entry_at add_bytes change_at
stamp-add k i d [] = refl
stamp-add zero zero d (e ∷ entries) = refl
stamp-add zero (suc i) d (e ∷ entries) = refl
stamp-add (suc k) zero d (e ∷ entries) = refl
stamp-add (suc k) (suc i) d (e ∷ entries) = stamp-add k i d entries

-- the index of the entry before
abbrev pub before : ℕ → ℕ → ℕ
before capacity i = (i + capacity - 1) % capacity

-- the n-th entry before
unfoldable pub back : ℕ → ℕ → ℕ → ℕ
back capacity i zero = i
back capacity i (suc n) = back capacity (before capacity i) n

zero_amount : (amount : ℤ) → eqb_ℤ amount (pos 0) ≡ true → amount ≡ pos 0
zero_amount amount h = parts_equal amount (pos 0) (ground arith)

plus_zero : (a b : ℤ) → eqb_ℤ b (pos 0) ≡ true → a ≡ a +ℤ b
plus_zero a b h =
    let e = add_parts a b in
    let z : pos_part b ≡ neg_part b = ground arith in parts_equal a (a +ℤ b) (omega arith)

split_amount : (t d amount : ℤ) → t +ℤ d +ℤ (amount -ℤ d) ≡ t +ℤ amount
split_amount t d amount =
    let a = add_parts t d in
    let m = minus_parts amount d in
    let b = add_parts (t +ℤ d) (amount -ℤ d) in
    let c = add_parts t amount in parts_equal (t +ℤ d +ℤ (amount -ℤ d)) (t +ℤ amount) (omega arith)

-- The entry that is early enough is not the first one before, so there is one less to go.
one_less_to_go :
    (n capacity : ℕ) (begin_at : ℤ) (i : ℕ) (entries : List QEntry)
    → leb_ℤ (entry_at (back capacity i (suc n)) entries).t_stamp begin_at ≡ true
    → leb_ℤ (entry_at (before capacity i) entries).t_stamp begin_at ≡ false
    → (m : ℕ) × (n ≡ suc m)
      × (leb_ℤ (entry_at (back capacity (before capacity i) (suc m)) entries).t_stamp begin_at
          ≡ true)
unfolding back
one_less_to_go zero capacity begin_at i entries reached later = absurd (ground arith)
one_less_to_go (suc m) capacity begin_at i entries reached later = (m, refl, reached)

-- Where the n-th entry before the tail is no later than the start of the job, the loop that distributes the bytes of the
-- job ends within n rounds, and what it adds to the entries, all in all, is the bytes of the job: nothing is lost or
-- counted twice by the rounding of the shares.
-- The ring has as many entries as its capacity, which is not 0.
pub distribute_lem :
    (n rounds capacity : ℕ) (begin_at interval : ℤ) (i : ℕ) (amount : ℤ) (entries : List QEntry)
    → 0 < capacity
    → length entries ≡ capacity
    → leb_ℤ (entry_at (back capacity i (suc n)) entries).t_stamp begin_at ≡ true
    → n < rounds
    → (after : List QEntry) × (distribute rounds capacity begin_at interval i amount entries
        ≡ ok after)
      × (length after ≡ capacity)
      × (total after ≡ total entries +ℤ amount)
unfolding distribute back
distribute_lem n zero capacity begin_at interval i amount entries some_room sized reached enough =
    absurd (omega arith)
distribute_lem n (suc rounds) capacity begin_at interval i amount entries some_room sized reached
      enough =
    let j = before capacity i in
    let low : j < length entries =
      subst (λ c. j < c) (sym sized) (mod-lt (i + capacity - 1) some_room) in
    let d =
      quot_ℤ (amount *ℤ ((entry_at i entries).t_stamp -ℤ (entry_at j entries).t_stamp)) interval in
    elim (Bool-cases (eqb_ℤ amount (pos 0))) [
      | inl nothing ↦ (entries, ground arith, sized, plus_zero (total entries) amount nothing)
      | inr something ↦ elim (Bool-cases (leb_ℤ (entry_at j entries).t_stamp begin_at)) [
        | inl last ↦ (
          add_bytes j amount entries,
          ground arith,
          length-add j amount entries ∙ sized,
          total-add j amount entries low,
        )
        | inr later ↦
            let (m, is_n, reached') = one_less_to_go n capacity begin_at i entries reached later in
            let entries' = add_bytes j d entries in
            let stamp = stamp-add (back capacity j (suc m)) j d entries in
            let (after, ended, sized', sum) =
              distribute_lem m rounds capacity begin_at interval j (amount -ℤ d) entries' some_room
                (length-add j d entries ∙ sized)
                (subst (λ x. leb_ℤ x begin_at ≡ true) (sym stamp) reached') (omega arith) in
            (
              after,
              ground arith,
              sized',
              sum
                  ∙ ap (λ x. x +ℤ (amount -ℤ d)) (total-add j d entries low)
                  ∙ split_amount (total entries) d amount,
            )
      ]
    ]
