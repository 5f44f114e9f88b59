-- ===== src/Performance/Stuck.antt =====
-- The loop at the end of InsertStat (performance/performance.go), for a job that began before all that the ring holds.
use native.Mathlib.Nat.{mod-lt, div-eq_of_lt}
use ods.Common.{
  ℕ, zero, suc, ◌+◌, ◌-◌, ◌*◌, ◌<◌, false, List, ◌≡◌, refl, sym, ap, ◌∙◌, subst, arith, ℤ, pos,
  negsuc, ◌-ℤ◌, leb_ℤ, eqb_ℤ, err,
}
use ods.Performance.{QEntry, entry_at, add_bytes, endless, distribute}
use ods.Performance.Integers.{magnitude, signed, ◌*ℤ◌, quot_ℤ, minus_parts, parts_equal}
use ods.Performance.Spread.{before, stamp-add}

magnitude-signed : (a b : ℤ) (k : ℕ) → magnitude (signed a b k) ≡ k
magnitude-signed (pos m) (pos n) k = refl
magnitude-signed (negsuc m) (negsuc n) k = refl
magnitude-signed (pos m) (negsuc n) zero = refl
magnitude-signed (pos m) (negsuc n) (suc k) = ground arith
magnitude-signed (negsuc m) (pos n) zero = refl
magnitude-signed (negsuc m) (pos n) (suc k) = ground arith

times_magnitude : (a b : ℤ) → magnitude (a *ℤ b) ≡ magnitude a * magnitude b
unfolding ◌*ℤ◌
times_magnitude a b = magnitude-signed a b (magnitude a * magnitude b)

signed_zero : (a b : ℤ) → signed a b 0 ≡ pos 0
signed_zero (pos m) (pos n) = refl
signed_zero (negsuc m) (negsuc n) = refl
signed_zero (pos m) (negsuc n) = refl
signed_zero (negsuc m) (pos n) = refl

quot_zero : (a b : ℤ) → magnitude a < magnitude b → quot_ℤ a b ≡ pos 0
unfolding quot_ℤ
quot_zero a (pos zero) small = refl
quot_zero a (pos (suc n)) small =
    ap (signed a (pos (suc n))) (div-eq_of_lt small) ∙ signed_zero a (pos (suc n))
quot_zero a (negsuc n) small =
    ap (signed a (negsuc n)) (div-eq_of_lt small) ∙ signed_zero a (negsuc n)

minus_zero : (a : ℤ) → a -ℤ pos 0 ≡ a
minus_zero a = let e = minus_parts a (pos 0) in parts_equal (a -ℤ pos 0) a (omega arith)

-- Where a job of some bytes began before every entry of the ring, and its share of the bytes is less than one between
-- any two entries, the loop that distributes them never ends, in however many rounds.
-- The loop starts at an index below the capacity.
pub distribute_endless :
    (rounds capacity : ℕ) (begin_at interval : ℤ) (i : ℕ) (amount : ℤ) (entries : List QEntry)
    → 0 < capacity
    → i < capacity
    → eqb_ℤ amount (pos 0) ≡ false
    → ((k : ℕ) → k < capacity → leb_ℤ (entry_at k entries).t_stamp begin_at ≡ false)
    → ((k m : ℕ)
        → k < capacity
        → m < capacity
        → magnitude amount
            * magnitude ((entry_at k entries).t_stamp -ℤ (entry_at m entries).t_stamp)
          < magnitude interval)
    → distribute rounds capacity begin_at interval i amount entries ≡ err endless
unfolding distribute
distribute_endless zero capacity begin_at interval i amount entries some_room low something late
      small =
    refl
distribute_endless (suc rounds) capacity begin_at interval i amount entries some_room low something
      late small =
    let j = before capacity i in
    let low' : j < capacity = mod-lt (i + capacity - 1) some_room in
    let gap = (entry_at i entries).t_stamp -ℤ (entry_at j entries).t_stamp in
    let later = late j low' in
    let no_share : quot_ℤ (amount *ℤ gap) interval ≡ pos 0 = quot_zero (amount *ℤ gap) interval (
      subst (λ x. x < magnitude interval) (sym (times_magnitude amount gap))
        (small i j low low')) in
    let rest : distribute rounds capacity begin_at interval j (amount -ℤ pos 0)
          (add_bytes j (pos 0) entries)
        ≡ err endless =
      subst
        (λ x.
          distribute rounds capacity begin_at interval j x (add_bytes j (pos 0) entries)
          ≡ err endless)
        (sym (minus_zero amount))
        (distribute_endless rounds capacity begin_at interval j amount (add_bytes j (pos 0) entries)
          some_room low' something
          (λ k l.
            subst (λ x. leb_ℤ x begin_at ≡ false) (sym (stamp-add k j (pos 0) entries)) (late k l))
          (λ k m l l'.
            subst
              (λ x.
                magnitude amount
                  * magnitude (x -ℤ (entry_at m (add_bytes j (pos 0) entries)).t_stamp)
                < magnitude interval)
              (sym (stamp-add k j (pos 0) entries))
              (subst
                (λ x.
                  magnitude amount * magnitude ((entry_at k entries).t_stamp -ℤ x)
                  < magnitude interval)
                (sym (stamp-add m j (pos 0) entries)) (small k m l l')))) in
    let whole : distribute rounds capacity begin_at interval j
          (amount -ℤ quot_ℤ (amount *ℤ gap) interval)
          (add_bytes j (quot_ℤ (amount *ℤ gap) interval) entries)
        ≡ err endless =
      subst
        (λ x.
          distribute rounds capacity begin_at interval j (amount -ℤ x) (add_bytes j x entries)
          ≡ err endless)
        (sym no_share) rest in
    ground arith
