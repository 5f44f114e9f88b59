-- ===== src/Tests/Rings.antt =====
-- A ring of four entries: a job begins, others begin and end until its entry is gone, and it ends.
use ods.Common.{
  ℕ, zero, suc, ◌<◌, ◌≤◌, ◌+◌, ◌*◌, false, List, [], ◌∷◌, length, ◌≡◌, refl, sym, subst, arith, pos,
  ◌+ℤ◌, ◌-ℤ◌, leb_ℤ, Result, ok, err, ◌>>=◌,
}
use ods.Performance.{
  QEntry, ReportsQueue, JobReport, entries_of, new_reports_queue, entry_at, change_at, advance_head,
  push, insert_start, count_user, insert_end, Trouble, endless, distribute, insert_stat,
  queue_length,
}
use ods.Performance.Integers.{◌*ℤ◌, magnitude}
use ods.Performance.Spread.{back, total, distribute_lem}
use ods.Performance.Stuck.{distribute_endless}

abbrev begins : ℕ → JobReport
begins t = record { start = pos t; stop = pos 0; size_job = pos 0 }

abbrev ends : ℕ → ℕ → ℕ → JobReport
ends t u size = record { start = pos t; stop = pos u; size_job = pos size }

abbrev run : List JobReport → ReportsQueue → Result Trouble ReportsQueue
run [] r = ok r
run (job ∷ jobs) r = insert_stat 9 job r >>= λ r. run jobs r

-- The length of a ring with one entry comes out as one more than its capacity.
one_entry : insert_stat 1 (begins 100) (new_reports_queue 4) >>= (λ r. ok (queue_length r)) ≡ ok 5
unfolding insert_stat insert_start push advance_head entry_at change_at distribute new_reports_queue
    entries_of queue_length
one_entry = refl

-- A share of ten bytes for the entries of a job from 100 on.
abbrev history : List QEntry
history =
    record { t_stamp = pos 301; population = pos 1; bytes = pos 0 }
    ∷ record { t_stamp = pos 500; population = pos 0; bytes = pos 0 }
    ∷ record { t_stamp = pos 201; population = pos 1; bytes = pos 0 }
    ∷ record { t_stamp = pos 300; population = pos 2; bytes = pos 0 }
    ∷ []

abbrev jobs : List JobReport
jobs = begins 100 ∷ begins 200 ∷ ends 200 201 0 ∷ begins 300 ∷ ends 300 301 0 ∷ []

-- The entries that the end of the first job finds.
gone_history :
    run jobs (new_reports_queue 4) >>= (λ r. ok (insert_end (pos 500) (pos 400) (pos 1) r).entry)
    ≡ ok history
unfolding insert_stat insert_start insert_end push advance_head count_user entry_at change_at
    distribute new_reports_queue entries_of ◌*ℤ◌
gone_history = refl

distribute_lem_example :
    (after : List QEntry) × (distribute 3 4 (pos 201) (pos 299) 1 (pos 10) history ≡ ok after)
    × (length after ≡ 4)
    × (total after ≡ total history +ℤ pos 10)
unfolding back entry_at
distribute_lem_example =
    distribute_lem 2 3 4 (pos 201) (pos 299) 1 (pos 10) history (omega arith) refl refl
      (omega arith)

-- The entries' times.
stamped : (k : ℕ) → k < 4 → (t : ℕ) × ((entry_at k history).t_stamp ≡ pos t) × (201 ≤ t) × (t ≤ 500)
unfolding entry_at
stamped zero l = (301, refl, omega arith, omega arith)
stamped (suc zero) l = (500, refl, omega arith, omega arith)
stamped (suc (suc zero)) l = (201, refl, omega arith, omega arith)
stamped (suc (suc (suc zero))) l = (300, refl, omega arith, omega arith)
stamped (suc (suc (suc (suc k)))) l = absurd (omega arith)

apart : (s t : ℕ) → s ≤ t + 299 → t ≤ s + 299 → magnitude (pos s -ℤ pos t) < 300
apart s t a b = ground arith

close :
    (k m : ℕ)
    → k < 4
    → m < 4
    → magnitude (pos 1) * magnitude ((entry_at k history).t_stamp -ℤ (entry_at m history).t_stamp)
      < magnitude (pos 400)
close k m l l' =
    let (s, at_s, low, high) = stamped k l in
    let (t, at_t, low', high') = stamped m l' in
    let e = apart s t (omega arith) (omega arith) in
    subst (λ x. 1 * magnitude (x -ℤ (entry_at m history).t_stamp) < 400) (sym at_s)
      (subst (λ x. 1 * magnitude (pos s -ℤ x) < 400) (sym at_t) (omega arith))

distribute_endless_example : distribute 1000 4 (pos 100) (pos 400) 1 (pos 1) history ≡ err endless
distribute_endless_example =
    distribute_endless 1000 4 (pos 100) (pos 400) 1 (pos 1) history (omega arith) (omega arith) refl
      (λ k l.
        let (t, at, low, high) = stamped k l in
        subst (λ x. leb_ℤ x (pos 100) ≡ false) (sym at) (ground arith))
      close
