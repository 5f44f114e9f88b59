-- ===== src/Performance.antt =====
-- performance/performance.go: the ring of counters in which the reports of jobs are reconciled. Timestamps, populations and
-- sizes are the integers of Common/Int, away from overflow. PanicOnProblem is false, as it is outside the
-- tests, so what it guards is only logged. An index is below the capacity; elsewhere stands the zero entry.
pub mod Integers
pub mod Spread
pub mod Stuck
use ods.Common.{
  ℕ, zero, suc, ◌+◌, ◌-◌, ◌%◌, ◌==◌, ◌&&◌, Bool, true, false, none, some, List, [], ◌∷◌, get_elem?,
  ltb, if◌then◌else◌, ℤ, pos, ◌+ℤ◌, ◌-ℤ◌, ltb_ℤ, leb_ℤ, eqb_ℤ, Result, ok, err, ◌>>=◌,
}
use ods.Performance.Integers.{◌*ℤ◌, quot_ℤ}

pub record QEntry : Type 0 where
  pub t_stamp : ℤ
  pub population : ℤ
  pub bytes : ℤ

pub record QStat : Type 0 where
  pub total_time : ℤ
  pub total_bytes : ℤ
  pub pop_weighted_by_time : ℤ

pub record ReportsQueue : Type 0 where
  pub entry : List QEntry
  pub capacity : ℕ
  pub head : ℕ
  pub tail : ℕ
  pub stat : QStat
  pub user_stat : QStat

pub record JobReport : Type 0 where
  pub start : ℤ
  pub stop : ℤ
  pub size_job : ℤ

abbrev pub zero_entry : QEntry
zero_entry = record { t_stamp = pos 0; population = pos 0; bytes = pos 0 }

abbrev pub zero_stat : QStat
zero_stat = record { total_time = pos 0; total_bytes = pos 0; pop_weighted_by_time = pos 0 }

unfoldable pub entries_of : ℕ → List QEntry
entries_of zero = []
entries_of (suc n) = zero_entry ∷ entries_of n

-- for a capacity that is not zero
unfoldable pub new_reports_queue : ℕ → ReportsQueue
unfolding entries_of
new_reports_queue capacity = record {
  entry = entries_of capacity;
  capacity = capacity;
  head = 0;
  tail = capacity - 1;
  stat = zero_stat;
  user_stat = zero_stat;
}

unfoldable pub entry_at : ℕ → List QEntry → QEntry
entry_at i entries = elim (get_elem? entries i) [ none ↦ zero_entry | some e ↦ e ]

unfoldable pub change_at : ℕ → (QEntry → QEntry) → List QEntry → List QEntry
change_at i f [] = []
change_at zero f (e ∷ entries) = f e ∷ entries
change_at (suc i) f (e ∷ entries) = e ∷ change_at i f entries

unfoldable pub add_bytes : ℕ → ℤ → List QEntry → List QEntry
unfolding change_at
add_bytes i d = change_at i (λ e. record e { bytes = e.bytes +ℤ d })

unfoldable pub advance_head : ReportsQueue → ReportsQueue
unfolding entry_at
advance_head r =
    let i = r.head in
    let j = (r.head + 1) % r.capacity in
    let t = (entry_at j r.entry).t_stamp -ℤ (entry_at i r.entry).t_stamp in
    if (r.tail + 2) % r.capacity == r.head
    then record r {
      stat = record {
        total_time = r.stat.total_time +ℤ t;
        total_bytes = r.stat.total_bytes +ℤ (entry_at i r.entry).bytes;
        pop_weighted_by_time = r.stat.pop_weighted_by_time +ℤ t *ℤ (entry_at i r.entry).population;
      };
      head = (r.head + 1) % r.capacity;
    }
    else r

-- A new tail, after the head has made room for it.
unfoldable pub push : (t_stamp population : ℤ) → ReportsQueue → ReportsQueue
unfolding advance_head change_at
push t_stamp population r =
    let room = advance_head r in
    let tail = (room.tail + 1) % room.capacity in
    record room {
      tail = tail;
      entry =
          change_at tail (λ e. record e { t_stamp = t_stamp; population = population }) room.entry;
    }

abbrev pub one_more : QEntry → QEntry
one_more e = record e { population = e.population +ℤ pos 1 }

abbrev pub one_less : QEntry → QEntry
one_less e = record e { population = e.population -ℤ pos 1 }

-- the start of a job
unfoldable pub insert_start : ℤ → ReportsQueue → ReportsQueue
unfolding push entry_at change_at
insert_start begin_at r =
    let old = entry_at r.tail r.entry in
    let before = (r.tail + r.capacity - 1) % r.capacity in
    if ltb_ℤ old.t_stamp begin_at
    then push begin_at (old.population +ℤ pos 1) r
    else if eqb_ℤ old.t_stamp begin_at
    then record r { entry = change_at r.tail one_more r.entry }
    else if eqb_ℤ (entry_at before r.entry).t_stamp begin_at
    then record r { entry = change_at r.tail one_more (change_at before one_more r.entry) }
    else if eqb_ℤ (old.t_stamp -ℤ pos 1) begin_at
    then record r { entry = change_at r.tail one_more r.entry }
    else r

unfoldable pub count_user : (interval size population : ℤ) → QStat → QStat
count_user interval size population s = record {
  total_time = s.total_time +ℤ interval;
  total_bytes = s.total_bytes +ℤ size;
  pop_weighted_by_time = s.pop_weighted_by_time +ℤ interval *ℤ population;
}

-- the end of a job, before its bytes are distributed
unfoldable pub insert_end : (end_at interval size : ℤ) → ReportsQueue → ReportsQueue
unfolding push entry_at change_at count_user
insert_end end_at interval size r =
    let old = entry_at r.tail r.entry in
    let left = old.population -ℤ pos 1 in
    let counted = count_user interval size left r.user_stat in
    if eqb_ℤ old.t_stamp end_at
    then record r { entry = change_at r.tail one_less r.entry; user_stat = counted }
    else record (push end_at left r) { user_stat = counted }

pub data Trouble : Type 0 where
  -- the panic on an interval of length 0
  no_interval : Trouble
  endless : Trouble

-- The loop that distributes bytes over the entries before `i`.
unfoldable pub distribute :
    (rounds : ℕ)
    → (capacity : ℕ) → (begin_at interval : ℤ) → (i : ℕ) → (amount : ℤ) → List QEntry
    → Result Trouble (List QEntry)
unfolding entry_at add_bytes
distribute zero capacity begin_at interval i amount entries = err endless
distribute (suc rounds) capacity begin_at interval i amount entries =
    let j = (i + capacity - 1) % capacity in
    let d =
      quot_ℤ (amount *ℤ ((entry_at i entries).t_stamp -ℤ (entry_at j entries).t_stamp)) interval in
    let rest =
      distribute rounds capacity begin_at interval j (amount -ℤ d) (add_bytes j d entries) in
    if eqb_ℤ amount (pos 0)
    then ok entries
    else if leb_ℤ (entry_at j entries).t_stamp begin_at
    then ok (add_bytes j amount entries)
    else rest

unfoldable pub insert_stat : (rounds : ℕ) → JobReport → ReportsQueue → Result Trouble ReportsQueue
unfolding insert_start insert_end distribute
insert_stat rounds jr r =
    let interval = jr.stop -ℤ jr.start in
    if eqb_ℤ interval (pos 0)
    then err no_interval
    else if ltb_ℤ (pos 0) jr.start && eqb_ℤ jr.stop (pos 0)
    then (let began = insert_start jr.start r in
        distribute rounds began.capacity jr.start interval began.tail (pos 0) began.entry
        >>= λ entries. ok (record began { entry = entries }))
    else (let ended = insert_end jr.stop interval jr.size_job r in
        distribute rounds ended.capacity jr.start interval ended.tail jr.size_job ended.entry
        >>= λ entries. ok (record ended { entry = entries }))

-- Length
unfoldable pub queue_length : ReportsQueue → ℕ
queue_length r =
    if r.head == (r.tail + 1) % r.capacity
    then 0
    else if ltb r.head r.tail
    then r.tail - r.head + 1
    else r.tail + 1 + r.capacity - r.head

pub record JobReporter : Type 0 where
  pub q : ReportsQueue
  pub total_bytes : ℤ
  pub total_time : ℤ

-- jobReportersBeginning, at the time `now`; CreateTime is 0
unfoldable pub job_reporters_beginning :
    (rounds : ℕ) → (now : ℤ) → JobReporter → Result Trouble (JobReporter × ℤ)
unfolding insert_stat
job_reporters_beginning rounds now reporter =
    insert_stat rounds (record { start = now; stop = pos 0; size_job = pos 0 }) reporter.q >>= λ q.
    ok (record reporter { q = q }, now)

-- jobReportersJobReport, at the time `now`
unfoldable pub job_reporters_job_report :
    (rounds : ℕ) → (now : ℤ) → JobReport → JobReporter → Result Trouble JobReporter
unfolding insert_stat
job_reporters_job_report rounds now job reporter =
    let job = record job { stop = now +ℤ pos 1 } in
    insert_stat rounds job reporter.q >>= λ q. ok (record {
      q = q;
      total_bytes = reporter.total_bytes +ℤ job.size_job;
      total_time = reporter.total_time +ℤ (job.stop -ℤ job.start);
    })
