-- ===== src/Cache/Purged.antt =====
-- Which files a round of the purge may remove or empty.
use ods.Common.{
  ℕ, ◌+◌, Bool, true, false, ◌&&◌, ◌||◌, Option, none, some, List, [], ◌∷◌, Text, codes, text_eq,
  text_eq_sound, ltb, ltb_ℤ, ℤ, pos, ◌≡◌, refl, sym, ap, subst, ◌∙◌, ◌⊎◌, inl, inr, arith,
  Bool-cases, Option-cases,
}
use ods.Cache.{
  Disk, FileInfo, is_regular, size_of, System, Limits, Usage, CachePurgeStats, FileState, cached,
  orphaned, uploaded, other_state, lookup, removed, emptied, attempt_to_empty_file, purge_file,
  evicted, purge_by_state, age_of, purge_found, reviewed, file_purge_visit, walk,
  cache_purge_iteration, cache_purge_round, one_week, ext, file_state, no_stats,
}

other_name : (a m n : Text) → text_eq a m ≡ true → text_eq m n ≡ false → text_eq a n ≡ false
other_name a m n h k = rw (text_eq_sound a m h) k

pub lookup-removed :
    (m n : Text) (disk : Disk) → text_eq m n ≡ false → lookup n (removed m disk) ≡ lookup n disk
unfolding lookup removed
lookup-removed m n [] h = refl
lookup-removed m n (f ∷ disk) h = ground (arith, lookup-removed m n disk h, other_name f.name m n)

lookup-emptied :
    (now : ℤ) (m n : Text) (disk : Disk)
    → text_eq m n ≡ false
    → lookup n (emptied now m disk) ≡ lookup n disk
unfolding lookup emptied
lookup-emptied now m n [] h = refl
lookup-emptied now m n (f ∷ disk) h =
    ground (arith, lookup-emptied now m n disk h, other_name f.name m n)

-- When a file of that state and age may go.
StateDue : Limits → ℤ → FileState → Type 0
StateDue limits age cached = ltb_ℤ (pos limits.age_eligible_for_eviction) age ≡ true
StateDue limits age orphaned = Unit
StateDue limits age uploaded = ⊥
StateDue limits age other_state = ltb_ℤ (pos one_week) age ≡ true

-- A regular file that is cached and old enough, orphaned, or neither and a week old. A file that waits for its upload is never due.
pub Due : System → Limits → Text → FileInfo → Type 0
Due sys limits name f =
    (is_regular f ≡ true) × StateDue limits (age_of sys f) (file_state (ext name))

module _ (sys : System) (limits : Limits) (usage : Usage) where
  purge_file-other :
      (m n : Text) (size : ℕ) (disk : Disk) (cps : CachePurgeStats)
      → text_eq m n ≡ false
      → lookup n (purge_file sys m size (disk, cps)).0 ≡ lookup n disk
  unfolding purge_file attempt_to_empty_file
  purge_file-other m n size disk cps h =
      ground (arith, lookup-removed m n disk h, lookup-emptied sys.now m n disk h)

  by_state-other :
      (m n : Text) (age : ℤ) (size : ℕ) (state : FileState) (disk : Disk) (cps : CachePurgeStats)
      → text_eq m n ≡ false
      → lookup n (purge_by_state sys limits usage m age size state (disk, cps)).0 ≡ lookup n disk
  unfolding purge_by_state
  by_state-other m n age size cached disk cps h =
      ground (arith, purge_file-other m n size disk cps h)
  by_state-other m n age size orphaned disk cps h = purge_file-other m n size disk cps h
  by_state-other m n age size uploaded disk cps h = ground arith
  by_state-other m n age size other_state disk cps h =
      ground (arith, purge_file-other m n size disk cps h)

  by_state-same :
      (m : Text) (age : ℤ) (size : ℕ) (state : FileState) (disk : Disk) (cps : CachePurgeStats)
      → ((purge_by_state sys limits usage m age size state (disk, cps)).0 ≡ disk)
        ⊎ StateDue limits age state
  unfolding purge_by_state evicted StateDue
  by_state-same m age size cached disk cps =
      elim (Bool-cases (ltb_ℤ (pos limits.age_eligible_for_eviction) age)) [
        | inl old ↦ inr old
        | inr fresh ↦ inl (ground arith)
      ]
  by_state-same m age size orphaned disk cps = inr tt
  by_state-same m age size uploaded disk cps = inl (ground arith)
  by_state-same m age size other_state disk cps = elim (Bool-cases (ltb_ℤ (pos one_week) age)) [
    | inl old ↦ inr old
    | inr fresh ↦ inl (ground arith)
  ]

  -- the counts when a regular file is looked at
  counted : CachePurgeStats → FileInfo → CachePurgeStats
  counted cps f = record (reviewed cps) { reviewed_size = cps.reviewed_size + (size_of f) }

  -- A visit changes nothing on the disk, or it is the switch on the file's state.
  visit_cases :
      (m : Text) (disk : Disk) (cps : CachePurgeStats)
      → ((file_purge_visit sys limits usage m (disk, cps)).0 ≡ disk)
        ⊎ ((f : FileInfo) × (lookup m disk ≡ some f)
            × (is_regular f ≡ true)
            × (file_purge_visit sys limits usage m (disk, cps)
                ≡ purge_by_state sys limits usage m
                    (age_of sys f)
                    (size_of f)
                    (file_state (ext m))
                    (disk, counted cps f)))
  unfolding file_purge_visit purge_found counted
  visit_cases m disk cps = elim (Option-cases (lookup m disk)) [
    | inl gone ↦ inl (ground arith)
    | inr (f, found) ↦ elim (Bool-cases (sys.unreadable m)) [
      | inl unread ↦ inl (ground arith)
      | inr read ↦ elim (Bool-cases (is_regular f)) [
        | inl regular ↦ inr (f, found, regular, ground arith)
        | inr odd ↦ inl (ground arith)
      ]
    ]
  ]

  visit-other :
      (m n : Text) (disk : Disk) (cps : CachePurgeStats)
      → text_eq m n ≡ false
      → lookup n (file_purge_visit sys limits usage m (disk, cps)).0 ≡ lookup n disk
  visit-other m n disk cps h = elim (visit_cases m disk cps) [
    | inl same ↦ ap (lookup n) same
    | inr (f, found, regular, e) ↦
        ap (λ s. lookup n s.0) e
        ∙ by_state-other m n (age_of sys f) (size_of f) (file_state (ext m)) disk (counted cps f) h
  ]

  visit-same :
      (n : Text) (disk : Disk) (cps : CachePurgeStats) (f : FileInfo)
      → lookup n disk ≡ some f
      → (lookup n (file_purge_visit sys limits usage n (disk, cps)).0 ≡ some f) ⊎ Due sys limits n f
  unfolding Due
  visit-same n disk cps f h = elim (visit_cases n disk cps) [
    | inl same ↦ inl (ap (lookup n) same ∙ h)
    | inr (g, found, regular, e) ↦
        let same : g ≡ f = cc in
        elim (by_state-same n (age_of sys g) (size_of g) (file_state (ext n)) disk
          (counted cps g)) [
            | inr due ↦ inr (
                subst
                  (λ g. (is_regular g ≡ true) × StateDue limits (age_of sys g) (file_state (ext n)))
                  same (regular, due))
            | inl kept ↦ inl (ap (λ s. lookup n s.0) e ∙ ap (lookup n) kept ∙ h)
          ]
  ]

  visit-keeps :
      (m n : Text) (disk : Disk) (cps : CachePurgeStats) (f : FileInfo)
      → lookup n disk ≡ some f
      → (lookup n (file_purge_visit sys limits usage m (disk, cps)).0 ≡ some f) ⊎ Due sys limits n f
  unfolding file_purge_visit purge_found
  visit-keeps m n disk cps f h = elim (Bool-cases (text_eq m n)) [
    | inr other ↦ inl (visit-other m n disk cps other ∙ h)
    | inl same ↦
        subst
          (λ m.
            (lookup n (file_purge_visit sys limits usage m (disk, cps)).0 ≡ some f)
            ⊎ Due sys limits n f)
          (sym (text_eq_sound m n same)) (visit-same n disk cps f h)
  ]

  visit-gone :
      (m n : Text) (disk : Disk) (cps : CachePurgeStats)
      → lookup n disk ≡ none
      → lookup n (file_purge_visit sys limits usage m (disk, cps)).0 ≡ none
  unfolding file_purge_visit
  visit-gone m n disk cps h = elim (Bool-cases (text_eq m n)) [
    | inr other ↦ visit-other m n disk cps other ∙ h
    | inl same ↦
        let e : lookup m disk ≡ none = ap (λ x. lookup x disk) (text_eq_sound m n same) ∙ h in
        ground arith
  ]

  -- A visit anywhere finds nothing to do about a file that waits for its upload.
  pub visit-waiting :
      (m n : Text) (disk : Disk) (cps : CachePurgeStats)
      → ext n ≡ codes ".uploaded"
      → lookup n (file_purge_visit sys limits usage m (disk, cps)).0 ≡ lookup n disk
  unfolding Due StateDue file_state text_eq
  visit-waiting m n disk cps waiting = elim (Option-cases (lookup n disk)) [
    | inl gone ↦ visit-gone m n disk cps gone ∙ sym gone
    | inr (f, found) ↦ elim (visit-keeps m n disk cps f found) [
      | inl kept ↦ kept ∙ sym found
      | inr (regular, due) ↦
          absurd (subst (λ e. StateDue limits (age_of sys f) (file_state e)) waiting due)
    ]
  ]

  walk-keeps :
      (names : List Text) (n : Text) (disk : Disk) (cps : CachePurgeStats) (f : FileInfo)
      → lookup n disk ≡ some f
      → (lookup n (walk sys limits usage names (disk, cps)).0 ≡ some f) ⊎ Due sys limits n f
  unfolding walk
  walk-keeps [] n disk cps f h = inl h
  walk-keeps (m ∷ names) n disk cps f h =
      let (disk', cps') = file_purge_visit sys limits usage m (disk, cps) in
      elim (visit-keeps m n disk cps f h) [
        | inl kept ↦ walk-keeps names n disk' cps' f kept
        | inr due ↦ inr due
      ]

-- A round of the cache purge leaves every file as it was, except regular files that are cached and
-- old enough, that are orphaned, or that are a week old and neither cached nor waiting for upload.
pub purge_spares_others :
    (has_storage : Bool) (sys : System) (limits : Limits) (usage : Option Usage) (names : List Text)
    (disk : Disk) (n : Text) (f : FileInfo)
    → lookup n disk ≡ some f
    → (lookup n (cache_purge_round has_storage sys limits usage names disk) ≡ some f)
      ⊎ Due sys limits n f
unfolding cache_purge_round cache_purge_iteration
purge_spares_others has_storage sys limits none names disk n f h = inl h
purge_spares_others has_storage sys limits (some usage) names disk n f h =
    elim (Bool-cases (has_storage && (usage.above_low || ltb 0 limits.file_limit))) [
      | inl go ↦ rw go (walk-keeps sys limits usage names n disk no_stats f h)
      | inr stay ↦ rw stay (inl h)
    ]

-- A file that waits for its upload, and anything that is not a regular file, is as it was after
-- every round of the cache purge.
pub purge_spares_uploads :
    (has_storage : Bool) (sys : System) (limits : Limits) (usage : Option Usage) (names : List Text)
    (disk : Disk) (n : Text) (f : FileInfo)
    → lookup n disk ≡ some f
    → (ext n ≡ codes ".uploaded") ⊎ (is_regular f ≡ false)
    → lookup n (cache_purge_round has_storage sys limits usage names disk) ≡ some f
unfolding Due StateDue file_state text_eq
purge_spares_uploads has_storage sys limits usage names disk n f h spared =
    elim (purge_spares_others has_storage sys limits usage names disk n f h) [
      | inl kept ↦ kept
      | inr (regular, due) ↦ elim spared [
        | inl waiting ↦
            absurd (subst (λ e. StateDue limits (age_of sys f) (file_state e)) waiting due)
        | inr odd ↦ absurd cc
      ]
    ]
