-- ===== src/Cache/Account.antt =====
-- The counts of a walk against what is left on the disk.
use ods.Common.{
  ℕ, ◌+◌, ◌≤◌, Bool, false, some, List, [], ◌∷◌, Text, text_eq, ℤ, ◌≡◌, refl, ap, inl, inr, arith,
  Bool-cases, Option-cases, length,
}
use ods.Cache.{
  Disk, FileInfo, size_of, System, Limits, Usage, CachePurgeStats, FileState, cached, orphaned,
  uploaded, other_state, lookup, removed, emptied, attempt_to_empty_file, purge_file,
  purge_by_state, age_of, purge_found, reviewed, file_purge_visit, walk, cache_purge_iteration, ext,
  file_state, no_stats,
}

unfoldable pub total_size : Disk → ℕ
total_size [] = 0
total_size (f ∷ disk) = (size_of f) + total_size disk

total_size-removed :
    (n : Text) (disk : Disk) (f : FileInfo)
    → lookup n disk ≡ some f
    → total_size (removed n disk) + (size_of f) ≡ total_size disk
unfolding total_size removed lookup
total_size-removed n [] f h = cc
total_size-removed n (g ∷ disk) f h = elim (Bool-cases (text_eq g.name n)) [
  | inl same ↦
      let e : g ≡ f = ground arith in
      let l : (size_of g) ≡ (size_of f) = ap size_of e in ground arith
  | inr other ↦ let r = total_size-removed n disk f (ground arith) in ground arith
]

total_size-emptied :
    (now : ℤ) (n : Text) (disk : Disk) → total_size (emptied now n disk) ≤ total_size disk
unfolding total_size emptied
total_size-emptied now n [] = omega arith
total_size-emptied now n (g ∷ disk) = let r = total_size-emptied now n disk in ground arith

-- No more is counted as deleted than left the disk, and all of it unless a removal fails; a look at a
-- file counts it at most once, and counts no file as looked at.
Fair : Bool → Disk × CachePurgeStats → Disk × CachePurgeStats → Type 0
Fair fails (d, c) (d', c') =
    (total_size d' + c'.deleted_size ≤ total_size d + c.deleted_size)
    × (fails ≡ false → total_size d' + c'.deleted_size ≡ total_size d + c.deleted_size)
    × (c'.deleted_count + c'.error_count ≤ c.deleted_count + c.error_count + 1)
    × (c'.reviewed_count ≡ c.reviewed_count)

module _ (sys : System) (limits : Limits) (usage : Usage) where
  purge_file-Fair :
      (n : Text) (f : FileInfo) (disk : Disk) (cps : CachePurgeStats)
      → lookup n disk ≡ some f
      → Fair (sys.unremovable n) (disk, cps) (purge_file sys n (size_of f) (disk, cps))
  unfolding Fair purge_file attempt_to_empty_file
  purge_file-Fair n f disk cps h =
      let r = total_size-removed n disk f h in
      let e = total_size-emptied sys.now n disk in
      (ground arith, ground arith, ground arith, ground arith)

  by_state-Fair :
      (n : Text) (f : FileInfo) (age : ℤ) (state : FileState) (disk : Disk) (cps : CachePurgeStats)
      → lookup n disk ≡ some f
      → Fair
          (sys.unremovable n)
          (disk, cps)
          (purge_by_state sys limits usage n age (size_of f) state (disk, cps))
  unfolding Fair purge_by_state
  by_state-Fair n f age cached disk cps h =
      let (a, b, c, d) = purge_file-Fair n f disk cps h in
      (ground arith, ground arith, ground arith, ground arith)
  by_state-Fair n f age orphaned disk cps h = purge_file-Fair n f disk cps h
  by_state-Fair n f age uploaded disk cps h =
      (ground arith, ground arith, ground arith, ground arith)
  by_state-Fair n f age other_state disk cps h =
      let (a, b, c, d) = purge_file-Fair n f disk cps h in
      (ground arith, ground arith, ground arith, ground arith)

  visit-Fair :
      (n : Text) (disk : Disk) (cps : CachePurgeStats)
      → Fair
          (sys.unremovable n)
          (disk, reviewed cps)
          (file_purge_visit sys limits usage n (disk, cps))
  unfolding Fair file_purge_visit purge_found
  visit-Fair n disk cps = elim (Option-cases (lookup n disk)) [
    | inl gone ↦ (ground arith, ground arith, ground arith, ground arith)
    | inr (f, found) ↦
        let (a, b, c, d) =
          by_state-Fair n f (age_of sys f) (file_state (ext n)) disk
            (record (reviewed cps) { reviewed_size = cps.reviewed_size + (size_of f) }) found in
        (ground arith, ground arith, ground arith, ground arith)
  ]

  walk-counts :
      (names : List Text) (disk : Disk) (cps : CachePurgeStats)
      → let (left, counts) = walk sys limits usage names (disk, cps) in
        (total_size left + counts.deleted_size ≤ total_size disk + cps.deleted_size)
        × (((n : Text) → sys.unremovable n ≡ false)
            → total_size left + counts.deleted_size ≡ total_size disk + cps.deleted_size)
        × (counts.deleted_count + counts.error_count
            ≤ cps.deleted_count + cps.error_count + length names)
        × (counts.reviewed_count ≡ cps.reviewed_count + length names)
  unfolding walk Fair
  walk-counts [] disk cps = (omega arith, (λ h. refl), omega arith, omega arith)
  walk-counts (n ∷ names) disk cps =
      let (disk', cps') = file_purge_visit sys limits usage n (disk, cps) in
      let (a, b, c, d) = visit-Fair n disk cps in
      let (p, q, r, s) = walk-counts names disk' cps' in
      (omega arith, (λ h. let x = b (h n) in let y = q h in omega arith), omega arith, omega arith)

-- After a walk over the cache, the bytes still on the disk and those counted as deleted are no more
-- than the bytes before, and just as many where no removal fails; every name is counted as reviewed
-- once, and no more files are counted as deleted or in error than were reviewed.
pub purge_accounted :
    (sys : System) (limits : Limits) (usage : Usage) (names : List Text) (disk : Disk)
    → let (left, counts) = cache_purge_iteration sys limits usage names disk in
      (total_size left + counts.deleted_size ≤ total_size disk)
      × (((n : Text) → sys.unremovable n ≡ false)
          → total_size left + counts.deleted_size ≡ total_size disk)
      × (counts.deleted_count + counts.error_count ≤ counts.reviewed_count)
      × (counts.reviewed_count ≡ length names)
unfolding cache_purge_iteration
purge_accounted sys limits usage names disk =
    let (a, b, c, d) = walk-counts sys limits usage names disk no_stats in
    (omega arith, (λ h. let x = b h in omega arith), omega arith, omega arith)
