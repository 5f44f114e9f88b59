-- ===== src/Cache.antt =====
-- The files of the ciphertext cache: ciphertext/cachepurge.go, over a disk that is a list of files.
-- The kernel's answers are arguments: which files cannot be read, removed or truncated, the clock (one time per
-- walk),
-- and how full the disk is. Floating point stays out: a `Usage` says how the use of the disk compares
-- with the two thresholds, and which files the random draw selects. Nothing else runs meanwhile.
pub mod Purged
pub mod Account
use ods.Common.{
  ℕ, zero, suc, ◌+◌, ◌-◌, ◌*◌, ◌/◌, Bool, true, false, not, ◌&&◌, ◌||◌, Option, none, some, List,
  [], ◌∷◌, Text, codes, length, text_eq, ltb, leb, ltb_ℤ, ◌==◌, if◌then◌else◌, ℤ, pos, pos_part,
  ◌-ℤ◌, ◌+ℤ◌,
}
use mathlib.Core.List.{reverse}

-- What os.FileMode tells of the type of a file.
pub data FileMode : Type 0 where
  regular_file : FileMode
  directory : FileMode
  -- a link, a socket, a device
  irregular : FileMode

pub record FileInfo : Type 0 where
  pub name : Text
  pub mode : FileMode
  pub mod_time : ℤ
  pub content : List ℕ

-- Mode().IsRegular and IsDir
abbrev pub is_regular : FileInfo → Bool
is_regular f = elim f.mode [ regular_file ↦ true | directory ↦ false | irregular ↦ false ]

abbrev pub is_dir : FileInfo → Bool
is_dir f = elim f.mode [ regular_file ↦ false | directory ↦ true | irregular ↦ false ]

abbrev pub size_of : FileInfo → ℕ
size_of f = length f.content

abbrev pub Disk : Type 0
Disk = List FileInfo

unfoldable pub lookup : Text → Disk → Option FileInfo
lookup name [] = none
lookup name (f ∷ disk) = let rest = lookup name disk in if text_eq f.name name then some f else rest

unfoldable pub removed : Text → Disk → Disk
removed name [] = []
removed name (f ∷ disk) =
    let rest = removed name disk in if text_eq f.name name then disk else f ∷ rest

-- os.Truncate to no bytes, which sets the time
unfoldable pub emptied : ℤ → Text → Disk → Disk
emptied now name [] = []
emptied now name (f ∷ disk) =
    let rest = emptied now name disk in
    if text_eq f.name name then record f { content = []; mod_time = now } ∷ disk else f ∷ rest

-- What the operating system does.
pub record System : Type 0 where
  pub unreadable : Text → Bool
  pub unremovable : Text → Bool
  pub untruncatable : Text → Bool
  pub now : ℤ

pub record Limits : Type 0 where
  pub age_eligible_for_eviction : ℕ
  -- 0 where there is no limit
  pub file_limit : ℕ

pub record Usage : Type 0 where
  pub above_low : Bool
  pub above_high : Bool
  -- rand.Float64() < usage - lowThresholdPercent, drawn at that file
  pub drawn : Text → Bool

pub record CachePurgeStats : Type 0 where
  pub deleted_count : ℕ
  pub deleted_size : ℕ
  pub error_count : ℕ
  pub error_size : ℕ
  pub reviewed_count : ℕ
  pub reviewed_size : ℕ

abbrev pub one_week : ℕ
one_week = 604800

ext_back : Text → Text → Text
ext_back acc [] = []
ext_back acc (c ∷ s) =
    let rest = ext_back (c ∷ acc) s in if c == b'/' then [] else if c == b'.' then c ∷ acc else rest

-- path.Ext: from the last dot of the last element on
unfoldable pub ext : Text → Text
unfolding ext_back
ext path = ext_back [] (reverse path)

pub data FileState : Type 0 where
  cached : FileState
  orphaned : FileState
  uploaded : FileState
  other_state : FileState

-- the extension, as filePurgeVisit's switch tells it apart
unfoldable pub file_state : Text → FileState
file_state e =
    if text_eq e (codes ".cached")
    then cached
    else if text_eq e (codes ".orphaned")
    then orphaned
    else if text_eq e (codes ".uploaded")
    then uploaded
    else other_state

unfoldable pub attempt_to_empty_file : System → Text → Disk → Disk
attempt_to_empty_file sys name disk =
    if text_eq (ext name) (codes ".uploaded") then disk else elim (lookup name disk) [
      | none ↦ disk
      | some f ↦
          if sys.unreadable name || sys.untruncatable name then disk else emptied sys.now name disk
    ]

-- os.Remove, and what is counted and done where it fails
unfoldable pub purge_file : System → Text → ℕ → Disk × CachePurgeStats → Disk × CachePurgeStats
unfolding attempt_to_empty_file
purge_file sys name size (disk, cps) =
    if sys.unremovable name
    then (
      attempt_to_empty_file sys name disk,
      record cps { error_count = cps.error_count + 1; error_size = cps.error_size + size },
    )
    else (
      removed name disk,
      record cps { deleted_count = cps.deleted_count + 1; deleted_size = cps.deleted_size + size },
    )

-- whether a file in the cached state is removed; `age` is in seconds
unfoldable pub evicted : Limits → Usage → Text → (age : ℤ) → (size reviewed : ℕ) → Bool
evicted limits usage name age size reviewed =
    let old_enough_to_evict = ltb_ℤ (pos limits.age_eligible_for_eviction) age in
    let hit_file_limit = ltb 0 limits.file_limit && ltb limits.file_limit reviewed in
    let full_enough_to_evict = usage.above_low || hit_file_limit in
    let size_age_eviction = ltb (size / (pos_part age * pos_part age)) 1 in
    let randomly_selected = usage.above_high && usage.drawn name in
    old_enough_to_evict
    && full_enough_to_evict
    && (size_age_eviction || (randomly_selected || hit_file_limit))

-- The switch on the file's state. The second os.Stat of two of its cases finds the file again.
unfoldable pub purge_by_state :
    System
    → Limits
    → Usage
    → Text
    → (age : ℤ) → (size : ℕ) → FileState
    → Disk × CachePurgeStats
    → Disk × CachePurgeStats
unfolding purge_file evicted
purge_by_state sys limits usage name age size cached (disk, cps) =
    if evicted limits usage name age size cps.reviewed_count
    then purge_file sys name size (disk, cps)
    else (disk, cps)
purge_by_state sys limits usage name age size orphaned s = purge_file sys name size s
purge_by_state sys limits usage name age size uploaded (disk, cps) =
    if ltb_ℤ (pos one_week) age
    then (
      disk,
      record cps { error_count = cps.error_count + 1; error_size = cps.error_size + size },
    )
    else (disk, cps)
purge_by_state sys limits usage name age size other_state s =
    if ltb_ℤ (pos one_week) age then purge_file sys name size s else s

abbrev pub age_of : System → FileInfo → ℤ
age_of sys f = sys.now -ℤ f.mod_time +ℤ pos 1

unfoldable pub purge_found :
    System → Limits → Usage → Text → FileInfo → Disk × CachePurgeStats → Disk × CachePurgeStats
unfolding purge_by_state file_state
purge_found sys limits usage name f (disk, cps) =
    if is_dir f || not (is_regular f)
    then (disk, cps)
    else purge_by_state sys limits usage name (age_of sys f) (size_of f) (file_state (ext name))
        (disk, record cps { reviewed_size = cps.reviewed_size + (size_of f) })

abbrev pub reviewed : CachePurgeStats → CachePurgeStats
reviewed cps = record cps { reviewed_count = cps.reviewed_count + 1 }

unfoldable pub file_purge_visit :
    System → Limits → Usage → Text → Disk × CachePurgeStats → Disk × CachePurgeStats
unfolding purge_found
file_purge_visit sys limits usage name (disk, cps) = elim (lookup name disk) [
  | none ↦ (disk, reviewed cps)
  | some f ↦
      if sys.unreadable name
      then (disk, record (reviewed cps) { error_count = cps.error_count + 1 })
      else purge_found sys limits usage name f (disk, reviewed cps)
]

-- Walk over the names that the directory lists
unfoldable pub walk :
    System → Limits → Usage → List Text → Disk × CachePurgeStats → Disk × CachePurgeStats
unfolding file_purge_visit
walk sys limits usage [] s = s
walk sys limits usage (name ∷ names) s =
    walk sys limits usage names (file_purge_visit sys limits usage name s)

abbrev pub no_stats : CachePurgeStats
no_stats = record {
  deleted_count = 0;
  deleted_size = 0;
  error_count = 0;
  error_size = 0;
  reviewed_count = 0;
  reviewed_size = 0;
}

-- cachePurgeIteration, with fresh counts
unfoldable pub cache_purge_iteration :
    System → Limits → Usage → List Text → Disk → Disk × CachePurgeStats
unfolding walk
cache_purge_iteration sys limits usage names disk = walk sys limits usage names (disk, no_stats)

-- One round of CachePurge's loop; no usage where statfs fails.
unfoldable pub cache_purge_round :
    (has_storage : Bool) → System → Limits → Option Usage → List Text → Disk → Disk
unfolding cache_purge_iteration
cache_purge_round has_storage sys limits none names disk = disk
cache_purge_round has_storage sys limits (some usage) names disk =
    if has_storage && (usage.above_low || ltb 0 limits.file_limit)
    then (cache_purge_iteration sys limits usage names disk).0
    else disk
