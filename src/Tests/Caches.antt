-- ===== src/Tests/Caches.antt =====
-- A cache with a cached, an orphaned and a waiting file, one of which cannot be removed.
use ods.Common.{
  ◌+◌, ◌≤◌, true, false, some, List, [], ◌∷◌, Text, codes, text_eq, ◌≡◌, refl, ◌⊎◌, inl, pos,
}
use ods.Cache.{
  regular_file, Disk, FileInfo, System, Limits, Usage, lookup, removed, emptied,
  cache_purge_iteration, cache_purge_round, ext,
}
use ods.Cache.Purged.{Due, purge_spares_others, purge_spares_uploads}
use ods.Cache.Account.{total_size, purge_accounted}

abbrev old : FileInfo
old = record {
  name = codes "/c/a.cached";
  mode = regular_file;
  mod_time = pos 100;
  content = codes "ciphertext";
}

abbrev orphan : FileInfo
orphan = record {
  name = codes "/c/b.orphaned";
  mode = regular_file;
  mod_time = pos 900;
  content = codes "old";
}

abbrev waiting : FileInfo
waiting = record {
  name = codes "/c/d.uploaded";
  mode = regular_file;
  mod_time = pos 1;
  content = codes "new";
}

abbrev disk : Disk
disk = old ∷ orphan ∷ waiting ∷ []

abbrev names : List Text
names = old.name ∷ orphan.name ∷ waiting.name ∷ []

abbrev sys : System
sys = record {
  unreadable = λ n. false;
  unremovable = text_eq orphan.name;
  untruncatable = λ n. false;
  now = pos 1000000;
}

abbrev limits : Limits
limits = record { age_eligible_for_eviction = 300; file_limit = 0 }

abbrev usage : Usage
usage = record { above_low = true; above_high = false; drawn = λ n. false }

abbrev after : Disk
after = record orphan { content = []; mod_time = pos 1000000 } ∷ waiting ∷ []

purged : cache_purge_round true sys limits (some usage) names disk ≡ after
unfolding cache_purge_round text_eq ext lookup removed emptied
purged = refl

purge_spares_others_example :
    (lookup old.name (cache_purge_round true sys limits (some usage) names disk) ≡ some old)
    ⊎ Due sys limits old.name old
unfolding lookup text_eq
purge_spares_others_example =
    purge_spares_others true sys limits (some usage) names disk old.name old refl

purge_spares_uploads_example :
    lookup waiting.name (cache_purge_round true sys limits (some usage) names disk) ≡ some waiting
unfolding lookup text_eq ext
purge_spares_uploads_example =
    purge_spares_uploads true sys limits (some usage) names disk waiting.name waiting refl
      (inl refl)

purge_accounted_example :
    let (left, counts) = cache_purge_iteration sys limits usage names disk in
    (total_size left + counts.deleted_size ≤ total_size disk)
    × (((n : Text) → sys.unremovable n ≡ false)
        → total_size left + counts.deleted_size ≡ total_size disk)
    × (counts.deleted_count + counts.error_count ≤ counts.reviewed_count)
    × (counts.reviewed_count ≡ 3)
purge_accounted_example = purge_accounted sys limits usage names disk
