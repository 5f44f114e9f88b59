-- ===== src/Tests/Drains.antt =====
-- A node of two files, one of which waits for its upload, and the canaries of two nodes.
use ods.Common.{
  ℕ, true, false, none, some, List, [], ◌∷◌, Text, codes, text_eq, ◌≡◌, refl, ◌⊎◌, pos,
  if◌then◌else◌, ltb, arith,
}
use ods.Cache.{regular_file, FileInfo, System, Limits, lookup}
use ods.Drain.{
  Node, Storage, Faults, DrainError, Answer, resolve, cached_path, caching_path, key_of, write_back,
  begin_upload, drain_visit, drain_round, put_key, do_download,
}
use ods.Drain.Recache.{
  Recaching, no_peer, recache, stat, is_exist, after_download, is_missing_canary, finish, unlock,
}
use ods.Drain.Canary.{Checking, mismatch, master_key_check, have_canary, expect_canary}
use ods.Drain.Kept.{contents}
use ods.Drain.Upload.{begin_upload_adds}
use ods.Drain.Stored.{Stored, Waiting, round_stores}
use ods.Drain.Lasting.{Reach, here, next, uploads, drains, nothing_lost}
use ods.Drain.Recached.{Holds, recache_right}
use ods.Drain.Agreement.{Working, first_key_decides, canary_overwritten}

abbrev sys : System
sys = record {
  unreadable = λ n. false;
  unremovable = λ n. false;
  untruncatable = λ n. false;
  now = pos 1000;
}

abbrev fine : Faults
fine = record {
  upload_fails = false;
  rename_fails = false;
  create_fails = false;
  copy_fails = false;
  partial = [];
}

abbrev broken : Faults
broken = record {
  upload_fails = false;
  rename_fails = false;
  create_fails = false;
  copy_fails = true;
  partial = codes "c";
}

abbrev place_of_cache : Text
place_of_cache = codes "/c"

abbrev waiting : FileInfo
waiting = record {
  name = codes "/c/d.uploaded";
  mode = regular_file;
  mod_time = pos 1;
  content = codes "new";
}

abbrev empty_storage : Storage
empty_storage = λ k. none

abbrev start : Node
start = record { disk = waiting ∷ []; stored = some empty_storage }

abbrev limits : Limits
limits = record { age_eligible_for_eviction = 300; file_limit = 0 }

abbrev no_faults : Text → Faults
no_faults = λ n. fine

waits : Waiting place_of_cache (codes "d") waiting start
unfolding Waiting lookup resolve text_eq
waits = (empty_storage, refl, refl)

round_stores_example :
    Stored place_of_cache
      (codes "d")
      waiting.content
      (drain_round sys place_of_cache limits no_faults (codes "a" ∷ codes "d" ∷ []) start)
unfolding text_eq
round_stores_example =
    round_stores sys place_of_cache (codes "d") limits no_faults (codes "a" ∷ codes "d" ∷ [])
      waiting start refl
      (record { no_directory = refl; readable = refl; old = refl; some_bytes = refl }) refl refl
      waits

begin_upload_adds_example :
    let (after, e) = begin_upload sys place_of_cache fine (codes "b") (codes "cipher") start in
    (((x : DrainError) × (e ≡ some x))
      × (contents place_of_cache (codes "b") after ≡ contents place_of_cache (codes "b") start))
    ⊎ ((e ≡ none)
        × (contents place_of_cache (codes "b") after ≡ (
            if text_eq (codes "b") (codes "b")
            then some (codes "cipher")
            else contents place_of_cache (codes "b") start)))
begin_upload_adds_example =
    begin_upload_adds sys place_of_cache fine (codes "b") (codes "b") (codes "cipher") start

abbrev b_uploaded : Node
b_uploaded = (begin_upload sys place_of_cache fine (codes "b") (codes "cipher") start).0

abbrev d_drained : Node
d_drained = drain_visit sys place_of_cache limits fine (codes "d") b_uploaded

run : Reach place_of_cache start d_drained
unfolding contents lookup resolve text_eq
run =
    next (next here (uploads sys fine (codes "b") (codes "cipher") start refl))
      (drains sys limits fine (codes "d") b_uploaded)

nothing_lost_example : contents place_of_cache (codes "d") d_drained ≡ some (codes "new")
unfolding contents lookup resolve text_eq
nothing_lost_example =
    nothing_lost place_of_cache (codes "d") (codes "new") start d_drained empty_storage refl refl
      (ground arith) run

d_stored :
    d_drained.stored
    ≡ some (put_key (key_of place_of_cache (codes "d")) (codes "new") empty_storage)
unfolding drain_visit begin_upload lookup resolve text_eq write_back
d_stored = refl

abbrev recaching : Recaching
recaching = record {
  peer_enabled = false;
  peer = no_peer;
  peer_copy = fine;
  downloads = λ k. if ltb k 4 then fine else broken;
  rename_fails = false;
}

abbrev filled : Storage
filled = put_key (key_of place_of_cache (codes "e")) (codes "far") empty_storage

abbrev recached : Answer
recached =
    recache sys place_of_cache recaching (codes "e") (record { disk = []; stored = some filled })

recache_right_example :
    (((x : DrainError) × (recached.1 ≡ some x))
      ⊎ ((content : List ℕ) × (filled (key_of place_of_cache (codes "e")) ≡ some content)
          × Holds (cached_path place_of_cache (codes "e")) content recached.0.disk))
    × (lookup (caching_path place_of_cache (codes "e")) recached.0.disk ≡ none)
recache_right_example =
    recache_right sys place_of_cache (codes "e") recaching
      (record { disk = []; stored = some filled }) filled refl refl refl

abbrev peered : Recaching
peered = record recaching { peer_enabled = true; downloads = λ k. fine }

abbrev checking : Checking
checking = record {
  recaching = record recaching { downloads = λ k. fine };
  read_fails = false;
  create_fails = false;
  writing = fine;
}

abbrev second : Node
second = record {
  disk = [];
  stored = (master_key_check sys place_of_cache checking (codes "aa") start).0.stored;
}

working : Working sys place_of_cache checking
working = record {
  readable_cached = refl;
  readable_uploaded = refl;
  reads = refl;
  creates = refl;
  uploads = refl;
  renames = refl;
  downloads = refl;
  copies = refl;
  caches = refl;
}

first_key_decides_example :
    ((master_key_check sys place_of_cache checking (codes "aa") start).1 ≡ none)
    × ((master_key_check sys place_of_cache checking (codes "bb") second).1
        ≡ (if text_eq (codes "aa") (codes "bb") then none else some mismatch))
    × ((master_key_check sys place_of_cache checking (codes "bb") second).0.stored ≡ second.stored)
first_key_decides_example =
    first_key_decides sys sys place_of_cache checking checking (codes "aa") (codes "bb") start
      second empty_storage working working refl refl refl refl

abbrev unlucky : Checking
unlucky = record checking { recaching = record recaching { downloads = λ k. broken } }

second_set :
    second.stored
    ≡ some (put_key (key_of place_of_cache (codes "canary")) (codes "aa") empty_storage)
unfolding master_key_check have_canary recache do_download stat is_exist lookup text_eq
    after_download is_missing_canary finish unlock expect_canary write_back resolve
second_set = refl

canary_overwritten_example :
    ((master_key_check sys place_of_cache unlucky (codes "bb") second).1 ≡ none)
    × ((master_key_check sys place_of_cache unlucky (codes "bb") second).0.stored
        ≡ some (
            put_key
              (key_of place_of_cache (codes "canary"))
              (codes "bb")
              (put_key (key_of place_of_cache (codes "canary")) (codes "aa") empty_storage)))
canary_overwritten_example =
    canary_overwritten sys place_of_cache unlucky (codes "bb") second
      (put_key (key_of place_of_cache (codes "canary")) (codes "aa") empty_storage) refl (λ k. refl)
      refl refl refl refl second_set refl
