-- ===== src/Drain/Agreement.antt =====
-- What the canary check (ciphertext/cache.go, masterKeyCheck) decides.
use ods.Common.{
  ℕ, zero, suc, Bool, true, false, none, some, Text, text_eq, text_eq_self, length, ltb, ◌≡◌, sym,
  ap, ◌∙◌, subst, arith, if◌then◌else◌,
}
use ods.Cache.{System, lookup}
use ods.Drain.{
  Node, Storage, Faults, not_found, not_set, failed, Answer, put_key, place, regular, uploaded_path,
  cached_path, key_of, do_download, upload, write_back_found, write_back,
}
use ods.Drain.Recache.{
  Recaching, go_on, is_missing_canary, after_download, retry_download, keep_cached, finish, unlock,
  recache,
}
use ods.Drain.Canary.{
  Checking, mismatch, canary, read_canary, have_canary, expect_canary, master_key_check,
}
use ods.Drain.Kept.{put_key_same}
use ods.Drain.Recached.{Holds, recache_runs}
use ods.Drain.Loads.{recache_loads}
use ods.Drain.Paths.{lookup-place_same}

module _ (sys : System) (location : Text) where
  -- Nothing goes wrong with the files of the canary.
  pub record Working (env : Checking) : Type 0 where
    pub readable_cached : sys.unreadable (cached_path location canary) ≡ false
    pub readable_uploaded : sys.unreadable (uploaded_path location canary) ≡ false
    pub reads : env.read_fails ≡ false
    pub creates : env.create_fails ≡ false
    pub uploads : env.writing.upload_fails ≡ false
    pub renames : env.writing.rename_fails ≡ false
    pub downloads : (env.recaching.downloads 5).create_fails ≡ false
    pub copies : (env.recaching.downloads 5).copy_fails ≡ false
    pub caches : env.recaching.rename_fails ≡ false

  -- The canary that a node without any error sets.
  expect_canary_sets :
      (env : Checking) (expected : Text) (node : Node) (stored : Storage)
      → env.create_fails ≡ false
      → env.writing.upload_fails ≡ false
      → env.writing.rename_fails ≡ false
      → sys.unreadable (uploaded_path location canary) ≡ false
      → node.stored ≡ some stored
      → ltb 0 (length expected) ≡ true
      → ((expect_canary sys location env expected node).0.stored
          ≡ some (put_key (key_of location canary) expected stored))
        × ((expect_canary sys location env expected node).1 ≡ none)
  unfolding expect_canary write_back write_back_found upload regular
  expect_canary_sets env expected node stored creates uploads renames readable set some_bytes =
      let f = regular sys.now (uploaded_path location canary) expected in
      let found : lookup (uploaded_path location canary) (place f node.disk) ≡ some f =
        lookup-place_same f (uploaded_path location canary) node.disk
          (text_eq_self (uploaded_path location canary)) in
      (ground arith, ground arith)

  recache_missing :
      (env : Recaching) (node : Node) (stored : Storage)
      → (env.downloads 5).create_fails ≡ false
      → (env.downloads 5).copy_fails ≡ false
      → node.stored ≡ some stored
      → stored (key_of location canary) ≡ none
      → ((recache sys location env canary node).0.stored ≡ some stored)
        × ((recache sys location env canary node).1 ≡ some not_found)
  unfolding do_download after_download is_missing_canary finish unlock text_eq
  recache_missing env node stored creates copies set missing =
      let runs = recache_runs sys location canary stored env node in (ground arith, ground arith)

  check_sets :
      (env : Checking) (expected : Text) (node : Node) (stored : Storage)
      → Working env
      → node.stored ≡ some stored
      → stored (key_of location canary) ≡ none
      → ltb 0 (length expected) ≡ true
      → ((master_key_check sys location env expected node).0.stored
          ≡ some (put_key (key_of location canary) expected stored))
        × ((master_key_check sys location env expected node).1 ≡ none)
  unfolding master_key_check have_canary
  check_sets env expected node stored working set missing some_bytes =
      let (loaded, e) = recache sys location env.recaching canary node in
      let gone =
        recache_missing env.recaching node stored working.downloads working.copies set missing in
      let result =
        expect_canary_sets env expected loaded stored working.creates working.uploads
          working.renames working.readable_uploaded gone.0 some_bytes in
      let e : master_key_check sys location env expected node
          ≡ expect_canary sys location env expected loaded =
        let x = gone.1 in ground arith in
      rw e result

  check_compares :
      (env : Checking) (expected : Text) (node : Node) (stored : Storage) (set_before : Text)
      → Working env
      → node.stored ≡ some stored
      → stored (key_of location canary) ≡ some set_before
      → ltb 0 (length set_before) ≡ true
      → ((master_key_check sys location env expected node).0.stored ≡ some stored)
        × ((master_key_check sys location env expected node).1
            ≡ (if text_eq set_before expected then none else some mismatch))
  unfolding master_key_check have_canary read_canary Holds
  check_compares env expected node stored set_before working set held some_bytes =
      let loads =
        recache_loads sys location canary env.recaching node stored set_before set held
          working.downloads working.copies working.caches in
      let no_error = loads.0 in
      let same = loads.1 in
      let f = loads.2.0 in
      let found = loads.2.1 in
      let content = loads.2.2 in
      let readable = working.readable_cached in
      let reads = working.reads in (ground arith, ground arith)

-- Of two nodes with one permanent storage that holds no canary, on which nothing goes wrong, the first
-- to check its master key comes up, and the second comes up exactly when the hash of its key, as the first's, is the
-- same text; else it reports the mismatch, and the storage is as the first left it.
pub first_key_decides :
    (sys sys' : System) (location : Text) (env env' : Checking) (hash hash' : Text)
    (first second : Node) (stored : Storage)
    → Working sys location env
    → Working sys' location env'
    → first.stored ≡ some stored
    → stored (key_of location canary) ≡ none
    → ltb 0 (length hash) ≡ true
    → second.stored ≡ (master_key_check sys location env hash first).0.stored
    → ((master_key_check sys location env hash first).1 ≡ none)
      × ((master_key_check sys' location env' hash' second).1
          ≡ (if text_eq hash hash' then none else some mismatch))
      × ((master_key_check sys' location env' hash' second).0.stored ≡ second.stored)
first_key_decides sys sys' location env env' hash hash' first second stored working working' set
      missing some_bytes shared =
    let sets = check_sets sys location env hash first stored working set missing some_bytes in
    let stored' = put_key (key_of location canary) hash stored in
    let seen : second.stored ≡ some stored' = shared ∙ sets.0 in
    let compares =
      check_compares sys' location env' hash' second stored' hash working' seen
        (put_key_same (key_of location canary) hash stored) some_bytes in
    (sets.1, compares.1, compares.0 ∙ sym seen)

-- An answer that is an error, other than that there is no such key; the storage is as it was.
FailedWith : Storage → Answer → Type 0
FailedWith stored (node, e) = (e ≡ some failed) × (node.stored ≡ some stored)

download_fails :
    (sys : System) (location : Text) (faults : Faults) (node : Node) (stored : Storage)
    → faults.copy_fails ≡ true
    → node.stored ≡ some stored
    → FailedWith stored (do_download sys location faults canary node)
unfolding do_download FailedWith
download_fails sys location faults node stored fails set = ground arith

retry_fails :
    (sys : System) (location : Text) (faults : ℕ → Faults) (tries : ℕ) (a : Answer)
    (stored : Storage)
    → ((k : ℕ) → (faults k).copy_fails ≡ true)
    → FailedWith stored a
    → FailedWith stored (retry_download sys location faults tries canary a)
unfolding retry_download FailedWith
retry_fails sys location faults zero a stored fails before = before
retry_fails sys location faults (suc tries) (node, none) stored fails before = before
retry_fails sys location faults (suc tries) (node, some e) stored fails (is_failed, set) =
    let again = do_download sys location (faults (suc tries)) canary node in
    let rest =
      retry_fails sys location faults tries again stored fails
        (download_fails sys location (faults (suc tries)) node stored (fails (suc tries)) set) in
    let e : retry_download sys location faults (suc tries) canary (node, some e)
        ≡ retry_download sys location faults tries canary again =
      ground arith in
    subst (FailedWith stored) (sym e) rest

keep_fails :
    (sys : System) (location : Text) (fails : Bool) (a : Answer) (stored : Storage)
    → FailedWith stored a
    → FailedWith stored (unlock sys location canary (keep_cached sys location fails canary a))
unfolding keep_cached unlock FailedWith
keep_fails sys location fails (node, none) stored before = absurd (let e = before.0 in cc)
keep_fails sys location fails (node, some x) stored before = before

after_fails :
    (sys : System) (location : Text) (env : Recaching) (a : Answer) (stored : Storage)
    → env.peer_enabled ≡ false
    → FailedWith stored a
    → after_download sys location env canary a ≡ go_on a
unfolding after_download FailedWith is_missing_canary
after_fails sys location env (node, none) stored alone before = absurd (let e = before.0 in cc)
after_fails sys location env (node, some not_found) stored alone before =
    absurd (let e = before.0 in cc)
after_fails sys location env (node, some not_set) stored alone before =
    absurd (let e = before.0 in cc)
after_fails sys location env (node, some failed) stored alone before = ground arith

recache_fails :
    (sys : System) (location : Text) (env : Recaching) (node : Node) (stored : Storage)
    → env.peer_enabled ≡ false
    → ((k : ℕ) → (env.downloads k).copy_fails ≡ true)
    → node.stored ≡ some stored
    → FailedWith stored (recache sys location env canary node)
unfolding finish
recache_fails sys location env node stored alone fails set =
    let loaded = do_download sys location (env.downloads 5) canary node in
    let bad = download_fails sys location (env.downloads 5) node stored (fails 5) set in
    let on = after_fails sys location env loaded stored alone bad in
    subst (FailedWith stored)
      (sym (
        recache_runs sys location canary stored env node
        ∙ ap (λ c. unlock sys location canary (finish sys location env canary c)) on))
      (keep_fails sys location env.rename_fails
        (retry_download sys location env.downloads 4 canary loaded) stored
        (retry_fails sys location env.downloads 4 loaded stored fails bad))

-- Where every download of the canary fails on the way, but the upload works, a node without peers comes
-- up, and puts the hash of its own key in the place of the canary in the permanent storage, whatever
-- that canary is.
pub canary_overwritten :
    (sys : System) (location : Text) (env : Checking) (hash : Text) (node : Node) (stored : Storage)
    → env.recaching.peer_enabled ≡ false
    → ((k : ℕ) → (env.recaching.downloads k).copy_fails ≡ true)
    → env.create_fails ≡ false
    → env.writing.upload_fails ≡ false
    → env.writing.rename_fails ≡ false
    → sys.unreadable (uploaded_path location canary) ≡ false
    → node.stored ≡ some stored
    → ltb 0 (length hash) ≡ true
    → ((master_key_check sys location env hash node).1 ≡ none)
      × ((master_key_check sys location env hash node).0.stored
          ≡ some (put_key (key_of location canary) hash stored))
unfolding master_key_check have_canary FailedWith
canary_overwritten sys location env hash node stored alone fails creates uploads renames readable
      set some_bytes =
    let (left, e) = recache sys location env.recaching canary node in
    let (is_failed, same) = recache_fails sys location env.recaching node stored alone fails set in
    let sets =
      expect_canary_sets sys location env hash left stored creates uploads renames readable same
        some_bytes in
    let checked : master_key_check sys location env hash node
        ≡ expect_canary sys location env hash left =
      ground arith in
    rw checked (sets.1, sets.0)
