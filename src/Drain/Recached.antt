-- ===== src/Drain/Recached.antt =====
-- What Recache (ciphertext/cache.go) leaves in the cache.
use ods.Common.{
  ℕ, zero, suc, Bool, false, Option, none, some, List, [], Text, text_eq_self, ◌≡◌, refl, sym, ◌∙◌,
  subst, ◌⊎◌, inl, inr, arith, Bool-cases, Option-cases,
}
use ods.Cache.{Disk, FileInfo, System, lookup}
use ods.Drain.{
  Node, Storage, Faults, DrainError, not_found, failed, Answer, place, regular, rename, unlink,
  cached_path, caching_path, key_of, do_download,
}
use ods.Drain.Recache.{
  Recaching, is_missing_canary, after_download, retry_download, keep_cached, finish, unlock,
  StatError, not_exist, denied, stat, is_exist, recache,
}
use ods.Drain.Paths.{
  caching_not_cached, lookup-place_same, lookup-rename_same, lookup-cleared_same,
  lookup-unlink_other,
}

no_error_exists : (e : Option StatError) → is_exist e ≡ false
unfolding is_exist
no_error_exists none = refl
no_error_exists (some not_exist) = refl
no_error_exists (some denied) = refl

-- The disk holds a file of those bytes under the name.
unfoldable pub Holds : Text → List ℕ → Disk → Type 0
Holds name content disk = (f : FileInfo) × (lookup name disk ≡ some f) × (f.content ≡ content)

-- An answer without an error has the bytes of the storage in the file that is being cached.
Loaded : (location r_name : Text) → Storage → Answer → Type 0
Loaded location r_name stored (node, some e) = node.stored ≡ some stored
Loaded location r_name stored (node, none) =
    (node.stored ≡ some stored)
    × (content : List ℕ) × (stored (key_of location r_name) ≡ some content)
    × Holds (caching_path location r_name) content node.disk

module _ (sys : System) (location r_name : Text) (stored : Storage) where
  Holds-written :
      (content : List ℕ) (disk : Disk)
      → Holds
          (caching_path location r_name)
          content
          (place (regular sys.now (caching_path location r_name) content) disk)
  unfolding Holds regular
  Holds-written content disk =
      let f = regular sys.now (caching_path location r_name) content in
      (
        f,
        lookup-place_same f (caching_path location r_name) disk
            (text_eq_self (caching_path location r_name)),
        refl,
      )

  do_download-Loaded :
      (faults : Faults) (node : Node)
      → node.stored ≡ some stored
      → Loaded location r_name stored (do_download sys location faults r_name node)
  unfolding do_download Loaded
  do_download-Loaded faults node set = elim (Bool-cases faults.create_fails) [
    | inl fails ↦
        subst (Loaded location r_name stored)
          (let e : (node, some failed) ≡ do_download sys location faults r_name node =
              ground arith in
            e)
          set
    | inr creates ↦ elim (Bool-cases faults.copy_fails) [
      | inl fails ↦
          let e : (
            record node {
              disk =
                  place (regular sys.now (caching_path location r_name) faults.partial) node.disk;
            },
            some failed,
          )
              ≡ do_download sys location faults r_name node =
            ground arith in
          subst (Loaded location r_name stored) e set
      | inr copies ↦ elim (Option-cases (stored (key_of location r_name))) [
        | inl missing ↦
            let e : (
              record node {
                disk = place (regular sys.now (caching_path location r_name) []) node.disk;
              },
              some not_found,
            )
                ≡ do_download sys location faults r_name node =
              ground arith in
            subst (Loaded location r_name stored) e set
        | inr (content, held) ↦
            let e : (
              record node {
                disk = place (regular sys.now (caching_path location r_name) content) node.disk;
              },
              none,
            )
                ≡ do_download sys location faults r_name node =
              ground arith in
            subst (Loaded location r_name stored) e
              (set, content, held, Holds-written content node.disk)
      ]
    ]
  ]

  retry_download-Loaded :
      (faults : ℕ → Faults) (tries : ℕ) (a : Answer)
      → Loaded location r_name stored a
      → Loaded location r_name stored (retry_download sys location faults tries r_name a)
  unfolding retry_download Loaded
  retry_download-Loaded faults zero a loaded = loaded
  retry_download-Loaded faults (suc tries) (node, none) loaded = loaded
  retry_download-Loaded faults (suc tries) (node, some e) set =
      let next = do_download sys location (faults (suc tries)) r_name node in
      let e : retry_download sys location faults tries r_name next
          ≡ retry_download sys location faults (suc tries) r_name (node, some e) =
        ground arith in
      subst (Loaded location r_name stored) e
        (retry_download-Loaded faults tries next (do_download-Loaded (faults (suc tries)) node set))

  -- An answer without an error has the bytes of the storage in the cached file.
  CachedRight : Answer → Type 0
  CachedRight (node, some e) = Unit
  CachedRight (node, none) =
      (content : List ℕ) × (stored (key_of location r_name) ≡ some content)
      × Holds (cached_path location r_name) content node.disk

  keep_cached-CachedRight :
      (fails : Bool) (a : Answer)
      → Loaded location r_name stored a
      → CachedRight (keep_cached sys location fails r_name a)
  unfolding keep_cached Loaded CachedRight Holds
  keep_cached-CachedRight fails (node, some e) loaded = tt
  keep_cached-CachedRight fails (node, none) (set, content, held, (f, found, same)) =
      elim (Bool-cases fails) [
        | inl broken ↦
            let e : (node, some failed) ≡ keep_cached sys location fails r_name (node, none) =
              ground arith in
            subst CachedRight e tt
        | inr done ↦
            let e : (record node { disk = rename f (cached_path location r_name) node.disk }, none)
                ≡ keep_cached sys location fails r_name (node, none) =
              ground arith in
            subst CachedRight e (
              content,
              held,
              (
                record f { name = cached_path location r_name },
                lookup-rename_same f (cached_path location r_name) node.disk,
                same,
              ),
            )
      ]

  finish-CachedRight :
      (env : Recaching) (a : Answer)
      → env.peer_enabled ≡ false
      → Loaded location r_name stored a
      → CachedRight (finish sys location env r_name (after_download sys location env r_name a))
  unfolding finish after_download CachedRight Loaded
  finish-CachedRight env (node, none) alone loaded =
      keep_cached-CachedRight env.rename_fails
        (retry_download sys location env.downloads 4 r_name (node, none))
        (retry_download-Loaded env.downloads 4 (node, none) loaded)
  finish-CachedRight env (node, some x) alone set =
      let tried = retry_download sys location env.downloads 4 r_name (node, some x) in
      elim (Bool-cases (is_missing_canary sys location r_name node x)) [
        | inl missing ↦
            let e : (node, some x)
                ≡ finish sys location env r_name
                    (after_download sys location env r_name (node, some x)) =
              ground arith in
            subst CachedRight e tt
        | inr other ↦
            let e : keep_cached sys location env.rename_fails r_name tried
                ≡ finish sys location env r_name
                    (after_download sys location env r_name (node, some x)) =
              ground arith in
            subst CachedRight e (
              keep_cached-CachedRight env.rename_fails tried
                (retry_download-Loaded env.downloads 4 (node, some x) set))
      ]

  unlock-CachedRight : (a : Answer) → CachedRight a → CachedRight (unlock sys location r_name a)
  unfolding unlock CachedRight Holds
  unlock-CachedRight (node, some e) right = tt
  unlock-CachedRight (node, none) (content, held, (f, found, same)) = (
    content,
    held,
    (
      f,
      lookup-unlink_other sys (caching_path location r_name) (cached_path location r_name) node.disk
            (caching_not_cached location r_name r_name)
          ∙ found,
      same,
    ),
  )

  unlock_frees :
      (a : Answer)
      → sys.unremovable (caching_path location r_name) ≡ false
      → lookup (caching_path location r_name) (unlock sys location r_name a).0.disk ≡ none
  unfolding unlock unlink
  unlock_frees (node, e) removable =
      rw removable (lookup-cleared_same (caching_path location r_name) node.disk)

  -- The two tests for files that are there never hold, so all of Recache is run every time.
  pub recache_runs :
      (env : Recaching) (node : Node)
      → recache sys location env r_name node
        ≡ unlock sys location r_name (
            finish sys location env r_name (
              after_download sys location env r_name
                (do_download sys location (env.downloads 5) r_name node)))
  unfolding recache
  recache_runs env node = ground (
    arith,
    no_error_exists (stat sys (cached_path location r_name) node.disk),
    no_error_exists (stat sys (caching_path location r_name) node.disk),
  )

  CachedRight-of :
      (a : Answer)
      → CachedRight a
      → ((e : DrainError) × (a.1 ≡ some e))
        ⊎ ((content : List ℕ) × (stored (key_of location r_name) ≡ some content)
            × Holds (cached_path location r_name) content a.0.disk)
  unfolding CachedRight
  CachedRight-of (node, some e) right = inl (e, refl)
  CachedRight-of (node, none) right = inr right

-- Recache, without peers and with a permanent storage, whatever fails on the way: it reports an error,
-- or the cached file holds the bytes of the permanent storage under that name; and either way no file is
-- left that is being cached, where the system lets it be removed.
pub recache_right :
    (sys : System) (location r_name : Text) (env : Recaching) (node : Node) (stored : Storage)
    → node.stored ≡ some stored
    → env.peer_enabled ≡ false
    → sys.unremovable (caching_path location r_name) ≡ false
    → let (after, e) = recache sys location env r_name node in
      (((x : DrainError) × (e ≡ some x))
        ⊎ ((content : List ℕ) × (stored (key_of location r_name) ≡ some content)
            × Holds (cached_path location r_name) content after.disk))
      × (lookup (caching_path location r_name) after.disk ≡ none)
recache_right sys location r_name env node stored set alone removable =
    let loaded = do_download sys location (env.downloads 5) r_name node in
    let done = finish sys location env r_name (after_download sys location env r_name loaded) in
    subst
      (λ (a : Answer).
        (((x : DrainError) × (a.1 ≡ some x))
          ⊎ ((content : List ℕ) × (stored (key_of location r_name) ≡ some content)
              × Holds (cached_path location r_name) content a.0.disk))
        × (lookup (caching_path location r_name) a.0.disk ≡ none))
      (sym (recache_runs sys location r_name stored env node))
      (
        CachedRight-of sys location r_name stored (unlock sys location r_name done) (
            unlock-CachedRight sys location r_name stored done (
              finish-CachedRight sys location r_name stored env loaded alone
                (do_download-Loaded sys location r_name stored (env.downloads 5) node set))),
        unlock_frees sys location r_name stored done removable,
      )
