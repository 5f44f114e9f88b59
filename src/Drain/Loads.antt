-- ===== src/Drain/Loads.antt =====
-- Recache (ciphertext/cache.go) where nothing fails.
use ods.Common.{
  ℕ, true, false, none, some, List, [], Text, codes, text_eq, text_eq_self, ◌≡◌, refl, sym, ◌∙◌,
  subst, arith,
}
use ods.Cache.{System, lookup}
use ods.Drain.{
  Node, Storage, Answer, place, regular, rename, unlink, cached_path, caching_path, key_of,
  do_download,
}
use ods.Drain.Recache.{
  Recaching, no_peer, is_missing_canary, after_download, ask_peer, retry_download, keep_cached,
  finish, unlock, recache,
}
use ods.Drain.Paths.{caching_not_cached, lookup-place_same, lookup-rename_same, lookup-unlink_other}
use ods.Drain.Recached.{Holds, recache_runs}

-- What Recache leaves where its first download works.
pub recache_loads :
    (sys : System) (location r_name : Text) (env : Recaching) (node : Node) (stored : Storage)
    (content : List ℕ)
    → node.stored ≡ some stored
    → stored (key_of location r_name) ≡ some content
    → (env.downloads 5).create_fails ≡ false
    → (env.downloads 5).copy_fails ≡ false
    → env.rename_fails ≡ false
    → ((recache sys location env r_name node).1 ≡ none)
      × ((recache sys location env r_name node).0.stored ≡ some stored)
      × Holds (cached_path location r_name) content (recache sys location env r_name node).0.disk
unfolding do_download after_download finish retry_download keep_cached unlock Holds regular
recache_loads sys location r_name env node stored content set held creates copies renames =
    let f = regular sys.now (caching_path location r_name) content in
    let written : Node = record node { disk = place f node.disk } in
    let found : lookup (caching_path location r_name) written.disk ≡ some f =
      lookup-place_same f (caching_path location r_name) node.disk
        (text_eq_self (caching_path location r_name)) in
    let kept : Node = record written {
      disk = rename f (cached_path location r_name) written.disk;
    } in
    let e : unlock sys location r_name (
          finish sys location env r_name (
            after_download sys location env r_name
              (do_download sys location (env.downloads 5) r_name node)))
        ≡ (record kept { disk = unlink sys (caching_path location r_name) kept.disk }, none) =
      ground arith in
    subst
      (λ (a : Answer).
        (a.1 ≡ none)
        × (a.0.stored ≡ some stored)
        × Holds (cached_path location r_name) content a.0.disk)
      (sym (recache_runs sys location r_name stored env node ∙ e))
      (
        refl,
        set,
        (
          record f { name = cached_path location r_name },
          lookup-unlink_other sys (caching_path location r_name) (cached_path location r_name)
                kept.disk (caching_not_cached location r_name r_name)
              ∙ lookup-rename_same f (cached_path location r_name) written.disk,
          refl,
        ),
      )

-- Where the peers are asked and none has the file, the permanent storage has nothing under the name,
-- which is not the canary's, and the disk works, Recache reports no error, and the cached file is empty.
pub recache_caches_nothing :
    (sys : System) (location r_name : Text) (env : Recaching) (node : Node) (stored : Storage)
    → node.stored ≡ some stored
    → stored (key_of location r_name) ≡ none
    → text_eq r_name (codes "canary") ≡ false
    → env.peer_enabled ≡ true
    → env.peer ≡ no_peer
    → (env.downloads 5).create_fails ≡ false
    → (env.downloads 5).copy_fails ≡ false
    → env.rename_fails ≡ false
    → ((recache sys location env r_name node).1 ≡ none)
      × Holds (cached_path location r_name) [] (recache sys location env r_name node).0.disk
unfolding do_download after_download ask_peer is_missing_canary finish retry_download keep_cached
    unlock Holds regular
recache_caches_nothing sys location r_name env node stored set missing other enabled asked creates
      copies renames =
    let f = regular sys.now (caching_path location r_name) [] in
    let written : Node = record node { disk = place f node.disk } in
    let found : lookup (caching_path location r_name) written.disk ≡ some f =
      lookup-place_same f (caching_path location r_name) node.disk
        (text_eq_self (caching_path location r_name)) in
    let kept : Node = record written {
      disk = rename f (cached_path location r_name) written.disk;
    } in
    let e : unlock sys location r_name (
          finish sys location env r_name (
            after_download sys location env r_name
              (do_download sys location (env.downloads 5) r_name node)))
        ≡ (record kept { disk = unlink sys (caching_path location r_name) kept.disk }, none) =
      ground arith in
    subst (λ (a : Answer). (a.1 ≡ none) × Holds (cached_path location r_name) [] a.0.disk)
      (sym (recache_runs sys location r_name stored env node ∙ e))
      (
        refl,
        (
          record f { name = cached_path location r_name },
          lookup-unlink_other sys (caching_path location r_name) (cached_path location r_name)
                kept.disk (caching_not_cached location r_name r_name)
              ∙ lookup-rename_same f (cached_path location r_name) written.disk,
          refl,
        ),
      )
