-- ===== src/Drain/Recache.antt =====
-- ciphertext/cache.go: Recache and BackgroundRecache.
use ods.Common.{
  ℕ, zero, suc, Bool, true, false, Option, none, some, List, Text, codes, text_eq, if◌then◌else◌,
}
use ods.Cache.{Disk, System, lookup}
use ods.Drain.{
  Node, Faults, DrainError, not_found, not_set, failed, Answer, place, regular, rename, unlink,
  cached_path, caching_path, do_download,
}

-- What useP2PFile gives: an error, no reader and no error, or the bytes of the file.
pub data Peer : Type 0 where
  peer_fails : Peer
  no_peer : Peer
  peer_has : List ℕ → Peer

pub data StatError : Type 0 where
  not_exist : StatError
  denied : StatError

unfoldable pub stat : System → Text → Disk → Option StatError
stat sys name disk = elim (lookup name disk) [
  | none ↦ some not_exist
  | some f ↦ if sys.unreadable name then some denied else none
]

-- os.IsExist: whether an error says that a file exists already, which no error of os.Stat does
unfoldable pub is_exist : Option StatError → Bool
is_exist none = false
is_exist (some not_exist) = false
is_exist (some denied) = false

unfoldable pub is_not_exist : Option StatError → Bool
is_not_exist none = false
is_not_exist (some not_exist) = true
is_not_exist (some denied) = false

-- What happens during a call of Recache: at the copy from a peer, and at each download, by the number
-- of tries left before it, five for the first.
pub record Recaching : Type 0 where
  pub peer_enabled : Bool
  pub peer : Peer
  pub peer_copy : Faults
  pub downloads : ℕ → Faults
  pub rename_fails : Bool

-- After a download that failed: go on with an error or without, or return at once.
pub data Course : Type 0 where
  go_on : Answer → Course
  return_now : Answer → Course

module _ (sys : System) (location : Text) where
  unfoldable pub copy_from_peer : Faults → Text → List ℕ → Node → Answer
  unfolding place regular
  copy_from_peer faults r_name content node =
      let write = λ (bytes : List ℕ). record node {
        disk = place (regular sys.now (caching_path location r_name) bytes) node.disk;
      } in
      if faults.create_fails
      then (node, some failed)
      else if faults.copy_fails
      then (write faults.partial, some failed)
      else (write content, none)

  unfoldable pub ask_peer : Recaching → Text → Node → Course
  unfolding copy_from_peer
  ask_peer env r_name node = elim env.peer [
    | peer_has content ↦ go_on (copy_from_peer env.peer_copy r_name content node)
    | peer_fails ↦ elim node.stored [
      | none ↦ return_now (node, none)
      | some s ↦ go_on (node, some failed)
    ]
    | no_peer ↦ elim node.stored [ none ↦ return_now (node, none) | some s ↦ go_on (node, none) ]
  ]

  unfoldable pub is_missing_canary : Text → Node → DrainError → Bool
  is_missing_canary r_name node not_found = elim node.stored [
    | none ↦ false
    | some s ↦ text_eq r_name (codes "canary")
  ]
  is_missing_canary r_name node not_set = false
  is_missing_canary r_name node failed = false

  unfoldable pub after_download : Recaching → Text → Answer → Course
  unfolding ask_peer is_missing_canary
  after_download env r_name (node, none) = go_on (node, none)
  after_download env r_name (node, some e) =
      if is_missing_canary r_name node e
      then return_now (node, some e)
      else if env.peer_enabled
      then ask_peer env r_name node
      else go_on (node, some e)

  -- The tries that follow, while there is an error and a permanent storage.
  unfoldable pub retry_download : (ℕ → Faults) → ℕ → Text → Answer → Answer
  unfolding do_download
  retry_download faults zero r_name a = a
  retry_download faults (suc tries) r_name (node, none) = (node, none)
  retry_download faults (suc tries) r_name (node, some e) = elim node.stored [
    | none ↦ (node, some e)
    | some s ↦
        retry_download faults tries r_name
          (do_download sys location (faults (suc tries)) r_name node)
  ]

  -- the rename that makes the file cached
  unfoldable pub keep_cached : Bool → Text → Answer → Answer
  unfolding rename
  keep_cached fails r_name (node, some e) = (node, some e)
  keep_cached fails r_name (node, none) = elim (lookup (caching_path location r_name) node.disk) [
    | none ↦ (node, some failed)
    | some f ↦
        if fails
        then (node, some failed)
        else (record node { disk = rename f (cached_path location r_name) node.disk }, none)
  ]

  unfoldable pub finish : Recaching → Text → Course → Answer
  unfolding retry_download keep_cached
  finish env r_name (return_now a) = a
  finish env r_name (go_on a) =
      keep_cached env.rename_fails r_name (retry_download env.downloads 4 r_name a)

  -- the deferred removal of the file that is being cached
  unfoldable pub unlock : Text → Answer → Answer
  unfolding unlink
  unlock r_name (node, e) =
      (record node { disk = unlink sys (caching_path location r_name) node.disk }, e)

  unfoldable pub recache : Recaching → Text → Node → Answer
  unfolding stat is_exist after_download finish unlock do_download
  recache env r_name node =
      if is_exist (stat sys (cached_path location r_name) node.disk)
      then (node, none)
      else if is_exist (stat sys (caching_path location r_name) node.disk)
      then (node, some failed)
      else unlock r_name (
          finish env r_name
            (after_download env r_name (do_download sys location (env.downloads 5) r_name node)))

  unfoldable pub background_recache : Recaching → Text → Node → Node
  unfolding stat is_not_exist recache
  background_recache env r_name node =
      if is_not_exist (stat sys (caching_path location r_name) node.disk)
      then (recache env r_name node).0
      else node
