-- ===== src/Drain/Beside.antt =====
-- Recache (ciphertext/cache.go) works on the files that are caching or cached, and on nothing else.
use ods.Common.{
  ℕ, zero, suc, Bool, false, none, some, List, [], Text, text_eq, text_eq_sound, ◌≡◌, refl, sym,
  ◌∙◌, subst, arith, Bool-cases, Option-cases, inl, inr,
}
use ods.Cache.{FileInfo, System, lookup}
use ods.Drain.{
  Node, Faults, Answer, place, regular, rename, uploaded_path, cached_path, caching_path, key_of,
  do_download,
}
use ods.Drain.Recache.{
  Recaching, Course, go_on, return_now, Peer, peer_fails, no_peer, peer_has, copy_from_peer,
  ask_peer, is_missing_canary, after_download, retry_download, keep_cached, finish, unlock, stat,
  is_exist, recache,
}
use ods.Drain.Paths.{
  cached_not_uploaded, caching_not_uploaded, lookup_name, lookup-place_other, lookup-rename_other,
  lookup-unlink_other,
}

-- The file that waits for its upload, and the storage, are as they were.
unfoldable pub Beside : (location n : Text) → Node → Node → Type 0
Beside location n node node' =
    (lookup (uploaded_path location n) node'.disk ≡ lookup (uploaded_path location n) node.disk)
    × (node'.stored ≡ node.stored)

course_node : Course → Node
course_node (go_on a) = a.0
course_node (return_now a) = a.0

module _ (sys : System) (location n : Text) where
  write-Beside :
      (r_name : Text) (bytes : List ℕ) (node : Node)
      → Beside location n node (record node {
        disk = place (regular sys.now (caching_path location r_name) bytes) node.disk;
      })
  unfolding Beside regular
  write-Beside r_name bytes node = (
    lookup-place_other (regular sys.now (caching_path location r_name) bytes)
        (uploaded_path location n) node.disk (caching_not_uploaded location r_name n),
    refl,
  )

  pub Beside-refl : (node : Node) → Beside location n node node
  unfolding Beside
  Beside-refl node = (refl, refl)

  pub Beside-trans :
      (node node' node'' : Node)
      → Beside location n node node'
      → Beside location n node' node''
      → Beside location n node node''
  unfolding Beside
  Beside-trans node node' node'' h k = (k.0 ∙ h.0, k.1 ∙ h.1)

  do_download-Beside :
      (faults : Faults) (r_name : Text) (node : Node)
      → Beside location n node (do_download sys location faults r_name node).0
  unfolding do_download
  do_download-Beside faults r_name node = elim (Option-cases node.stored) [
    | inl unset ↦ subst (Beside location n node) (ground arith) (Beside-refl node)
    | inr (stored, set) ↦ elim (Bool-cases faults.create_fails) [
      | inl fails ↦ subst (Beside location n node) (ground arith) (Beside-refl node)
      | inr creates ↦ elim (Bool-cases faults.copy_fails) [
        | inl fails ↦
            subst (Beside location n node) (ground arith) (write-Beside r_name faults.partial node)
        | inr copies ↦ elim (Option-cases (stored (key_of location r_name))) [
          | inl missing ↦
              subst (Beside location n node) (ground arith) (write-Beside r_name [] node)
          | inr (content, held) ↦
              subst (Beside location n node) (ground arith) (write-Beside r_name content node)
        ]
      ]
    ]
  ]

  copy_from_peer-Beside :
      (faults : Faults) (r_name : Text) (content : List ℕ) (node : Node)
      → Beside location n node (copy_from_peer sys location faults r_name content node).0
  unfolding copy_from_peer
  copy_from_peer-Beside faults r_name content node = elim (Bool-cases faults.create_fails) [
    | inl fails ↦ subst (Beside location n node) (ground arith) (Beside-refl node)
    | inr creates ↦ elim (Bool-cases faults.copy_fails) [
      | inl fails ↦
          subst (Beside location n node) (ground arith) (write-Beside r_name faults.partial node)
      | inr copies ↦
          subst (Beside location n node) (ground arith) (write-Beside r_name content node)
    ]
  ]

  ask_peer-Beside :
      (env : Recaching) (r_name : Text) (node : Node)
      → Beside location n node (course_node (ask_peer sys location env r_name node))
  unfolding ask_peer course_node
  ask_peer-Beside env r_name node =
      let asked : Peer → Node =
        λ p. course_node (ask_peer sys location (record env { peer = p }) r_name node) in
      elim env.peer as (λ p. Beside location n node (asked p)) [
        | peer_has content ↦ copy_from_peer-Beside env.peer_copy r_name content node
        | peer_fails ↦ elim (Option-cases node.stored) [
          | inl unset ↦ subst (Beside location n node) (ground arith) (Beside-refl node)
          | inr (stored, set) ↦ subst (Beside location n node) (ground arith) (Beside-refl node)
        ]
        | no_peer ↦ elim (Option-cases node.stored) [
          | inl unset ↦ subst (Beside location n node) (ground arith) (Beside-refl node)
          | inr (stored, set) ↦ subst (Beside location n node) (ground arith) (Beside-refl node)
        ]
      ]

  after_download-Beside :
      (env : Recaching) (r_name : Text) (a : Answer)
      → Beside location n a.0 (course_node (after_download sys location env r_name a))
  unfolding after_download course_node
  after_download-Beside env r_name (node, none) = Beside-refl node
  after_download-Beside env r_name (node, some e) =
      elim (Bool-cases (is_missing_canary sys location r_name node e)) [
        | inl missing ↦ subst (Beside location n node) (ground arith) (Beside-refl node)
        | inr present ↦ elim (Bool-cases env.peer_enabled) [
          | inl enabled ↦
              subst (Beside location n node) (ground arith) (ask_peer-Beside env r_name node)
          | inr disabled ↦ subst (Beside location n node) (ground arith) (Beside-refl node)
        ]
      ]

  retry_download-Beside :
      (faults : ℕ → Faults) (tries : ℕ) (r_name : Text) (a : Answer)
      → Beside location n a.0 (retry_download sys location faults tries r_name a).0
  unfolding retry_download
  retry_download-Beside faults zero r_name a = Beside-refl a.0
  retry_download-Beside faults (suc tries) r_name (node, none) = Beside-refl node
  retry_download-Beside faults (suc tries) r_name (node, some e) = elim (Option-cases node.stored) [
    | inl unset ↦ subst (Beside location n node) (ground arith) (Beside-refl node)
    | inr (stored, set) ↦
        let next = do_download sys location (faults (suc tries)) r_name node in
        subst (Beside location n node) (ground arith) (
          Beside-trans node next.0 (retry_download sys location faults tries r_name next).0
            (do_download-Beside (faults (suc tries)) r_name node)
            (retry_download-Beside faults tries r_name next))
  ]

  rename-Beside :
      (r_name : Text) (f : FileInfo) (node : Node)
      → lookup (caching_path location r_name) node.disk ≡ some f
      → Beside location n node
          (record node { disk = rename f (cached_path location r_name) node.disk })
  unfolding Beside
  rename-Beside r_name f node found =
      let from : text_eq f.name (uploaded_path location n) ≡ false =
        subst (λ x. text_eq x (uploaded_path location n) ≡ false)
          (sym (
            text_eq_sound f.name (caching_path location r_name)
              (lookup_name (caching_path location r_name) node.disk f found)))
          (caching_not_uploaded location r_name n) in
      (
        lookup-rename_other f (cached_path location r_name) (uploaded_path location n) node.disk
            from (cached_not_uploaded location r_name n),
        refl,
      )

  keep_cached-Beside :
      (fails : Bool) (r_name : Text) (a : Answer)
      → Beside location n a.0 (keep_cached sys location fails r_name a).0
  unfolding keep_cached
  keep_cached-Beside fails r_name (node, some e) = Beside-refl node
  keep_cached-Beside fails r_name (node, none) =
      elim (Option-cases (lookup (caching_path location r_name) node.disk)) [
        | inl gone ↦ subst (Beside location n node) (ground arith) (Beside-refl node)
        | inr (f, found) ↦ elim (Bool-cases fails) [
          | inl broken ↦ subst (Beside location n node) (ground arith) (Beside-refl node)
          | inr done ↦
              subst (Beside location n node) (ground arith) (rename-Beside r_name f node found)
        ]
      ]

  finish-Beside :
      (env : Recaching) (r_name : Text) (c : Course)
      → Beside location n (course_node c) (finish sys location env r_name c).0
  unfolding finish course_node
  finish-Beside env r_name (return_now a) = Beside-refl a.0
  finish-Beside env r_name (go_on a) =
      let tried = retry_download sys location env.downloads 4 r_name a in
      Beside-trans a.0 tried.0 (keep_cached sys location env.rename_fails r_name tried).0
        (retry_download-Beside env.downloads 4 r_name a)
        (keep_cached-Beside env.rename_fails r_name tried)

  unlock-Beside :
      (r_name : Text) (a : Answer) → Beside location n a.0 (unlock sys location r_name a).0
  unfolding unlock Beside
  unlock-Beside r_name (node, e) = (
    lookup-unlink_other sys (caching_path location r_name) (uploaded_path location n) node.disk
        (caching_not_uploaded location r_name n),
    refl,
  )

  pub recache-Beside :
      (env : Recaching) (r_name : Text) (node : Node)
      → Beside location n node (recache sys location env r_name node).0
  unfolding recache
  recache-Beside env r_name node =
      let loaded = do_download sys location (env.downloads 5) r_name node in
      let course = after_download sys location env r_name loaded in
      let done = finish sys location env r_name course in
      let unlocked =
        Beside-trans node loaded.0 (unlock sys location r_name done).0
          (do_download-Beside (env.downloads 5) r_name node)
          (Beside-trans loaded.0 (course_node course) (unlock sys location r_name done).0
            (after_download-Beside env r_name loaded)
            (Beside-trans (course_node course) done.0 (unlock sys location r_name done).0
              (finish-Beside env r_name course) (unlock-Beside r_name done))) in
      elim (Bool-cases (is_exist (stat sys (cached_path location r_name) node.disk))) [
        | inl cached ↦ subst (Beside location n node) (ground arith) (Beside-refl node)
        | inr uncached ↦
            elim (Bool-cases (is_exist (stat sys (caching_path location r_name) node.disk))) [
              | inl locked ↦ subst (Beside location n node) (ground arith) (Beside-refl node)
              | inr free ↦ subst (Beside location n node) (ground arith) unlocked
            ]
      ]
