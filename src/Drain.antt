-- ===== src/Drain.antt =====
-- ciphertext/cache.go: how a file goes between the local cache and the permanent storage, with its
-- upload in server/uploadDownload.go. The disk is that of Cache; nothing else runs during a call.
-- The permanent storage is a function from a key to the bytes held there. An upload that fails leaves
-- it as it was; a download that fails leaves some bytes in the file that it writes.
pub mod Paths
pub mod Kept
pub mod Written
pub mod Lasting
pub mod Stored
pub mod Upload
pub mod Recache
pub mod Recached
pub mod Beside
pub mod Loads
pub mod Canary
pub mod Agreement
use ods.Common.{
  ℕ, zero, suc, ◌+◌, Bool, true, false, not, ◌&&◌, ◌||◌, Option, none, some, List, [], ◌∷◌, ◌++◌,
  Text, codes, text_eq, length, ltb, ltb_ℤ, leb_ℤ, if◌then◌else◌, ℤ, pos, ◌-ℤ◌, take,
}
use ods.Cache.{regular_file, is_dir, Disk, FileInfo, size_of, System, Limits, lookup, ext}

abbrev pub Storage : Type 0
Storage = Text → Option (List ℕ)

-- CiphertextCacheData, as far as files go; `stored` is nil where there is no permanent storage.
pub record Node : Type 0 where
  pub disk : Disk
  pub stored : Option Storage

-- Resolve(NewFileName(rName, ext)): CacheLocationString joined with the name
unfoldable pub resolve : Text → Text → Text → Text
resolve location r_name state = (location ++ (codes "/" ++ r_name)) ++ state

abbrev pub uploaded_path : (location r_name : Text) → Text
uploaded_path location r_name = resolve location r_name (codes ".uploaded")

abbrev pub cached_path : (location r_name : Text) → Text
cached_path location r_name = resolve location r_name (codes ".cached")

abbrev pub caching_path : (location r_name : Text) → Text
caching_path location r_name = resolve location r_name (codes ".caching")

abbrev pub key_of : (location r_name : Text) → Text
key_of location r_name = resolve location r_name []

-- The disk with nothing under that name.
unfoldable pub cleared : Text → Disk → Disk
cleared name [] = []
cleared name (f ∷ disk) =
    let rest = cleared name disk in if text_eq f.name name then rest else f ∷ rest

-- A file is created or truncated, or takes the place of another, under its name.
unfoldable pub place : FileInfo → Disk → Disk
unfolding cleared
place f disk = f ∷ cleared f.name disk

unfoldable pub regular : ℤ → Text → List ℕ → FileInfo
regular now name content = record {
  name = name;
  mode = regular_file;
  mod_time = now;
  content = content;
}

-- os.Rename of a file that is there
unfoldable pub rename : FileInfo → Text → Disk → Disk
unfolding place cleared
rename f new disk = place (record f { name = new }) (cleared f.name disk)

unfoldable pub put_key : Text → List ℕ → Storage → Storage
put_key key content stored k = if text_eq k key then some content else stored k

-- os.Remove, whose error the code drops
unfoldable pub unlink : System → Text → Disk → Disk
unfolding cleared
unlink sys name disk = if sys.unremovable name then disk else cleared name disk

-- What goes wrong during a call.
pub record Faults : Type 0 where
  pub upload_fails : Bool
  pub rename_fails : Bool
  pub create_fails : Bool
  -- File.Close, io.Copy and the like, where the cipher or a peer is copied to a file
  pub copy_fails : Bool
  -- what stands in the file then
  pub partial : List ℕ

pub data DrainError : Type 0 where
  not_found : DrainError
  not_set : DrainError
  failed : DrainError

abbrev pub Answer : Type 0
Answer = Node × Option DrainError

module _ (sys : System) (location : Text) where
  -- the upload to the permanent storage, where it is called for
  unfoldable pub upload :
      Faults → Text → ℕ → FileInfo → Option Storage → Option Storage × Option DrainError
  unfolding put_key
  upload faults r_name size f none = (none, none)
  upload faults r_name size f (some stored) =
      if ltb 0 size
      then if faults.upload_fails
        then (some stored, some failed)
        else (some (put_key (key_of location r_name) f.content stored), none)
      else (some stored, none)

  unfoldable pub write_back_found : Faults → Text → ℕ → FileInfo → Node → Answer
  unfolding upload rename
  write_back_found faults r_name size f node =
      let (stored, e) = upload faults r_name size f node.stored in
      elim e [
        | some x ↦ (record node { stored = stored }, some x)
        | none ↦ if faults.rename_fails then (record node { stored = stored }, some failed) else (
          record { disk = rename f (cached_path location r_name) node.disk; stored = stored },
          none,
        )
      ]

  -- Writeback. That the file is gone is no error.
  unfoldable pub write_back : Faults → Text → ℕ → Node → Answer
  unfolding write_back_found
  write_back faults r_name size node = elim (lookup (uploaded_path location r_name) node.disk) [
    | none ↦ (node, none)
    | some f ↦
        if sys.unreadable (uploaded_path location r_name)
        then (node, some failed)
        else write_back_found faults r_name size f node
  ]

  -- beginUploadTimed, from the cipher to the file that waits for its upload
  unfoldable pub begin_upload : Faults → Text → List ℕ → Node → Answer
  unfolding place regular rename unlink
  begin_upload faults r_name cipher node =
      let uploading = resolve location r_name (codes ".uploading") in
      let f = regular sys.now uploading cipher in
      if faults.create_fails
      then (node, some failed)
      else if faults.copy_fails
      then (
        record node {
          disk = unlink sys uploading (place (regular sys.now uploading faults.partial) node.disk);
        },
        some failed,
      )
      else if faults.rename_fails
      then (record node { disk = unlink sys uploading (place f node.disk) }, some failed)
      else (
        record node { disk = rename f (uploaded_path location r_name) (place f node.disk) },
        none,
      )

  -- The visit of DrainUploadedFilesToSafetyRaw to a name; `r_name` is its base without the extension.
  unfoldable pub drain_visit : Limits → Faults → Text → Node → Node
  unfolding write_back
  drain_visit limits faults r_name node = elim (lookup (uploaded_path location r_name) node.disk) [
    | none ↦ node
    | some f ↦
        if sys.unreadable (uploaded_path location r_name) || is_dir f
        then node
        else if leb_ℤ (pos limits.age_eligible_for_eviction) (sys.now -ℤ f.mod_time)
        then (write_back faults r_name (size_of f) node).0
        else node
  ]

  -- One round of the drain; the names are those of the files that wait for their upload.
  unfoldable pub drain_round : Limits → (Text → Faults) → List Text → Node → Node
  unfolding drain_visit
  drain_round limits faults [] node = node
  drain_round limits faults (r_name ∷ names) node =
      drain_round limits faults names
        (elim node.stored [ none ↦ node | some s ↦ drain_visit limits (faults r_name) r_name node ])

  -- doDownloadFromPermanentStorage
  unfoldable pub do_download : Faults → Text → Node → Answer
  unfolding place regular
  do_download faults r_name node =
      let write = λ (content : List ℕ). record node {
        disk = place (regular sys.now (caching_path location r_name) content) node.disk;
      } in
      elim node.stored [
        | none ↦ (node, some not_set)
        | some stored ↦
            if faults.create_fails
            then (node, some failed)
            else if faults.copy_fails
            then (write faults.partial, some failed)
            else elim (stored (key_of location r_name)) [
              | none ↦ (write [], some not_found)
              | some content ↦ (write content, none)
            ]
      ]
