-- ===== src/Drain/Kept.antt =====
-- What the node holds under each name, as a map from names to files: an upload adds to it, and nothing
-- that happens to the cache afterwards takes a file away (ciphertext/cache.go, ciphertext/cachepurge.go).
use ods.Common.{
  ℕ, false, Option, none, some, List, Text, text_eq, text_eq_self, ◌≡◌, refl, ap, ◌∙◌, subst, sym,
  arith,
}
use ods.Cache.{Disk, FileInfo, size_of, lookup}
use ods.Drain.{Node, Storage, put_key, uploaded_path, key_of}

-- What is held under a name: the file that waits for its upload, or else what the permanent storage has.
unfoldable pub contents : (location r_name : Text) → Node → Option (List ℕ)
contents location r_name node = elim (lookup (uploaded_path location r_name) node.disk) [
  | some f ↦ some f.content
  | none ↦ elim node.stored [ none ↦ none | some stored ↦ stored (key_of location r_name) ]
]

pub contents_same :
    (location r_name : Text) (node node' : Node)
    → lookup (uploaded_path location r_name) node'.disk
      ≡ lookup (uploaded_path location r_name) node.disk
    → node'.stored ≡ node.stored
    → contents location r_name node' ≡ contents location r_name node
unfolding contents
contents_same location r_name node node' h k = ground arith

-- An upload that waits is written back with its own size.
unfoldable pub Sized : (location r_name : Text) → ℕ → Node → Type 0
Sized location r_name size node =
    (f : FileInfo) → lookup (uploaded_path location r_name) node.disk ≡ some f → size ≡ size_of f

-- There is a permanent storage, and the name holds the file `content`.
unfoldable pub Held : (location r_name : Text) (content : List ℕ) → Node → Type 0
Held location r_name content node =
    ((stored : Storage) × (node.stored ≡ some stored))
    × (contents location r_name node ≡ some content)

pub put_key_same :
    (key : Text) (content : List ℕ) (stored : Storage)
    → put_key key content stored key ≡ some content
unfolding put_key
put_key_same key content stored = rw (text_eq_self key) refl

pub put_key_other :
    (key other : Text) (content : List ℕ) (stored : Storage)
    → text_eq other key ≡ false
    → put_key key content stored other ≡ stored other
unfolding put_key
put_key_other key other content stored h = rw h refl

-- Under that name a node holds what the disk and the storage hold, in the same place.
unfoldable pub Aside : (location r_name : Text) → Disk → Storage → Node → Type 0
Aside location r_name disk stored node =
    (stored' : Storage) × (node.stored ≡ some stored')
    × (lookup (uploaded_path location r_name) node.disk
        ≡ lookup (uploaded_path location r_name) disk)
    × (stored' (key_of location r_name) ≡ stored (key_of location r_name))

module _ (location : Text) where
  -- A file that waits, once uploaded, and once renamed.
  pub Held-waiting :
      (r_name : Text) (content : List ℕ) (disk : Disk) (f : FileInfo) (stored : Storage)
      → lookup (uploaded_path location r_name) disk ≡ some f
      → f.content ≡ content
      → Held location r_name content (record { disk = disk; stored = some stored })
  unfolding Held contents
  Held-waiting r_name content disk f stored h k = ((stored, refl), ground arith)

  pub Held-stored :
      (r_name : Text) (content : List ℕ) (disk : Disk) (stored : Storage)
      → lookup (uploaded_path location r_name) disk ≡ none
      → stored (key_of location r_name) ≡ some content
      → Held location r_name content (record { disk = disk; stored = some stored })
  unfolding Held contents
  Held-stored r_name content disk stored h k = ((stored, refl), ground arith)

  pub contents_moved :
      (r_name : Text) (disk disk' : Disk) (stored stored' : Storage)
      → lookup (uploaded_path location r_name) disk' ≡ lookup (uploaded_path location r_name) disk
      → stored' (key_of location r_name) ≡ stored (key_of location r_name)
      → contents location r_name (record { disk = disk'; stored = some stored' })
        ≡ contents location r_name (record { disk = disk; stored = some stored })
  unfolding contents
  contents_moved r_name disk disk' stored stored' h k = ground arith

  pub Held-moved :
      (r_name : Text) (content : List ℕ) (disk disk' : Disk) (stored stored' : Storage)
      → contents location r_name (record { disk = disk; stored = some stored }) ≡ some content
      → lookup (uploaded_path location r_name) disk' ≡ lookup (uploaded_path location r_name) disk
      → stored' (key_of location r_name) ≡ stored (key_of location r_name)
      → Held location r_name content (record { disk = disk'; stored = some stored' })
  unfolding Held
  Held-moved r_name content disk disk' stored stored' held h k =
      ((stored', refl), contents_moved r_name disk disk' stored stored' h k ∙ held)

  pub contents_waiting :
      (r_name : Text) (content : List ℕ) (f : FileInfo) (node : Node)
      → lookup (uploaded_path location r_name) node.disk ≡ some f
      → contents location r_name node ≡ some content
      → f.content ≡ content
  unfolding contents
  contents_waiting r_name content f node found held = ground arith

  pub Held-Aside :
      (r_name : Text) (content : List ℕ) (disk : Disk) (stored : Storage) (node : Node)
      → contents location r_name (record { disk = disk; stored = some stored }) ≡ some content
      → Aside location r_name disk stored node
      → Held location r_name content node
  unfolding Aside Held
  Held-Aside r_name content disk stored node held (stored', set, waiting, key) =
      let same : node ≡ record { disk = node.disk; stored = some stored' } =
        ap (λ (s : Option Storage). record { disk = node.disk; stored = s }) set in
      subst (Held location r_name content) (sym same)
        (Held-moved r_name content disk node.disk stored stored' held waiting key)
