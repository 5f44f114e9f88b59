-- ===== src/Drain/Upload.antt =====
-- How beginUploadTimed (server/uploadDownload.go) ends.
use ods.Common.{
  ℕ, false, none, some, List, Text, codes, text_eq, text_eq_sound, Option, if◌then◌else◌, ◌∙◌, ◌≡◌,
  refl, sym, ap, subst, ◌⊎◌, inl, inr, arith, Bool-cases,
}
use ods.Cache.{System, Disk}
use ods.Drain.{
  Node, Storage, Faults, DrainError, failed, place, regular, rename, unlink, resolve, uploaded_path,
  begin_upload,
}
use ods.Drain.Kept.{contents, contents_same}
use ods.Drain.Beside.{Beside, Beside-refl, Beside-trans}
use ods.Drain.Paths.{
  resolve_injective, uploading_not_uploaded, lookup-place_other, lookup-rename_other,
  lookup-rename_same, lookup-unlink_other,
}

module _ (sys : System) (location n : Text) where
  pub uploading : Text → Text
  uploading m = resolve location m (codes ".uploading")

  upload_write-Beside :
      (m : Text) (bytes : List ℕ) (node : Node)
      → Beside location n node
          (record node { disk = place (regular sys.now (uploading m) bytes) node.disk })
  unfolding Beside regular uploading
  upload_write-Beside m bytes node = (
    lookup-place_other (regular sys.now (uploading m) bytes) (uploaded_path location n) node.disk
        (uploading_not_uploaded location m n),
    refl,
  )

  upload_unlink-Beside :
      (m : Text) (node : Node)
      → Beside location n node (record node { disk = unlink sys (uploading m) node.disk })
  unfolding Beside uploading
  upload_unlink-Beside m node = (
    lookup-unlink_other sys (uploading m) (uploaded_path location n) node.disk
        (uploading_not_uploaded location m n),
    refl,
  )

  -- How an upload ends: with an error, or with the file renamed.
  pub begin_upload_cases :
      (faults : Faults) (m : Text) (cipher : List ℕ) (node : Node)
      → ((e : DrainError) × (begin_upload sys location faults m cipher node).1 ≡ some e
          × Beside location n node (begin_upload sys location faults m cipher node).0)
        ⊎ (begin_upload sys location faults m cipher node ≡ (
          record node {
            disk =
                rename
                  (regular sys.now (uploading m) cipher)
                  (uploaded_path location m)
                  (place (regular sys.now (uploading m) cipher) node.disk);
          },
          none,
        ))
  unfolding begin_upload uploading
  begin_upload_cases faults m cipher node =
      let write = λ (bytes : List ℕ). record node {
        disk = place (regular sys.now (uploading m) bytes) node.disk;
      } in
      let undone = λ (bytes : List ℕ).
        Beside-trans sys location n node (write bytes)
          (record node { disk = unlink sys (uploading m) (write bytes).disk })
          (upload_write-Beside m bytes node) (upload_unlink-Beside m (write bytes)) in
      elim (Bool-cases faults.create_fails) [
        | inl fails ↦ inl (
          failed,
          ground arith,
          subst (Beside location n node) (ground arith) (Beside-refl sys location n node),
        )
        | inr creates ↦ elim (Bool-cases faults.copy_fails) [
          | inl fails ↦ inl (
            failed,
            ground arith,
            subst (Beside location n node) (ground arith) (undone faults.partial),
          )
          | inr copies ↦ elim (Bool-cases faults.rename_fails) [
            | inl fails ↦ inl (
              failed,
              ground arith,
              subst (Beside location n node) (ground arith) (undone cipher),
            )
            | inr renames ↦ inr (ground arith)
          ]
        ]
      ]

  -- An upload touches nothing that stands under another name.
  pub begin_upload-Beside :
      (faults : Faults) (m : Text) (cipher : List ℕ) (node : Node)
      → text_eq m n ≡ false
      → Beside location n node (begin_upload sys location faults m cipher node).0
  unfolding Beside uploading regular
  begin_upload-Beside faults m cipher node other = elim (begin_upload_cases faults m cipher node) [
    | inl (e, answer, beside) ↦ beside
    | inr done ↦
        let f = regular sys.now (uploading m) cipher in
        let written : Node = record node { disk = place f node.disk } in
        let renamed : Node = record node {
          disk = rename f (uploaded_path location m) written.disk;
        } in
        subst (Beside location n node) (sym (ap (λ a. a.0) done)) (
          Beside-trans sys location n node written renamed (upload_write-Beside m cipher node) (
            lookup-rename_other f (uploaded_path location m) (uploaded_path location n) written.disk
                (uploading_not_uploaded location m n)
                (resolve_injective location m n (codes ".uploaded") other),
            refl,
          ))
  ]

  upload_waits :
      (m : Text) (cipher : List ℕ) (disk : Disk) (stored : Option Storage)
      → contents location m (record {
        disk = rename (regular sys.now (uploading m) cipher) (uploaded_path location m) disk;
        stored = stored;
      })
        ≡ some cipher
  unfolding contents regular
  upload_waits m cipher disk stored =
      let found =
        lookup-rename_same (regular sys.now (uploading m) cipher) (uploaded_path location m) disk in
      ground arith

-- beginUploadTimed, as an insertion into the map from names to files: it reports an error, and every
-- name holds what it held; or it reports none, the name of the upload holds the whole ciphertext, whatever
-- it held before, and every other name holds what it held.
pub begin_upload_adds :
    (sys : System) (location : Text) (faults : Faults) (m n : Text) (cipher : List ℕ) (node : Node)
    → let (after, e) = begin_upload sys location faults m cipher node in
      (((x : DrainError) × (e ≡ some x)) × (contents location n after ≡ contents location n node))
      ⊎ ((e ≡ none)
          × (contents location n after
              ≡ (if text_eq m n then some cipher else contents location n node)))
unfolding Beside
begin_upload_adds sys location faults m n cipher node =
    let after = (begin_upload sys location faults m cipher node).0 in
    elim (begin_upload_cases sys location n faults m cipher node) [
      | inl (x, answer, (waiting, same)) ↦
          inl ((x, answer), contents_same location n node after waiting same)
      | inr done ↦ inr (
        ap (λ a. a.1) done,
        elim (Bool-cases (text_eq m n)) [
          | inl is_n ↦
              let waits : contents location m after ≡ some cipher =
                ap (λ a. contents location m a.0) done
                ∙ upload_waits sys location n m cipher
                    (place (regular sys.now (uploading sys location n m) cipher) node.disk)
                    node.stored in
              rw is_n (
                subst (λ x. contents location x after ≡ some cipher) (text_eq_sound m n is_n) waits)
          | inr other ↦
              let (waiting, same) = begin_upload-Beside sys location n faults m cipher node other in
              rw other (contents_same location n node after waiting same)
        ],
      )
    ]
