-- ===== src/Drain/Written.antt =====
-- What Writeback keeps.
use ods.Common.{
  text_eq_comm-false, ℕ, ◌<◌, false, none, some, List, [], Text, codes, text_eq, text_eq_sound,
  length, ltb, ◌≡◌, refl, sym, ap, ◌∙◌, subst, ◌⊎◌, inl, inr, arith, Bool-cases, ltb→lt,
  Option-cases,
}
use ods.Cache.{Disk, FileInfo, size_of, System, lookup}
use ods.Drain.{
  Node, Storage, Faults, failed, put_key, rename, uploaded_path, cached_path, key_of, upload,
  write_back_found, write_back,
}
use ods.Drain.Paths.{
  resolve_injective, cached_not_uploaded, lookup_name, lookup-rename_other, lookup-rename_gone,
}
use ods.Drain.Kept.{
  contents, Sized, Held, Aside, Held-Aside, put_key_same, put_key_other, Held-waiting, Held-stored,
  Held-moved, contents_waiting,
}

module _ (sys : System) (location : Text) where
  -- The upload changes nothing, or it puts the file under its key.
  upload_cases :
      (faults : Faults) (r_name : Text) (size : ℕ) (f : FileInfo) (stored : Storage)
      → 0 < size
      → (upload sys location faults r_name size f (some stored) ≡ (some stored, some failed))
        ⊎ (upload sys location faults r_name size f (some stored)
            ≡ (some (put_key (key_of location r_name) f.content stored), none))
  unfolding upload
  upload_cases faults r_name size f stored h = ground arith

  -- How a file that is there is written back: nothing changes, it is stored, or it is stored and renamed.
  write_back_found_cases :
      (faults : Faults) (r_name : Text) (size : ℕ) (disk : Disk) (f : FileInfo) (stored : Storage)
      → 0 < size
      → let after =
          (write_back_found sys location faults r_name size f
            (record { disk = disk; stored = some stored })).0 in
        let stored' = put_key (key_of location r_name) f.content stored in
        (after ≡ record { disk = disk; stored = some stored })
        ⊎ ((after ≡ record { disk = disk; stored = some stored' })
            ⊎ (after ≡ record {
              disk = rename f (cached_path location r_name) disk;
              stored = some stored';
            }))
  unfolding write_back_found
  write_back_found_cases faults r_name size disk f stored h =
      ground (arith, upload_cases faults r_name size f stored h)

  -- What is written back is not lost, nor is anything else.
  write_back_found-same :
      (faults : Faults) (r_name : Text) (content : List ℕ) (disk : Disk) (f : FileInfo)
      (stored : Storage)
      → lookup (uploaded_path location r_name) disk ≡ some f
      → f.content ≡ content
      → 0 < length content
      → Held location r_name content
          (write_back_found sys location faults r_name
            (size_of f)
            f
            (record { disk = disk; stored = some stored })).0
  write_back_found-same faults r_name content disk f stored found same some_bytes =
      let stored' = put_key (key_of location r_name) f.content stored in
      elim (write_back_found_cases faults r_name (size_of f) disk f stored (ground arith)) [
        | inl e ↦
            subst (Held location r_name content) (sym e)
              (Held-waiting location r_name content disk f stored found same)
        | inr (inl e) ↦
            subst (Held location r_name content) (sym e)
              (Held-waiting location r_name content disk f stored' found same)
        | inr (inr e) ↦ subst (Held location r_name content) (sym e) (
            Held-stored location r_name content (rename f (cached_path location r_name) disk)
              stored'
              (lookup-rename_gone f (cached_path location r_name) (uploaded_path location r_name)
                disk (lookup_name (uploaded_path location r_name) disk f found)
                (cached_not_uploaded location r_name r_name))
              (put_key_same (key_of location r_name) f.content stored ∙ ap some same))
      ]

  -- An empty file is renamed without being stored.
  write_back_found_empty :
      (faults : Faults) (r_name : Text) (size : ℕ) (disk : Disk) (f : FileInfo) (stored : Storage)
      → ltb 0 size ≡ false
      → let after =
          (write_back_found sys location faults r_name size f
            (record { disk = disk; stored = some stored })).0 in
        (after ≡ record { disk = disk; stored = some stored })
        ⊎ (after
            ≡ record { disk = rename f (cached_path location r_name) disk; stored = some stored })
  unfolding write_back_found upload
  write_back_found_empty faults r_name size disk f stored h = ground arith

  write_back_cases :
      (faults : Faults) (m : Text) (size : ℕ) (node : Node)
      → ((write_back sys location faults m size node).0 ≡ node)
        ⊎ ((f : FileInfo) × (lookup (uploaded_path location m) node.disk ≡ some f)
            × (write_back sys location faults m size node
                ≡ write_back_found sys location faults m size f node))
  unfolding write_back
  write_back_cases faults m size node =
      elim (Option-cases (lookup (uploaded_path location m) node.disk)) [
        | inl gone ↦ inl (ground arith)
        | inr (f, found) ↦ elim (Bool-cases (sys.unreadable (uploaded_path location m))) [
          | inl unread ↦ inl (ground arith)
          | inr read ↦ inr (f, found, ground arith)
        ]
      ]

  write_back_found-Aside :
      (faults : Faults) (m r_name : Text) (size : ℕ) (disk : Disk) (f : FileInfo) (stored : Storage)
      → text_eq m r_name ≡ false
      → lookup (uploaded_path location m) disk ≡ some f
      → Aside location r_name disk stored
          (write_back_found sys location faults m size f
            (record { disk = disk; stored = some stored })).0
  unfolding Aside
  write_back_found-Aside faults m r_name size disk f stored other found =
      let stored' = put_key (key_of location m) f.content stored in
      let at_key : stored' (key_of location r_name) ≡ stored (key_of location r_name) =
        put_key_other (key_of location m) (key_of location r_name) f.content stored (
          text_eq_comm-false (key_of location m) (key_of location r_name)
            (resolve_injective location m r_name [] other)) in
      let from : text_eq f.name (uploaded_path location r_name) ≡ false =
        subst (λ x. text_eq x (uploaded_path location r_name) ≡ false)
          (sym (
            text_eq_sound f.name (uploaded_path location m)
              (lookup_name (uploaded_path location m) disk f found)))
          (resolve_injective location m r_name (codes ".uploaded") other) in
      let renamed =
        lookup-rename_other f (cached_path location m) (uploaded_path location r_name) disk from
          (cached_not_uploaded location m r_name) in
      let aside = Aside location r_name disk stored in
      elim (Bool-cases (ltb 0 size)) [
        | inr empty ↦ elim (write_back_found_empty faults m size disk f stored empty) [
          | inl e ↦ subst aside (sym e) (stored, refl, refl, refl)
          | inr e ↦ subst aside (sym e) (stored, refl, renamed, refl)
        ]
        | inl full ↦
            elim (write_back_found_cases faults m size disk f stored (ltb→lt 0 size full)) [
              | inl e ↦ subst aside (sym e) (stored, refl, refl, refl)
              | inr (inl e) ↦ subst aside (sym e) (stored', refl, refl, at_key)
              | inr (inr e) ↦ subst aside (sym e) (stored', refl, renamed, at_key)
            ]
      ]

  -- Writeback leaves alone what stands under other names.
  pub write_back-Aside :
      (faults : Faults) (m r_name : Text) (size : ℕ) (disk : Disk) (stored : Storage)
      → text_eq m r_name ≡ false
      → Aside location r_name disk stored
          (write_back sys location faults m size (record { disk = disk; stored = some stored })).0
  unfolding Aside
  write_back-Aside faults m r_name size disk stored other =
      let node : Node = record { disk = disk; stored = some stored } in
      elim (write_back_cases faults m size node) [
        | inl e ↦ subst (Aside location r_name disk stored) (sym e) (stored, refl, refl, refl)
        | inr (f, found, e) ↦
            subst (Aside location r_name disk stored) (sym (ap (λ a. a.0) e))
              (write_back_found-Aside faults m r_name size disk f stored other found)
      ]

  pub write_back-Held :
      (faults : Faults) (m r_name : Text) (size : ℕ) (content : List ℕ) (disk : Disk)
      (stored : Storage)
      → Sized location m size (record { disk = disk; stored = some stored })
      → 0 < length content
      → contents location r_name (record { disk = disk; stored = some stored }) ≡ some content
      → Held location r_name content
          (write_back sys location faults m size (record { disk = disk; stored = some stored })).0
  unfolding Sized
  write_back-Held faults m r_name size content disk stored sized some_bytes held =
      let node : Node = record { disk = disk; stored = some stored } in
      let stays = Held-moved location r_name content disk disk stored stored held refl refl in
      elim (write_back_cases faults m size node) [
        | inl e ↦ subst (Held location r_name content) (sym e) stays
        | inr (f, found, e) ↦
            subst (Held location r_name content) (sym (ap (λ a. a.0) e))
              (elim (Bool-cases (text_eq m r_name)) [
                | inr other ↦
                    Held-Aside location r_name content disk stored
                      (write_back_found sys location faults m size f node).0 held
                      (write_back_found-Aside faults m r_name size disk f stored other found)
                | inl same ↦
                    let is_m : m ≡ r_name = text_eq_sound m r_name same in
                    let found' : lookup (uploaded_path location r_name) disk ≡ some f =
                      subst (λ x. lookup (uploaded_path location x) disk ≡ some f) is_m found in
                    let is_content : f.content ≡ content =
                      contents_waiting location r_name content f node found' held in
                    subst
                      (λ x.
                        Held location r_name content
                          (write_back_found sys location faults x size f node).0)
                      (sym is_m)
                      (subst
                        (λ x.
                          Held location r_name content
                            (write_back_found sys location faults r_name x f node).0)
                        (sym (sized f found))
                        (write_back_found-same faults r_name content disk f stored found' is_content
                          some_bytes))
              ])
      ]
