-- ===== src/Drain/Stored.antt =====
-- What the drain brings to the permanent storage (DrainUploadedFilesToSafetyRaw and Writeback of
-- ciphertext/cache.go).
use ods.Common.{
  text_eq_comm-false, ℕ, true, false, ◌||◌, Option, none, some, List, [], ◌∷◌, Text, text_eq,
  text_eq_sound, ltb, any, ◌≡◌, refl, sym, ap, ◌∙◌, subst, inl, inr, arith, Bool-cases,
  Option-cases, leb_ℤ, pos, ◌-ℤ◌,
}
use ods.Cache.{is_dir, Disk, FileInfo, size_of, System, Limits, lookup}
use ods.Drain.{
  Node, Storage, Faults, put_key, rename, uploaded_path, cached_path, key_of, upload,
  write_back_found, write_back, drain_visit, drain_round,
}
use ods.Drain.Kept.{Aside, put_key_same}
use ods.Drain.Written.{write_back-Aside}
use ods.Drain.Paths.{lookup_name, lookup-rename_gone, cached_not_uploaded}

-- The permanent storage holds the file, and it no longer waits.
unfoldable pub Stored : (location r_name : Text) (content : List ℕ) → Node → Type 0
Stored location r_name content node =
    (stored : Storage) × (node.stored ≡ some stored)
    × (lookup (uploaded_path location r_name) node.disk ≡ none)
    × (stored (key_of location r_name) ≡ some content)

-- There is a permanent storage, and the file waits.
unfoldable pub Waiting : (location r_name : Text) → FileInfo → Node → Type 0
Waiting location r_name f node =
    (stored : Storage) × (node.stored ≡ some stored)
    × (lookup (uploaded_path location r_name) node.disk ≡ some f)

module _ (sys : System) (location r_name : Text) where
  Aside-Stored :
      (content : List ℕ) (disk : Disk) (stored : Storage) (node : Node)
      → Stored location r_name content (record { disk = disk; stored = some stored })
      → Aside location r_name disk stored node
      → Stored location r_name content node
  unfolding Stored Aside
  Aside-Stored content disk stored node (s, set, gone, key) (stored', set', waiting, same) =
      (stored', set', waiting ∙ gone, same ∙ (let e : some stored ≡ some s = set in cc))

  Aside-Waiting :
      (f : FileInfo) (disk : Disk) (stored : Storage) (node : Node)
      → lookup (uploaded_path location r_name) disk ≡ some f
      → Aside location r_name disk stored node
      → Waiting location r_name f node
  unfolding Waiting Aside
  Aside-Waiting f disk stored node found (stored', set', waiting, same) =
      (stored', set', waiting ∙ found)

  drain_visit-Aside :
      (limits : Limits) (faults : Faults) (m : Text) (disk : Disk) (stored : Storage)
      → text_eq m r_name ≡ false
      → Aside location r_name disk stored
          (drain_visit sys location limits faults m (record { disk = disk; stored = some stored }))
  unfolding drain_visit Aside
  drain_visit-Aside limits faults m disk stored other =
      let node : Node = record { disk = disk; stored = some stored } in
      let stays : Aside location r_name disk stored node = (stored, refl, refl, refl) in
      elim (Option-cases (lookup (uploaded_path location m) disk)) [
        | inl gone ↦ subst (Aside location r_name disk stored) (ground arith) stays
        | inr (f, found) ↦
            elim (Bool-cases (sys.unreadable (uploaded_path location m) || is_dir f)) [
              | inl skip ↦ subst (Aside location r_name disk stored) (ground arith) stays
              | inr visit ↦
                  elim (Bool-cases
                    (leb_ℤ (pos limits.age_eligible_for_eviction) (sys.now -ℤ f.mod_time))) [
                      | inl old ↦ subst (Aside location r_name disk stored) (ground arith) (
                          write_back-Aside sys location faults m r_name (size_of f) disk stored
                            other)
                      | inr young ↦ subst (Aside location r_name disk stored) (ground arith) stays
                    ]
            ]
      ]

  drain_visit-Stored :
      (limits : Limits) (faults : Faults) (m : Text) (content : List ℕ) (node : Node)
      → Stored location r_name content node
      → Stored location r_name content (drain_visit sys location limits faults m node)
  unfolding Stored drain_visit
  drain_visit-Stored limits faults m content node (stored, set, gone, key) =
      elim (Bool-cases (text_eq m r_name)) [
        | inl same ↦
            let e : lookup (uploaded_path location m) node.disk ≡ none =
              ap (λ x. lookup (uploaded_path location x) node.disk) (text_eq_sound m r_name same)
              ∙ gone in
            subst (Stored location r_name content) (ground arith) (stored, set, gone, key)
        | inr other ↦
            let is_node : record { disk = node.disk; stored = some stored } ≡ node =
              ap (λ (s : Option Storage). record { disk = node.disk; stored = s }) (sym set) in
            subst (λ x. Stored location r_name content (drain_visit sys location limits faults m x))
              is_node
              (Aside-Stored content node.disk stored
                (drain_visit sys location limits faults m
                  (record { disk = node.disk; stored = some stored }))
                (stored, refl, gone, key)
                (drain_visit-Aside limits faults m node.disk stored other))
      ]

  drain_visit-Waiting :
      (limits : Limits) (faults : Faults) (m : Text) (f : FileInfo) (node : Node)
      → text_eq m r_name ≡ false
      → Waiting location r_name f node
      → Waiting location r_name f (drain_visit sys location limits faults m node)
  unfolding Waiting
  drain_visit-Waiting limits faults m f node other (stored, set, found) =
      let is_node : record { disk = node.disk; stored = some stored } ≡ node =
        ap (λ (s : Option Storage). record { disk = node.disk; stored = s }) (sym set) in
      subst (λ x. Waiting location r_name f (drain_visit sys location limits faults m x)) is_node
        (Aside-Waiting f node.disk stored
          (drain_visit sys location limits faults m
            (record { disk = node.disk; stored = some stored }))
          found (drain_visit-Aside limits faults m node.disk stored other))

  -- A file that the drain is to write back.
  pub record Ready (limits : Limits) (f : FileInfo) : Type 0 where
    pub no_directory : is_dir f ≡ false
    pub readable : sys.unreadable (uploaded_path location r_name) ≡ false
    pub old : leb_ℤ (pos limits.age_eligible_for_eviction) (sys.now -ℤ f.mod_time) ≡ true
    pub some_bytes : ltb 0 (size_of f) ≡ true

  drain_visit-stores :
      (limits : Limits) (faults : Faults) (f : FileInfo) (node : Node)
      → Ready limits f
      → faults.upload_fails ≡ false
      → faults.rename_fails ≡ false
      → Waiting location r_name f node
      → Stored location r_name f.content (drain_visit sys location limits faults r_name node)
  unfolding Stored Waiting drain_visit write_back write_back_found upload
  drain_visit-stores limits faults f node ready uploads renames (stored, set, found) =
      let no_directory = ready.no_directory in
      let readable = ready.readable in
      let old = ready.old in
      let some_bytes = ready.some_bytes in
      let stored' = put_key (key_of location r_name) f.content stored in
      let done : Node = record {
        disk = rename f (cached_path location r_name) node.disk;
        stored = some stored';
      } in
      let e : drain_visit sys location limits faults r_name node ≡ done = ground arith in
      subst (Stored location r_name f.content) (sym e) (
        stored',
        refl,
        lookup-rename_gone f (cached_path location r_name) (uploaded_path location r_name) node.disk
            (lookup_name (uploaded_path location r_name) node.disk f found)
            (cached_not_uploaded location r_name r_name),
        put_key_same (key_of location r_name) f.content stored,
      )

  round_step :
      (limits : Limits) (faults : Text → Faults) (m : Text) (names : List Text) (node : Node)
      (stored : Storage)
      → node.stored ≡ some stored
      → drain_round sys location limits faults (m ∷ names) node
        ≡ drain_round sys location limits faults names
            (drain_visit sys location limits (faults m) m node)
  unfolding drain_round
  round_step limits faults m names node stored set = ground arith

  drain_round-Stored :
      (limits : Limits) (faults : Text → Faults) (names : List Text) (content : List ℕ)
      (node : Node)
      → Stored location r_name content node
      → Stored location r_name content (drain_round sys location limits faults names node)
  unfolding drain_round Stored
  drain_round-Stored limits faults [] content node held = held
  drain_round-Stored limits faults (m ∷ names) content node held =
      subst (Stored location r_name content)
        (sym (round_step limits faults m names node held.0 held.1))
        (drain_round-Stored limits faults names content
          (drain_visit sys location limits (faults m) m node)
          (drain_visit-Stored limits (faults m) m content node held))

  listed_later :
      (m : Text) (names : List Text)
      → any (text_eq r_name) (m ∷ names) ≡ true
      → text_eq m r_name ≡ false
      → any (text_eq r_name) names ≡ true
  listed_later m names listed other =
      let e : text_eq r_name m ≡ false = text_eq_comm-false m r_name other in ground arith

  drain_round-stores :
      (limits : Limits) (faults : Text → Faults) (names : List Text) (f : FileInfo) (node : Node)
      → any (text_eq r_name) names ≡ true
      → Ready limits f
      → (faults r_name).upload_fails ≡ false
      → (faults r_name).rename_fails ≡ false
      → Waiting location r_name f node
      → Stored location r_name f.content (drain_round sys location limits faults names node)
  unfolding Waiting
  drain_round-stores limits faults [] f node listed ready uploads renames waiting = cc
  drain_round-stores limits faults (m ∷ names) f node listed ready uploads renames waiting =
      subst (Stored location r_name f.content)
        (sym (round_step limits faults m names node waiting.0 waiting.1))
        (elim (Bool-cases (text_eq m r_name)) [
          | inl same ↦
              drain_round-Stored limits faults names f.content
                (drain_visit sys location limits (faults m) m node)
                (subst
                  (λ x.
                    Stored location r_name f.content
                      (drain_visit sys location limits (faults x) x node))
                  (sym (text_eq_sound m r_name same))
                  (drain_visit-stores limits (faults r_name) f node ready uploads renames waiting))
          | inr other ↦
              drain_round-stores limits faults names f
                (drain_visit sys location limits (faults m) m node)
                (listed_later m names listed other) ready uploads renames
                (drain_visit-Waiting limits (faults m) m f node other waiting)
        ])

-- A round of the drain that lists the name of a readable file that is no directory and not empty, waits for its
-- upload and is as old as the eviction age, where there is a permanent storage and neither the upload
-- of that file nor its rename fails, leaves the file's bytes in the permanent storage, with nothing waiting under
-- its name, whatever else the round lists, before or after, and whatever fails there.
pub round_stores :
    (sys : System) (location r_name : Text) (limits : Limits) (faults : Text → Faults)
    (names : List Text) (f : FileInfo) (node : Node)
    → any (text_eq r_name) names ≡ true
    → Ready sys location r_name limits f
    → (faults r_name).upload_fails ≡ false
    → (faults r_name).rename_fails ≡ false
    → Waiting location r_name f node
    → Stored location r_name f.content (drain_round sys location limits faults names node)
round_stores sys location r_name limits faults names f node listed ready uploads renames waiting =
    drain_round-stores sys location r_name limits faults names f node listed ready uploads renames
      waiting
