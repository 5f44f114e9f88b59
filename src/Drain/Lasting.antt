-- ===== src/Drain/Lasting.antt =====
-- What is uploaded lasts: no run of uploads, write-backs (by the handlers or by the drain), purges and
-- recaches takes a file away, whatever fails on the way. A step is one whole call.
use ods.Common.{
  ℕ, ◌<◌, ◌||◌, Option, none, some, List, ◌++◌, Text, codes, text_eq, text_eq_sound, length, ◌≡◌,
  refl, sym, ap, ◌∙◌, subst, inl, inr, arith, Bool-cases, Option-cases, leb_ℤ, pos, ◌-ℤ◌,
}
use ods.Cache.{is_dir, size_of, System, Limits, Usage, CachePurgeStats, lookup, file_purge_visit}
use ods.Cache.Purged.{visit-waiting}
use ods.Drain.{
  Node, Storage, Faults, resolve, uploaded_path, caching_path, write_back, begin_upload,
  drain_visit,
}
use ods.Drain.Recache.{Recaching, stat, is_not_exist, recache, background_recache}
use ods.Drain.Kept.{contents, contents_same, Sized, Held}
use ods.Drain.Written.{write_back-Held}
use ods.Drain.Beside.{Beside, recache-Beside}
use ods.Drain.Upload.{begin_upload-Beside}
use ods.Drain.Paths.{ext-uploaded}

pub data Step (location : Text) : Node → Node → Type 0 where
  uploads :
      (sys : System) (faults : Faults) (m : Text) (cipher : List ℕ) (node : Node)
      → contents location m node ≡ none
      → Step location node (begin_upload sys location faults m cipher node).0
  writes_back :
      (sys : System) (faults : Faults) (m : Text) (size : ℕ) (node : Node)
      → Sized location m size node
      → Step location node (write_back sys location faults m size node).0
  drains :
      (sys : System) (limits : Limits) (faults : Faults) (m : Text) (node : Node)
      → Step location node (drain_visit sys location limits faults m node)
  purges :
      (sys : System) (limits : Limits) (usage : Usage) (path : Text) (cps : CachePurgeStats)
      (node : Node)
      → Step location node
          (record node { disk = (file_purge_visit sys limits usage path (node.disk, cps)).0 })
  recaches :
      (sys : System) (env : Recaching) (m : Text) (node : Node)
      → Step location node (recache sys location env m node).0
  recaches_behind :
      (sys : System) (env : Recaching) (m : Text) (node : Node)
      → Step location node (background_recache sys location env m node)

pub data Reach (location : Text) (start : Node) : Node → Type 0 where
  here : Reach location start start
  next :
      {node node' : Node}
      → Reach location start node
      → Step location node node'
      → Reach location start node'

module _ (location r_name : Text) (content : List ℕ) where
  Held-Beside :
      (node node' : Node)
      → Held location r_name content node
      → Beside location r_name node node'
      → Held location r_name content node'
  unfolding Held Beside
  Held-Beside node node' ((stored, set), held) (waiting, same) =
      ((stored, same ∙ set), contents_same location r_name node node' waiting same ∙ held)

  written-Held :
      (sys : System) (faults : Faults) (m : Text) (size : ℕ) (node : Node)
      → Sized location m size node
      → 0 < length content
      → Held location r_name content node
      → Held location r_name content (write_back sys location faults m size node).0
  unfolding Held
  written-Held sys faults m size node sized some_bytes ((stored, set), held) =
      let same : node ≡ record { disk = node.disk; stored = some stored } =
        ap (λ (s : Option Storage). record { disk = node.disk; stored = s }) set in
      subst (λ x. Held location r_name content (write_back sys location faults m size x).0)
        (sym same)
        (write_back-Held sys location faults m r_name size content node.disk stored
          (subst (Sized location m size) same sized) some_bytes
          (ap (contents location r_name) (sym same) ∙ held))

  drain_visit-Held :
      (sys : System) (limits : Limits) (faults : Faults) (m : Text) (node : Node)
      → 0 < length content
      → Held location r_name content node
      → Held location r_name content (drain_visit sys location limits faults m node)
  unfolding drain_visit Sized
  drain_visit-Held sys limits faults m node some_bytes held =
      elim (Option-cases (lookup (uploaded_path location m) node.disk)) [
        | inl gone ↦ subst (Held location r_name content) (ground arith) held
        | inr (f, found) ↦
            let sized : Sized location m (size_of f) node =
              λ g found'. let e : f ≡ g = cc in ap size_of e in
            let written = written-Held sys faults m (size_of f) node sized some_bytes held in
            elim (Bool-cases (sys.unreadable (uploaded_path location m) || is_dir f)) [
              | inl skip ↦ subst (Held location r_name content) (ground arith) held
              | inr visit ↦
                  elim (Bool-cases
                    (leb_ℤ (pos limits.age_eligible_for_eviction) (sys.now -ℤ f.mod_time))) [
                      | inl old ↦ subst (Held location r_name content) (ground arith) written
                      | inr young ↦ subst (Held location r_name content) (ground arith) held
                    ]
            ]
      ]

  begin_upload-Held :
      (sys : System) (faults : Faults) (m : Text) (cipher : List ℕ) (node : Node)
      → contents location m node ≡ none
      → Held location r_name content node
      → Held location r_name content (begin_upload sys location faults m cipher node).0
  unfolding Held
  begin_upload-Held sys faults m cipher node fresh held =
      Held-Beside node (begin_upload sys location faults m cipher node).0 held (
        begin_upload-Beside sys location r_name faults m cipher node
          (elim (Bool-cases (text_eq m r_name)) [
            | inr other ↦ other
            | inl same ↦
                let e : contents location r_name node ≡ none =
                  subst (λ x. contents location x node ≡ none) (text_eq_sound m r_name same)
                    fresh in
                let both = held.1 in absurd cc
          ]))

  purge-Held :
      (sys : System) (limits : Limits) (usage : Usage) (path : Text) (cps : CachePurgeStats)
      (node : Node)
      → Held location r_name content node
      → Held location r_name content
          (record node { disk = (file_purge_visit sys limits usage path (node.disk, cps)).0 })
  unfolding Beside resolve
  purge-Held sys limits usage path cps node held =
      Held-Beside node
        (record node { disk = (file_purge_visit sys limits usage path (node.disk, cps)).0 }) held
        (
          visit-waiting sys limits usage path (uploaded_path location r_name) node.disk cps
              (ext-uploaded (location ++ (codes "/" ++ r_name))),
          refl,
        )

  background-Held :
      (sys : System) (env : Recaching) (m : Text) (node : Node)
      → Held location r_name content node
      → Held location r_name content (background_recache sys location env m node)
  unfolding background_recache
  background-Held sys env m node held =
      let done = recache sys location env m node in
      elim (Bool-cases (is_not_exist (stat sys (caching_path location m) node.disk))) [
        | inl free ↦
            subst (Held location r_name content) (ground arith)
              (Held-Beside node done.0 held (recache-Beside sys location r_name env m node))
        | inr locked ↦ subst (Held location r_name content) (ground arith) held
      ]

  Step-Held :
      (node node' : Node)
      → Step location node node'
      → 0 < length content
      → Held location r_name content node
      → Held location r_name content node'
  Step-Held _ _ (uploads sys faults m cipher node fresh) some_bytes held =
      begin_upload-Held sys faults m cipher node fresh held
  Step-Held _ _ (writes_back sys faults m size node sized) some_bytes held =
      written-Held sys faults m size node sized some_bytes held
  Step-Held _ _ (drains sys limits faults m node) some_bytes held =
      drain_visit-Held sys limits faults m node some_bytes held
  Step-Held _ _ (purges sys limits usage path cps node) some_bytes held =
      purge-Held sys limits usage path cps node held
  Step-Held _ _ (recaches sys env m node) some_bytes held =
      Held-Beside node (recache sys location env m node).0 held
        (recache-Beside sys location r_name env m node)
  Step-Held _ _ (recaches_behind sys env m node) some_bytes held =
      background-Held sys env m node held

  Reach-Held :
      (start node : Node)
      → Reach location start node
      → 0 < length content
      → Held location r_name content start
      → Held location r_name content node
  Reach-Held start node here some_bytes held = held
  Reach-Held start node (next {node = before} run step) some_bytes held =
      Step-Held before node step some_bytes (Reach-Held start before run some_bytes held)

-- Where there is a permanent storage, a file that is not empty and that is held under a name, be it
-- waiting for its upload or stored, is held there, byte for byte, after every run of uploads under
-- names that hold nothing, write-backs with the file's size, visits of the drain and of the purge, and
-- recaches, whatever fails in any of them.
pub nothing_lost :
    (location r_name : Text) (content : List ℕ) (start node : Node) (stored : Storage)
    → start.stored ≡ some stored
    → contents location r_name start ≡ some content
    → 0 < length content
    → Reach location start node
    → contents location r_name node ≡ some content
unfolding Held
nothing_lost location r_name content start node stored set held some_bytes run =
    (Reach-Held location r_name content start node run some_bytes ((stored, set), held)).1
