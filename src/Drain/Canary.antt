-- ===== src/Drain/Canary.antt =====
-- ciphertext/cache.go: haveCanary, expectCanary and masterKeyCheck. The hash of the master key, as hex
-- digits, is an argument. An error of File.Write or Close, which the code drops, is not modelled.
use ods.Common.{
  Bool, not, Option, none, some, [], Text, codes, text_eq, is_empty, length, if◌then◌else◌,
}
use ods.Cache.{System, lookup}
use ods.Drain.{
  Node, Faults, not_found, place, regular, unlink, uploaded_path, cached_path, write_back,
}
use ods.Drain.Recache.{Recaching, recache}

pub data CanaryError : Type 0 where
  not_there : CanaryError
  check_failed : CanaryError
  mismatch : CanaryError

-- What happens during a call of masterKeyCheck.
pub record Checking : Type 0 where
  pub recaching : Recaching
  pub read_fails : Bool
  pub create_fails : Bool
  pub writing : Faults

abbrev pub canary : Text
canary = codes "canary"

module _ (sys : System) (location : Text) where
  unfoldable pub read_canary : Checking → Node → Text × Option CanaryError
  read_canary env node = elim (lookup (cached_path location canary) node.disk) [
    | none ↦ ([], some check_failed)
    | some f ↦
        if sys.unreadable (cached_path location canary)
        then ([], some check_failed)
        else if env.read_fails
        then ([], some check_failed)
        else (f.content, none)
  ]

  unfoldable pub have_canary : Checking → Node → Node × (Text × Option CanaryError)
  unfolding read_canary
  have_canary env node =
      let (after, e) = recache sys location env.recaching canary node in
      elim e [
        | some not_found ↦ (after, ([], some not_there))
        | some x ↦ (after, ([], some check_failed))
        | none ↦ (after, read_canary env after)
      ]

  unfoldable pub expect_canary : Checking → Text → Node → Node × Option CanaryError
  unfolding place regular unlink
  expect_canary env expected node =
      let name = uploaded_path location canary in
      let removed_after = λ (n : Node). record n { disk = unlink sys name n.disk } in
      if env.create_fails
      then (removed_after node, some check_failed)
      else let written = record node { disk = place (regular sys.now name expected) node.disk } in
        let (after, e) = write_back sys location env.writing canary (length expected) written in
        (removed_after after, elim e [ none ↦ none | some x ↦ some check_failed ])

  unfoldable pub master_key_check : Checking → (expected : Text) → Node → Node × Option CanaryError
  unfolding have_canary expect_canary unlink
  master_key_check env expected node =
      let (after, (have, e)) = have_canary env node in
      if is_empty have then expect_canary env expected after else elim e [
        | some not_there ↦ expect_canary env expected after
        | some x ↦ (after, some x)
        | none ↦
            if not (text_eq have expected)
            then (
              record after { disk = unlink sys (cached_path location canary) after.disk },
              some mismatch,
            )
            else (after, none)
      ]
