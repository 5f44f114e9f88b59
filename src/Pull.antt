-- ===== src/Pull.antt =====
-- ciphertext/puller.go: a ciphertext read piece by piece from the local cache, a peer, or the
-- permanent storage. A handle is the list of the bytes that it still holds. What the three places
-- hold at a moment is an argument; UseLocalFile, useP2PFile and GetStream open them at an offset.
pub mod Deliver
pub mod Stall
use ods.Common.{
  ℕ, zero, suc, ◌+◌, ◌-◌, ◌*◌, Bool, true, false, not, ◌&&◌, ◌||◌, Option, none, some, List, [],
  ◌∷◌, ◌++◌, length, take, drop, ltb, ◌==◌, if◌then◌else◌, ℤ, pos, negsuc, ltb_ℤ, eqb_ℤ, ◌-ℤ◌, ◌+ℤ◌,
  Result, ok, err,
}

pub data PulledFrom : Type 0 where
  pull_from_unknown : PulledFrom
  pull_from_disk : PulledFrom
  pull_from_storage : PulledFrom
  pull_from_peer : PulledFrom

-- `remaining` goes below zero where a handle gives more than was counted.
pub record Puller : Type 0 where
  pub total_len : ℕ
  pub chunk_size : ℕ
  pub index : ℕ
  pub remaining : ℤ
  pub file : List ℕ
  pub is_local : Bool
  pub is_p2p : Bool
  pub from : PulledFrom

-- The local cache and the peers at a first byte, and the permanent storage, if there is one, from a
-- first byte to a last, -1 for the end.
pub record Sources : Type 0 where
  pub local_file : ℕ → Option (List ℕ)
  pub peer_file : ℕ → Option (List ℕ)
  pub storage : Option (ℕ → ℤ → Option (List ℕ))

pub data PullError : Type 0 where
  eof : PullError
  no_handle : PullError

abbrev pub Handle : Type 0
Handle = Puller × Option (List ℕ)

unfoldable pub from_storage : Sources → ℕ → ℤ → Puller → Handle
from_storage world begin end p = elim world.storage [
  | none ↦ (p, none)
  | some get_stream ↦ elim (get_stream begin end) [
    | some f ↦ (record p { from = pull_from_storage }, some f)
    | none ↦ (record p { from = pull_from_unknown }, none)
  ]
]

abbrev pub has_storage : Sources → Bool
has_storage world = elim world.storage [ none ↦ false | some s ↦ true ]

-- the peers' file, where they are asked
abbrev pub asked_peer : Sources → ℕ → Bool → Option (List ℕ)
asked_peer world begin asked = if asked then world.peer_file begin else none

unfoldable pub get_file_handle : Sources → ℕ → ℤ → Bool → Puller → Handle
unfolding from_storage
get_file_handle world begin end p2p p = elim (world.local_file begin) [
  | some f ↦ (record p { is_local = true; from = pull_from_disk }, some f)
  | none ↦ elim (asked_peer world begin (p2p || (p.is_p2p || not (has_storage world)))) [
    | some f ↦ (record p { is_local = false; is_p2p = true; from = pull_from_peer }, some f)
    | none ↦ from_storage world begin end (record p { is_local = false })
  ]
]

-- How many bytes of a chunk of that size are left, and the last of them.
unfoldable pub chunk : ℕ → Puller → ℤ × ℤ
chunk size p =
    if ltb (p.index + size) p.total_len
    then (pos size, pos (p.index + size) -ℤ pos 1)
    else (pos p.total_len -ℤ pos p.index, negsuc 0)

abbrev pub gigabyte : ℕ
gigabyte = 1073741824

abbrev pub counted : Puller → ℕ
counted p = elim p.from [ pull_from_storage ↦ p.chunk_size | _ ↦ gigabyte ]

unfoldable pub more : Sources → Bool → Puller → Puller × Option PullError
unfolding get_file_handle chunk
more world use_p2p p =
    if p.index == p.total_len
    then (p, some eof)
    else let (q, handle) = get_file_handle world p.index (chunk p.chunk_size p).1 use_p2p p in
      elim handle [
        | none ↦ (q, some no_handle)
        | some f ↦ (record q { file = f; remaining = (chunk (counted q) q).0 }, none)
      ]

-- What File.Read returns where its reader hands over `k` bytes, fewer at the end, and io.EOF only
-- when it holds none.
unfoldable pub read_file : ℕ → Puller → List ℕ × Puller × Option PullError
read_file k p = (
  take k p.file,
  record p {
    file = drop k p.file;
    remaining = p.remaining -ℤ pos (length (take k p.file));
    index = p.index + length (take k p.file);
  },
  (elim p.file [ [] ↦ some eof | x ∷ xs ↦ none ]),
)

abbrev pub more_at_end : Sources → Puller → Option PullError → Puller × Option PullError
more_at_end world p e = if eqb_ℤ p.remaining (pos 0) then more world false p else (p, e)

-- Read, with a buffer for `k` bytes or more
unfoldable pub read : Sources → ℕ → Puller → List ℕ × Puller × Option PullError
read world k p =
    let (bytes, q, e) = if ltb_ℤ (pos 0) p.remaining then read_file k p else ([], p, none) in
    let (r, e') = more_at_end world q e in (bytes, r, e')

-- The retries of NewPuller: the sources at each attempt, the seconds slept before it, and those slept
-- in all. The last failure is not followed by a sleep.
unfoldable pub retry :
    (ℕ → Sources)
    → (attempts sleep slept : ℕ) → Puller × Option PullError
    → (Puller × Option PullError) × ℕ
retry world zero sleep slept (p, e) = ((p, e), slept)
retry world (suc attempts) sleep slept (p, none) = ((p, none), slept)
retry world (suc attempts) sleep slept (p, some e) =
    let next = more (world (suc attempts)) false p in
    let twice = sleep + sleep in
    let rest = retry world attempts twice (slept + twice) next in
    elim next.1 [
      | none ↦ (next, slept)
      | some e' ↦ elim attempts [ zero ↦ (next, slept) | suc a ↦ rest ]
    ]

abbrev pub fresh_puller : (total_len chunk_size cipher_start_at : ℕ) → Puller
fresh_puller total_len chunk_size cipher_start_at = record {
  total_len = total_len;
  chunk_size = chunk_size;
  index = cipher_start_at;
  remaining = pos 0;
  file = [];
  is_local = false;
  is_p2p = false;
  from = pull_from_unknown;
}

-- the second call of More, with the peers, where the first fails
unfoldable pub with_peers :
    Sources → (peer_enabled : Bool) → Puller × Option PullError → Puller × Option PullError
with_peers world peer_enabled (p, none) = (p, none)
with_peers world peer_enabled (p, some e) = if peer_enabled then more world true p else (p, some e)

-- NewPuller, and the seconds that it slept. `world 21` and `world 22` are the sources at first.
unfoldable pub new_puller :
    (ℕ → Sources)
    → (peer_enabled : Bool) → (total_len chunk_size cipher_start_at : ℕ)
    → (Puller × Option PullError) × ℕ
new_puller world peer_enabled total_len chunk_size cipher_start_at =
    let first = more (world 22) false (fresh_puller total_len chunk_size cipher_start_at) in
    let second = with_peers (world 21) peer_enabled first in
    if has_storage (world 20) then retry world 20 1 0 second else (second, 0)
