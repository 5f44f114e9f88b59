-- ===== src/Pull/Deliver/Opened.antt =====
-- The puller that NewPuller returns, and what it delivers.
use ods.Common.{
  ℕ, zero, suc, ◌+◌, ◌<◌, ◌≤◌, Bool, true, false, not, ◌||◌, Option, none, some, List, ◌++◌, length,
  drop, ◌≡◌, refl, sym, subst, ◌∙◌, ℤ, arith, ◌==◌, Bool-cases, Option-cases, inl, inr, All,
}
use ods.Pull.{
  Puller, Sources, PullError, eof, more, get_file_handle, from_storage, chunk, asked_peer,
  has_storage, gigabyte, retry, with_peers, new_puller, fresh_puller,
}
use ods.Pull.Deliver.{IsHonest, IsOpen, more-IsOpen}
use ods.Pull.Deliver.Reads.{IsDelivered, reads, reads-IsDelivered}

Kept : Puller → Puller → Type 0
Kept p q = (q.total_len ≡ p.total_len) × (q.chunk_size ≡ p.chunk_size) × (q.index ≡ p.index)

handle-Kept :
    (world : Sources) (b : ℕ) (end : ℤ) (p2p : Bool) (p : Puller)
    → Kept p (get_file_handle world b end p2p p).0
unfolding Kept get_file_handle from_storage
handle-Kept world b end p2p p = elim (Option-cases (world.local_file b)) [
  | inr (g, found) ↦ (ground arith, ground arith, ground arith)
  | inl missed ↦
      elim (Option-cases (asked_peer world b (p2p || (p.is_p2p || not (has_storage world))))) [
        | inr (g, found) ↦ (ground arith, ground arith, ground arith)
        | inl unasked ↦ elim (Option-cases world.storage) [
          | inl nowhere ↦ (ground arith, ground arith, ground arith)
          | inr (get_stream, there) ↦ elim (Option-cases (get_stream b end)) [
            | inl failed ↦ (ground arith, ground arith, ground arith)
            | inr (g, found) ↦ (ground arith, ground arith, ground arith)
          ]
        ]
      ]
]

more-Kept : (world : Sources) (use_p2p : Bool) (p : Puller) → Kept p (more world use_p2p p).0
unfolding Kept more
more-Kept world use_p2p p =
    let (t, c, i) = handle-Kept world p.index (chunk p.chunk_size p).1 use_p2p p in
    elim (Bool-cases (p.index == p.total_len)) [
      | inl done ↦ (ground arith, ground arith, ground arith)
      | inr left ↦
          elim (Option-cases (get_file_handle world p.index (chunk p.chunk_size p).1 use_p2p p).1) [
            | inl failed ↦ (ground arith, ground arith, ground arith)
            | inr (f, opened) ↦ (ground arith, ground arith, ground arith)
          ]
    ]

module _ (cipher : List ℕ) (small : length cipher ≤ gigabyte) (world : ℕ → Sources)
    (honest : (n : ℕ) → IsHonest cipher (world n)) (p : Puller) (within : p.index ≤ length cipher)
    (whole : p.total_len ≡ length cipher) (chunked : 0 < p.chunk_size) where
  -- The puller of an attempt, open where the attempt succeeded.
  IsTried : Puller × Option PullError → Type 0
  IsTried (q, e) = Kept p q × (e ≡ none → IsOpen cipher q)

  more-IsTried :
      (n : ℕ) (use_p2p : Bool) (q : Puller) → Kept p q → IsTried (more (world n) use_p2p q)
  unfolding IsTried Kept
  more-IsTried n use_p2p q (t, c, i) =
      let (t', c', i') = more-Kept (world n) use_p2p q in
      (
        (t' ∙ t, c' ∙ c, i' ∙ i),
        (λ e.
            (more-IsOpen cipher (world n) (honest n) use_p2p q (omega arith) (t ∙ whole) small
              (omega arith) e).0),
      )

  retry-IsTried :
      (attempts sleep slept : ℕ) (s : Puller × Option PullError)
      → IsTried s
      → IsTried (retry world attempts sleep slept s).0
  unfolding retry IsTried
  retry-IsTried zero sleep slept (q, e) tried = tried
  retry-IsTried (suc attempts) sleep slept (q, none) tried = tried
  retry-IsTried (suc zero) sleep slept (q, some e) (kept, opened) =
      let next = more-IsTried 1 false q kept in
      let same : (retry world 1 sleep slept (q, some e)).0 ≡ more (world 1) false q =
        elim (Option-cases (more (world 1) false q).1) [
          | inl fine ↦ ground arith
          | inr (x, failed) ↦ ground arith
        ] in
      subst IsTried (sym same) next
  retry-IsTried (suc (suc a)) sleep slept (q, some e) (kept, opened) =
      let next = more-IsTried (suc (suc a)) false q kept in
      let got = more (world (suc (suc a))) false q in
      let twice = sleep + sleep in
      elim (Option-cases got.1) [
        | inl fine ↦
            let same : (retry world (suc (suc a)) sleep slept (q, some e)).0 ≡ got = ground arith in
            subst IsTried (sym same) next
        | inr (x, failed) ↦
            let same : retry world (suc (suc a)) sleep slept (q, some e)
                ≡ retry world (suc a) twice (slept + twice) got =
              ground arith in
            subst (λ s. IsTried s.0) (sym same)
              (retry-IsTried (suc a) twice (slept + twice) got next)
      ]

  with_peers-IsTried :
      (n : ℕ) (enabled : Bool) (s : Puller × Option PullError)
      → IsTried s
      → IsTried (with_peers (world n) enabled s)
  unfolding with_peers IsTried
  with_peers-IsTried n enabled (q, none) tried = tried
  with_peers-IsTried n true (q, some e) (kept, opened) = more-IsTried n true q kept
  with_peers-IsTried n false (q, some e) tried = tried

-- NewPuller over sources that hold one ciphertext of at most a gigabyte, at each of its attempts:
-- where it returns a puller, what that gives, however its bytes are then read from such sources (every
-- Read asking for at least a byte), is the ciphertext from the first byte asked for on; it reports
-- io.EOF only after all of it, and every Read without an error gives at least a byte.
pub puller_delivers :
    (cipher : List ℕ)
    → length cipher ≤ gigabyte
    → (world : ℕ → Sources) → ((n : ℕ) → IsHonest cipher (world n))
    → (peer_enabled : Bool) (chunk_size start : ℕ) → 0 < chunk_size
    → start ≤ length cipher
    → (new_puller world peer_enabled (length cipher) chunk_size start).0.1 ≡ none
    → (later : Sources) → IsHonest cipher later
    → (ks : List ℕ) → All (λ k. 0 < k) ks
    → let (bytes, q, e) =
        reads later ks (new_puller world peer_enabled (length cipher) chunk_size start).0.0 in
      (bytes ++ drop (start + length bytes) cipher ≡ drop start cipher)
      × (e ≡ some eof → bytes ≡ drop start cipher)
      × (e ≡ none → length ks ≤ length bytes)
unfolding new_puller Kept IsTried IsDelivered
puller_delivers cipher small world honest peer_enabled chunk_size start chunked within opened later
      later_honest ks positive =
    let p = fresh_puller (length cipher) chunk_size start in
    let first =
      more-IsTried cipher small world honest p within refl chunked 22 false p (refl, refl, refl) in
    let second =
      with_peers-IsTried cipher small world honest p within refl chunked 21 peer_enabled
        (more (world 22) false p) first in
    let tried : IsTried cipher small world honest p within refl chunked
        (new_puller world peer_enabled (length cipher) chunk_size start).0 =
      elim (Bool-cases (has_storage (world 20))) [
        | inl some_storage ↦
            rw some_storage
              (retry-IsTried cipher small world honest p within refl chunked 20 1 0 _ second)
        | inr no_storage ↦ rw no_storage second
      ] in
    let ((t, c, i), ready) = tried in
    subst
      (λ n.
        IsDelivered cipher ks n
          (reads later ks (new_puller world peer_enabled (length cipher) chunk_size start).0.0))
      i
      (reads-IsDelivered cipher later later_honest ks positive
        (new_puller world peer_enabled (length cipher) chunk_size start).0.0 (ready opened))
