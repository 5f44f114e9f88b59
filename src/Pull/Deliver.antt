-- ===== src/Pull/Deliver.antt =====
-- What More opens where every source holds the same ciphertext.
pub mod Reads
pub mod Opened
use ods.Common.{
  ℕ, zero, suc, ◌+◌, ◌-◌, ◌*◌, ◌<◌, ◌≤◌, min, Bool, true, false, Option, none, some, List, [], ◌∷◌,
  ◌++◌, length, take, drop, ◌≡◌, refl, sym, ap, subst, ◌∙◌, ℤ, pos, negsuc, ltb_ℤ, eqb_ℤ, ◌-ℤ◌,
  pos_part, ◌⊎◌, ◌||◌, not, arith, ◌==◌, ltb, ==_iff, Bool-cases, Option-cases, inl, inr,
  length-take, length-drop, take-append-drop, take-of_length_le, drop-drop, append_assoc,
}
use ods.Pull.{
  Puller, Sources, PullError, PulledFrom, pull_from_storage, pull_from_disk, pull_from_peer,
  pull_from_unknown, eof, no_handle, more, read, read_file, more_at_end, get_file_handle,
  from_storage, chunk, counted, gigabyte, asked_peer, has_storage, Handle,
}

-- Every place that holds the file holds this ciphertext: a local file and a peer's answer run from
-- the first byte asked for to the end, and the storage gives the range that is asked for.
pub record IsHonest (cipher : List ℕ) (world : Sources) : Type 0 where
  pub local_honest : (b : ℕ) (f : List ℕ) → world.local_file b ≡ some f → f ≡ drop b cipher
  pub peer_honest : (b : ℕ) (f : List ℕ) → world.peer_file b ≡ some f → f ≡ drop b cipher
  pub storage_end :
      (get_stream : ℕ → ℤ → Option (List ℕ))
      → world.storage ≡ some get_stream
      → (b : ℕ) (f : List ℕ) → get_stream b (negsuc 0) ≡ some f
      → f ≡ drop b cipher
  pub storage_range :
      (get_stream : ℕ → ℤ → Option (List ℕ))
      → world.storage ≡ some get_stream
      → (b n : ℕ) (f : List ℕ) → 0 < n
      → get_stream b (pos (b + n) -ℤ pos 1) ≡ some f
      → f ≡ take n (drop b cipher)

-- The handle holds just the bytes that Remaining counts, and they come next in the ciphertext.
unfoldable pub IsOpen : List ℕ → Puller → Type 0
IsOpen cipher p =
    (r : ℕ) × (p.remaining ≡ pos r)
    × (p.file ≡ take r (drop p.index cipher))
    × (p.index + r ≤ length cipher)
    × (p.total_len ≡ length cipher)
    × (length cipher ≤ gigabyte)
    × (0 < p.chunk_size)
    × (0 < r)

module _ (cipher : List ℕ) (world : Sources) (honest : IsHonest cipher world) where
  -- A handle from the disk or a peer holds the rest, and one from the storage what was asked of it.
  Got : ℕ → ℤ → Puller → Puller → List ℕ → Type 0
  Got b end p q f =
      (q.total_len ≡ p.total_len)
      × (q.chunk_size ≡ p.chunk_size)
      × (q.index ≡ p.index)
      × (((counted q ≡ gigabyte) × (f ≡ drop b cipher))
          ⊎ ((counted q ≡ p.chunk_size)
              × (end ≡ negsuc 0 → f ≡ drop b cipher)
              × ((n : ℕ) → 0 < n → end ≡ pos (b + n) -ℤ pos 1 → f ≡ take n (drop b cipher))))

  storage-Got :
      (b : ℕ) (end : ℤ) (p : Puller) (f : List ℕ)
      → (from_storage world b end p).1 ≡ some f
      → Got b end p (from_storage world b end p).0 f
  unfolding from_storage Got
  storage-Got b end p f h = elim (Option-cases world.storage) [
    | inl none_there ↦ absurd (ground arith)
    | inr (get_stream, there) ↦ elim (Option-cases (get_stream b end)) [
      | inl failed ↦ absurd (ground arith)
      | inr (g, found) ↦
          let same : get_stream b end ≡ some f = ground arith in
          (
            ground arith,
            ground arith,
            ground arith,
            inr (
              ground arith,
              (λ e.
                  honest.storage_end get_stream there b f
                    (subst (λ x. get_stream b x ≡ some f) e same)),
              (λ n k e.
                  honest.storage_range get_stream there b n f k
                    (subst (λ x. get_stream b x ≡ some f) e same)),
            ),
          )
    ]
  ]

  peer_asked :
      (b : ℕ) (asked : Bool) (g : List ℕ)
      → asked_peer world b asked ≡ some g
      → world.peer_file b ≡ some g
  peer_asked b true g h = h
  peer_asked b false g h = cc

  handle-Got :
      (b : ℕ) (end : ℤ) (p2p : Bool) (p : Puller) (f : List ℕ)
      → (get_file_handle world b end p2p p).1 ≡ some f
      → Got b end p (get_file_handle world b end p2p p).0 f
  unfolding get_file_handle Got
  handle-Got b end p2p p f h = elim (Option-cases (world.local_file b)) [
    | inr (g, found) ↦ (
      ground arith,
      ground arith,
      ground arith,
      inl (ground arith, honest.local_honest b f (ground arith)),
    )
    | inl missed ↦
        elim (Option-cases (asked_peer world b (p2p || (p.is_p2p || not (has_storage world))))) [
          | inr (g, found) ↦
              let held = peer_asked b (p2p || (p.is_p2p || not (has_storage world))) g found in
              let same : g ≡ f = ground arith in
              (
                ground arith,
                ground arith,
                ground arith,
                inl (ground arith, honest.peer_honest b f (held ∙ ap some same)),
              )
          | inl unasked ↦
              let q : Puller = record p { is_local = false } in
              let e : get_file_handle world b end p2p p ≡ from_storage world b end q =
                ground arith in
              subst (λ s. Got b end p s.0 f) (sym e)
                (storage-Got b end q f (ap (λ s. s.1) (sym e) ∙ h))
        ]
  ]

  -- The bytes that chunk counts are those that the handle holds.
  chunk-counts :
      (size : ℕ) (p : Puller)
      → p.index < p.total_len
      → 0 < size
      → (r : ℕ) × ((chunk size p).0 ≡ pos r)
        × (0 < r)
        × (p.index + r ≤ p.total_len)
        × (((r ≡ size) × ((chunk size p).1 ≡ pos (p.index + r) -ℤ pos 1))
            ⊎ ((r ≡ p.total_len - p.index) × ((chunk size p).1 ≡ negsuc 0)))
  unfolding chunk
  chunk-counts size p within positive = elim (Bool-cases (ltb (p.index + size) p.total_len)) [
    | inl more_left ↦ (size, ground arith, omega arith, ground arith, inl (refl, ground arith))
    | inr last ↦
        (p.total_len - p.index, ground arith, omega arith, omega arith, inr (refl, ground arith))
  ]

  chunk-same :
      (size : ℕ) (p q : Puller)
      → q.index ≡ p.index
      → q.total_len ≡ p.total_len
      → chunk size q ≡ chunk size p
  unfolding chunk
  chunk-same size p q e f = rw (e, f) refl

  -- Where a handle was opened, it holds the bytes that are counted.
  filled :
      (p q : Puller) (f : List ℕ)
      → p.index < length cipher
      → p.total_len ≡ length cipher
      → length cipher ≤ gigabyte
      → 0 < p.chunk_size
      → Got p.index (chunk p.chunk_size p).1 p q f
      → (r : ℕ) × ((chunk (counted q) q).0 ≡ pos r)
        × (f ≡ take r (drop p.index cipher))
        × (p.index + r ≤ length cipher)
        × (0 < r)
  unfolding Got
  filled p q f within whole small chunked (t, c, i, inl (big, rest)) =
      let (r, e, positive, inside, size) = chunk-counts gigabyte p (omega arith) (omega arith) in
      let l : length (drop p.index cipher) ≤ r =
        rw (length-drop p.index cipher)
          (elim size [ inl (s, x) ↦ omega arith | inr (s, x) ↦ omega arith ]) in
      (
        r,
        ap (λ n. (chunk n q).0) big ∙ ap (λ x. x.0) (chunk-same gigabyte p q i t) ∙ e,
        rest ∙ sym (take-of_length_le r (drop p.index cipher) l),
        omega arith,
        positive,
      )
  filled p q f within whole small chunked (t, c, i, inr (chunked', to_end, to_last)) =
      let (r, e, positive, inside, size) = chunk-counts p.chunk_size p (omega arith) chunked in
      let held : f ≡ take r (drop p.index cipher) = elim size [
        | inl (s, x) ↦ to_last r positive x
        | inr (s, x) ↦
            to_end x
            ∙ sym (
                take-of_length_le r (drop p.index cipher)
                  (rw (length-drop p.index cipher) (omega arith)))
      ] in
      (
        r,
        ap (λ n. (chunk n q).0) chunked' ∙ ap (λ x. x.0) (chunk-same p.chunk_size p q i t) ∙ e,
        held,
        omega arith,
        positive,
      )

  pub more-IsOpen :
      (use_p2p : Bool) (p : Puller)
      → p.index ≤ length cipher
      → p.total_len ≡ length cipher
      → length cipher ≤ gigabyte
      → 0 < p.chunk_size
      → (more world use_p2p p).1 ≡ none
      → IsOpen cipher (more world use_p2p p).0 × ((more world use_p2p p).0.index ≡ p.index)
  unfolding more IsOpen Got
  more-IsOpen use_p2p p within whole small chunked e = elim (Bool-cases (p.index == p.total_len)) [
    | inl done ↦ absurd (ground arith)
    | inr left ↦
        elim (Option-cases (get_file_handle world p.index (chunk p.chunk_size p).1 use_p2p p).1) [
          | inl failed ↦ absurd (ground arith)
          | inr (f, opened) ↦
              let q = (get_file_handle world p.index (chunk p.chunk_size p).1 use_p2p p).0 in
              let got = handle-Got p.index (chunk p.chunk_size p).1 use_p2p p f opened in
              let (r, counts, held, inside, positive) =
                filled p q f (ground arith) whole small chunked got in
              let result : more world use_p2p p
                  ≡ (record q { file = f; remaining = (chunk (counted q) q).0 }, none) =
                ground arith in
              let (t, c, i, kind) = got in
              subst (λ s. IsOpen cipher s.0 × (s.0.index ≡ p.index)) (sym result)
                (
                  (
                    r,
                    counts,
                    held ∙ ap (λ n. take r (drop n cipher)) (sym i),
                    omega (arith, i),
                    t ∙ whole,
                    small,
                    omega (arith, c),
                    positive,
                  ),
                  i,
                )
        ]
  ]

  -- More says io.EOF only at the end.
  pub more-eof :
      (use_p2p : Bool) (p : Puller) → (more world use_p2p p).1 ≡ some eof → p.index ≡ p.total_len
  unfolding more
  more-eof use_p2p p e = elim (Bool-cases (p.index == p.total_len)) [
    | inl done ↦ (==_iff p.index p.total_len).0 done
    | inr left ↦
        elim (Option-cases (get_file_handle world p.index (chunk p.chunk_size p).1 use_p2p p).1) [
          | inl failed ↦ let wrong : no_handle ≡ eof = ground arith in absurd cc
          | inr (f, opened) ↦ absurd (ground arith)
        ]
  ]
