-- ===== src/Tests/Pulls.antt =====
-- Six bytes of ciphertext in a permanent storage, pulled in chunks of four.
use ods.Common.{
  ℕ, ◌+◌, ◌-◌, ◌≤◌, ◌<◌, true, false, Option, some, none, List, [], ◌∷◌, ◌++◌, length, take, drop,
  ◌≡◌, refl, sym, ap, ◌∙◌, arith, ℤ, pos, negsuc, ◌-ℤ◌,
}
use ods.Pull.{
  Puller, Sources, pull_from_disk, eof, more, get_file_handle, from_storage, chunk, retry,
  with_peers, new_puller, fresh_puller,
}
use ods.Pull.Deliver.{IsHonest}
use ods.Pull.Deliver.Reads.{reads}
use ods.Pull.Deliver.Opened.{puller_delivers}
use ods.Pull.Stall.{end_stalls}

abbrev cipher : List ℕ
cipher = 10 ∷ 20 ∷ 30 ∷ 40 ∷ 50 ∷ 60 ∷ []

abbrev get_stream : ℕ → ℤ → Option (List ℕ)
get_stream begin (pos end) = some (take (end + 1 - begin) (drop begin cipher))
get_stream begin (negsuc n) = some (drop begin cipher)

abbrev stored : Sources
stored = record { local_file = λ b. none; peer_file = λ b. none; storage = some get_stream }

ranged :
    (b n : ℕ) (f : List ℕ)
    → 0 < n
    → get_stream b (pos (b + n) -ℤ pos 1) ≡ some f
    → f ≡ take n (drop b cipher)
ranged b n f positive h =
    let e : (pos (b + n) -ℤ pos 1) ≡ pos (b + n - 1) = ground arith in
    let l : b + n - 1 + 1 - b ≡ n = omega arith in
    let g : some f ≡ some (take (b + n - 1 + 1 - b) (drop b cipher)) =
      sym h ∙ ap (get_stream b) e in
    let k : f ≡ take (b + n - 1 + 1 - b) (drop b cipher) = cc in
    k ∙ ap (λ m. take m (drop b cipher)) l

stored-IsHonest : IsHonest cipher stored
stored-IsHonest = record {
  local_honest = λ b f h. absurd cc;
  peer_honest = λ b f h. absurd cc;
  storage_end = λ s e b f h.
      let same : get_stream ≡ s = cc in
      let g : get_stream b (negsuc 0) ≡ some f = ap (λ g. g b (negsuc 0)) same ∙ h in cc;
  storage_range = λ s e b n f k h.
      let same : get_stream ≡ s = cc in
      ranged b n f k (ap (λ g. g b (pos (b + n) -ℤ pos 1)) same ∙ h);
}

opened : (new_puller (λ n. stored) false 6 4 1).0.1 ≡ none
unfolding new_puller more get_file_handle from_storage chunk retry with_peers
opened = refl

puller_delivers_example :
    let (bytes, q, e) =
      reads stored (2 ∷ 100 ∷ 3 ∷ []) (new_puller (λ n. stored) false 6 4 1).0.0 in
    (bytes ++ drop (1 + length bytes) cipher ≡ drop 1 cipher)
    × (e ≡ some eof → bytes ≡ drop 1 cipher)
    × (e ≡ none → 3 ≤ length bytes)
puller_delivers_example =
    puller_delivers cipher (omega arith) (λ n. stored) (λ n. stored-IsHonest) false 4 1
      (omega arith) (omega arith) opened stored stored-IsHonest (2 ∷ 100 ∷ 3 ∷ [])
      (omega arith, (omega arith, (omega arith, tt)))

-- A handle on a local file that holds more than is counted.
abbrev overfull : Puller
overfull = record (fresh_puller 6 4 0) {
  remaining = pos 2;
  file = cipher;
  is_local = true;
  from = pull_from_disk;
}

end_stalls_example : new_puller (λ n. stored) true 6 4 6 ≡ ((fresh_puller 6 4 6, some eof), 1048574)
end_stalls_example = end_stalls (λ n. stored) true 6 4 refl
