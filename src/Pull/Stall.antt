-- ===== src/Pull/Stall.antt =====
-- Where the puller makes no progress.
use native.Mathlib.Nat.{pow-suc}
use ods.Common.{
  ℕ, zero, suc, ◌+◌, ◌-◌, ◌*◌, ◌^◌, ◌<◌, Bool, true, false, none, some, [], length, take, ◌≡◌, refl,
  sym, ap, ◌∙◌, pos, negsuc, ltb_ℤ, eqb_ℤ, ◌-ℤ◌, arith, ==_iff, length-take, min,
}
use ods.Pull.{
  Puller, Sources, eof, more, read, read_file, retry, with_peers, new_puller, fresh_puller,
  has_storage,
}

-- Once Remaining is negative, every Read returns no byte and no error, and changes nothing.
pub negative_stalls :
    (world : Sources) (k : ℕ) (p : Puller) (n : ℕ)
    → p.remaining ≡ negsuc n
    → read world k p ≡ ([], p, none)
unfolding read
negative_stalls world k p n h =
    let positive : ltb_ℤ (pos 0) p.remaining ≡ false = ground arith in
    let zero : eqb_ℤ p.remaining (pos 0) ≡ false = ground arith in ground arith

min_over : (k r n : ℕ) → r < k → r < n → r < min k n
min_over k r n a b = omega arith

overrun :
    (world : Sources) (k r : ℕ) (p : Puller)
    → p.remaining ≡ pos r
    → 0 < r
    → r < k
    → r < length p.file
    → (n : ℕ) × ((read world k p).1.remaining ≡ negsuc n)
unfolding read read_file
overrun world k r p h positive over more_held =
    let given : r < length (take k p.file) =
      rw (length-take k p.file) (min_over k r (length p.file) over more_held) in
    let n = length (take k p.file) - r - 1 in
    let left : p.remaining -ℤ pos (length (take k p.file)) ≡ negsuc n = rw h (ground arith) in
    let go : ltb_ℤ (pos 0) p.remaining ≡ true = rw h (ground arith) in
    let stay : eqb_ℤ (p.remaining -ℤ pos (length (take k p.file))) (pos 0) ≡ false =
      rw left (ground arith) in
    (n, ground arith)

-- A Read that takes more bytes out of its handle than Remaining counts leaves a puller from which
-- every later Read returns no byte and no error.
pub overrun_stalls :
    (world : Sources) (k r : ℕ) (p : Puller)
    → p.remaining ≡ pos r
    → 0 < r
    → r < k
    → r < length p.file
    → (later : Sources) (j : ℕ) → read later j (read world k p).1 ≡ ([], (read world k p).1, none)
overrun_stalls world k r p h positive over more_held later j =
    let (n, e) = overrun world k r p h positive over more_held in
    negative_stalls later j (read world k p).1 n e

at_end :
    (world : Sources) (use_p2p : Bool) (p : Puller)
    → p.index ≡ p.total_len
    → more world use_p2p p ≡ (p, some eof)
unfolding more
at_end world use_p2p p h = let e = (==_iff p.index p.total_len).1 h in ground arith

retry_again :
    (world : ℕ → Sources) (a sleep slept : ℕ) (p : Puller)
    → p.index ≡ p.total_len
    → retry world (suc (suc a)) sleep slept (p, some eof)
      ≡ retry world (suc a) (sleep + sleep) (slept + (sleep + sleep)) (p, some eof)
unfolding retry
retry_again world a sleep slept p h = ground (arith, at_end (world (suc (suc a))) false p h)

retry_once :
    (world : ℕ → Sources) (sleep slept : ℕ) (p : Puller)
    → p.index ≡ p.total_len
    → retry world 1 sleep slept (p, some eof) ≡ ((p, some eof), slept)
unfolding retry
retry_once world sleep slept p h = ground (arith, at_end (world 1) false p h)

doubled : (s x : ℕ) → (s + s) * x ≡ s * (x * 2)
doubled s x = omega arith

retry_at_end :
    (world : ℕ → Sources) (a sleep slept : ℕ) (p : Puller)
    → p.index ≡ p.total_len
    → (all_slept : ℕ) × (retry world (suc a) sleep slept (p, some eof) ≡ ((p, some eof), all_slept))
      × (all_slept + 2 * sleep ≡ slept + sleep * 2 ^ suc a)
retry_at_end world zero sleep slept p h = (slept, retry_once world sleep slept p h, omega arith)
retry_at_end world (suc a) sleep slept p h =
    let (s, e, l) = retry_at_end world a (sleep + sleep) (slept + (sleep + sleep)) p h in
    let power = ap (λ x. sleep * x) (pow-suc 2 (suc a)) ∙ sym (doubled sleep (2 ^ suc a)) in
    (s, retry_again world a sleep slept p h ∙ e, omega arith)

with_peers_at_end :
    (world : Sources) (peer_enabled : Bool) (p : Puller)
    → p.index ≡ p.total_len
    → with_peers world peer_enabled (p, some eof) ≡ (p, some eof)
unfolding with_peers
with_peers_at_end world true p h = at_end world true p h
with_peers_at_end world false p h = refl

-- Where the first byte asked for stands at the end of the ciphertext, and there is a permanent storage,
-- NewPuller fails, whatever the sources hold, after it has slept for 2^20 - 2 seconds.
pub end_stalls :
    (world : ℕ → Sources) (peer_enabled : Bool) (total_len chunk_size : ℕ)
    → has_storage (world 20) ≡ true
    → new_puller world peer_enabled total_len chunk_size total_len
      ≡ ((fresh_puller total_len chunk_size total_len, some eof), 1048574)
unfolding new_puller
end_stalls world peer_enabled total_len chunk_size h =
    let p = fresh_puller total_len chunk_size total_len in
    let (s, e, l) = retry_at_end world 19 1 0 p refl in
    let seconds : s ≡ 1048574 = omega arith in
    let second : with_peers (world 21) peer_enabled (more (world 22) false p) ≡ (p, some eof) =
      rw (at_end (world 22) false p refl) (with_peers_at_end (world 21) peer_enabled p refl) in
    rw (h, second, e) (ap (λ n. ((p, some eof), n)) seconds)
