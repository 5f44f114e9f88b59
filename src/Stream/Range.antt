-- ===== src/Stream/Range.antt =====
-- What a range request writes is that part of the plaintext.
use ods.Common.{
  ℕ, zero, suc, ◌+◌, ◌-◌, ◌*◌, ◌/◌, ◌^◌, ◌<◌, ◌≤◌, ◌≡◌, refl, ap, ◌∙◌, some, List, [], ◌∷◌, length,
  drop, take, arith, ℤ, pos, negsuc, pos_part, ◌-ℤ◌, ◌+ℤ◌, eqb_ℤ, if◌then◌else◌, length-drop,
  drop-drop, ltb, Bool-cases, inl, inr,
}
use ods.Crypto.{IsBytes}
use ods.Stream.{ByteRange, block_size, adjust_iv, add_blocks}
use ods.Stream.Counter.{CreatedIv, add_blocks_exact}
use ods.Stream.Copy.{Aes, xor_key_stream, range_copy, copy, copy_n, from_start}
use ods.Stream.Cipher.{xor_key_stream_twice, drop-xor_key_stream, xor_key_stream_shift}

-- The bytes from `start` on, up to and with the byte at `stop`, or all of them where `stop` is -1.
abbrev pub slice : ByteRange → List ℕ → List ℕ
slice r bs =
    if eqb_ℤ r.stop (negsuc 0)
    then drop r.start bs
    else take (pos_part (r.stop -ℤ pos r.start +ℤ pos 1)) (drop r.start bs)

abbrev pub Ordered : ℕ → ℤ → Type 0
Ordered n (pos m) = n ≤ m
Ordered n (negsuc k) = k ≡ 0

-- The range ends at the end of the file, or at a byte that does not stand before the first.
abbrev pub InOrder : ByteRange → Type 0
InOrder r = Ordered r.start r.stop

written-from_start :
    (bs : List ℕ) (r : ByteRange)
    → (from_start r bs).written ≡ (
        if eqb_ℤ r.stop (negsuc 0) then bs else take (pos_part (r.stop -ℤ pos r.start +ℤ pos 1)) bs)
unfolding from_start copy copy_n
written-from_start bs r = elim (Bool-cases (eqb_ℤ r.stop (negsuc 0))) [
  | inl open_end ↦ rw (open_end, from_start)
  | inr closed ↦ rw (closed, from_start)
]

-- rangeCopy writes the slice, where the range starts in the file.
pub written-range_copy :
    (bs : List ℕ) (r : ByteRange)
    → r.start ≤ length bs
    → (range_copy bs (some r)).written ≡ slice r bs
unfolding range_copy copy_n
written-range_copy bs r h = elim (Bool-cases (ltb 0 r.start)) [
  | inl skips ↦ ground (arith, written-from_start (drop r.start bs) r)
  | inr stays ↦
      let e : r.start ≡ 0 = ground arith in
      rw (stays, range_copy) (written-from_start bs r ∙ rw e refl)
]

-- The number of whole blocks before the start of the range.
abbrev pub skipped : ByteRange → ℕ
skipped r = r.start / block_size

adjusted : ByteRange → ByteRange
adjusted r = record {
  start = r.start - skipped r * block_size;
  stop = (if eqb_ℤ r.stop (negsuc 0) then r.stop else r.stop -ℤ pos (skipped r * block_size));
}

drop_from_block : (n : ℕ) (bs : List ℕ) → drop (n - n / 16 * 16) (drop (n / 16 * 16) bs) ≡ drop n bs
drop_from_block n bs =
    let e : n / 16 * 16 + (n - n / 16 * 16) ≡ n = omega arith in
    drop-drop (n - n / 16 * 16) (n / 16 * 16) bs ∙ ap (λ k. drop k bs) e

adjusted-slice_at :
    (n : ℕ) (stop : ℤ) (bs : List ℕ)
    → Ordered n stop
    → let r : ByteRange = record { start = n; stop = stop } in
      slice (adjusted r) (drop (n / 16 * 16) bs) ≡ slice r bs
unfolding adjusted
adjusted-slice_at n (pos k) bs h = ground (arith, drop_from_block n bs)
adjusted-slice_at n (negsuc zero) bs h = drop_from_block n bs
adjusted-slice_at n (negsuc (suc k)) bs h = absurd (omega arith)

drop-IsBytes : (n : ℕ) (bs : List ℕ) → IsBytes bs → IsBytes (drop n bs)
drop-IsBytes zero bs b = b
drop-IsBytes (suc n) [] b = tt
drop-IsBytes (suc n) (x ∷ bs) b = drop-IsBytes n bs b.1

module _ (C : Aes) (key iv plain : List ℕ) (created : CreatedIv iv) (bytes : IsBytes plain) where
  -- Reading from the block on, with the counter moved by that block, deciphers to the plaintext
  -- from there.
  decipher_from_block :
      (n : ℕ)
      → n < 2 ^ 32
      → xor_key_stream C key
          (add_blocks 8 iv 0 n)
          0
          (drop (n * 16) (xor_key_stream C key iv 0 plain))
        ≡ drop (n * 16) plain
  decipher_from_block n h =
      let moved = (add_blocks_exact iv n created h).0 in
      xor_key_stream_shift C key iv (add_blocks 8 iv 0 n) n moved 0 _
      ∙ ap (xor_key_stream C key iv (0 + n * 16)) (drop-xor_key_stream C key iv (n * 16) 0 plain)
      ∙ xor_key_stream_twice C key iv (0 + n * 16) (drop (n * 16) plain)
          (drop-IsBytes (n * 16) plain bytes)

  -- The written part of a range request: the ciphertext from the block that holds the start on,
  -- deciphered under the adjusted IV and cut by the adjusted range, is the slice of the plaintext
  -- that was asked for.
  pub range_written :
      (r : ByteRange)
      → InOrder r
      → r.start ≤ length plain
      → skipped r < 2 ^ 32
      → let cipher = drop (skipped r * 16) (xor_key_stream C key iv 0 plain) in
        let (iv', range) = adjust_iv iv (some r) in
        (range_copy (xor_key_stream C key iv' 0 cipher) range).written ≡ slice r plain
  unfolding adjust_iv adjusted
  range_written r order inside small =
      ap (λ bs. (range_copy bs (some (adjusted r))).written) (decipher_from_block (skipped r) small)
      ∙ written-range_copy (drop (skipped r * 16) plain) (adjusted r)
          (omega (arith, length-drop (skipped r * 16) plain))
      ∙ adjusted-slice_at r.start r.stop plain order
