-- ===== src/Stream/Copy.antt =====
-- crypto/crypto.go: rangeCopy and DoCipherByReaderWriter over CTR mode.
use ods.Common.{
  ℕ, ◌+◌, ◌/◌, ◌%◌, ◌^◌, Bool, true, false, ◌||◌, Option, none, some, List, [], ◌∷◌, length, get_or,
  take, drop, ltb, ◌==◌, bit_xor, if◌then◌else◌, ℤ, pos, negsuc, pos_part, ◌-ℤ◌, ◌+ℤ◌, eqb_ℤ,
}
use ods.Crypto.{Sha256, IsBytes}
use ods.Stream.{ByteRange, block_size}
use ods.Stream.Counter.{be_value}

-- crypto/aes: the bytes that a key makes of a 128 bit block, which is given as a number.
pub record Aes : Type 0 where
  pub block : List ℕ → ℕ → List ℕ
  pub bytes_block : (key : List ℕ) (n : ℕ) → IsBytes (block key n)

module _ (C : Aes) (key iv : List ℕ) where
  -- cipher.NewCTR: the i-th byte of the stream comes from the block of the IV plus i / 16.
  unfoldable pub key_stream : ℕ → ℕ
  key_stream i =
      get_or (C.block key ((be_value 0 iv + i / block_size) % 2 ^ 128)) (i % block_size) 0

  -- XORKeyStream on the bytes from position `i` of the stream
  unfoldable pub xor_key_stream : ℕ → List ℕ → List ℕ
  unfolding key_stream
  xor_key_stream i [] = []
  xor_key_stream i (b ∷ bs) = bit_xor (key_stream i) b ∷ xor_key_stream (i + 1) bs

-- What was written, how much of the reader was used up, and whether an error came back.
pub record Copied : Type 0 where
  pub written : List ℕ
  pub consumed : ℕ
  pub failed : Bool

-- io.Copy
unfoldable pub copy : List ℕ → Copied
copy src = record { written = src; consumed = length src; failed = false }

-- io.CopyN: less than asked for is io.EOF; a count below zero copies nothing and is no error.
unfoldable pub copy_n : List ℕ → ℤ → Copied
copy_n src n = record {
  written = take (pos_part n) src;
  consumed = length (take (pos_part n) src);
  failed = ltb (length src) (pos_part n);
}

unfoldable pub from_start : ByteRange → List ℕ → Copied
unfolding copy copy_n
from_start r src =
    if eqb_ℤ r.stop (negsuc 0) then copy src else copy_n src (r.stop -ℤ pos r.start +ℤ pos 1)

unfoldable pub range_copy : List ℕ → Option ByteRange → Copied
unfolding from_start
range_copy src none = copy src
range_copy src (some r) =
    let skipped = copy_n src (pos r.start) in
    let rest = from_start r (drop r.start src) in
    if ltb 0 r.start
    then (if skipped.failed
        then record { written = []; consumed = skipped.consumed; failed = true }
        else record rest { consumed = skipped.consumed + rest.consumed })
    else from_start r src

pub record Ciphered : Type 0 where
  pub out : List ℕ
  pub checksum : List ℕ
  pub size : ℕ
  pub bad : Bool

-- DoCipherByReaderWriter. The reader hashes what it reads before it is deciphered, and counts it. A
-- key of a length that AES has not is refused.
unfoldable pub do_cipher_by_reader_writer :
    Sha256 → Aes → List ℕ → List ℕ → List ℕ → Option ByteRange → Ciphered
unfolding range_copy xor_key_stream
do_cipher_by_reader_writer H C in_file key iv range =
    let copied = range_copy (xor_key_stream C key iv 0 in_file) range in
    if length key == 16 || (length key == 24 || length key == 32)
    then record {
      out = copied.written;
      checksum = H.sum (take copied.consumed in_file);
      size = copied.consumed;
      bad = copied.failed;
    }
    else record { out = []; checksum = []; size = 0; bad = true }
