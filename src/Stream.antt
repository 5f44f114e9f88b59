-- ===== src/Stream.antt =====
-- Range requests over an encrypted file: crypto/crypto.go (ByteRange, CreateIV, rangeCopy,
-- DoCipherByReaderWriter) and server/getObjectStream.go (extractByteRange, adjustIV, and the path of
-- getAndStreamFile from the range to the bytes written).
-- A reader is the list of the bytes that it still holds, and a writer the list of those written. The
-- AES block function is a parameter; CTR mode over it is written out.
pub mod Cipher
pub mod Counter
pub mod Range
pub mod Copy
pub mod Http
use ods.Common.{
  ℕ, zero, suc, ◌+◌, ◌-◌, ◌*◌, ◌/◌, ◌%◌, ◌^◌, Bool, true, false, not, Option, none, some, List, [],
  ◌∷◌, ◌++◌, Text, codes, split, length, get_or, set, take, drop, ltb, leb, ◌==◌, text_eq, is_empty,
  parse_int, bit_xor, if◌then◌else◌, Result, ok, err, ◌>>=◌, ℤ, pos, negsuc, ltb_ℤ, ◌-ℤ◌, ◌+ℤ◌,
  eqb_ℤ,
}

-- crypto.ByteRange; `stop` is -1 where the range runs to the end of the file.
pub record ByteRange : Type 0 where
  pub start : ℕ
  pub stop : ℤ

-- NewByteRange
unfoldable pub new_byte_range : ByteRange
new_byte_range = record { start = 0; stop = negsuc 0 }

abbrev pub block_size : ℕ
block_size = 16

-- CreateIV: random bytes with the last four cleared
unfoldable pub create_iv : List ℕ → List ℕ
create_iv random = set (set (set (set random 15 0) 14 0) 13 0) 12 0

-- `bad_request` is the error that the handler turns into a 400. `panic` is an index out of range.
pub data RangeError : Type 0 where
  bad_request panic : RangeError

or_bad : Option ℕ → Result RangeError ℕ
or_bad none = err bad_request
or_bad (some n) = ok n

stop_of : Text → Result RangeError ℤ
unfolding or_bad
stop_of [] = ok (negsuc 0)
stop_of (c ∷ s) = do n ← or_bad (parse_int (c ∷ s)); ok (pos n)

start_stop : List Text → Result RangeError ByteRange
unfolding or_bad stop_of
start_stop [] = err panic
start_stop (a ∷ []) = do n ← or_bad (parse_int a); err panic
start_stop (a ∷ b ∷ rest) = do
  n ← or_bad (parse_int a)
  m ← stop_of b
  ok (record { start = n; stop = m })

range_spec : List Text → Result RangeError ByteRange
unfolding start_stop
range_spec [] = err panic
range_spec (kind ∷ []) = if text_eq kind (codes "bytes") then err panic else err bad_request
range_spec (kind ∷ spec ∷ rest) =
    if text_eq kind (codes "bytes") then start_stop (split b'-' spec) else err bad_request

-- extractByteRange; the argument is the Range header, empty where there is none.
unfoldable pub extract_byte_range : Text → Result RangeError (Option ByteRange)
unfolding range_spec
extract_byte_range [] = ok none
extract_byte_range (c ∷ s) = do r ← range_spec (split b'=' (c ∷ s)); ok (some r)

-- One turn of the loop of adjustIV: add the lowest byte of the count, and carry into the next byte.
-- uint8 wraps at 256; the carry out of that next byte is dropped.
unfoldable pub add_byte : List ℕ → ℕ → ℕ → List ℕ
add_byte iv i blocks =
    let new_v = blocks % 256 + get_or iv (15 - i) 0 in
    let iv' = set iv (15 - i) (new_v % 256) in
    set iv' (14 - i) ((get_or iv' (14 - i) 0 + new_v / 256) % 256)

-- `for blocksToSkip > 0`. An int64 count is gone after eight turns.
unfoldable pub add_blocks : ℕ → List ℕ → ℕ → ℕ → List ℕ
unfolding add_byte
add_blocks zero iv i blocks = iv
add_blocks (suc fuel) iv i blocks =
    let rest = add_blocks fuel (add_byte iv i blocks) (i + 1) (blocks / 256) in
    if ltb 0 blocks then rest else iv

-- adjustIV: the IV for the block that holds the start, and the range relative to that block.
unfoldable pub adjust_iv : List ℕ → Option ByteRange → List ℕ × Option ByteRange
adjust_iv iv none = (iv, none)
adjust_iv iv (some r) =
    let skipped = r.start / block_size in
    (
      add_blocks 8 iv 0 skipped,
      some (record {
        start = r.start - skipped * block_size;
        stop = (if eqb_ℤ r.stop (negsuc 0) then r.stop else r.stop -ℤ pos (skipped * block_size));
      }),
    )
