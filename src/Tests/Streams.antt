-- ===== src/Tests/Streams.antt =====
-- A file of forty bytes, stored and asked for whole and in part.
use ods.Common.{
  ℕ, ◌+◌, ◌≡◌, refl, true, List, [], ◌∷◌, Text, codes, Option, some, none, length, drop, arith, ok,
  pos, split, text_eq, parse_int,
}
use ods.Stream.{ByteRange, create_iv, extract_byte_range, add_blocks}
use ods.Stream.Counter.{be_value, CreatedIv, add_blocks_exact}
use ods.Stream.Copy.{xor_key_stream}
use ods.Stream.Range.{slice}
use ods.Stream.Http.{StoredFile, StreamRequest, Response, answered, get_and_stream_file, etag_of}
use ods.Stream.Http.Served.{IsStored, range_served, whole_served}
use ods.Tests.Parameters.{sum_hash, counter_cipher}

abbrev plain : List ℕ
plain =
    1 ∷ 2 ∷ 3 ∷ 4 ∷ 5 ∷ 6 ∷ 7 ∷ 8 ∷ 9 ∷ 10 ∷ 11 ∷ 12 ∷ 13 ∷ 14 ∷ 15 ∷ 16 ∷ 17 ∷ 18 ∷ 19 ∷ 20 ∷ 21
    ∷ 22 ∷ 23 ∷ 24 ∷ 25 ∷ 26 ∷ 27 ∷ 28 ∷ 29 ∷ 30 ∷ 31 ∷ 32 ∷ 33 ∷ 34 ∷ 35 ∷ 36 ∷ 37 ∷ 38 ∷ 39 ∷ 40
    ∷ []

abbrev random : List ℕ
random = 9 ∷ 8 ∷ 7 ∷ 6 ∷ 5 ∷ 4 ∷ 3 ∷ 2 ∷ 1 ∷ 0 ∷ 1 ∷ 255 ∷ 3 ∷ 4 ∷ 5 ∷ 6 ∷ []

abbrev iv : List ℕ
iv = create_iv random

abbrev key : List ℕ
key =
    1 ∷ 1 ∷ 1 ∷ 1 ∷ 1 ∷ 1 ∷ 1 ∷ 1 ∷ 1 ∷ 1 ∷ 1 ∷ 1 ∷ 1 ∷ 1 ∷ 1 ∷ 1 ∷ 2 ∷ 2 ∷ 2 ∷ 2 ∷ 2 ∷ 2 ∷ 2 ∷ 2
    ∷ 2 ∷ 2 ∷ 2 ∷ 2 ∷ 2 ∷ 2 ∷ 2 ∷ 2 ∷ []

abbrev file : StoredFile
file = record {
  content_size = 40;
  content_size_valid = true;
  content_hash = 1 ∷ [];
  encrypt_iv = iv;
}

abbrev fetch : ℕ → Option (List ℕ)
fetch n = some (drop n (xor_key_stream counter_cipher key iv 0 plain))

iv-CreatedIv : CreatedIv iv
iv-CreatedIv = (random, refl, omega arith, refl)

stored : IsStored counter_cipher fetch key file plain
stored = record {
  sized = refl;
  sized_valid = refl;
  created = iv-CreatedIv;
  key_size = refl;
  bytes = omega arith;
  fetched = λ n h. refl;
}

add_blocks_exact_example :
    (be_value 0 (add_blocks 8 iv 0 70000) ≡ be_value 0 iv + 70000)
    × (length (add_blocks 8 iv 0 70000) ≡ 16)
add_blocks_exact_example = add_blocks_exact iv 70000 iv-CreatedIv (omega arith)

abbrev part : ByteRange
part = record { start = 20; stop = pos 34 }

abbrev ask : Text → StreamRequest
ask range = record { range = range; if_none_match = [] }

asked : extract_byte_range (codes "bytes=20-34") ≡ ok (some part)
unfolding extract_byte_range split text_eq parse_int
asked = refl

range_served_example :
    (answer : Response) × (get_and_stream_file sum_hash counter_cipher fetch
        (ask (codes "bytes=20-34"))
        file
        key
      ≡ answered answer)
    × (answer.status ≡ 206)
    × (answer.body ≡ slice part plain)
    × (answer.content_length ≡ some (pos (length (slice part plain))))
    × (answer.content_range ≡ some (pos 20, pos 34, 40))
unfolding etag_of text_eq
range_served_example =
    range_served sum_hash counter_cipher fetch key file plain stored (ask (codes "bytes=20-34"))
      refl part asked (omega arith) (omega arith) (omega arith) (omega arith)

unasked : extract_byte_range [] ≡ ok none
unfolding extract_byte_range
unasked = refl

whole_served_example :
    (answer : Response) × (get_and_stream_file sum_hash counter_cipher fetch (ask []) file key
      ≡ answered answer)
    × (answer.status ≡ 200)
    × (answer.body ≡ plain)
    × (answer.content_length ≡ some (pos 40))
    × (answer.content_range ≡ none)
unfolding etag_of text_eq
whole_served_example =
    whole_served sum_hash counter_cipher fetch key file plain stored (ask []) refl unasked
      (omega arith)
