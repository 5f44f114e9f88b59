-- ===== src/Stream/Http.antt =====
-- server/getObjectStream.go: getAndStreamFile, from the request's headers to the bytes written.
-- `fetch` stands for NewPuller at an offset and for reading what it opens to the end. Of the headers
-- written, the model keeps those that the range decides.
pub mod Served
use ods.Common.{
  ℕ, ◌+◌, ◌-◌, ◌*◌, ◌/◌, Bool, true, false, ◌&&◌, Option, none, some, List, [], ◌∷◌, ◌++◌, Text,
  codes, text_eq, if◌then◌else◌, Result, ok, err, ℤ, pos, negsuc, ◌-ℤ◌, ◌+ℤ◌, eqb_ℤ,
}
use ods.Crypto.{Sha256, hex_encode}
use ods.Stream.{
  ByteRange, RangeError, bad_request, panic, extract_byte_range, adjust_iv, block_size,
}
use ods.Stream.Copy.{Aes, do_cipher_by_reader_writer}

pub record StreamRequest : Type 0 where
  pub range : Text
  pub if_none_match : Text

-- the fields of the object that the handler reads
pub record StoredFile : Type 0 where
  pub content_size : ℕ
  pub content_size_valid : Bool
  pub content_hash : List ℕ
  pub encrypt_iv : List ℕ

pub record Response : Type 0 where
  -- the code of the AppError that the handler returns, 200 where it returns none
  pub status : ℕ
  pub content_length : Option ℤ
  pub content_range : Option (ℤ × ℤ × ℕ)
  pub etag : Text
  pub body : List ℕ
  -- what the cipher's reader took in, which the handler returns
  pub actual_length : ℕ

-- A panic of the handler ends the request without an answer.
pub data Outcome : Type 0 where
  answered : Response → Outcome
  panicked : Outcome

abbrev pub plain_status : ℕ → Outcome
plain_status code = answered (record {
  status = code;
  content_length = none;
  content_range = none;
  etag = [];
  body = [];
  actual_length = 0;
})

unfoldable pub etag_of : StoredFile → Text
etag_of o = codes "\"" ++ (hex_encode o.content_hash ++ codes "\"")

-- start and stop as the headers report them
unfoldable pub reported : StoredFile → Option ByteRange → ℤ × ℤ
reported o none = (pos 0, pos o.content_size -ℤ pos 1)
reported o (some r) =
    (pos r.start, (if eqb_ℤ r.stop (negsuc 0) then pos o.content_size -ℤ pos 1 else r.stop))

reported_length : StoredFile → Option ByteRange → ℤ
unfolding reported
reported_length o none = pos o.content_size
reported_length o (some r) = let (start, stop) = reported o (some r) in stop +ℤ pos 1 -ℤ start

reported_range : StoredFile → Option ByteRange → Option (ℤ × ℤ × ℕ)
unfolding reported
reported_range o none = none
reported_range o (some r) =
    let (start, stop) = reported o (some r) in some (start, stop, o.content_size)

status_of : Option ByteRange → ℕ
status_of none = 200
status_of (some r) = 206

unfoldable pub cipher_start_at : Option ByteRange → ℕ
cipher_start_at none = 0
cipher_start_at (some r) = r.start / block_size * block_size

module _ (H : Sha256) (C : Aes) (fetch : ℕ → Option (List ℕ)) where
  -- once the range is known; a length that is not valid leaves the headers out, and nil means 200
  unfoldable pub serve : StreamRequest → StoredFile → List ℕ → Option ByteRange → Outcome
  unfolding reported_length reported_range status_of cipher_start_at
  serve req o key range =
      let (iv, adjusted) = adjust_iv o.encrypt_iv range in
      let headed = o.content_size_valid in
      if headed && text_eq req.if_none_match (etag_of o)
      then answered (record {
        status = 304;
        content_length = none;
        content_range = reported_range o range;
        etag = etag_of o;
        body = [];
        actual_length = 0;
      })
      else elim (fetch (cipher_start_at range)) [
        | none ↦ answered (record {
          status = 500;
          content_length = (if headed then some (reported_length o range) else none);
          content_range = (if headed then reported_range o range else none);
          etag = (if headed then etag_of o else []);
          body = [];
          actual_length = 0;
        })
        | some cipher ↦
            let c = do_cipher_by_reader_writer H C cipher key iv adjusted in
            answered (record {
              status = (if headed then status_of range else 200);
              content_length = (if headed then some (reported_length o range) else none);
              content_range = (if headed then reported_range o range else none);
              etag = (if headed then etag_of o else []);
              body = c.out;
              actual_length = c.size;
            })
      ]

  unfoldable pub get_and_stream_file : StreamRequest → StoredFile → List ℕ → Outcome
  unfolding serve
  get_and_stream_file req o key = elim (extract_byte_range req.range) [
    | ok range ↦ serve req o key range
    | err bad_request ↦ plain_status 400
    | err panic ↦ panicked
  ]
