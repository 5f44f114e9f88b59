-- ===== src/Stream/Http/Served.antt =====
-- Ranges and whole files are answered with the right bytes, and the right length.
use ods.Common.{
  ℕ, zero, suc, ◌*◌, ◌^◌, ◌<◌, ◌≡◌, refl, ap, ◌∙◌, true, false, Option, none, some, List, length,
  drop, arith, ℤ, pos, negsuc, pos_part, ◌-ℤ◌, ◌+ℤ◌, eqb_ℤ, if◌then◌else◌, length-drop, length-take,
  text_eq, ok,
}
use ods.Crypto.{Sha256, IsBytes}
use ods.Stream.{ByteRange, adjust_iv, extract_byte_range}
use ods.Stream.Counter.{CreatedIv}
use ods.Stream.Copy.{Aes, xor_key_stream, range_copy, copy, do_cipher_by_reader_writer}
use ods.Stream.Cipher.{xor_key_stream_twice}
use ods.Stream.Range.{slice, InOrder, Ordered, skipped, range_written}
use ods.Stream.Http.{
  StreamRequest, StoredFile, Response, answered, get_and_stream_file, serve, etag_of,
  reported_length, reported_range, status_of, cipher_start_at, reported,
}

-- The range ends inside the file.
abbrev pub EndsInside : ℤ → ℕ → Type 0
EndsInside (pos k) size = k < size
EndsInside (negsuc k) size = k ≡ 0

length-slice :
    (n : ℕ) (stop : ℤ) (o : StoredFile) (plain : List ℕ)
    → o.content_size ≡ length plain
    → n < length plain
    → Ordered n stop
    → EndsInside stop (length plain)
    → let r : ByteRange = record { start = n; stop = stop } in
      reported_length o (some r) ≡ pos (length (slice r plain))
unfolding reported_length
length-slice n (pos k) o plain e inside h ends =
    ground
      (arith, length-drop n plain, length-take (pos_part (pos k -ℤ pos n +ℤ pos 1)) (drop n plain))
length-slice n (negsuc zero) o plain e inside h ends = ground (arith, length-drop n plain)
length-slice n (negsuc (suc k)) o plain e inside h ends = absurd (omega arith)

-- A file of the given plaintext, as the upload stored it: enciphered whole under the file's key and
-- an IV that CreateIV made, with its length on record, and fetched from any offset inside it.
pub record IsStored (C : Aes) (fetch : ℕ → Option (List ℕ)) (key : List ℕ) (o : StoredFile)
    (plain : List ℕ) : Type 0 where
  pub sized : o.content_size ≡ length plain
  pub sized_valid : o.content_size_valid ≡ true
  pub created : CreatedIv o.encrypt_iv
  pub key_size : length key ≡ 32
  pub bytes : IsBytes plain
  pub fetched :
      (n : ℕ)
      → n < length plain
      → fetch n ≡ some (drop n (xor_key_stream C key o.encrypt_iv 0 plain))

module _ (H : Sha256) (C : Aes) (fetch : ℕ → Option (List ℕ)) (key : List ℕ) (o : StoredFile)
    (plain : List ℕ) (stored : IsStored C fetch key o plain) (req : StreamRequest)
    (new : text_eq req.if_none_match (etag_of o) ≡ false) where
  out_lem :
      (cipher : List ℕ) (iv : List ℕ) (range : Option ByteRange)
      → (do_cipher_by_reader_writer H C cipher key iv range).out
        ≡ (range_copy (xor_key_stream C key iv 0 cipher) range).written
  unfolding do_cipher_by_reader_writer
  out_lem cipher iv range = ground (arith, stored.key_size)

  abbrev response_for : Option ByteRange → List ℕ → Response
  response_for range cipher =
      let (iv, adjusted) = adjust_iv o.encrypt_iv range in
      let c = do_cipher_by_reader_writer H C cipher key iv adjusted in
      record {
        status = status_of range;
        content_length = some (reported_length o range);
        content_range = reported_range o range;
        etag = etag_of o;
        body = c.out;
        actual_length = c.size;
      }

  serve_lem :
      (range : Option ByteRange) (cipher : List ℕ)
      → fetch (cipher_start_at range) ≡ some cipher
      → serve H C fetch req o key range ≡ answered (response_for range cipher)
  unfolding serve
  serve_lem range cipher e = ground (arith, stored.sized_valid, new, e)

  -- A range request for a stored file, by a client that does not have it yet, whose range starts in
  -- the file below 2^36, does not run backwards and ends inside the file or is open, is answered
  -- with 206, with exactly the plaintext's bytes of that range, with their number as the content
  -- length, and with the range in the header.
  pub range_served :
      (r : ByteRange)
      → extract_byte_range req.range ≡ ok (some r)
      → InOrder r
      → r.start < length plain
      → r.start < 2 ^ 36
      → EndsInside r.stop (length plain)
      → (answer : Response) × (get_and_stream_file H C fetch req o key ≡ answered answer)
        × (answer.status ≡ 206)
        × (answer.body ≡ slice r plain)
        × (answer.content_length ≡ some (pos (length (slice r plain))))
        × (answer.content_range
            ≡ some (
              pos r.start,
              (if eqb_ℤ r.stop (negsuc 0) then pos (length plain) -ℤ pos 1 else r.stop),
              length plain,
            ))
  unfolding get_and_stream_file cipher_start_at status_of reported_range reported adjust_iv
  range_served r asked order inside small ends =
      let cipher = drop (skipped r * 16) (xor_key_stream C key o.encrypt_iv 0 plain) in
      (
        response_for (some r) cipher,
        rw (asked, get_and_stream_file)
            (serve_lem (some r) cipher (stored.fetched (skipped r * 16) (omega arith))),
        refl,
        out_lem cipher _ _
            ∙ range_written C key o.encrypt_iv plain stored.created stored.bytes r order
                (omega arith) (omega arith),
        ap some (length-slice r.start r.stop o plain stored.sized inside order ends),
        ground (arith, stored.sized),
      )

  -- Without a Range header the answer is 200 with the whole plaintext and its length.
  pub whole_served :
      extract_byte_range req.range ≡ ok none
      → 0 < length plain
      → (answer : Response) × (get_and_stream_file H C fetch req o key ≡ answered answer)
        × (answer.status ≡ 200)
        × (answer.body ≡ plain)
        × (answer.content_length ≡ some (pos (length plain)))
        × (answer.content_range ≡ none)
  unfolding get_and_stream_file cipher_start_at status_of reported_length reported_range adjust_iv
      range_copy copy
  whole_served asked nonempty =
      let cipher = xor_key_stream C key o.encrypt_iv 0 plain in
      (
        response_for none cipher,
        rw (asked, get_and_stream_file) (serve_lem none cipher (stored.fetched 0 nonempty)),
        refl,
        out_lem cipher _ _ ∙ xor_key_stream_twice C key o.encrypt_iv 0 plain stored.bytes,
        ap (λ n. some (pos n)) stored.sized,
        refl,
      )
