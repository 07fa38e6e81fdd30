-- ===== src/P2p/Encoding.antt =====
-- crates/net/p2p/src/req_resp/encoding.rs: payloads with their length in front. The compression is a
-- parameter; reading and writing the stream is left out. The bit operations on bytes are written
-- as arithmetic: the low seven bits are the remainder by 128, and setting the high bit, which is
-- clear, adds 128.
pub mod RoundTrip
mod Tests
use Prim.Native.Nat.{bit_or}
use ethlambda.Base.{
  ℕ, zero, suc, ◌+◌, ◌*◌, ◌/◌, ◌%◌, ◌^◌, Option, none, some, List, [], ◌∷◌, ◌++◌, length, leb, ltb,
  ◌==◌, nat_eq, if◌then◌else◌, Outcome, ok, err, ensure, ok_or, ◌>>=◌, ◌>>◌, take,
}

abbrev pub max_payload_size : ℕ
max_payload_size = 10485760

-- 32 + MAX_PAYLOAD_SIZE + MAX_PAYLOAD_SIZE / 6 + 1024
abbrev pub max_compressed_payload_size : ℕ
max_compressed_payload_size = 12234442

-- `steps` turns of the loop over the bytes of the buffer
unfoldable pub encode_from : ℕ → ℕ → List ℕ
encode_from zero value = []
encode_from (suc steps) value =
    let byte = value % 128 in
    let rest = encode_from steps (value / 128) in
    if value / 128 == 0 then byte ∷ [] else (byte + 128) ∷ rest

unfoldable pub encode_varint : ℕ → List ℕ
unfolding encode_from
encode_varint value = encode_from 5 value

-- `result | value << shift` on 32 bits: the bits below the shift stay.
unfoldable pub or_shifted : ℕ → ℕ → ℕ → ℕ
or_shifted result value shift =
    (result % 2 ^ shift + bit_or (result / 2 ^ shift) value * 2 ^ shift) % 2 ^ 32

-- from byte `i` on; the amount of a shift is taken modulo 32, as in a release build
unfoldable pub decode_from : ℕ → ℕ → List ℕ → Option (ℕ × List ℕ)
unfolding or_shifted
decode_from i result [] = none
decode_from i result (byte ∷ buf) =
    let result' = or_shifted result (byte % 128) ((7 * i) % 32) in
    let rest = decode_from (i + 1) result' buf in if ltb byte 128 then some (result', buf) else rest

unfoldable pub decode_varint : List ℕ → Option (ℕ × List ℕ)
unfolding decode_from
decode_varint buf = decode_from 0 0 buf

pub data PayloadError : Type 0 where
  message_too_short : PayloadError
  bigger_than_28_bits : PayloadError
  size_exceeds_maximum : PayloadError
  decompression_failed : PayloadError
  size_mismatch : PayloadError

-- What the payloads take from the snappy library.
pub record Snappy : Type 0 where
  pub compress : List ℕ → List ℕ
  pub decompress : List ℕ → Option (List ℕ)

unfoldable pub decode_payload : Snappy → List ℕ → Outcome PayloadError (List ℕ)
unfolding decode_varint
decode_payload snappy io = do
  let buf = take max_compressed_payload_size io
  ensure (leb 2 (length buf)) message_too_short
  sized ← ok_or (decode_varint buf) bigger_than_28_bits
  ensure (leb sized.0 max_payload_size) size_exceeds_maximum
  uncompressed ← ok_or (snappy.decompress sized.1) decompression_failed
  ensure (length uncompressed == sized.0) size_mismatch
  ok uncompressed

unfoldable pub write_payload : Snappy → List ℕ → List ℕ
unfolding encode_varint
write_payload snappy encoded = encode_varint (length encoded % 2 ^ 32) ++ snappy.compress encoded
