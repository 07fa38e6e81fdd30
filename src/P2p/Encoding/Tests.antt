-- ===== src/P2p/Encoding/Tests.antt =====
-- The payloads at concrete inputs.
use ethlambda.Base.{◌≡◌, refl, some, none, [], ◌∷◌, ok, arith}
use ethlambda.P2p.Encoding.{
  encode_varint, encode_from, decode_varint, decode_from, or_shifted, Snappy, decode_payload,
  write_payload,
}
use ethlambda.P2p.Encoding.RoundTrip.{decode_payload-write}

abbrev stored : Snappy
stored = record { compress = λ x. 0 ∷ x; decompress = λ x. elim x [ [] ↦ none | _ ∷ ys ↦ some ys ] }

encodes_300 : encode_varint 300 ≡ 172 ∷ 2 ∷ []
unfolding encode_varint encode_from
encodes_300 = refl

decodes_150 : decode_varint (150 ∷ 1 ∷ []) ≡ some (150, [])
unfolding decode_varint decode_from or_shifted
decodes_150 = refl

decodes_five_bytes : decode_varint (255 ∷ 255 ∷ 255 ∷ 255 ∷ 15 ∷ []) ≡ some (4294967295, [])
unfolding decode_varint decode_from or_shifted
decodes_five_bytes = refl

decode_payload-write_example :
    decode_payload stored (write_payload stored (7 ∷ 8 ∷ 9 ∷ [])) ≡ ok (7 ∷ 8 ∷ 9 ∷ [])
decode_payload-write_example =
    decode_payload-write stored (7 ∷ 8 ∷ 9 ∷ []) refl (omega arith) (omega arith) (omega arith)
