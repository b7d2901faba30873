-- ===== src/Protocol/Tests.antt =====
-- Runs of the protocol's theorems.
use orb_mq.Base.{Bytes, [], ◌∷◌, ◌++◌, length, ◌≡◌, arith}
use orb_mq.Protocol.Reader.{ok, unlimited}
use orb_mq.Protocol.Decoder.{decode_remaining_length}
use orb_mq.Protocol.Encoder.{encode_remaining_length}
use orb_mq.Protocol.Length.{decode-encode_remaining_length}

decode-encode_remaining_length_example :
    (bs : Bytes) × (encode_remaining_length 16384 ≡ ok bs)
    × (decode_remaining_length (unlimited (bs ++ 7 ∷ []))
        ≡ ok ((16384, length bs), unlimited (7 ∷ [])))
decode-encode_remaining_length_example = decode-encode_remaining_length 16384 (7 ∷ []) (omega arith)
