-- ===== src/Protocol/Encoder.antt =====
-- internal/protocol/encoder.go. The writer is always a `bytes.Buffer`, whose writes do not fail: an
-- encoder returns the bytes that it appends.
use orb_mq.Base.{
  ℕ, zero, suc, ◌+◌, ◌-◌, ◌*◌, ◌/◌, ◌%◌, Bytes, ◌&&◌, ltb, ◌==◌, if◌then◌else◌, [], ◌∷◌, ◌++◌,
  length, bit_or,
}
use orb_mq.Protocol.Packet.{
  Packet, conn_ack, pub_ack, sub_ack, unsub_ack, ping_resp, ConnAckPacket, SubAckPacket,
  PublishPacket,
}
use orb_mq.Protocol.Reader.{
  Result, ok, err, invalid_length, invalid_qos, invalid_packet_id, invalid_dup, unsupported_packet,
}
use orb_mq.Protocol.Wire.{max_remaining_length, check_topic_name}

-- `binary.Write` of a big-endian uint16.
abbrev pub put16 : ℕ → Bytes
put16 n = n / 256 % 256 ∷ n % 256 ∷ []

-- The loop of `encodeRemainingLength`, on fuel.
unfoldable pub length_bytes : ℕ → ℕ → Bytes
length_bytes zero n = []
length_bytes (suc fuel) n =
    let rest = length_bytes fuel (n / 128) in
    if ltb 0 (n / 128) then bit_or (n % 128) 0x80 ∷ rest else n % 128 ∷ []

-- Four rounds: a length within the bound has four groups of seven bits.
unfoldable pub encode_remaining_length : ℕ → Result Bytes
encode_remaining_length n =
    if ltb max_remaining_length n then err invalid_length else ok (length_bytes 4 n)

unfoldable pub publish_flags : PublishPacket → ℕ
publish_flags p =
    let dup = if p.dup then bit_or 0x30 0x08 else 0x30 in
    let qos = bit_or dup (p.qos % 4 * 2) in if p.retain then bit_or qos 0x01 else qos

abbrev pub publish_length : PublishPacket → ℕ
publish_length p = 2 + length p.topic + (if ltb 0 p.qos then 2 else 0)

abbrev pub publish_id : PublishPacket → Bytes
publish_id p = if ltb 0 p.qos then put16 p.packet_id else []

-- `EncodePublish` behind its checks.
unfoldable pub publish_bytes : PublishPacket → Bytes → Bytes
publish_bytes p size =
    publish_flags p ∷ (size ++ (put16 (length p.topic) ++ (p.topic ++ (publish_id p ++ p.payload))))

unfoldable pub encode_publish : PublishPacket → Result Bytes
encode_publish p =
    if ltb 1 p.qos
    then err invalid_qos
    else if ltb 0 p.qos && p.packet_id == 0
    then err invalid_packet_id
    else if p.qos == 0 && p.dup
    then err invalid_dup
    else elim (check_topic_name p.topic) [
      | err e ↦ err e
      | ok _ ↦
          if ltb max_remaining_length (publish_length p + length p.payload)
          then err invalid_length
          else elim (encode_remaining_length (publish_length p + length p.payload)) [
            | err e ↦ err e
            | ok size ↦ ok (publish_bytes p size)
          ]
    ]

unfoldable pub encode_conn_ack : ConnAckPacket → Bytes
encode_conn_ack p = 0x20 ∷ 0x02 ∷ (if p.session_present then 0x01 else 0) ∷ p.return_code ∷ []

unfoldable pub encode_sub_ack : SubAckPacket → Result Bytes
encode_sub_ack p =
    if ltb (max_remaining_length - 2) (length p.return_codes)
    then err invalid_length
    else elim (encode_remaining_length (2 + length p.return_codes)) [
      | err e ↦ err e
      | ok size ↦ ok (0x90 ∷ (size ++ (put16 p.packet_id ++ p.return_codes)))
    ]

-- `Encode`
unfoldable pub encode : Packet → Result Bytes
encode (conn_ack p) = ok (encode_conn_ack p)
encode ping_resp = ok (0xd0 ∷ 0x00 ∷ [])
encode (pub_ack id) = if id == 0 then err invalid_packet_id else ok (0x40 ∷ 0x02 ∷ put16 id)
encode (sub_ack p) = encode_sub_ack p
encode (unsub_ack id) = ok (0xb0 ∷ 0x02 ∷ put16 id)
encode _ = err unsupported_packet
