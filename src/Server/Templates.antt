-- ===== src/Server/Templates.antt =====
-- internal/server/server.go: the encodings of a message, which all its subscribers share.
pub mod Offset
use orb_mq.Base.{
  ℕ, zero, suc, ◌+◌, ◌-◌, ◌*◌, ◌/◌, Bytes, Bool, true, false, not, ltb, ◌==◌, if◌then◌else◌, Option,
  none, some, length,
}
use orb_mq.Protocol.Packet.{PublishPacket}
use orb_mq.Protocol.Reader.{Result, ok, err, Error, invalid_qos}

-- `deliveryQoS`
unfoldable pub delivery_qos : ℕ → ℕ → ℕ
delivery_qos publish_qos subscription_qos =
    if ltb subscription_qos publish_qos then subscription_qos else publish_qos

-- `newOutboundPublish`
unfoldable pub new_outbound_publish : PublishPacket → ℕ → PublishPacket
new_outbound_publish p qos = record {
  topic = p.topic;
  payload = p.payload;
  retain = p.retain;
  dup = false;
  qos = qos;
  packet_id = 0;
}

pub record Template : Type 0 where
  pub raw : Bytes
  pub packet_id_offset : ℕ

pub record Cache : Type 0 where
  pub qos0 : Option Bytes
  pub qos1 : Option Template

-- The loop of `encodedLengthSize`, on fuel.
unfoldable pub size_loop : ℕ → ℕ → ℕ
size_loop zero n = 0
size_loop (suc fuel) n = let rest = size_loop fuel (n / 128) in if n / 128 == 0 then 1 else suc rest

-- Ten groups of seven bits hold an int.
unfoldable pub encoded_length_size : ℕ → ℕ
encoded_length_size n = size_loop 10 n

-- `publishPacketIDOffset`
unfoldable pub publish_packet_id_offset : Bytes → ℕ → ℕ
publish_packet_id_offset topic payload_length =
    1 + encoded_length_size (2 + length topic + 2 + payload_length) + 2 + length topic

-- The message that a template encodes.
abbrev pub template_packet : PublishPacket → PublishPacket
template_packet p = record {
  topic = p.topic;
  payload = p.payload;
  retain = p.retain;
  dup = false;
  qos = p.qos;
  packet_id = 1;
}

-- The encoder is a field of the server, `encodePublishFn`.
module _ (encode : PublishPacket → Result Bytes) where
  -- `newPublishTemplate`
  unfoldable pub new_publish_template : PublishPacket → Result Template
  new_publish_template p =
      if not (p.qos == 1) then err invalid_qos else elim (encode (template_packet p)) [
        | err e ↦ err e
        | ok raw ↦ ok (record {
          raw = raw;
          packet_id_offset = publish_packet_id_offset p.topic (length p.payload);
        })
      ]

  -- `qos0Payload`
  unfoldable pub qos0_payload : PublishPacket → Cache → Result Bytes × Cache
  qos0_payload p c = elim c.qos0 [
    | some raw ↦ (ok raw, c)
    | none ↦ elim (encode p) [
      | err e ↦ (err e, c)
      | ok raw ↦ (ok raw, record c { qos0 = some raw })
    ]
  ]

  -- `qos1Template`
  unfoldable pub qos1_template : PublishPacket → Cache → Result Template × Cache
  qos1_template p c = elim c.qos1 [
    | some t ↦ (ok t, c)
    | none ↦ elim (new_publish_template p) [
      | err e ↦ (err e, c)
      | ok t ↦ (ok t, record c { qos1 = some t })
    ]
  ]
