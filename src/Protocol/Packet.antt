-- ===== src/Protocol/Packet.antt =====
-- internal/protocol/packet.go.
use orb_mq.Base.{ℕ, Bytes, Bool, List, Option}

pub record WillMessage : Type 0 where
  pub topic : Bytes
  pub payload : Bytes
  pub qos : ℕ
  pub retain : Bool

pub record ConnectPacket : Type 0 where
  pub protocol_name : Bytes
  pub protocol_level : ℕ
  pub clean_session : Bool
  pub keep_alive : ℕ
  pub client_id : Bytes
  pub will : Option WillMessage
  pub username : Option Bytes
  pub password : Option Bytes

pub record ConnAckPacket : Type 0 where
  pub session_present : Bool
  pub return_code : ℕ

pub record PublishPacket : Type 0 where
  pub topic : Bytes
  pub payload : Bytes
  pub retain : Bool
  pub dup : Bool
  pub qos : ℕ
  pub packet_id : ℕ

pub record Subscription : Type 0 where
  pub topic : Bytes
  pub qos : ℕ

pub record SubscribePacket : Type 0 where
  pub packet_id : ℕ
  pub subscriptions : List Subscription

pub record SubAckPacket : Type 0 where
  pub packet_id : ℕ
  pub return_codes : Bytes

pub record UnsubscribePacket : Type 0 where
  pub packet_id : ℕ
  pub topics : List Bytes

-- The types that implement `Packet`.
pub data Packet : Type 0 where
  connect : ConnectPacket → Packet
  conn_ack : ConnAckPacket → Packet
  publish : PublishPacket → Packet
  pub_ack : ℕ → Packet
  subscribe : SubscribePacket → Packet
  sub_ack : SubAckPacket → Packet
  unsubscribe : UnsubscribePacket → Packet
  unsub_ack : ℕ → Packet
  ping_req ping_resp disconnect : Packet

-- `PacketType`, and the method `Type` of each packet.
abbrev pub packet_type : Packet → ℕ
packet_type (connect p) = 1
packet_type (conn_ack p) = 2
packet_type (publish p) = 3
packet_type (pub_ack id) = 4
packet_type (subscribe p) = 8
packet_type (sub_ack p) = 9
packet_type (unsubscribe p) = 10
packet_type (unsub_ack id) = 11
packet_type ping_req = 12
packet_type ping_resp = 13
packet_type disconnect = 14
