-- ===== src/Protocol/Decoder.antt =====
-- internal/protocol/decoder.go. `b & mask` at a mask of low bits is `%`, and `b >> k` is `/`.
use orb_mq.Base.{
  ℕ, zero, suc, ◌+◌, ◌*◌, ◌/◌, ◌%◌, ◌^◌, Bytes, bytes_eq, codes, Bool, true, false, not, ◌&&◌, ◌||◌,
  ltb, leb, ◌==◌, if◌then◌else◌, List, [], ◌∷◌, ◌++◌, Option, none, some,
}
use orb_mq.Protocol.Packet.{
  Packet, connect, publish, pub_ack, subscribe, unsubscribe, ping_req, disconnect, WillMessage,
  ConnectPacket, PublishPacket, Subscription, SubscribePacket, UnsubscribePacket,
}
use orb_mq.Protocol.Reader.{
  M, unlimited, Result, ok, err, unexpected_eof, invalid_packet_id, invalid_qos, invalid_dup,
  invalid_max_size, packet_too_large, invalid_flags, invalid_packet, unsupported_packet,
  reserved_flag, will_flags, password_flag, invalid_protocol_name, unsupported_level,
  missing_client_id, extra_bytes, no_topics, out_of_fuel, ◌>>=◌, ◌>>◌, pure, fail, guard, read_full,
  read_uint16, read_byte,
}
use orb_mq.Protocol.Wire.{
  max_packet_size, check_topic_name, check_topic_filter, lift, read_binary_data, read_utf8_string,
}

pub record ConnectFlags : Type 0 where
  pub clean_session : Bool
  pub will_flag : Bool
  pub will_qos : ℕ
  pub will_retain : Bool
  pub username_flag : Bool
  pub password_flag : Bool

-- `b & (1 << k) != 0`
abbrev pub bit : ℕ → ℕ → Bool
bit k b = b / 2 ^ k % 2 == 1

unfoldable pub decode_connect_flags : ℕ → Result ConnectFlags
decode_connect_flags b =
    if bit 0 b
    then err reserved_flag
    else if not (bit 2 b) && (not (b / 8 % 4 == 0) || bit 5 b)
    then err will_flags
    else if bit 6 b && not (bit 7 b)
    then err password_flag
    else ok (record {
      clean_session = bit 1 b;
      will_flag = bit 2 b;
      will_qos = b / 8 % 4;
      will_retain = bit 5 b;
      username_flag = bit 7 b;
      password_flag = bit 6 b;
    })

unfoldable pub decode_will : ℕ → Bool → M WillMessage
decode_will qos retain = do
  topic ← read_utf8_string
  lift (check_topic_name topic)
  payload ← read_binary_data
  pure (record { topic = topic; payload = payload; qos = qos; retain = retain })

-- A field of CONNECT that a flag announces.
abbrev optional {ℓ} : {A : Type ℓ} → Bool → M A → M (Option A)
optional true m = m >>= λ a. pure (some a)
optional false m = pure none

abbrev lift_flags : Result ConnectFlags → M ConnectFlags
lift_flags (ok f) r = ok (f, r)
lift_flags (err e) r = err e

-- `lr.N`
abbrev remaining : M ℕ
remaining r = ok (r.left, r)

unfoldable pub decode_connect : M ConnectPacket
decode_connect = do
  protocol_name ← read_utf8_string
  guard (bytes_eq protocol_name (codes "MQTT")) invalid_protocol_name
  level ← read_byte
  guard (level == 4) unsupported_level
  flags_byte ← read_byte
  flags ← lift_flags (decode_connect_flags flags_byte)
  keep_alive ← read_uint16
  client_id ← read_utf8_string
  guard (not (bytes_eq client_id []) || flags.clean_session) missing_client_id
  will ← optional flags.will_flag (decode_will flags.will_qos flags.will_retain)
  username ← optional flags.username_flag read_utf8_string
  password ← optional flags.password_flag read_binary_data
  n ← remaining
  guard (n == 0) extra_bytes
  pure (record {
    protocol_name = protocol_name;
    protocol_level = level;
    clean_session = flags.clean_session;
    keep_alive = keep_alive;
    client_id = client_id;
    will = will;
    username = username;
    password = password;
  })

-- A non-zero packet identifier.
unfoldable pub read_packet_id : M ℕ
read_packet_id = do id ← read_uint16; guard (not (id == 0)) invalid_packet_id; pure id

-- `for lr.N > 0 { ... }`, on fuel.
unfoldable pub while_left {ℓ} : {A : Type ℓ} → ℕ → M A → List A → M (List A)
while_left zero item items r = if r.left == 0 then ok (items, r) else err out_of_fuel
while_left (suc fuel) item items r =
    let more = (item >>= λ a. while_left fuel item (items ++ a ∷ [])) r in
    if r.left == 0 then ok (items, r) else more

unfoldable pub decode_subscription : M Subscription
decode_subscription = do
  topic ← read_utf8_string
  lift (check_topic_filter topic)
  qos ← read_byte
  guard (leb qos 2) invalid_qos
  pure (record { topic = topic; qos = qos })

abbrev pub is_nil {ℓ} : {A : Type ℓ} → List A → Bool
is_nil [] = true
is_nil (x ∷ xs) = false

-- Every round takes a byte at least, so `lr.N` rounds are enough.
unfoldable pub decode_subscribe : M SubscribePacket
decode_subscribe = do
  id ← read_packet_id
  n ← remaining
  subs ← while_left n decode_subscription []
  guard (not (is_nil subs)) no_topics
  pure (record { packet_id = id; subscriptions = subs })

unfoldable pub decode_filter : M Bytes
decode_filter = do topic ← read_utf8_string; lift (check_topic_filter topic); pure topic

unfoldable pub decode_unsubscribe : M UnsubscribePacket
decode_unsubscribe = do
  id ← read_packet_id
  n ← remaining
  topics ← while_left n decode_filter []
  guard (not (is_nil topics)) no_topics
  pure (record { packet_id = id; topics = topics })

abbrev optional_id : Bool → M ℕ
optional_id true = read_packet_id
optional_id false = pure 0

unfoldable pub decode_publish : ℕ → Bool → Bool → M PublishPacket
decode_publish qos dup retain = do
  topic ← read_utf8_string
  lift (check_topic_name topic)
  id ← optional_id (ltb 0 qos)
  n ← remaining
  payload ← read_full n
  pure (record {
    topic = topic;
    payload = payload;
    retain = retain;
    dup = dup;
    qos = qos;
    packet_id = id;
  })

unfoldable pub decode_pub_ack : ℕ → M ℕ
decode_pub_ack n = do guard (n == 2) invalid_packet; read_packet_id

-- The loop of `decodeRemainingLength` with `rounds` of its four rounds to go.
unfoldable pub length_loop : ℕ → ℕ → ℕ → ℕ → M (ℕ × ℕ)
length_loop zero i multiplier value r = err unexpected_eof
length_loop (suc rounds) i multiplier value r =
    (read_byte >>= λ digit.
    let value' = value + digit % 128 * multiplier in
    let more = length_loop rounds (i + 1) (multiplier * 128) value' in
    if digit / 128 % 2 == 0 then pure (value', i + 1) else more)
      r

unfoldable pub decode_remaining_length : M (ℕ × ℕ)
decode_remaining_length = length_loop 4 0 1 0

-- A body, read through an `io.LimitedReader` of `n` bytes; what it leaves is read next.
abbrev limited {ℓ} : {A : Type ℓ} → ℕ → M A → (A → Packet) → M Packet
limited n m f r = elim (m (record { input = r.input; left = n })) [
  | ok (a, r') ↦ ok (f a, unlimited r'.input)
  | err e ↦ err e
]

-- The switch of `DecodeWithLimit`, on the packet type, the flags and the remaining length.
unfoldable pub decode_body : ℕ → ℕ → ℕ → M Packet
decode_body type flags n =
    if type == 1
    then guard (flags == 0) invalid_flags >> limited n decode_connect connect
    else if type == 12
    then guard (flags == 0 && n == 0) invalid_packet >> pure ping_req
    else if type == 3
    then guard (not (flags / 2 % 4 == 3)) invalid_qos
      >> (guard (not (flags / 2 % 4 == 0 && bit 3 flags)) invalid_dup
          >> limited n (decode_publish (flags / 2 % 4) (bit 3 flags) (bit 0 flags)) publish)
    else if type == 4
    then guard (flags == 0) invalid_flags >> (decode_pub_ack n >>= λ id. pure (pub_ack id))
    else if type == 8
    then guard (flags == 2) invalid_flags >> limited n decode_subscribe subscribe
    else if type == 10
    then guard (flags == 2) invalid_flags >> limited n decode_unsubscribe unsubscribe
    else if type == 14
    then guard (flags == 0 && n == 0) invalid_packet >> pure disconnect
    else fail unsupported_packet

-- Both the fixed header and the body count against the limit.
unfoldable pub decode_packet : ℕ → M Packet
decode_packet max = do
  b1 ← read_byte
  (n, length_bytes) ← decode_remaining_length
  guard (leb (1 + length_bytes + n) max) packet_too_large
  decode_body (b1 / 16) (b1 % 16) n

-- `DecodeWithLimit`, with the bytes that the next call will read.
unfoldable pub decode_with_limit : Bytes → ℕ → Result (Packet × Bytes)
decode_with_limit input max =
    if max == 0 || ltb max_packet_size max
    then err invalid_max_size
    else elim (decode_packet max (unlimited input)) [ ok (p, r) ↦ ok (p, r.input) | err e ↦ err e ]
