-- ===== src/Server/Tests.antt =====
-- Runs of the server's parts, and the theorems about them at concrete connections and messages.
use orb_mq.Base.{ℕ, Bytes, codes, [], ◌∷◌, true, false, none, lookup, nat_eq, ◌≡◌, refl}
use orb_mq.Protocol.Packet.{PublishPacket}
use orb_mq.Protocol.Reader.{ok}
use orb_mq.Protocol.Encoder.{encode_publish}
use orb_mq.Server.Templates.{Template, new_publish_template}
use orb_mq.Server.Templates.Offset.{IsTemplate, new_publish_template-IsTemplate}
use orb_mq.Server.Connections.{
  ConnectionLimits, Group, no_connections, start, complete_handshake, finish,
}
use orb_mq.Server.Connections.Bounds.{IsGroup, idle, comes, completes, returns, Runs-IsGroup}
use orb_mq.Base.{some, length, bytes_Eq, lookup_nil, some_inj, sym, ap, ◌∙◌, arith}
use orb_mq.Protocol.Packet.{ConnectPacket, Subscription}
use orb_mq.Topic.Parse.{split_filter, match_filter}
use orb_mq.Topic.Tree.{empty_node, match_map, match_tree, Subscription as Route}
use orb_mq.Topic.Tree.Match.Complete.{Covers}
use orb_mq.Topic.Tree.Delivery.{HashLast}
use orb_mq.Broker.{Broker, RetainedLimits, new_with_limits, publish}
use orb_mq.Session.Limits.{default_limits, validate}
use orb_mq.Session.State.{State}
use orb_mq.Session.Store.{Store, no_counts, new_store}
use orb_mq.Server.Sessions.{Connection, Server, acquired, acquire_once, subscribe_filter, route}
use orb_mq.Server.Sessions.Coherent.{IsServer}
use orb_mq.Server.Sessions.Ownership.{IsAcquired, acquire_once-IsAcquired}
use orb_mq.Server.Sessions.Serves.{new_server, Serves, starts, connects, asks, Serves-IsServer}
use orb_mq.Server.Delivery.{publish_message}
use orb_mq.Server.Delivery.Loop.{Offered}
use orb_mq.Server.Delivery.Once.{publish_message-Offered, publish_message-Spares}
use orb_mq.Server.Sessions.Reaches.{Wants, match_map-Wants, match_map-reaches}

abbrev message : PublishPacket
message = record {
  topic = codes "a/b";
  payload = codes "hi";
  retain = false;
  dup = false;
  qos = 1;
  packet_id = 0;
}

abbrev message_template : Template
message_template = record {
  raw = 0x32 ∷ 9 ∷ 0 ∷ 3 ∷ 97 ∷ 47 ∷ 98 ∷ 0 ∷ 1 ∷ 104 ∷ 105 ∷ [];
  packet_id_offset = 7;
}

message_encoded : new_publish_template encode_publish message ≡ ok message_template
unfolding new_publish_template encode_publish orb_mq.Protocol.Wire.check_topic_name
    orb_mq.Protocol.Wire.valid_string orb_mq.Protocol.Wire.valid_utf8
    orb_mq.Protocol.Wire.contains_byte orb_mq.Base.bytes_eq
    orb_mq.Protocol.Encoder.encode_remaining_length orb_mq.Protocol.Encoder.publish_bytes
    orb_mq.Server.Templates.publish_packet_id_offset orb_mq.Protocol.Encoder.publish_flags
    orb_mq.Protocol.Encoder.length_bytes orb_mq.Server.Templates.encoded_length_size
    orb_mq.Server.Templates.size_loop
message_encoded = refl

new_publish_template-IsTemplate_example : IsTemplate message message_template
new_publish_template-IsTemplate_example =
    new_publish_template-IsTemplate message message_template message_encoded

-- Room for two connections and one handshake.
abbrev narrow : ConnectionLimits
narrow = record { max_connections = 2; max_handshakes = 1 }

abbrev group_one : Group
group_one = complete_handshake 0 (start false 0 narrow no_connections).1

-- The third connection is refused.
abbrev group_two : Group
group_two = finish 0 (start false 2 narrow (start false 1 narrow group_one).1).1

first_is_new : lookup 1 group_one.connections ≡ none
unfolding lookup complete_handshake orb_mq.Server.Connections.is_handshaking start
    orb_mq.Base.insert
first_is_new = refl

second_is_new : lookup 2 (start false 1 narrow group_one).1.connections ≡ none
unfolding lookup start complete_handshake orb_mq.Server.Connections.is_handshaking
    orb_mq.Base.insert
second_is_new = refl

Runs-IsGroup_example : IsGroup narrow group_two
unfolding lookup
Runs-IsGroup_example = Runs-IsGroup narrow group_two (
    returns 0 (
      comes false 2 second_is_new
        (comes false 1 first_is_new (completes 0 (comes false 0 refl idle)))))

abbrev retained_limits : RetainedLimits
retained_limits = record { max_messages = 10; max_bytes = 1000 }

abbrev new_broker : Broker
new_broker = record {
  topics = empty_node;
  retained = [];
  limits = retained_limits;
  stats = record { retained_messages = 0; retained_bytes = 0; retained_rejections = 0 };
}

abbrev new_sessions : Store
new_sessions = record {
  by_id = [];
  states = [];
  limits = default_limits;
  totals = no_counts;
  next_state = 0;
}

broker_started : new_with_limits retained_limits ≡ some new_broker
unfolding new_with_limits orb_mq.Broker.valid_limits
broker_started = refl

sessions_started : new_store default_limits ≡ some new_sessions
unfolding new_store validate
sessions_started = refl

abbrev fresh_server : Server
fresh_server = new_server none new_broker new_sessions

fresh_server-Serves : Serves fresh_server
fresh_server-Serves =
    starts none default_limits retained_limits new_broker new_sessions broker_started
      sessions_started

abbrev connect_packet : ConnectPacket
connect_packet = record {
  protocol_name = codes "MQTT";
  protocol_level = 4;
  clean_session = true;
  keep_alive = 60;
  client_id = codes "c";
  will = none;
  username = none;
  password = none;
}

abbrev connected_server : Server
connected_server = (acquire_once false connect_packet [] 5 fresh_server).1

abbrev connection : Connection
connection = record {
  ref = 0;
  client_id = codes "c";
  session = 0;
  clean_session = true;
  closing = false;
  ready = false;
  disconnected_at = 0;
}

session_acquired :
    (acquire_once false connect_packet [] 5 fresh_server).0 ≡ acquired connection false
unfolding acquire_once orb_mq.Server.Sessions.is_foreign orb_mq.Session.Store.get lookup
    orb_mq.Base.insert orb_mq.Base.delete orb_mq.Base.bytes_eq orb_mq.Server.Sessions.open_session
    orb_mq.Server.Sessions.expire_client orb_mq.Session.Store.expire_session
    orb_mq.Session.Store.find orb_mq.Session.Store.delete_session
    orb_mq.Session.Store.get_or_create_owned
session_acquired = refl

acquire_once-IsAcquired_example : IsAcquired connect_packet [] connection connected_server
acquire_once-IsAcquired_example =
    acquire_once-IsAcquired false connect_packet [] 5 fresh_server connection false
      (Serves-IsServer fresh_server fresh_server-Serves) session_acquired

abbrev wish : Subscription
wish = record { topic = codes "a/+"; qos = 2 }

abbrev subscribed_server : Server
subscribed_server = (subscribe_filter 0 wish connected_server).1

connection_registered : lookup (codes "c") connected_server.clients ≡ some connection
unfolding acquire_once orb_mq.Server.Sessions.is_foreign orb_mq.Session.Store.get lookup
    orb_mq.Base.insert orb_mq.Base.delete orb_mq.Base.bytes_eq orb_mq.Server.Sessions.open_session
    orb_mq.Server.Sessions.expire_client orb_mq.Session.Store.expire_session
    orb_mq.Session.Store.find orb_mq.Session.Store.delete_session
    orb_mq.Session.Store.get_or_create_owned orb_mq.Session.Store.call
    orb_mq.Session.Subscriptions.mark_connected
connection_registered = refl

subscribed_server-Serves : Serves subscribed_server
subscribed_server-Serves =
    asks (codes "c") connection wish connection_registered
      (connects false connect_packet [] 5 fresh_server-Serves)

Serves-IsServer_example : IsServer subscribed_server
Serves-IsServer_example = Serves-IsServer subscribed_server subscribed_server-Serves

message_routed :
    lookup (codes "c") (match_map subscribed_server.broker.topics (codes "a/b"))
    ≡ some (route (codes "c") 0 1)
unfolding lookup subscribe_filter orb_mq.Server.Sessions.may_subscribe acquire_once
    orb_mq.Server.Sessions.is_foreign orb_mq.Session.Store.get orb_mq.Server.Sessions.open_session
    orb_mq.Session.Store.get_or_create_owned orb_mq.Session.Store.delete_session
    orb_mq.Session.Store.find orb_mq.Server.Sessions.expire_client
    orb_mq.Session.Store.expire_session orb_mq.Server.Sessions.set_at orb_mq.Session.Store.call
    orb_mq.Base.insert orb_mq.Base.delete orb_mq.Base.bytes_eq
    orb_mq.Session.Subscriptions.set_subscription orb_mq.Session.Subscriptions.is_full
    orb_mq.Session.Subscriptions.is_long_filter orb_mq.Session.Subscriptions.is_subscribed
    orb_mq.Session.Subscriptions.mark_connected orb_mq.Topic.Parse.Split.count_slashes match_map
    orb_mq.Broker.subscribe orb_mq.Broker.unsubscribe_all orb_mq.Server.Sessions.id_of
    orb_mq.Server.Sessions.restore orb_mq.Server.Sessions.subscriptions_of
    orb_mq.Session.Subscriptions.insert_sorted orb_mq.Session.Subscriptions.snapshot_subscriptions
    split_filter orb_mq.Topic.Parse.starts_with orb_mq.Topic.Tree.add_all orb_mq.Topic.Tree.add_hash
    orb_mq.Topic.Tree.add_match orb_mq.Topic.Tree.clone orb_mq.Topic.Tree.clone_subs
    orb_mq.Topic.Tree.find_child orb_mq.Topic.Tree.match_node orb_mq.Topic.Tree.next_level
    orb_mq.Topic.Tree.put_child orb_mq.Topic.Tree.subscribe orb_mq.Topic.Tree.subscribe_node
    orb_mq.Topic.Tree.unsubscribe_all
message_routed = refl

match_map-Wants_example : Wants subscribed_server.sessions (codes "c") 0 (codes "a/b") 1
match_map-Wants_example =
    match_map-Wants subscribed_server (codes "c") (codes "a/b") (route (codes "c") 0 1)
      subscribed_server-Serves message_routed

plus_only : HashLast (split_filter (codes "a/+"))
unfolding split_filter
plus_only = ((λ e. cc), tt)

-- The session of the client.
abbrev subscribed_state : State
subscribed_state = record {
  id = codes "c";
  owner = [];
  deleted = false;
  subscriptions = (codes "a/+", 1) ∷ [];
  entries = [];
  inflight = [];
  next_packet_id = 0;
  epoch = 0;
  active_inflight = 0;
  paused = false;
  changed = false;
  stats = no_counts;
  connected = true;
  offline_since = 0;
  next_ref = 0;
}

plus_matches : match_filter (codes "a/+") (codes "a/b") ≡ true
unfolding match_filter orb_mq.Topic.Parse.match_levels split_filter orb_mq.Topic.Parse.split_topic
    orb_mq.Base.bytes_eq
plus_matches = refl

client_wants : Wants subscribed_server.sessions (codes "c") 0 (codes "a/b") 1
unfolding lookup subscribe_filter orb_mq.Server.Sessions.may_subscribe acquire_once
    orb_mq.Server.Sessions.is_foreign orb_mq.Session.Store.get orb_mq.Server.Sessions.open_session
    orb_mq.Session.Store.get_or_create_owned orb_mq.Session.Store.delete_session
    orb_mq.Session.Store.find orb_mq.Server.Sessions.expire_client
    orb_mq.Session.Store.expire_session orb_mq.Server.Sessions.set_at orb_mq.Session.Store.call
    orb_mq.Base.insert orb_mq.Base.delete orb_mq.Base.bytes_eq
    orb_mq.Session.Subscriptions.set_subscription orb_mq.Session.Subscriptions.is_full
    orb_mq.Session.Subscriptions.is_long_filter orb_mq.Session.Subscriptions.is_subscribed
    orb_mq.Session.Subscriptions.mark_connected orb_mq.Topic.Parse.Split.count_slashes
client_wants = record {
  filter = codes "a/+";
  state = subscribed_state;
  found = refl;
  here = refl;
  asked = refl;
  matches = plus_matches;
}

match_map-reaches_example :
    Covers 1 (lookup (codes "c") (match_map subscribed_server.broker.topics (codes "a/b")))
unfolding client_wants
match_map-reaches_example =
    match_map-reaches subscribed_server (codes "c") (codes "a/b") 0 1 subscribed_server-Serves
      client_wants plus_only

message_matched :
    (publish subscribed_server.broker message).0
    ≡ some (match_tree subscribed_server.broker.topics (codes "a/b"))
unfolding publish
message_matched = refl

publish_message-Offered_example :
    Offered message_template 0 default_limits subscribed_state
      (publish_message encode_publish message 9 subscribed_server).1.sessions
unfolding client_wants orb_mq.Server.Templates.new_outbound_publish
publish_message-Offered_example =
    publish_message-Offered message message_template 9 subscribed_server (codes "c") 0 1
      (match_tree subscribed_server.broker.topics (codes "a/b")) subscribed_server-Serves refl
      client_wants plus_only (omega arith) message_matched message_encoded

connected_server-Serves : Serves connected_server
connected_server-Serves = connects false connect_packet [] 5 fresh_server-Serves

session_registered : lookup (codes "c") connected_server.sessions.by_id ≡ some 0
unfolding acquire_once orb_mq.Server.Sessions.is_foreign orb_mq.Session.Store.get lookup
    orb_mq.Base.insert orb_mq.Base.delete orb_mq.Base.bytes_eq orb_mq.Server.Sessions.open_session
    orb_mq.Server.Sessions.expire_client orb_mq.Session.Store.expire_session
    orb_mq.Session.Store.find orb_mq.Session.Store.delete_session
    orb_mq.Session.Store.get_or_create_owned orb_mq.Session.Store.call
    orb_mq.Session.Subscriptions.mark_connected
session_registered = refl

nothing_asked :
    (s : State) → lookup 0 connected_server.sessions.states ≡ some s → s.subscriptions ≡ []
unfolding acquire_once orb_mq.Server.Sessions.is_foreign orb_mq.Session.Store.get lookup
    orb_mq.Base.insert orb_mq.Base.delete orb_mq.Base.bytes_eq orb_mq.Server.Sessions.open_session
    orb_mq.Server.Sessions.expire_client orb_mq.Session.Store.expire_session
    orb_mq.Session.Store.find orb_mq.Session.Store.delete_session
    orb_mq.Session.Store.get_or_create_owned orb_mq.Session.Store.call
    orb_mq.Session.Subscriptions.mark_connected
nothing_asked s h = sym (ap (λ x. x.subscriptions) (some_inj h))

nothing_wanted : (qos : ℕ) → ¬ Wants connected_server.sessions (codes "c") 0 (codes "a/b") qos
nothing_wanted qos w =
    none_is (sym (ap (λ m. lookup w.filter m) (nothing_asked w.state w.here)) ∙ w.asked)
  where
    none_is : lookup w.filter [] ≡ some qos → ⊥
    none_is e = cc (lookup_nil {V = ℕ} w.filter, e)

publish_message-Spares_example :
    lookup 0 (publish_message encode_publish message 9 connected_server).1.sessions.states
    ≡ lookup 0 connected_server.sessions.states
publish_message-Spares_example =
    publish_message-Spares encode_publish message 9 connected_server (codes "c") 0
      connected_server-Serves session_registered nothing_wanted
