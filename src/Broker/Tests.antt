-- ===== src/Broker/Tests.antt =====
-- The theorems about the retained store at a concrete input.
use orb_mq.Base.{codes, refl, arith, true, false, [], ◌∷◌, lookup}
use orb_mq.Topic.Tree.{empty_node, Subscription}
use orb_mq.Protocol.Packet.{PublishPacket}
use orb_mq.Broker.{
  Broker, RetainedLimits, new_with_limits, valid_limits, update_retained, subscribe, publish,
}
use orb_mq.Broker.Reachable.{
  Reachable, started, subscribes, publishes, IsBroker, Reachable-IsBroker,
}
use orb_mq.Broker.Retained.{IsBounded, total_size, update_retained-IsBounded}

abbrev message : PublishPacket
message = record {
  topic = codes "a";
  payload = 1 ∷ [];
  retain = true;
  dup = false;
  qos = 0;
  packet_id = 0;
}

abbrev broker : Broker
broker = record {
  topics = empty_node;
  retained = (codes "a", message) ∷ [];
  limits = record { max_messages = 1; max_bytes = 4 };
  stats = record { retained_messages = 1; retained_bytes = 2; retained_rejections = 0 };
}

broker-IsBounded : IsBounded broker
unfolding total_size lookup
broker-IsBounded = record {
  messages = refl;
  bytes = refl;
  distinct = (refl, tt);
  messages_bound = omega arith;
  bytes_bound = omega arith;
}

update_retained-IsBounded_example : IsBounded (update_retained broker message).1
update_retained-IsBounded_example = update_retained-IsBounded broker message broker-IsBounded

abbrev limits : RetainedLimits
limits = record { max_messages = 1; max_bytes = 4 }

abbrev empty : Broker
empty = record {
  topics = empty_node;
  retained = [];
  limits = limits;
  stats = record { retained_messages = 0; retained_bytes = 0; retained_rejections = 0 };
}

empty-Reachable : Reachable empty
unfolding new_with_limits valid_limits
empty-Reachable = started limits empty refl

abbrev subscription : Subscription
subscription = record { client_id = codes "c"; subscriber = 0; qos = 1 }

abbrev served : Broker
served = (publish (subscribe empty (codes "a") subscription) message).1

served-Reachable : Reachable served
served-Reachable = publishes message (subscribes (codes "a") subscription empty-Reachable)

Reachable-IsBroker_example : IsBroker served
Reachable-IsBroker_example = Reachable-IsBroker served served-Reachable
