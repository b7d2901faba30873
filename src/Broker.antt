-- ===== src/Broker.antt =====
-- internal/broker/broker.go: retained messages within their limits, and the copy-on-write tree. The
-- snapshots in atomic values are the fields `topics` and `retained`; each method holds its lock.
pub mod Retained
pub mod Routing
pub mod Reachable
mod Tests
use orb_mq.Base.{
  ℕ, ◌+◌, ◌-◌, ◌*◌, ◌%◌, ◌^◌, Bytes, Map, bytes_Eq, lookup, insert, delete, Bool, true, false, ◌&&◌,
  ◌||◌, ltb, leb, ◌==◌, if◌then◌else◌, List, [], ◌∷◌, Option, none, some, length,
}
use orb_mq.Protocol.Packet.{PublishPacket}
use orb_mq.Topic.Parse.{match_filter}
use orb_mq.Topic.Tree.{
  Node, empty_node, subscribe as tree_subscribe, unsubscribe as tree_unsubscribe,
  unsubscribe_all as tree_unsubscribe_all, clone, match_tree, Subscription,
}

pub record RetainedLimits : Type 0 where
  pub max_messages : ℕ
  pub max_bytes : ℕ

pub record Snapshot : Type 0 where
  pub retained_messages : ℕ
  pub retained_bytes : ℕ
  pub retained_rejections : ℕ

pub record Broker : Type 0 where
  pub topics : Node
  pub retained : Map Bytes PublishPacket
  pub limits : RetainedLimits
  pub stats : Snapshot

-- `RetainedLimits.Validate`, for limits that are not negative.
unfoldable pub valid_limits : RetainedLimits → Bool
valid_limits l = ltb 0 l.max_messages && ltb 0 l.max_bytes

-- `NewWithLimits`; `none` is its error.
unfoldable pub new_with_limits : RetainedLimits → Option Broker
new_with_limits l =
    if valid_limits l
    then some (record {
      topics = empty_node;
      retained = [];
      limits = l;
      stats = record { retained_messages = 0; retained_bytes = 0; retained_rejections = 0 };
    })
    else none

-- The bytes that a retained message takes.
abbrev pub message_size : PublishPacket → ℕ
message_size p = length p.topic + length p.payload

abbrev pub retained_size : Option PublishPacket → ℕ
retained_size none = 0
retained_size (some p) = message_size p

abbrev pub is_absent {ℓ} : {A : Type ℓ} → Option A → Bool
is_absent none = true
is_absent (some a) = false

-- The message as it is kept.
abbrev pub kept : PublishPacket → PublishPacket
kept p = record p { dup = false; retain = true }

-- The test that refuses a message. `newBytes > MaxBytes - (RetainedBytes - oldBytes)` is written
-- with sums; the counters are at least 0.
unfoldable pub exceeds : Broker → PublishPacket → Bool
exceeds b p =
    let old = lookup p.topic b.retained in
    (is_absent old && leb b.limits.max_messages (length b.retained))
    || ltb (b.limits.max_bytes + retained_size old) (message_size p + b.stats.retained_bytes)

abbrev reject : Broker → Broker
reject b = record b {
  stats = record b.stats { retained_rejections = (b.stats.retained_rejections + 1) % 2 ^ 64 };
}

-- The map and the counters behind the test.
abbrev pub store_retained : Broker → Map Bytes PublishPacket → ℕ → ℕ → Broker
store_retained b retained new_bytes old_bytes = record b {
  retained = retained;
  stats = record b.stats {
    retained_messages = length retained;
    retained_bytes = b.stats.retained_bytes + new_bytes - old_bytes;
  };
}

-- `updateRetained`; the Boolean tells whether it succeeded.
unfoldable pub update_retained : Broker → PublishPacket → Bool × Broker
update_retained b p =
    let old = retained_size (lookup p.topic b.retained) in
    if length p.payload == 0
    then (true, store_retained b (delete p.topic b.retained) 0 old)
    else if exceeds b p
    then (false, reject b)
    else (true, store_retained b (insert p.topic (kept p) b.retained) (message_size p) old)

-- `RetainedMatching`, in the order of the map.
unfoldable pub retained_matching : Bytes → Map Bytes PublishPacket → List PublishPacket
retained_matching filter [] = []
retained_matching filter ((name, p) ∷ m) =
    let rest = retained_matching filter m in if match_filter filter name then p ∷ rest else rest

unfoldable pub subscribe : Broker → Bytes → Subscription → Broker
subscribe b filter sub = record b { topics = tree_subscribe filter sub (clone b.topics) }

unfoldable pub unsubscribe : Broker → Bytes → Bytes → Broker
unsubscribe b filter id = record b { topics = tree_unsubscribe filter id (clone b.topics) }

unfoldable pub unsubscribe_all : Broker → Bytes → Broker
unsubscribe_all b id = record b { topics = tree_unsubscribe_all id (clone b.topics) }

-- `Publish`: the subscriptions that the message is delivered to, or `none` where the retained store
-- refuses it.
unfoldable pub publish : Broker → PublishPacket → Option (List Subscription) × Broker
publish b p =
    let (done, b') = update_retained b p in
    if p.retain
    then (if done then (some (match_tree b'.topics p.topic), b') else (none, b'))
    else (some (match_tree b.topics p.topic), b)
