-- ===== src/Broker/Reachable.antt =====
-- internal/broker/broker.go: the states that runs of the operations reach.
use orb_mq.Base.{
  Bytes, Bool-cases, Bool, true, false, if◌then◌else◌, some, ◌≡◌, refl, sym, inl, inr, arith, ◌==◌,
  length, subst, some_inj, bytes_Eq,
}
use orb_mq.Protocol.Packet.{PublishPacket}
use orb_mq.Topic.Tree.{Node, Subscription}
use orb_mq.Topic.Tree.Built.{Built, new, subscribed_to, unsubscribed_from, unsubscribed_all}
use orb_mq.Broker.{
  RetainedLimits, Broker, valid_limits, new_with_limits, exceeds, update_retained, subscribe,
  unsubscribe, unsubscribe_all, publish,
}
use orb_mq.Broker.Retained.{IsBounded, total_size, update_retained-IsBounded}
use orb_mq.Broker.Routing.{clone_same}

-- A run of operations from a new broker.
pub data Reachable : Broker → Type 0 where
  started : (l : RetainedLimits) (b : Broker) → new_with_limits l ≡ some b → Reachable b
  subscribes :
      {b : Broker} (filter : Bytes) (sub : Subscription)
      → Reachable b
      → Reachable (subscribe b filter sub)
  unsubscribes :
      {b : Broker} (filter id : Bytes) → Reachable b → Reachable (unsubscribe b filter id)
  unsubscribes_all : {b : Broker} (id : Bytes) → Reachable b → Reachable (unsubscribe_all b id)
  publishes : {b : Broker} (p : PublishPacket) → Reachable b → Reachable (publish b p).1

-- What holds between operations.
pub record IsBroker (b : Broker) : Type 0 where
  pub tree : Built b.topics
  pub bounded : IsBounded b

pub topics-update_retained :
    (b : Broker) (p : PublishPacket) → (update_retained b p).1.topics ≡ b.topics
unfolding update_retained
topics-update_retained b p = elim (Bool-cases (length p.payload == 0)) [
  | inl z ↦ simp z
  | inr z ↦ elim (Bool-cases (exceeds b p)) [ inl e ↦ simp (z, e) | inr e ↦ simp (z, e) ]
]

update_retained-IsBroker :
    (b : Broker) (p : PublishPacket) → IsBroker b → IsBroker (update_retained b p).1
update_retained-IsBroker b p v = record {
  tree = subst Built (sym (topics-update_retained b p)) v.tree;
  bounded = update_retained-IsBounded b p v.bounded;
}

rebuilt : (b : Broker) (root : Node) → IsBounded b → IsBounded (record b { topics = root })
rebuilt b root v = record {
  messages = v.messages;
  bytes = v.bytes;
  distinct = v.distinct;
  messages_bound = v.messages_bound;
  bytes_bound = v.bytes_bound;
}

pub published :
    (b : Broker) (p : PublishPacket)
    → (publish b p).1 ≡ (if p.retain then (update_retained b p).1 else b)
unfolding publish
published b p = elim (Bool-cases p.retain) [
  | inr r ↦ simp r
  | inl r ↦ elim (Bool-cases (update_retained b p).0) [ inl d ↦ simp (r, d) | inr d ↦ simp (r, d) ]
]

publish-IsBroker : (b : Broker) (p : PublishPacket) → IsBroker b → IsBroker (publish b p).1
publish-IsBroker b p v = subst IsBroker (sym (published b p)) (choose p.retain)
  where
    choose : (r : Bool) → IsBroker (if r then (update_retained b p).1 else b)
    choose true = update_retained-IsBroker b p v
    choose false = v

new_with_limits-IsBroker :
    (l : RetainedLimits) (b : Broker) → new_with_limits l ≡ some b → IsBroker b
unfolding new_with_limits total_size
new_with_limits-IsBroker l b e = elim (Bool-cases (valid_limits l)) [
  | inl z ↦ subst IsBroker (some_inj (rw z at e)) (record {
    tree = new;
    bounded = record {
      messages = refl;
      bytes = refl;
      distinct = tt;
      messages_bound = omega arith;
      bytes_bound = omega arith;
    };
  })
  | inr z ↦ cc (rw z at e)
]

-- In every state that operations lead to from a new broker, the tree is one that subscriptions and
-- their removals build, and the retained messages are counted right and within the limits.
pub Reachable-IsBroker : (b : Broker) → Reachable b → IsBroker b
unfolding subscribe unsubscribe unsubscribe_all
Reachable-IsBroker _ (started l b e) = new_with_limits-IsBroker l b e
Reachable-IsBroker _ (subscribes {b} filter sub r) =
    let v = Reachable-IsBroker b r in
    record {
      tree = subscribed_to filter sub (subst Built (sym (clone_same b.topics)) v.tree);
      bounded = rebuilt b _ v.bounded;
    }
Reachable-IsBroker _ (unsubscribes {b} filter id r) =
    let v = Reachable-IsBroker b r in
    record {
      tree = unsubscribed_from filter id (subst Built (sym (clone_same b.topics)) v.tree);
      bounded = rebuilt b _ v.bounded;
    }
Reachable-IsBroker _ (unsubscribes_all {b} id r) =
    let v = Reachable-IsBroker b r in
    record {
      tree = unsubscribed_all id (subst Built (sym (clone_same b.topics)) v.tree);
      bounded = rebuilt b _ v.bounded;
    }
Reachable-IsBroker _ (publishes {b} p r) = publish-IsBroker b p (Reachable-IsBroker b r)
