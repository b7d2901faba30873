-- ===== src/Topic/Tree/Subscribed.antt =====
-- The tree as a map from a filter and a client to a subscription.
use orb_mq.Base.{
  Bytes, bytes_eq, bytes_eq_iff, ◌&&◌, if◌then◌else◌, Option, none, some, lookup, lookup-insert,
  lookup-delete, ◌≡◌, arith, bytes_Eq, ◌∙◌, ap, sym, Bool_ext,
}
use orb_mq.Topic.Parse.{split_filter}
use orb_mq.Topic.Parse.Split.{join_levels, split_filter_partition}
use orb_mq.Topic.Tree.{Node, Subscription, subscribe, unsubscribe, unsubscribe_all}
use orb_mq.Topic.Tree.Lookup.{
  subs_at, levels_eq, levels_eq_iff, subs_at-subscribe_node, subs_at-unsubscribe_node,
  subs_at-unsubscribe_all,
}

-- The subscription that the tree holds for a filter and a client.
unfoldable pub subscribed : Bytes → Bytes → Node → Option Subscription
subscribed filter id root = lookup id (subs_at (split_filter filter) root)

split_filter_injective : (f g : Bytes) → split_filter f ≡ split_filter g → f ≡ g
split_filter_injective f g e =
    sym (split_filter_partition f).0 ∙ (ap join_levels e ∙ (split_filter_partition g).0)

levels_eq-split_filter : (f g : Bytes) → levels_eq (split_filter f) (split_filter g) ≡ bytes_eq f g
levels_eq-split_filter f g =
    Bool_ext _ _ (λ h. (bytes_eq_iff f g).1 (split_filter_injective f g ((levels_eq_iff _ _).0 h)))
      (λ h. (levels_eq_iff _ _).1 (ap split_filter ((bytes_eq_iff f g).0 h)))

-- After Subscribe the tree holds the new subscription for its filter and client, and for every
-- other filter or client what it held before.
pub subscribed-subscribe :
    (f g id : Bytes) (sub : Subscription) (root : Node)
    → subscribed g id (subscribe f sub root)
      ≡ (if bytes_eq f g && bytes_eq sub.client_id id then some sub else subscribed g id root)
unfolding subscribed subscribe
subscribed-subscribe f g id sub root = ground (
  arith,
  subs_at-subscribe_node (split_filter f) (split_filter g) sub root,
  levels_eq-split_filter f g,
  lookup-insert sub.client_id id sub (subs_at (split_filter g) root),
)

-- After Unsubscribe the tree holds nothing for the filter and the client, and for every other
-- filter or client what it held before, though nodes are pruned.
pub subscribed-unsubscribe :
    (f g id j : Bytes) (root : Node)
    → subscribed g j (unsubscribe f id root)
      ≡ (if bytes_eq f g && bytes_eq id j then none else subscribed g j root)
unfolding subscribed unsubscribe
subscribed-unsubscribe f g id j root = ground (
  arith,
  subs_at-unsubscribe_node (split_filter f) (split_filter g) id root,
  levels_eq-split_filter f g,
  lookup-delete id j (subs_at (split_filter g) root),
)

-- After UnsubscribeAll the tree holds nothing for the client under any filter, and for every other
-- client what it held before.
pub subscribed-unsubscribe_all :
    (id g j : Bytes) (root : Node)
    → subscribed g j (unsubscribe_all id root)
      ≡ (if bytes_eq id j then none else subscribed g j root)
unfolding subscribed
subscribed-unsubscribe_all id g j root = ground (
  arith,
  subs_at-unsubscribe_all id root (split_filter g),
  lookup-delete id j (subs_at (split_filter g) root),
)
