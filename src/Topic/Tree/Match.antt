-- ===== src/Topic/Tree/Match.antt =====
-- Tree.Match against the filters that the tree holds.
pub mod Sound
pub mod Complete
pub mod Once
use orb_mq.Base.{
  ℕ, suc, ◌+◌, ◌≤◌, ◌<◌, Bytes, Map, bytes_eq, bytes_eq_iff, Bool, true, false, ◌==◌, ◌&&◌, ◌||◌,
  not, ltb, if◌then◌else◌, List, [], ◌∷◌, ◌++◌, inl, inr, Option-cases, Bool-cases, Option, none,
  some, insert, delete, lookup, lookup-insert, ◌≡◌, refl, arith, Eq, bytes_Eq, ◌↔◌, ◌∙◌, ap, sym,
  Distinct, All,
}
use orb_mq.Topic.Parse.{
  slash, plus, hash, dollar, split_filter, split_topic, starts_with, match_levels, match_filter,
}
use orb_mq.Topic.Parse.Split.{
  levels, push_byte, levels-cons, split_filter-levels, split_topic-levels,
}
use orb_mq.Topic.Tree.{
  Node, Children, node, nil, child, Subs, Subscription, find_child, add_match, add_all, add_hash,
  next_level, match_node, match_child, match_map,
}
use orb_mq.Topic.Tree.Lookup.{subs_at, subs_at_here, subs_at-node, subs_below-child, subs_below_nil}

abbrev pub is_last : List Bytes → Bool
is_last [] = true
is_last (f ∷ fs) = false

-- The paths that `match` visits, by the levels of the path and of the topic. `system` tells that
-- the topic begins with `$`, which keeps wildcards out of the first level.
unfoldable pub selects : Bool → List Bytes → List Bytes → Bool
selects system [] [] = true
selects system [] (t ∷ ts) = false
selects system (f ∷ fs) [] = bytes_eq f (hash ∷ []) && is_last fs
selects system (f ∷ fs) (t ∷ ts) =
    let rest = selects false fs ts in
    (not system && ((bytes_eq f (hash ∷ []) && is_last fs) || (bytes_eq f (plus ∷ []) && rest)))
    || (bytes_eq f t && rest)

-- A map of subscriptions by client: each under its own client, and none twice.
abbrev pub IsGood : Subs → Type 0
IsGood subs = All (λ p. p.1.client_id ≡ p.0) subs × Distinct subs

-- Every node's map is good.
abbrev pub IsGoodTree : Node → Type 0
IsGoodTree n = (fs : List Bytes) → IsGood (subs_at fs n)

-- The subscription of the higher QoS; the one that is there stays where they are equal.
abbrev pub best : Option Subscription → Subscription → Subscription
best none s = s
best (some e) s = if ltb e.qos s.qos then s else e

abbrev pub merge : Option Subscription → Option Subscription → Option Subscription
merge o none = o
merge o (some s) = some (best o s)

pub lookup-add_match :
    (id : Bytes) (out : Subs) (sub : Subscription)
    → lookup id (add_match out sub)
      ≡ (if bytes_eq sub.client_id id then some (best (lookup id out) sub) else lookup id out)
unfolding add_match
lookup-add_match id out sub =
    ground (arith, bytes_eq_iff sub.client_id id, lookup-insert sub.client_id id sub out)

pub lookup-add_all :
    (id : Bytes) (subs out : Subs)
    → IsGood subs
    → lookup id (add_all subs out) ≡ merge (lookup id out) (lookup id subs)
unfolding add_all lookup
lookup-add_all id [] out g = refl
lookup-add_all id ((k, s) ∷ subs) out g = ground (
  arith,
  bytes_eq_iff k id,
  lookup-add_match id out s,
  lookup-add_all id subs (add_match out s) (g.0.1, g.1.1),
)
