-- ===== src/Topic/Tests.antt =====
-- Runs of the topic functions, and the theorems about them at concrete inputs.
use orb_mq.Base.{
  Bytes, codes, bytes_eq, [], ◌∷◌, true, false, ◌&&◌, if◌then◌else◌, none, some, lookup, insert,
  bytes_Eq, length, ◌≡◌, refl, arith, All, ◌+◌,
}
use orb_mq.Topic.Parse.{
  dollar, split_filter, split_topic, starts_with, match_levels, match_filter, covers_levels,
  widen_requested, covers_filter,
}
use orb_mq.Topic.Parse.Split.{
  join_levels, SlashFree, count_slashes, split_filter_partition, split_filter-join_levels,
}
use orb_mq.Topic.Parse.Covers.{match_filter-dollar, covers_filter_sound}
use orb_mq.Topic.Tree.{
  Subscription, Node, empty_node, subscribe, unsubscribe, unsubscribe_all, match_map,
}
use orb_mq.Topic.Tree.Lookup.{subs_at}
use orb_mq.Topic.Tree.Subscribed.{
  subscribed, subscribed-subscribe, subscribed-unsubscribe, subscribed-unsubscribe_all,
}
use orb_mq.Topic.Tree.Built.{Built, new, subscribed_to}
use orb_mq.Topic.Tree.Match.Complete.{Covers}
use orb_mq.Topic.Tree.Delivery.{HashLast, FromFilter, match_map_complete, match_map_sound}

abbrev client : Bytes
client = codes "c"

abbrev sub0 : Subscription
sub0 = record { client_id = client; subscriber = 1; qos = 0 }

abbrev sub1 : Subscription
sub1 = record { client_id = client; subscriber = 1; qos = 1 }

-- One client under two filters that both match `a/b`.
abbrev tree : Node
tree = subscribe (codes "a/#") sub1 (subscribe (codes "a/+") sub0 empty_node)

tree-Built : Built tree
tree-Built = subscribed_to (codes "a/#") sub1 (subscribed_to (codes "a/+") sub0 new)

highest_wins : lookup client (match_map tree (codes "a/b")) ≡ some sub1
unfolding match_map subscribe split_filter lookup insert bytes_eq starts_with
highest_wins = refl

system_hidden : match_filter (codes "#") (codes "$SYS/x") ≡ false
unfolding match_filter starts_with
system_hidden = refl

parent_level : match_filter (codes "a/#") (codes "a") ≡ true
unfolding match_filter starts_with split_filter split_topic match_levels bytes_eq
parent_level = refl

plus_covers : covers_filter (codes "a/+") (codes "a/b") ≡ some true
unfolding covers_filter starts_with split_filter covers_levels widen_requested bytes_eq
plus_covers = refl

ab_matches : match_filter (codes "a/b") (codes "a/b") ≡ true
unfolding match_filter starts_with split_filter split_topic match_levels bytes_eq
ab_matches = refl

sys_matches : match_filter (codes "$S/+") (codes "$S/x") ≡ true
unfolding match_filter starts_with split_filter split_topic match_levels bytes_eq
sys_matches = refl

split_filter_partition_example :
    (join_levels (split_filter (codes "a//b")) ≡ codes "a//b")
    × All SlashFree (split_filter (codes "a//b"))
    × (length (split_filter (codes "a//b")) ≡ count_slashes (codes "a//b") + 1)
split_filter_partition_example = split_filter_partition (codes "a//b")

split_filter-join_levels_example :
    split_filter (join_levels (codes "a" ∷ [] ∷ codes "b" ∷ [])) ≡ codes "a" ∷ [] ∷ codes "b" ∷ []
split_filter-join_levels_example =
    split_filter-join_levels (codes "a") ([] ∷ codes "b" ∷ []) (omega arith)

covers_filter_sound_example : match_filter (codes "a/+") (codes "a/b") ≡ true
covers_filter_sound_example =
    covers_filter_sound (codes "a/+") (codes "a/b") (codes "a/b") (λ e. cc) plus_covers ab_matches

match_filter-dollar_example : starts_with dollar (codes "$S/+") ≡ true
match_filter-dollar_example = match_filter-dollar (codes "$S/+") (codes "S/x") sys_matches

subscribed-subscribe_example : subscribed (codes "a/+") client tree ≡ (
    if bytes_eq (codes "a/#") (codes "a/+") && bytes_eq client client
    then some sub1
    else subscribed (codes "a/+") client (subscribe (codes "a/+") sub0 empty_node))
subscribed-subscribe_example =
    subscribed-subscribe (codes "a/#") (codes "a/+") client sub1
      (subscribe (codes "a/+") sub0 empty_node)

subscribed-unsubscribe_example :
    subscribed (codes "a/+") client (unsubscribe (codes "a/#") client tree) ≡ (
      if bytes_eq (codes "a/#") (codes "a/+") && bytes_eq client client
      then none
      else subscribed (codes "a/+") client tree)
subscribed-unsubscribe_example =
    subscribed-unsubscribe (codes "a/#") (codes "a/+") client client tree

subscribed-unsubscribe_all_example :
    subscribed (codes "a/+") client (unsubscribe_all client tree)
    ≡ (if bytes_eq client client then none else subscribed (codes "a/+") client tree)
subscribed-unsubscribe_all_example = subscribed-unsubscribe_all client (codes "a/+") client tree

tree_holds : subscribed (codes "a/#") client tree ≡ some sub1
unfolding subscribed subscribe subs_at split_filter lookup insert bytes_eq
tree_holds = refl

hash_matches : match_filter (codes "a/#") (codes "a/b") ≡ true
unfolding match_filter starts_with split_filter split_topic match_levels bytes_eq
hash_matches = refl

hash_last : HashLast (split_filter (codes "a/#"))
unfolding split_filter
hash_last = ((λ e. cc), tt)

match_map_complete_example : Covers 1 (lookup client (match_map tree (codes "a/b")))
match_map_complete_example =
    match_map_complete tree (codes "a/#") client (codes "a/b") sub1 tree-Built hash_last tree_holds
      hash_matches

match_map_sound_example : FromFilter tree client (codes "a/b") sub1
match_map_sound_example = match_map_sound tree client (codes "a/b") sub1 tree-Built highest_wins
