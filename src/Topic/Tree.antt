-- ===== src/Topic/Tree.antt =====
-- internal/topic/tree.go: the subscription tree.
-- Maps are association lists, so where the source ranges over a map the model takes list order.
pub mod Lookup
pub mod Subscribed
pub mod Built
pub mod Delivery
pub mod Match
use orb_mq.Base.{
  ℕ, Bytes, Map, bytes_eq, Bool, true, false, ◌==◌, ◌&&◌, ltb, if◌then◌else◌, List, [], ◌∷◌, Option,
  none, some, insert, delete, lookup, bytes_Eq,
}
use orb_mq.Topic.Parse.{slash, plus, hash, dollar, split_filter, starts_with}

-- `subscriber` is the pointer behind the interface value.
pub record Subscription : Type 0 where
  pub client_id : Bytes
  pub subscriber : ℕ
  pub qos : ℕ

abbrev pub Subs : Type 0
Subs = Map Bytes Subscription

-- `struct node` with its map of children as a list; a `nil` child is one that is not in the list.
mutual
  pub data Node : Type 0 where
    node : Children → Subs → Node

  pub data Children : Type 0 where
    nil : Children
    child : Bytes → Node → Children → Children

abbrev pub empty_node : Node
empty_node = node nil []

unfoldable pub find_child : Bytes → Children → Option Node
find_child l nil = none
find_child l (child k n cs) = if bytes_eq k l then some n else find_child l cs

-- `children[l] = n`
unfoldable pub put_child : Bytes → Node → Children → Children
put_child l n nil = child l n nil
put_child l n (child k m cs) = if bytes_eq k l then child l n cs else child k m (put_child l n cs)

-- `delete(children, l)`
unfoldable pub delete_child : Bytes → Children → Children
delete_child l nil = nil
delete_child l (child k m cs) =
    if bytes_eq k l then delete_child l cs else child k m (delete_child l cs)

-- The child that Subscribe walks to, made where it is missing.
abbrev pub child_or_new : Option Node → Node
child_or_new none = empty_node
child_or_new (some n) = n

-- The walk of Subscribe: each level is descended to, and the last node takes the subscription.
unfoldable pub subscribe_node : List Bytes → Subscription → Node → Node
subscribe_node [] sub (node cs subs) = node cs (insert sub.client_id sub subs)
subscribe_node (l ∷ ls) sub (node cs subs) =
    node (put_child l (subscribe_node ls sub (child_or_new (find_child l cs))) cs) subs

unfoldable pub subscribe : Bytes → Subscription → Node → Node
unfolding subscribe_node find_child put_child
subscribe filter sub root = subscribe_node (split_filter filter) sub root

-- `len(child.children) == 0 && len(child.subs) == 0`
unfoldable pub is_empty_node : Node → Bool
is_empty_node (node nil []) = true
is_empty_node (node nil (s ∷ subs)) = false
is_empty_node (node (child k n cs) subs) = false

-- What a parent does with a child that has been unsubscribed from.
unfoldable pub keep_child : Bytes → Node → Children → Children
keep_child l n cs = if is_empty_node n then delete_child l cs else put_child l n cs

unfoldable pub unsubscribe_node : List Bytes → Bytes → Node → Node
unsubscribe_node [] id (node cs subs) = node cs (delete id subs)
unsubscribe_node (l ∷ ls) id (node cs subs) = elim (find_child l cs) [
  | none ↦ node cs subs
  | some n ↦ node (keep_child l (unsubscribe_node ls id n) cs) subs
]

unfoldable pub unsubscribe : Bytes → Bytes → Node → Node
unsubscribe filter id root = unsubscribe_node (split_filter filter) id root

-- `unsubscribeAll`: the node's own entry goes, then each child is visited, and dropped if empty.
unfoldable mutual
  pub unsubscribe_all : Bytes → Node → Node
  unsubscribe_all id (node cs subs) = node (unsubscribe_all_children id cs) (delete id subs)

  pub unsubscribe_all_children : Bytes → Children → Children
  unsubscribe_all_children id nil = nil
  unsubscribe_all_children id (child k n cs) =
      let n' = unsubscribe_all id n in
      let cs' = unsubscribe_all_children id cs in
      if is_empty_node n' then delete_child k cs' else child k n' cs'

-- The copy loops of `clone`.
unfoldable pub clone_subs : Subs → Subs
clone_subs [] = []
clone_subs ((id, sub) ∷ subs) = (id, sub) ∷ clone_subs subs

unfoldable mutual
  pub clone : Node → Node
  clone (node cs subs) = node (clone_children cs) (clone_subs subs)

  pub clone_children : Children → Children
  clone_children nil = nil
  clone_children (child k n cs) = child k (clone n) (clone_children cs)

unfoldable pub add_match : Subs → Subscription → Subs
add_match out sub = elim (lookup sub.client_id out) [
  | none ↦ insert sub.client_id sub out
  | some existing ↦ if ltb existing.qos sub.qos then insert sub.client_id sub out else out
]

-- `for _, sub := range n.subs { t.addMatch(out, sub) }`
unfoldable pub add_all : Subs → Subs → Subs
add_all [] out = out
add_all ((id, sub) ∷ subs) out = add_all subs (add_match out sub)

-- The subscriptions of the `#` child.
unfoldable pub add_hash : Children → Subs → Subs
add_hash cs out = elim (find_child (hash ∷ []) cs) [
  | none ↦ out
  | some (node ds subs) ↦ add_all subs out
]

-- The scan of `match` up to the next `/`: the level, and the text behind the `/`. `none` stands for
-- an index past the end of the topic.
unfoldable pub next_level : Bytes → Bytes × Option Bytes
next_level [] = ([], none)
next_level (c ∷ s) = let (l, r) = next_level s in if c == slash then ([], some s) else (c ∷ l, r)

-- `match`, with `topic[idx:]` for the index; `first` is `idx == 0`. `match_child` is the lookup
-- `n.children[level]` together with the call on the child, if there is one.
unfoldable mutual
  pub match_node : Node → Option Bytes → Bool → Subs → Subs
  match_node (node cs subs) none first out = add_hash cs (add_all subs out)
  match_node (node cs subs) (some rest) first out =
      let literal = match_child (next_level rest).0 cs (next_level rest).1 out in
      let wild = add_hash cs (match_child (plus ∷ []) cs (next_level rest).1 literal) in
      if first && starts_with dollar rest then literal else wild

  pub match_child : Bytes → Children → Option Bytes → Subs → Subs
  match_child level nil next out = out
  match_child level (child k n cs) next out = elim (bytes_eq k level) [
    | true ↦ match_node n next false out
    | false ↦ match_child level cs next out
  ]

-- `Tree.Match`; the pooled slice is filled from the map.
unfoldable pub match_map : Node → Bytes → Subs
unfolding match_node next_level add_hash add_all add_match find_child
match_map root topic = match_node root (some topic) true []

unfoldable pub values : Subs → List Subscription
values [] = []
values ((id, sub) ∷ subs) = sub ∷ values subs

unfoldable pub match_tree : Node → Bytes → List Subscription
match_tree root topic = values (match_map root topic)
