-- ===== src/Topic/Tree/Match/Once.antt =====
-- internal/topic/tree.go: the keys of the map that `match` fills.
use orb_mq.Base.{
  Bytes, bytes_eq, bytes_Eq, Bool, Bool-cases, Option-cases, true, false, ltb, ◌&&◌, [], ◌∷◌,
  Option, none, some, insert, lookup, Distinct, Distinct-insert, All, All-insert, ◌≡◌, refl, inl,
  inr,
}
use orb_mq.Topic.Parse.{plus, hash, dollar, starts_with}
use orb_mq.Topic.Tree.{
  Subscription, Subs, Node, node, Children, nil, child, find_child, add_match, add_all, add_hash,
  next_level, match_node, match_child, match_map,
}
use orb_mq.Topic.Tree.Match.Sound.{
  match_node_step, match_node_past, match_child_step, match_child_nil,
}

-- No client stands twice in the result, and each subscription stands under its own client.
abbrev pub IsOnce : Subs → Type 0
IsOnce out = Distinct out × All (λ p. p.1.client_id ≡ p.0) out

insert-IsOnce :
    (out : Subs) (sub : Subscription) → IsOnce out → IsOnce (insert sub.client_id sub out)
insert-IsOnce out sub d = (
  Distinct-insert sub.client_id sub out d.0,
  All-insert (λ p. p.1.client_id ≡ p.0) sub.client_id sub out refl d.1,
)

add_match-IsOnce : (out : Subs) (sub : Subscription) → IsOnce out → IsOnce (add_match out sub)
unfolding add_match
add_match-IsOnce out sub d = elim (Option-cases (lookup sub.client_id out)) [
  | inl e ↦ rw (add_match, e) (insert-IsOnce out sub d)
  | inr (old, e) ↦ elim (Bool-cases (ltb old.qos sub.qos)) [
    | inl q ↦ rw (add_match, e, q) (insert-IsOnce out sub d)
    | inr q ↦ rw (add_match, e, q) d
  ]
]

add_all-IsOnce : (subs out : Subs) → IsOnce out → IsOnce (add_all subs out)
unfolding add_all
add_all-IsOnce [] out d = d
add_all-IsOnce ((id, sub) ∷ subs) out d =
    add_all-IsOnce subs (add_match out sub) (add_match-IsOnce out sub d)

add_hash-IsOnce : (cs : Children) (out : Subs) → IsOnce out → IsOnce (add_hash cs out)
unfolding add_hash
add_hash-IsOnce cs out d = elim (Option-cases (find_child (hash ∷ []) cs)) [
  | inl e ↦ rw (add_hash, e) d
  | inr (node ds subs, e) ↦ rw (add_hash, e) (add_all-IsOnce subs out d)
]

mutual
  match_node-IsOnce :
      (n : Node) (rest : Option Bytes) (first : Bool) (out : Subs)
      → IsOnce out
      → IsOnce (match_node n rest first out)
  match_node-IsOnce (node cs subs) none first out d =
      rw (match_node_past cs subs first out)
        (add_hash-IsOnce cs (add_all subs out) (add_all-IsOnce subs out d))
  match_node-IsOnce (node cs subs) (some rest) first out d =
      let literal = match_child-IsOnce (next_level rest).0 cs (next_level rest).1 out d in
      let wild =
        add_hash-IsOnce cs _ (match_child-IsOnce (plus ∷ []) cs (next_level rest).1 _ literal) in
      elim (Bool-cases (first && starts_with dollar rest)) [
        | inl q ↦ rw (match_node_step cs subs rest first out, q) literal
        | inr q ↦ rw (match_node_step cs subs rest first out, q) wild
      ]

  match_child-IsOnce :
      (level : Bytes) (cs : Children) (next : Option Bytes) (out : Subs)
      → IsOnce out
      → IsOnce (match_child level cs next out)
  match_child-IsOnce level nil next out d = rw (match_child_nil level next out) d
  match_child-IsOnce level (child k n cs) next out d = elim (Bool-cases (bytes_eq k level)) [
    | inl q ↦ rw (match_child_step level k n cs next out, q) (match_node-IsOnce n next false out d)
    | inr q ↦
        rw (match_child_step level k n cs next out, q) (match_child-IsOnce level cs next out d)
  ]

-- Match returns each client at most once, with a subscription of its own.
pub match_map-IsOnce : (root : Node) (topic : Bytes) → IsOnce (match_map root topic)
unfolding match_map
match_map-IsOnce root topic = match_node-IsOnce root (some topic) true [] (tt, tt)
