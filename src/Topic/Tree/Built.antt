-- ===== src/Topic/Tree/Built.antt =====
-- The trees that Subscribe, Unsubscribe and UnsubscribeAll build, and what Match returns on them.
use orb_mq.Base.{
  Bytes, Bool, true, false, if◌then◌else◌, List, inl, inr, Bool-cases, some, lookup, lookup_nil,
  lookup-delete, ◌≡◌, refl, arith, bytes_Eq, ap, subst, insert, delete, Distinct-insert,
  Distinct-delete, All-insert, All-delete,
}
use orb_mq.Topic.Parse.{split_filter}
use orb_mq.Topic.Parse.Split.{join_levels, split_filter_partition}
use orb_mq.Topic.Tree.{
  Node, Subs, Subscription, empty_node, subscribe, unsubscribe, unsubscribe_all,
}
use orb_mq.Topic.Tree.Lookup.{
  subs_at, levels_eq, levels_eq_iff, subs_at-empty_node, subs_at-subscribe_node,
  subs_at-unsubscribe_node, subs_at-unsubscribe_all,
}
use orb_mq.Topic.Tree.Match.{IsGood, IsGoodTree}

-- What a run of the three operations makes of a new tree.
pub data Built : Node → Type 0 where
  new : Built empty_node
  subscribed_to :
      {root : Node} (filter : Bytes) (sub : Subscription)
      → Built root
      → Built (subscribe filter sub root)
  unsubscribed_from :
      {root : Node} (filter id : Bytes) → Built root → Built (unsubscribe filter id root)
  unsubscribed_all : {root : Node} (id : Bytes) → Built root → Built (unsubscribe_all id root)

IsGood-insert :
    (sub : Subscription) (subs : Subs) → IsGood subs → IsGood (insert sub.client_id sub subs)
IsGood-insert sub subs g = (
  All-insert (λ p. p.1.client_id ≡ p.0) sub.client_id sub subs refl g.0,
  Distinct-insert sub.client_id sub subs g.1,
)

IsGood-delete : (id : Bytes) (subs : Subs) → IsGood subs → IsGood (delete id subs)
IsGood-delete id subs g =
    (All-delete (λ p. p.1.client_id ≡ p.0) id subs g.0, Distinct-delete id subs g.1)

if-holds {ℓ κ} :
    {A : Type ℓ} (P : A → Type κ) (b : Bool) (x y : A) → P x → P y → P (if b then x else y)
if-holds P true x y px py = px
if-holds P false x y px py = py

pub Built-IsGoodTree : {root : Node} → Built root → IsGoodTree root
unfolding subscribe unsubscribe
Built-IsGoodTree new fs = rw (subs_at-empty_node fs) (tt, tt)
Built-IsGoodTree (subscribed_to {root = r} filter sub b) fs =
    rw (subs_at-subscribe_node (split_filter filter) fs sub r) (
      if-holds IsGood _ _ _ (IsGood-insert sub (subs_at fs r) (Built-IsGoodTree b fs))
        (Built-IsGoodTree b fs))
Built-IsGoodTree (unsubscribed_from {root = r} filter id b) fs =
    rw (subs_at-unsubscribe_node (split_filter filter) fs id r) (
      if-holds IsGood _ _ _ (IsGood-delete id (subs_at fs r) (Built-IsGoodTree b fs))
        (Built-IsGoodTree b fs))
Built-IsGoodTree (unsubscribed_all {root = r} id b) fs =
    rw (subs_at-unsubscribe_all id r fs) (IsGood-delete id (subs_at fs r) (Built-IsGoodTree b fs))

-- Every path of the tree that holds something is the path of a filter.
pub Built-path :
    {root : Node} (id : Bytes) (s : Subscription) (fs : List Bytes)
    → Built root
    → lookup id (subs_at fs root) ≡ some s
    → split_filter (join_levels fs) ≡ fs
unfolding subscribe unsubscribe
Built-path id s fs new e = cc (subs_at-empty_node fs, lookup_nil {V = Subscription} id)
Built-path id s fs (subscribed_to {root = r} filter sub b) e =
    elim (Bool-cases (levels_eq (split_filter filter) fs)) [
      | inl q ↦
          let p = (levels_eq_iff (split_filter filter) fs).0 q in
          subst (λ gs. split_filter (join_levels gs) ≡ gs) p
            (ap split_filter (split_filter_partition filter).0)
      | inr q ↦
          Built-path id s fs b
            (ground (arith, subs_at-subscribe_node (split_filter filter) fs sub r))
    ]
Built-path id s fs (unsubscribed_from {root = r} filter j b) e = Built-path id s fs b (
    ground (
      arith,
      subs_at-unsubscribe_node (split_filter filter) fs j r,
      lookup-delete j id (subs_at fs r),
    ))
Built-path id s fs (unsubscribed_all {root = r} j b) e =
    Built-path id s fs b
      (ground (arith, subs_at-unsubscribe_all j r fs, lookup-delete j id (subs_at fs r)))
