-- ===== src/Topic/Tree/Lookup.antt =====
-- The tree as a map from filter levels to subscriptions.
use orb_mq.Base.{
  Bytes, bytes_eq, bytes_eq_iff, Bool, true, false, ◌&&◌, if◌then◌else◌, List, [], ◌∷◌, inl, inr,
  Option-cases, Option, none, some, insert, delete, ◌≡◌, refl, arith, bytes_Eq, ◌↔◌,
}
use orb_mq.Topic.Tree.{
  Node, Children, node, nil, child, Subs, Subscription, empty_node, find_child, put_child,
  delete_child, child_or_new, subscribe_node, is_empty_node, keep_child, unsubscribe_node,
  unsubscribe_all, unsubscribe_all_children,
}

-- The subscriptions at the end of a path of levels.
unfoldable pub subs_at : List Bytes → Node → Subs
subs_at [] (node cs subs) = subs
subs_at (l ∷ ls) (node cs subs) = elim (find_child l cs) [ none ↦ [] | some n ↦ subs_at ls n ]

-- The same below a child that may be missing.
abbrev pub subs_below : List Bytes → Option Node → Subs
subs_below ls none = []
subs_below ls (some n) = subs_at ls n

pub levels_eq : List Bytes → List Bytes → Bool
levels_eq [] [] = true
levels_eq [] (y ∷ ys) = false
levels_eq (x ∷ xs) [] = false
levels_eq (x ∷ xs) (y ∷ ys) = bytes_eq x y && levels_eq xs ys

pub levels_eq_iff : (xs ys : List Bytes) → (levels_eq xs ys ≡ true) ↔ (xs ≡ ys)
unfolding levels_eq
levels_eq_iff [] [] = (λ h. refl, λ h. refl)
levels_eq_iff [] (y ∷ ys) = (λ h. cc, λ h. cc)
levels_eq_iff (x ∷ xs) [] = (λ h. cc, λ h. cc)
levels_eq_iff (x ∷ xs) (y ∷ ys) = (
  λ h. ground (arith, bytes_eq_iff x y, levels_eq_iff xs ys),
  λ h. ground (arith, bytes_eq_iff x y, levels_eq_iff xs ys),
)

find_child-put_child :
    (l k : Bytes) (n : Node) (cs : Children)
    → find_child k (put_child l n cs) ≡ (if bytes_eq l k then some n else find_child k cs)
unfolding find_child put_child
find_child-put_child l k n nil = refl
find_child-put_child l k n (child j m cs) =
    ground
      (arith, bytes_eq_iff l k, bytes_eq_iff j l, bytes_eq_iff j k, find_child-put_child l k n cs)

find_child-delete_child :
    (l k : Bytes) (cs : Children)
    → find_child k (delete_child l cs) ≡ (if bytes_eq l k then none else find_child k cs)
unfolding find_child delete_child
find_child-delete_child l k nil = ground arith
find_child-delete_child l k (child j m cs) =
    ground
      (arith, bytes_eq_iff l k, bytes_eq_iff j l, bytes_eq_iff j k, find_child-delete_child l k cs)

pub subs_at-empty_node : (ls : List Bytes) → subs_at ls empty_node ≡ []
unfolding subs_at find_child
subs_at-empty_node [] = refl
subs_at-empty_node (l ∷ ls) = refl

subs_at-child_or_new :
    (ls : List Bytes) (o : Option Node) → subs_at ls (child_or_new o) ≡ subs_below ls o
subs_at-child_or_new ls none = subs_at-empty_node ls
subs_at-child_or_new ls (some n) = refl

pub subs_at-node :
    (l : Bytes) (ls : List Bytes) (cs : Children) (subs : Subs)
    → subs_at (l ∷ ls) (node cs subs) ≡ subs_below ls (find_child l cs)
unfolding subs_at
subs_at-node l ls cs subs = ground arith

-- Subscribing writes the one entry of the filter's path and of the client, and leaves all others.
pub subs_at-subscribe_node :
    (fs ls : List Bytes) (sub : Subscription) (n : Node)
    → subs_at ls (subscribe_node fs sub n)
      ≡ (if levels_eq fs ls then insert sub.client_id sub (subs_at ls n) else subs_at ls n)
unfolding subscribe_node levels_eq
subs_at-subscribe_node [] [] sub (node cs subs) = unfold subs_at in refl
subs_at-subscribe_node [] (l ∷ ls) sub (node cs subs) = unfold subs_at in refl
subs_at-subscribe_node (f ∷ fs) [] sub (node cs subs) = unfold subs_at in refl
subs_at-subscribe_node (f ∷ fs) (l ∷ ls) sub (node cs subs) = ground (
  arith,
  bytes_eq_iff f l,
  subs_at-node l ls cs subs,
  subs_at-node l ls (put_child f (subscribe_node fs sub (child_or_new (find_child f cs))) cs) subs,
  find_child-put_child f l (subscribe_node fs sub (child_or_new (find_child f cs))) cs,
  subs_at-subscribe_node fs ls sub (child_or_new (find_child f cs)),
  subs_at-child_or_new ls (find_child f cs),
)

-- An empty node has nothing under it.
subs_at-is_empty_node : (ls : List Bytes) (n : Node) → is_empty_node n ≡ true → subs_at ls n ≡ []
unfolding is_empty_node subs_at find_child
subs_at-is_empty_node [] (node nil []) h = refl
subs_at-is_empty_node (l ∷ ls) (node nil []) h = refl
subs_at-is_empty_node ls (node nil (s ∷ subs)) h = cc
subs_at-is_empty_node ls (node (child k n cs) subs) h = cc

-- Dropping an empty child and keeping it look the same.
subs_below-keep_child :
    (l k : Bytes) (ls : List Bytes) (n : Node) (cs : Children)
    → subs_below ls (find_child k (keep_child l n cs))
      ≡ (if bytes_eq l k then subs_at ls n else subs_below ls (find_child k cs))
unfolding keep_child
subs_below-keep_child l k ls n cs = ground (
  arith,
  subs_at-is_empty_node ls n,
  find_child-put_child l k n cs,
  find_child-delete_child l k cs,
)

delete_nil : (id : Bytes) → delete {V = Subscription} id [] ≡ []
unfolding delete
delete_nil id = refl

-- Unsubscribing deletes the one entry of the filter's path and of the client, and leaves all others:
-- the nodes that it prunes held nothing.
pub subs_at-unsubscribe_node :
    (fs ls : List Bytes) (id : Bytes) (n : Node)
    → subs_at ls (unsubscribe_node fs id n)
      ≡ (if levels_eq fs ls then delete id (subs_at ls n) else subs_at ls n)
unfolding unsubscribe_node levels_eq
subs_at-unsubscribe_node [] [] id (node cs subs) = unfold subs_at in refl
subs_at-unsubscribe_node [] (l ∷ ls) id (node cs subs) = unfold subs_at in refl
subs_at-unsubscribe_node (f ∷ fs) [] id (node cs subs) = unfold subs_at in ground arith
subs_at-unsubscribe_node (f ∷ fs) (l ∷ ls) id (node cs subs) =
    elim (Option-cases (find_child f cs)) [
      | inl e ↦ ground (arith, bytes_eq_iff f l, subs_at-node l ls cs subs, delete_nil id)
      | inr (n, e) ↦ ground (
        arith,
        bytes_eq_iff f l,
        subs_at-node l ls cs subs,
        subs_at-node l ls (keep_child f (unsubscribe_node fs id n) cs) subs,
        subs_below-keep_child f l ls (unsubscribe_node fs id n) cs,
        subs_at-unsubscribe_node fs ls id n,
      )
    ]

pub subs_at_here : (cs : Children) (subs : Subs) → subs_at [] (node cs subs) ≡ subs
unfolding subs_at
subs_at_here cs subs = refl

pub subs_below-child :
    (l k : Bytes) (ls : List Bytes) (n : Node) (cs : Children)
    → subs_below ls (find_child l (child k n cs))
      ≡ (if bytes_eq k l then subs_at ls n else subs_below ls (find_child l cs))
unfolding find_child
subs_below-child l k ls n cs = ground arith

pub subs_below_nil : (l : Bytes) (ls : List Bytes) → subs_below ls (find_child l nil) ≡ []
unfolding find_child
subs_below_nil l ls = refl

-- A visited child is kept, or dropped with nothing lost.
subs_below-drop_empty :
    (l k : Bytes) (ls : List Bytes) (n : Node) (cs : Children)
    → subs_below ls (find_child l (if is_empty_node n then delete_child k cs else child k n cs))
      ≡ (if bytes_eq k l then subs_at ls n else subs_below ls (find_child l cs))
subs_below-drop_empty l k ls n cs = ground (
  arith,
  subs_at-is_empty_node ls n,
  subs_below-child l k ls n cs,
  find_child-delete_child k l cs,
)

-- Leaving all filters at once deletes the client's entry on every path, and nothing else.
mutual
  unfolding unsubscribe_all

  pub subs_at-unsubscribe_all :
      (id : Bytes) (n : Node) (ls : List Bytes)
      → subs_at ls (unsubscribe_all id n) ≡ delete id (subs_at ls n)
  subs_at-unsubscribe_all id (node cs subs) [] =
      ground (
        arith,
        subs_at_here cs subs,
        subs_at_here (unsubscribe_all_children id cs) (delete id subs),
      )
  subs_at-unsubscribe_all id (node cs subs) (l ∷ ls) = ground (
    arith,
    subs_at-node l ls cs subs,
    subs_at-node l ls (unsubscribe_all_children id cs) (delete id subs),
    subs_below-unsubscribe_all id cs l ls,
  )

  subs_below-unsubscribe_all :
      (id : Bytes) (cs : Children) (l : Bytes) (ls : List Bytes)
      → subs_below ls (find_child l (unsubscribe_all_children id cs))
        ≡ delete id (subs_below ls (find_child l cs))
  subs_below-unsubscribe_all id nil l ls = ground (arith, subs_below_nil l ls, delete_nil id)
  subs_below-unsubscribe_all id (child k n cs) l ls = ground (
    arith,
    subs_below-child l k ls n cs,
    subs_below-drop_empty l k ls (unsubscribe_all id n) (unsubscribe_all_children id cs),
    subs_at-unsubscribe_all id n ls,
    subs_below-unsubscribe_all id cs l ls,
  )
