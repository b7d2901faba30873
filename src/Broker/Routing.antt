-- ===== src/Broker/Routing.antt =====
-- The tree that the next reader sees after a copy-on-write update.
use orb_mq.Base.{◌≡◌, refl, ap, ap₂, ◌∷◌, []}
use orb_mq.Topic.Tree.{Node, Children, node, nil, child, Subs, clone, clone_children, clone_subs}

clone_subs_same : (s : Subs) → clone_subs s ≡ s
unfolding clone_subs
clone_subs_same [] = refl
clone_subs_same (p ∷ s) = ap (◌∷◌ p) (clone_subs_same s)

-- A clone holds what the original holds.
mutual
  unfolding clone

  pub clone_same : (n : Node) → clone n ≡ n
  clone_same (node cs subs) = ap₂ node (clone_children_same cs) (clone_subs_same subs)

  clone_children_same : (cs : Children) → clone_children cs ≡ cs
  clone_children_same nil = refl
  clone_children_same (child k n cs) = ap₂ (child k) (clone_same n) (clone_children_same cs)
