-- ===== src/Topic/Tree/Match/Sound.antt =====
-- internal/topic/tree.go: from the result of `match` to the paths that it visits.
use orb_mq.Base.{
  Bytes, bytes_eq, bytes_eq_iff, Bool, true, false, ◌&&◌, ltb, if◌then◌else◌, List, [], ◌∷◌, inl,
  inr, Option-cases, Bool-cases, Option, none, some, lookup, lookup_nil, ◌≡◌, refl, arith, bytes_Eq,
  ◌∙◌, subst,
}
use orb_mq.Topic.Parse.{plus, hash, dollar, starts_with}
use orb_mq.Topic.Parse.Split.{levels, push_byte}
use orb_mq.Topic.Tree.{
  Node, Children, node, nil, child, Subs, Subscription, find_child, add_all, add_hash, next_level,
  match_node, match_child,
}
use orb_mq.Topic.Tree.Lookup.{subs_at, subs_below, subs_at_here, subs_at-node, subs_below-child}
use orb_mq.Topic.Tree.Match.{selects, merge, IsGood, IsGoodTree, lookup-add_all}

-- One step of `match_child`, and of `match_node` within the topic.
pub match_child_step :
    (level k : Bytes) (n : Node) (cs : Children) (next : Option Bytes) (out : Subs)
    → match_child level (child k n cs) next out
      ≡ (if bytes_eq k level then match_node n next false out else match_child level cs next out)
unfolding match_node
match_child_step level k n cs next out = ground arith

pub match_node_step :
    (cs : Children) (subs : Subs) (s : Bytes) (first : Bool) (out : Subs)
    → match_node (node cs subs) (some s) first out ≡ (
        if first && starts_with dollar s
        then match_child (next_level s).0 cs (next_level s).1 out
        else add_hash cs (
            match_child
              (plus ∷ [])
              cs
              (next_level s).1
              (match_child (next_level s).0 cs (next_level s).1 out)))
unfolding match_node
match_node_step cs subs s first out = refl

pub match_node_past :
    (cs : Children) (subs : Subs) (first : Bool) (out : Subs)
    → match_node (node cs subs) none first out ≡ add_hash cs (add_all subs out)
unfolding match_node
match_node_past cs subs first out = refl

pub match_child_nil :
    (level : Bytes) (next : Option Bytes) (out : Subs) → match_child level nil next out ≡ out
unfolding match_node
match_child_nil level next out = refl

-- The levels of what is left of the topic.
abbrev pub rest_levels : Option Bytes → List Bytes
rest_levels none = []
rest_levels (some s) = levels s

pub levels-next_level : (s : Bytes) → levels s ≡ (next_level s).0 ∷ rest_levels (next_level s).1
unfolding levels next_level push_byte
levels-next_level [] = refl
levels-next_level (c ∷ s) = ground (arith, levels-next_level s)

abbrev pub system_topic : Bool → Option Bytes → Bool
system_topic first none = false
system_topic first (some s) = first && starts_with dollar s

pub lookup-add_hash :
    (id : Bytes) (cs : Children) (out : Subs)
    → IsGood (subs_below [] (find_child (hash ∷ []) cs))
    → lookup id (add_hash cs out)
      ≡ merge (lookup id out) (lookup id (subs_below [] (find_child (hash ∷ []) cs)))
unfolding add_hash
lookup-add_hash id cs out g = elim (Option-cases (find_child (hash ∷ []) cs)) [
  | inl e ↦ ground (arith, lookup_nil {V = Subscription} id)
  | inr (node ds subs, e) ↦
      ground (
        arith,
        subs_at_here ds subs,
        lookup-add_all id subs out (rw (e, subs_at_here ds subs) at g),
      )
]

-- The filter `#` of a node.
pub hash_path :
    (cs : Children) (subs : Subs)
    → subs_at ((hash ∷ []) ∷ []) (node cs subs) ≡ subs_below [] (find_child (hash ∷ []) cs)
hash_path cs subs = subs_at-node (hash ∷ []) [] cs subs

pub node-IsGood :
    (cs : Children) (subs : Subs)
    → IsGoodTree (node cs subs)
    → IsGood subs × IsGood (subs_below [] (find_child (hash ∷ []) cs))
node-IsGood cs subs g = (
  subst IsGood (subs_at_here cs subs) (g []),
  subst IsGood (hash_path cs subs) (g ((hash ∷ []) ∷ [])),
)

abbrev pub IsGoodChild : Bytes → Children → Type 0
IsGoodChild level cs = (fs : List Bytes) → IsGood (subs_below fs (find_child level cs))

pub child-IsGood :
    (level : Bytes) (cs : Children) (subs : Subs) → IsGoodTree (node cs subs) → IsGoodChild level cs
child-IsGood level cs subs g fs = subst IsGood (subs_at-node level fs cs subs) (g (level ∷ fs))

pub found-IsGood :
    (level k : Bytes) (n : Node) (cs : Children)
    → bytes_eq k level ≡ true
    → IsGoodChild level (child k n cs)
    → IsGoodTree n
found-IsGood level k n cs e g fs = subst IsGood (subs_below-child level k fs n cs ∙ rw e) (g fs)

pub skipped-IsGood :
    (level k : Bytes) (n : Node) (cs : Children)
    → bytes_eq k level ≡ false
    → IsGoodChild level (child k n cs)
    → IsGoodChild level cs
skipped-IsGood level k n cs e g fs = subst IsGood (subs_below-child level k fs n cs ∙ rw e) (g fs)

selects-hash : (ts : List Bytes) → selects false ((hash ∷ []) ∷ []) ts ≡ true
unfolding selects
selects-hash [] = ground (arith, bytes_eq_iff (hash ∷ []) (hash ∷ []))
selects-hash (t ∷ ts) = ground (arith, bytes_eq_iff (hash ∷ []) (hash ∷ []))

selects_nil : (system : Bool) → selects system [] [] ≡ true
unfolding selects
selects_nil system = refl

selects_literal :
    (system : Bool) (s : Bytes) (fs : List Bytes)
    → selects false fs (rest_levels (next_level s).1) ≡ true
    → selects system ((next_level s).0 ∷ fs) (levels s) ≡ true
unfolding selects
selects_literal system s fs h =
    rw (levels-next_level s) (ground (arith, bytes_eq_iff (next_level s).0 (next_level s).0))

selects-plus :
    (s : Bytes) (fs : List Bytes)
    → selects false fs (rest_levels (next_level s).1) ≡ true
    → selects false ((plus ∷ []) ∷ fs) (levels s) ≡ true
unfolding selects
selects-plus s fs h =
    rw (levels-next_level s) (ground (arith, bytes_eq_iff (plus ∷ []) (plus ∷ [])))

pub system_topic_later : (r : Option Bytes) → system_topic false r ≡ false
system_topic_later none = refl
system_topic_later (some s) = refl

module _ (id : Bytes) (Q : Subscription → Type 0) where
  abbrev pub Holds : Option Subscription → Type 0
  Holds o = (s : Subscription) → o ≡ some s → Q s

  -- Every selected subscription of the client satisfies `Q`.
  abbrev pub Selected : Bool → List Bytes → (List Bytes → Subs) → Type 0
  Selected system ts at_path =
      (fs : List Bytes) → selects system fs ts ≡ true → Holds (lookup id (at_path fs))

  Holds-merge : (o p : Option Subscription) → Holds o → Holds p → Holds (merge o p)
  Holds-merge o none ho hp = ho
  Holds-merge none (some s) ho hp = hp
  Holds-merge (some e) (some s) ho hp = elim (Bool-cases (ltb e.qos s.qos)) [
    | inl q ↦ rw q hp
    | inr q ↦ rw q ho
  ]

  add_hash-Holds :
      (cs : Children) (subs out : Subs)
      → IsGoodTree (node cs subs)
      → Holds (lookup id (subs_at ((hash ∷ []) ∷ []) (node cs subs)))
      → Holds (lookup id out)
      → Holds (lookup id (add_hash cs out))
  add_hash-Holds cs subs out g h ho =
      rw (lookup-add_hash id cs out (node-IsGood cs subs g).1)
        (Holds-merge _ _ ho (subst (λ m. Holds (lookup id m)) (hash_path cs subs) h))

  add_all-Holds :
      (subs out : Subs)
      → IsGood subs
      → Holds (lookup id subs)
      → Holds (lookup id out)
      → Holds (lookup id (add_all subs out))
  add_all-Holds subs out g h ho = rw (lookup-add_all id subs out g) (Holds-merge _ _ ho h)

  literal-Selected :
      (system : Bool) (s : Bytes) (cs : Children) (subs : Subs)
      → Selected system (levels s) (λ fs. subs_at fs (node cs subs))
      → Selected false
          (rest_levels (next_level s).1)
          (λ fs. subs_below fs (find_child (next_level s).0 cs))
  literal-Selected system s cs subs h fs sel =
      subst (λ m. Holds (lookup id m)) (subs_at-node (next_level s).0 fs cs subs)
        (h ((next_level s).0 ∷ fs) (selects_literal system s fs sel))

  wild-Selected :
      (s : Bytes) (cs : Children) (subs : Subs)
      → Selected false (levels s) (λ fs. subs_at fs (node cs subs))
      → Selected false
          (rest_levels (next_level s).1)
          (λ fs. subs_below fs (find_child (plus ∷ []) cs))
  wild-Selected s cs subs h fs sel =
      subst (λ m. Holds (lookup id m)) (subs_at-node (plus ∷ []) fs cs subs)
        (h ((plus ∷ []) ∷ fs) (selects-plus s fs sel))

  hash-Selected :
      (s : Bytes) (cs : Children) (subs : Subs)
      → Selected false (levels s) (λ fs. subs_at fs (node cs subs))
      → Holds (lookup id (subs_at ((hash ∷ []) ∷ []) (node cs subs)))
  hash-Selected s cs subs h = h ((hash ∷ []) ∷ []) (selects-hash (levels s))

  mutual
    pub match_node-Holds :
        (n : Node) (r : Option Bytes) (first : Bool) (out : Subs)
        → IsGoodTree n
        → Selected (system_topic first r) (rest_levels r) (λ fs. subs_at fs n)
        → Holds (lookup id out)
        → Holds (lookup id (match_node n r first out))
    match_node-Holds (node cs subs) none first out g h ho = rw (match_node_past cs subs first out) (
        add_hash-Holds cs subs (add_all subs out) g (h ((hash ∷ []) ∷ []) (selects-hash [])) (
          add_all-Holds subs out (node-IsGood cs subs g).0
            (subst (λ m. Holds (lookup id m)) (subs_at_here cs subs) (h [] (selects_nil false)))
            ho))
    match_node-Holds (node cs subs) (some s) first out g h ho =
        let lit =
          match_child-Holds (next_level s).0 cs (next_level s).1 out
            (child-IsGood (next_level s).0 cs subs g)
            (literal-Selected (first && starts_with dollar s) s cs subs h) ho in
        elim (Bool-cases (first && starts_with dollar s)) [
          | inl e ↦ rw (match_node_step cs subs s first out, e) lit
          | inr e ↦
              let h' = subst (λ b. Selected b (levels s) (λ fs. subs_at fs (node cs subs))) e h in
              rw (match_node_step cs subs s first out, e)
                (add_hash-Holds cs subs _ g (hash-Selected s cs subs h') (
                  match_child-Holds (plus ∷ []) cs (next_level s).1
                    (match_child (next_level s).0 cs (next_level s).1 out)
                    (child-IsGood (plus ∷ []) cs subs g) (wild-Selected s cs subs h') lit))
        ]

    match_child-Holds :
        (level : Bytes) (cs : Children) (next : Option Bytes) (out : Subs)
        → IsGoodChild level cs
        → Selected false (rest_levels next) (λ fs. subs_below fs (find_child level cs))
        → Holds (lookup id out)
        → Holds (lookup id (match_child level cs next out))
    match_child-Holds level nil next out g h ho = rw (match_child_nil level next out) ho
    match_child-Holds level (child k n cs) next out g h ho = elim (Bool-cases (bytes_eq k level)) [
      | inl e ↦
          rw (match_child_step level k n cs next out, e)
            (match_node-Holds n next false out (found-IsGood level k n cs e g)
              (λ fs sel.
                subst (λ m. Holds (lookup id m)) (subs_below-child level k fs n cs ∙ rw e)
                  (h fs (
                    subst (λ b. selects b fs (rest_levels next) ≡ true) (system_topic_later next)
                      sel)))
              ho)
      | inr e ↦
          rw (match_child_step level k n cs next out, e)
            (match_child-Holds level cs next out (skipped-IsGood level k n cs e g)
              (λ fs sel.
                subst (λ m. Holds (lookup id m)) (subs_below-child level k fs n cs ∙ rw e)
                  (h fs sel))
              ho)
    ]
