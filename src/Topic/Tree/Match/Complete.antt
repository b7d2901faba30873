-- ===== src/Topic/Tree/Match/Complete.antt =====
-- internal/topic/tree.go: from the paths that `match` visits to its result.
use orb_mq.Base.{
  ℕ, ◌≤◌, Bytes, bytes_eq, bytes_eq_iff, Bool, true, false, ◌&&◌, ◌||◌, not, &&_iff, ltb, List, [],
  ◌∷◌, inl, inr, Bool-cases, ◌⊎◌, Option, none, some, lookup, lookup_nil, ◌≡◌, refl, arith,
  bytes_Eq, subst,
}
use orb_mq.Topic.Parse.{plus, hash, dollar, starts_with}
use orb_mq.Topic.Parse.Split.{levels}
use orb_mq.Topic.Tree.{
  Node, Children, node, nil, child, Subs, Subscription, find_child, add_all, add_hash, next_level,
  match_node, match_child,
}
use orb_mq.Topic.Tree.Lookup.{
  subs_at, subs_below, subs_at_here, subs_at-node, subs_below-child, subs_below_nil,
}
use orb_mq.Topic.Tree.Match.{selects, is_last, merge, IsGood, IsGoodTree, lookup-add_all}
use orb_mq.Topic.Tree.Match.Sound.{
  rest_levels, levels-next_level, system_topic, lookup-add_hash, hash_path, node-IsGood,
  IsGoodChild, child-IsGood, found-IsGood, skipped-IsGood, match_child_step, match_node_step,
  match_node_past, match_child_nil, system_topic_later,
}

-- There is an entry, of at least this QoS.
abbrev pub Covers : ℕ → Option Subscription → Type 0
Covers q o = (s : Subscription) × (o ≡ some s) × (q ≤ s.qos)

Covers-merge : (q : ℕ) (o p : Option Subscription) → Covers q o → Covers q (merge o p)
Covers-merge q o none c = c
Covers-merge q none (some s) (t, e, h) = cc
Covers-merge q (some u) (some s) (t, e, h) = elim (Bool-cases (ltb u.qos s.qos)) [
  | inl b ↦ rw b (s, refl, ground arith)
  | inr b ↦ rw b (t, e, h)
]

merge-Covers :
    (o p : Option Subscription) (s : Subscription) → p ≡ some s → Covers s.qos (merge o p)
merge-Covers o none s e = cc
merge-Covers none (some u) s e = (u, refl, ground arith)
merge-Covers (some v) (some u) s e = elim (Bool-cases (ltb v.qos u.qos)) [
  | inl b ↦ rw b (u, refl, ground arith)
  | inr b ↦ rw b (v, refl, ground arith)
]

test_cases :
    (system a b c r l : Bool)
    → ((not system && ((a && l) || (b && r))) || (c && r)) ≡ true
    → ((c ≡ true) × (r ≡ true))
      ⊎ (((system ≡ false) × (a ≡ true) × (l ≡ true))
          ⊎ ((system ≡ false) × (b ≡ true) × (r ≡ true)))
test_cases system a b true true l h = inl (refl, refl)
test_cases false true b c r true h = inr (inl (refl, refl, refl))
test_cases false a true c true l h = inr (inr (refl, refl, refl))
test_cases system a b c r l h = ground arith

is_last→nil : (fs : List Bytes) → is_last fs ≡ true → fs ≡ []
is_last→nil [] h = refl
is_last→nil (f ∷ fs) h = cc

-- A selected path goes on by the topic's level or by `+`, or it ends with `#` here.
selects_cases :
    (system : Bool) (f : Bytes) (fs : List Bytes) (t : Bytes) (ts : List Bytes)
    → selects system (f ∷ fs) (t ∷ ts) ≡ true
    → ((f ≡ t) × (selects false fs ts ≡ true))
      ⊎ (((system ≡ false) × (f ≡ hash ∷ []) × (fs ≡ []))
          ⊎ ((system ≡ false) × (f ≡ plus ∷ []) × (selects false fs ts ≡ true)))
unfolding selects
selects_cases system f fs t ts h =
    elim (test_cases system (bytes_eq f (hash ∷ [])) (bytes_eq f (plus ∷ [])) (bytes_eq f t)
      (selects false fs ts) (is_last fs) h) [
        | inl (c, r) ↦ inl ((bytes_eq_iff f t).0 c, r)
        | inr (inl (s, a, l)) ↦ inr (inl (s, (bytes_eq_iff f (hash ∷ [])).0 a, is_last→nil fs l))
        | inr (inr (s, b, r)) ↦ inr (inr (s, (bytes_eq_iff f (plus ∷ [])).0 b, r))
      ]

module _ (id : Bytes) where
  add_hash-Covers :
      (q : ℕ) (cs : Children) (subs out : Subs)
      → IsGoodTree (node cs subs)
      → Covers q (lookup id out)
      → Covers q (lookup id (add_hash cs out))
  add_hash-Covers q cs subs out g c =
      rw (lookup-add_hash id cs out (node-IsGood cs subs g).1) (Covers-merge q _ _ c)

  add_all-Covers :
      (q : ℕ) (subs out : Subs)
      → IsGood subs
      → Covers q (lookup id out)
      → Covers q (lookup id (add_all subs out))
  add_all-Covers q subs out g c = rw (lookup-add_all id subs out g) (Covers-merge q _ _ c)

  -- What the result holds is never lost.
  mutual
    match_node-keeps :
        (q : ℕ) (n : Node) (r : Option Bytes) (first : Bool) (out : Subs)
        → IsGoodTree n
        → Covers q (lookup id out)
        → Covers q (lookup id (match_node n r first out))
    match_node-keeps q (node cs subs) none first out g c =
        rw (match_node_past cs subs first out)
          (add_hash-Covers q cs subs _ g (add_all-Covers q subs out (node-IsGood cs subs g).0 c))
    match_node-keeps q (node cs subs) (some s) first out g c =
        let lit =
          match_child-keeps q (next_level s).0 cs (next_level s).1 out
            (child-IsGood (next_level s).0 cs subs g) c in
        let wild =
          match_child-keeps q (plus ∷ []) cs (next_level s).1
            (match_child (next_level s).0 cs (next_level s).1 out)
            (child-IsGood (plus ∷ []) cs subs g) lit in
        elim (Bool-cases (first && starts_with dollar s)) [
          | inl e ↦ rw (match_node_step cs subs s first out, e) lit
          | inr e ↦ rw (match_node_step cs subs s first out, e) (add_hash-Covers q cs subs _ g wild)
        ]

    match_child-keeps :
        (q : ℕ) (level : Bytes) (cs : Children) (next : Option Bytes) (out : Subs)
        → IsGoodChild level cs
        → Covers q (lookup id out)
        → Covers q (lookup id (match_child level cs next out))
    match_child-keeps q level nil next out g c = rw (match_child_nil level next out) c
    match_child-keeps q level (child k n cs) next out g c = elim (Bool-cases (bytes_eq k level)) [
      | inl e ↦
          rw (match_child_step level k n cs next out, e)
            (match_node-keeps q n next false out (found-IsGood level k n cs e g) c)
      | inr e ↦
          rw (match_child_step level k n cs next out, e)
            (match_child-keeps q level cs next out (skipped-IsGood level k n cs e g) c)
    ]

module _ (id : Bytes) (q : ℕ) (cs : Children) (subs : Subs) (s : Bytes) (first : Bool)
    (out : Subs) where
  abbrev after_literal : Subs
  after_literal = match_child (next_level s).0 cs (next_level s).1 out

  abbrev after_plus : Subs
  after_plus = match_child (plus ∷ []) cs (next_level s).1 after_literal

  -- What the literal child contributed is in the result.
  literal_kept :
      IsGoodTree (node cs subs)
      → Covers q (lookup id after_literal)
      → Covers q (lookup id (match_node (node cs subs) (some s) first out))
  literal_kept g c = elim (Bool-cases (first && starts_with dollar s)) [
    | inl e ↦ rw (match_node_step cs subs s first out, e) c
    | inr e ↦
        rw (match_node_step cs subs s first out, e)
          (add_hash-Covers id q cs subs after_plus g (
            match_child-keeps id q (plus ∷ []) cs (next_level s).1 after_literal
              (child-IsGood (plus ∷ []) cs subs g) c))
  ]

module _ (id : Bytes) (sub : Subscription) where
  add_hash-found :
      (cs : Children) (subs out : Subs)
      → IsGoodTree (node cs subs)
      → lookup id (subs_at ((hash ∷ []) ∷ []) (node cs subs)) ≡ some sub
      → Covers sub.qos (lookup id (add_hash cs out))
  add_hash-found cs subs out g e =
      rw (lookup-add_hash id cs out (node-IsGood cs subs g).1)
        (merge-Covers _ _ sub (rw (hash_path cs subs) at e))

  nothing_below :
      (level : Bytes) (fs : List Bytes)
      → ¬ (lookup id (subs_below fs (find_child level nil)) ≡ some sub)
  nothing_below level fs e = cc (subs_below_nil level fs, lookup_nil {V = Subscription} id)

  selects_empty : (system : Bool) (s : Bytes) → ¬ (selects system [] (levels s) ≡ true)
  unfolding selects
  selects_empty system s h = let h' = rw (levels-next_level s) at h in cc

  selects_end :
      (system : Bool) (f : Bytes) (fs : List Bytes)
      → selects system (f ∷ fs) [] ≡ true
      → (f ≡ hash ∷ []) × (fs ≡ [])
  unfolding selects
  selects_end system f fs h =
      let (a, l) = (&&_iff _ _).0 h in ((bytes_eq_iff f (hash ∷ [])).0 a, is_last→nil fs l)

  mutual
    pub match_node-Covers :
        (n : Node) (r : Option Bytes) (first : Bool) (out : Subs) (fs : List Bytes)
        → IsGoodTree n
        → selects (system_topic first r) fs (rest_levels r) ≡ true
        → lookup id (subs_at fs n) ≡ some sub
        → Covers sub.qos (lookup id (match_node n r first out))
    match_node-Covers (node cs subs) none first out [] g h e =
        rw (match_node_past cs subs first out) (
          add_hash-Covers id sub.qos cs subs _ g (
            rw (lookup-add_all id subs out (node-IsGood cs subs g).0)
              (merge-Covers _ _ sub (rw (subs_at_here cs subs) at e))))
    match_node-Covers (node cs subs) none first out (f ∷ fs) g h e =
        let (p, q) = selects_end false f fs h in
        rw (match_node_past cs subs first out) (add_hash-found cs subs _ g (rw (p, q) at e))
    match_node-Covers (node cs subs) (some s) first out [] g h e =
        absurd (selects_empty (first && starts_with dollar s) s h)
    match_node-Covers (node cs subs) (some s) first out (f ∷ fs) g h e =
        let system = first && starts_with dollar s in
        elim (selects_cases system f fs (next_level s).0 (rest_levels (next_level s).1)
          (rw (levels-next_level s) at h)) [
            | inl (p, r) ↦ literal_kept id sub.qos cs subs s first out g (
                match_child-Covers (next_level s).0 cs (next_level s).1 out fs
                  (child-IsGood (next_level s).0 cs subs g) r
                  (subst (λ l. lookup id (subs_below fs (find_child l cs)) ≡ some sub) p
                    (rw (subs_at-node f fs cs subs) at e)))
            | inr (inl (w, p, z)) ↦
                rw (match_node_step cs subs s first out, w)
                  (add_hash-found cs subs _ g (rw (p, z) at e))
            | inr (inr (w, p, r)) ↦
                rw (match_node_step cs subs s first out, w)
                  (add_hash-Covers id sub.qos cs subs _ g (
                    match_child-Covers (plus ∷ []) cs (next_level s).1
                      (match_child (next_level s).0 cs (next_level s).1 out) fs
                      (child-IsGood (plus ∷ []) cs subs g) r
                      (subst (λ l. lookup id (subs_below fs (find_child l cs)) ≡ some sub) p
                        (rw (subs_at-node f fs cs subs) at e))))
          ]

    match_child-Covers :
        (level : Bytes) (cs : Children) (next : Option Bytes) (out : Subs) (fs : List Bytes)
        → IsGoodChild level cs
        → selects false fs (rest_levels next) ≡ true
        → lookup id (subs_below fs (find_child level cs)) ≡ some sub
        → Covers sub.qos (lookup id (match_child level cs next out))
    match_child-Covers level nil next out fs g h e = absurd (nothing_below level fs e)
    match_child-Covers level (child k n cs) next out fs g h e =
        elim (Bool-cases (bytes_eq k level)) [
          | inl d ↦
              rw (match_child_step level k n cs next out, d)
                (match_node-Covers n next false out fs (found-IsGood level k n cs d g)
                  (rw (← system_topic_later next) at h)
                  (rw (subs_below-child level k fs n cs, d) at e))
          | inr d ↦
              rw (match_child_step level k n cs next out, d)
                (match_child-Covers level cs next out fs (skipped-IsGood level k n cs d g) h
                  (rw (subs_below-child level k fs n cs, d) at e))
        ]
