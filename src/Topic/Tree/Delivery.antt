-- ===== src/Topic/Tree/Delivery.antt =====
-- internal/topic: Tree.Match of tree.go against MatchFilter of parse.go.
use orb_mq.Base.{
  ℕ, Bytes, bytes_eq, bytes_eq_iff, true, false, ◌==◌, ==_iff, ◌&&◌, ◌||◌, List, [], ◌∷◌, inl, inr,
  Bool-cases, ◌≢◌, some, lookup, lookup_nil, ◌≡◌, refl, arith, bytes_Eq, ◌∙◌, ap, sym, subst,
}
use orb_mq.Topic.Parse.{
  slash, plus, hash, dollar, starts_with, split_filter, match_filter, match_levels,
}
use orb_mq.Topic.Parse.Split.{
  levels, levels-cons, split_filter-levels, split_topic-levels, join_levels,
}
use orb_mq.Topic.Parse.Covers.{
  first_level, levels-slash, match_filter-dollar, match_filter→match_levels,
}
use orb_mq.Topic.Tree.{Node, Subscription, match_map}
use orb_mq.Topic.Tree.Subscribed.{subscribed}
use orb_mq.Topic.Tree.Built.{Built, Built-IsGoodTree, Built-path}
use orb_mq.Topic.Tree.Match.{selects}
use orb_mq.Topic.Tree.Match.Sound.{match_node-Holds}
use orb_mq.Topic.Tree.Match.Complete.{Covers, match_node-Covers}

-- `#` stands last, if at all.
abbrev pub HashLast : List Bytes → Type 0
HashLast [] = Unit
HashLast (f ∷ []) = Unit
HashLast (f ∷ g ∷ fs) = (f ≢ hash ∷ []) × HashLast (g ∷ fs)

selects→match_levels : (fs ts : List Bytes) → selects false fs ts ≡ true → match_levels fs ts ≡ true
unfolding selects match_levels
selects→match_levels [] [] h = refl
selects→match_levels [] (t ∷ ts) h = cc
selects→match_levels (f ∷ fs) [] h = ground arith
selects→match_levels (f ∷ fs) (t ∷ ts) h = ground (
  arith,
  bytes_eq_iff f (hash ∷ []),
  bytes_eq_iff f (plus ∷ []),
  bytes_eq_iff f t,
  selects→match_levels fs ts,
)

match_levels→selects :
    (fs ts : List Bytes) → HashLast fs → match_levels fs ts ≡ true → selects false fs ts ≡ true
unfolding selects match_levels
match_levels→selects [] [] l h = refl
match_levels→selects [] (t ∷ ts) l h = cc
match_levels→selects (f ∷ []) [] l h = ground arith
match_levels→selects (f ∷ g ∷ fs) [] l h = ground (arith, bytes_eq_iff f (hash ∷ []))
match_levels→selects (f ∷ []) (t ∷ ts) l h = ground (
  arith,
  bytes_eq_iff f (hash ∷ []),
  bytes_eq_iff f (plus ∷ []),
  bytes_eq_iff f t,
  match_levels→selects [] ts tt,
)
match_levels→selects (f ∷ g ∷ fs) (t ∷ ts) l h = ground (
  arith,
  bytes_eq_iff f (hash ∷ []),
  bytes_eq_iff f (plus ∷ []),
  bytes_eq_iff f t,
  match_levels→selects (g ∷ fs) ts l.1,
)

HashLast-tail : (f : Bytes) (fs : List Bytes) → HashLast (f ∷ fs) → HashLast fs
HashLast-tail f [] l = tt
HashLast-tail f (g ∷ fs) l = l.1

levels_head :
    (filter : Bytes) (c : ℕ) (l : Bytes) (ls : List Bytes)
    → levels filter ≡ (c ∷ l) ∷ ls
    → starts_with c filter ≡ true
unfolding starts_with
levels_head [] c l ls e = unfold levels in cc
levels_head (x ∷ filter) c l ls e = elim (Bool-cases (x == slash)) [
  | inl q ↦ cc (levels-slash filter, (==_iff x slash).0 q)
  | inr q ↦ let (k, ks, d) = first_level x filter (ground arith) in ground arith
]

selects_system :
    (f : Bytes) (fs : List Bytes) (t : Bytes) (ts : List Bytes)
    → selects true (f ∷ fs) (t ∷ ts) ≡ true
    → (f ≡ t) × (selects false fs ts ≡ true)
unfolding selects
selects_system f fs t ts h = ground (arith, bytes_eq_iff f t)

dollar_not_hash : (l : Bytes) → bytes_eq (dollar ∷ l) (hash ∷ []) ≡ false
unfolding bytes_eq
dollar_not_hash l = refl

dollar_not_plus : (l : Bytes) → bytes_eq (dollar ∷ l) (plus ∷ []) ≡ false
unfolding bytes_eq
dollar_not_plus l = refl

match_levels-dollar :
    (l : Bytes) (fs : List Bytes) (t : Bytes) (ts : List Bytes)
    → HashLast ((dollar ∷ l) ∷ fs)
    → match_levels ((dollar ∷ l) ∷ fs) (t ∷ ts) ≡ true
    → selects true ((dollar ∷ l) ∷ fs) (t ∷ ts) ≡ true
unfolding match_levels selects
match_levels-dollar l fs t ts h m = ground (
  arith,
  dollar_not_hash l,
  dollar_not_plus l,
  match_levels→selects fs ts (HashLast-tail (dollar ∷ l) fs h),
)

starts_with-levels :
    (c : ℕ) (s : Bytes)
    → c ≢ slash
    → starts_with c s ≡ true
    → (l : Bytes) × (ls : List Bytes) × (levels s ≡ (c ∷ l) ∷ ls)
unfolding starts_with
starts_with-levels c [] h e = cc
starts_with-levels c (x ∷ s) h e =
    let (l, ls, d) = first_level c s h in
    (l, ls, subst (λ y. levels (y ∷ s) ≡ (c ∷ l) ∷ ls) (sym ((==_iff x c).0 e)) d)

dollar_excludes :
    (s : Bytes) → starts_with dollar s ≡ true → (starts_with plus s || starts_with hash s) ≡ false
unfolding starts_with
dollar_excludes [] h = refl
dollar_excludes (c ∷ s) h = ground arith

match_filter_of_levels :
    (filter topic : Bytes)
    → (starts_with dollar topic && (starts_with plus filter || starts_with hash filter)) ≡ false
    → match_levels (levels filter) (levels topic) ≡ true
    → match_filter filter topic ≡ true
unfolding match_filter
match_filter_of_levels filter topic e h =
    rw (e, split_filter-levels filter, split_topic-levels topic) h

match_levels_same :
    (k : Bytes) (fs ks : List Bytes)
    → match_levels fs ks ≡ true
    → match_levels ((dollar ∷ k) ∷ fs) ((dollar ∷ k) ∷ ks) ≡ true
unfolding match_levels
match_levels_same k fs ks h =
    ground (arith, dollar_not_hash k, dollar_not_plus k, bytes_eq_iff (dollar ∷ k) (dollar ∷ k))

-- MatchFilter accepts a topic that begins with `$` along a path that Tree.Match visits.
system_match_filter :
    (filter topic : Bytes)
    → starts_with dollar topic ≡ true
    → selects true (levels filter) (levels topic) ≡ true
    → match_filter filter topic ≡ true
system_match_filter filter topic e h =
    let (k, ks, d) = starts_with-levels dollar topic (λ p. omega arith) e in
    let (f, fs, w) = levels-cons filter in
    let (p, r) = selects_system f fs (dollar ∷ k) ks (rw (d, w) at h) in
    let w' = w ∙ ap (λ g. g ∷ fs) p in
    match_filter_of_levels filter topic
      (rw (e, dollar_excludes filter (levels_head filter dollar k fs w')))
      (rw (d, w') (match_levels_same k fs ks (selects→match_levels fs ks r)))

pub selects-match_filter :
    (filter topic : Bytes)
    → selects (starts_with dollar topic) (levels filter) (levels topic) ≡ true
    → match_filter filter topic ≡ true
selects-match_filter filter topic h = elim (Bool-cases (starts_with dollar topic)) [
  | inl e ↦ system_match_filter filter topic e (rw e at h)
  | inr e ↦
      match_filter_of_levels filter topic (rw e)
        (selects→match_levels (levels filter) (levels topic) (rw e at h))
]

levels_match :
    (filter topic : Bytes)
    → match_filter filter topic ≡ true
    → match_levels (levels filter) (levels topic) ≡ true
levels_match filter topic h =
    rw (split_filter-levels filter, split_topic-levels topic) at
      (match_filter→match_levels filter topic h)

dollar_topic :
    (topic : Bytes) → starts_with dollar topic ≡ true → (s : Bytes) × (topic ≡ dollar ∷ s)
unfolding starts_with
dollar_topic [] e = cc
dollar_topic (c ∷ s) e = (s, ap (λ y. y ∷ s) ((==_iff c dollar).0 e))

pub match_filter-selects :
    (filter topic : Bytes)
    → HashLast (levels filter)
    → match_filter filter topic ≡ true
    → selects (starts_with dollar topic) (levels filter) (levels topic) ≡ true
match_filter-selects filter topic l h = elim (Bool-cases (starts_with dollar topic)) [
  | inl e ↦
      let (s, p) = dollar_topic topic e in
      let q = match_filter-dollar filter s (rw p at h) in
      let (k, ks, d) = starts_with-levels dollar topic (λ p. omega arith) e in
      let (j, fs, w) = starts_with-levels dollar filter (λ p. omega arith) q in
      rw (e, d, w)
        (match_levels-dollar j fs (dollar ∷ k) ks (subst HashLast w l)
          (rw (d, w) at (levels_match filter topic h)))
  | inr e ↦
      rw e (match_levels→selects (levels filter) (levels topic) l (levels_match filter topic h))
]

-- If one of a client's filters matches the topic, Match returns the client, with at least the QoS
-- of that filter. The filter has `#` in last place only.
pub match_map_complete :
    (root : Node) (filter id topic : Bytes) (sub : Subscription)
    → Built root
    → HashLast (split_filter filter)
    → subscribed filter id root ≡ some sub
    → match_filter filter topic ≡ true
    → Covers sub.qos (lookup id (match_map root topic))
unfolding match_map subscribed
match_map_complete root filter id topic sub b l e m =
    match_node-Covers id sub root (some topic) true [] (split_filter filter) (Built-IsGoodTree b)
      (rw (split_filter-levels filter)
        (match_filter-selects filter topic (subst HashLast (split_filter-levels filter) l) m))
      e

-- The client's subscription under a filter that matches.
abbrev pub FromFilter : Node → Bytes → Bytes → Subscription → Type 0
FromFilter root id topic sub =
    (filter : Bytes) × (subscribed filter id root ≡ some sub) × (match_filter filter topic ≡ true)

-- What Match returns for a client is the client's subscription under a filter that matches.
pub match_map_sound :
    (root : Node) (id topic : Bytes) (sub : Subscription)
    → Built root
    → lookup id (match_map root topic) ≡ some sub
    → FromFilter root id topic sub
unfolding match_map subscribed
match_map_sound root id topic sub b =
    match_node-Holds id (FromFilter root id topic) root (some topic) true [] (Built-IsGoodTree b)
      (λ fs sel s e.
        let p = Built-path id s fs b e in
        (
          join_levels fs,
          rw p e,
          selects-match_filter (join_levels fs) topic
              (rw (← split_filter-levels (join_levels fs), p) sel),
        ))
      (λ s e. absurd (nothing s e)) sub
  where
    nothing : (s : Subscription) → ¬ (lookup {V = Subscription} id [] ≡ some s)
    nothing s e = cc (lookup_nil {V = Subscription} id)
