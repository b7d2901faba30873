-- ===== src/Topic/Parse/Covers.antt =====
-- CoversFilter against MatchFilter.
use orb_mq.Base.{
  ℕ, Bytes, bytes_eq, bytes_eq_iff, true, false, ◌==◌, subst, ==_iff, ◌||◌, List, [], ◌∷◌, arith,
  ◌≡◌, refl, ◌∙◌, ap, sym, ◌≢◌, inl, inr, Bool-cases, some,
}
use orb_mq.Topic.Parse.{
  slash, plus, hash, dollar, split_filter, split_topic, match_levels, starts_with, match_filter,
  covers_levels, widen_requested, covers_filter,
}
use orb_mq.Topic.Parse.Split.{
  levels, levels-cons, push_byte, join_levels, join_levels-levels, split_filter-levels,
  split_topic-levels,
}

covers_levels-match_levels :
    (a r t : List Bytes)
    → covers_levels a r ≡ true
    → match_levels r t ≡ true
    → match_levels a t ≡ true
unfolding covers_levels match_levels
covers_levels-match_levels [] [] t c m = m
covers_levels-match_levels [] (x ∷ r) t c m = cc
covers_levels-match_levels (a ∷ as') [] [] c m = c
covers_levels-match_levels (a ∷ as') [] (y ∷ t) c m = cc
covers_levels-match_levels (a ∷ as') (x ∷ r) [] c m = ground (arith, bytes_eq_iff a x)
covers_levels-match_levels (a ∷ as') (x ∷ r) (y ∷ t) c m =
    ground (arith, bytes_eq_iff a x, covers_levels-match_levels as' r t)

-- A text begins with its first level, unless it begins with `/`.
pub first_level :
    (c : ℕ) (s : Bytes)
    → c ≢ slash
    → (l : Bytes) × (ls : List Bytes) × (levels (c ∷ s) ≡ (c ∷ l) ∷ ls)
unfolding levels push_byte
first_level c s h = let (l, ls, e) = levels-cons s in (l, ls, ground arith)

pub levels-slash : (s : Bytes) → levels (slash ∷ s) ≡ [] ∷ levels s
unfolding levels
levels-slash s = refl

match_levels_head :
    (y : ℕ) (l : Bytes) (ls : List Bytes) (k : Bytes) (ks : List Bytes)
    → match_levels ((y ∷ l) ∷ ls) ((dollar ∷ k) ∷ ks) ≡ true
    → (y == plus || y == hash) ≡ false
    → (y == dollar) ≡ true
unfolding match_levels bytes_eq
match_levels_head y l ls k ks m h = ground arith

match_levels_empty_head :
    (ls : List Bytes) (k : Bytes) (ks : List Bytes)
    → match_levels ([] ∷ ls) ((dollar ∷ k) ∷ ks) ≡ false
unfolding match_levels bytes_eq
match_levels_empty_head ls k ks = refl

-- A filter that matches a system topic begins with `$` itself.
dollar_first :
    (requested s : Bytes)
    → match_levels (levels requested) (levels (dollar ∷ s)) ≡ true
    → (starts_with plus requested || starts_with hash requested) ≡ false
    → starts_with dollar requested ≡ true
unfolding starts_with
dollar_first [] s m h =
    let (k, ks, e) = first_level dollar s (λ p. omega arith) in
    unfold levels in cc (match_levels_empty_head [] k ks)
dollar_first (y ∷ r) s m h =
    let (k, ks, e) = first_level dollar s (λ p. omega arith) in
    elim (Bool-cases (y == slash)) [
      | inl q ↦
          cc ((==_iff y slash).0 q, e, levels-slash r, match_levels_empty_head (levels r) k ks)
      | inr q ↦
          let (l, ls, d) = first_level y r (ground arith) in
          match_levels_head y l ls k ks (rw (d, e) at m) h
    ]

match_levels_root_hash :
    (ts : List Bytes)
    → match_levels ((hash ∷ []) ∷ []) ts ≡ true
    → ts ≢ []
    → match_levels ((plus ∷ []) ∷ (hash ∷ []) ∷ []) ts ≡ true
unfolding match_levels bytes_eq
match_levels_root_hash [] m h = absurd (h refl)
match_levels_root_hash (t ∷ []) m h = refl
match_levels_root_hash (t ∷ u ∷ ts) m h = refl

match_levels_slash_hash :
    (ts : List Bytes)
    → ts ≢ [] ∷ []
    → match_levels ([] ∷ (hash ∷ []) ∷ []) ts ≡ true
    → match_levels ([] ∷ (plus ∷ []) ∷ (hash ∷ []) ∷ []) ts ≡ true
unfolding match_levels bytes_eq
match_levels_slash_hash [] h m = m
match_levels_slash_hash ([] ∷ []) h m = absurd (h refl)
match_levels_slash_hash ([] ∷ u ∷ []) h m = refl
match_levels_slash_hash ([] ∷ u ∷ v ∷ ts) h m = refl
match_levels_slash_hash ((c ∷ t) ∷ ts) h m = m

levels_ne_nil : (t : Bytes) → levels t ≢ []
levels_ne_nil t e = let (l, ls, d) = levels-cons t in cc

levels_of_nonempty : (t : Bytes) → t ≢ [] → levels t ≢ [] ∷ []
levels_of_nonempty t h e =
    h (sym (join_levels-levels t) ∙ (ap join_levels e ∙ unfold join_levels in refl))

-- What each rewriting of `requested` matches, it matched before, but for the empty topic.
match_levels-widen :
    (requested t : Bytes)
    → t ≢ []
    → match_levels (levels requested) (levels t) ≡ true
    → match_levels (levels (widen_requested requested)) (levels t) ≡ true
unfolding widen_requested bytes_eq levels push_byte
match_levels-widen requested t h m = elim (Bool-cases (bytes_eq requested (hash ∷ []))) [
  | inl e ↦
      subst
        (λ r.
          match_levels (levels r) (levels t) ≡ true
          → match_levels (levels (widen_requested r)) (levels t) ≡ true)
        (sym ((bytes_eq_iff requested (hash ∷ [])).0 e))
        (λ m'. match_levels_root_hash (levels t) m' (levels_ne_nil t)) m
  | inr e ↦ elim (Bool-cases (bytes_eq requested (slash ∷ hash ∷ []))) [
    | inl d ↦
        subst
          (λ r.
            match_levels (levels r) (levels t) ≡ true
            → match_levels (levels (widen_requested r)) (levels t) ≡ true)
          (sym ((bytes_eq_iff requested (slash ∷ hash ∷ [])).0 d))
          (λ m'. match_levels_slash_hash (levels t) (levels_of_nonempty t h) m') m
    | inr d ↦ rw (e, d) m
  ]
]

covers_levels-split :
    (a r t : Bytes)
    → t ≢ []
    → covers_levels (split_filter a) (split_filter (widen_requested r)) ≡ true
    → match_levels (split_filter r) (split_topic t) ≡ true
    → match_levels (split_filter a) (split_topic t) ≡ true
covers_levels-split a r t h c m =
    rw (split_filter-levels a, split_topic-levels t)
      (covers_levels-match_levels (levels a) (levels (widen_requested r)) (levels t)
        (rw (split_filter-levels a, split_filter-levels (widen_requested r)) at c)
        (match_levels-widen r t h (rw (split_filter-levels r, split_topic-levels t) at m)))

pub match_filter→match_levels :
    (filter topic : Bytes)
    → match_filter filter topic ≡ true
    → match_levels (split_filter filter) (split_topic topic) ≡ true
unfolding match_filter
match_filter→match_levels filter topic m = ground arith

-- A filter that matches a system topic begins with `$`.
pub match_filter-dollar :
    (filter s : Bytes) → match_filter filter (dollar ∷ s) ≡ true → starts_with dollar filter ≡ true
match_filter-dollar filter s m =
    dollar_first filter s
      (rw (split_filter-levels filter, split_topic-levels (dollar ∷ s)) at
        (match_filter→match_levels filter (dollar ∷ s) m))
      (unfold match_filter starts_with in ground arith)

-- Where CoversFilter answers true, every topic that `requested` matches is matched by `allowed`;
-- the topic is not the empty text.
pub covers_filter_sound :
    (allowed requested topic : Bytes)
    → topic ≢ []
    → covers_filter allowed requested ≡ some true
    → match_filter requested topic ≡ true
    → match_filter allowed topic ≡ true
unfolding covers_filter
covers_filter_sound allowed requested [] h c m = absurd (h refl)
covers_filter_sound [] requested (t ∷ topic) h c m =
    unfold match_filter in
    ground (
      arith,
      covers_levels-split [] requested (t ∷ topic) h,
      match_filter→match_levels requested (t ∷ topic) m,
    )
covers_filter_sound (x ∷ allowed) requested (t ∷ topic) h c m =
    unfold match_filter in
    ground (
      arith,
      covers_levels-split (x ∷ allowed) requested (t ∷ topic) h,
      match_filter→match_levels requested (t ∷ topic) m,
      match_filter-dollar requested topic,
    )
