-- ===== src/Auth/Policy.antt =====
-- internal/auth/local.go: what a policy that New accepted allows.
use orb_mq.Base.{
  ℕ, Bytes, bytes_eq, bytes_eq_iff, bytes_Eq, Map, lookup, lookup_nil, insert, lookup-insert_inv,
  Bool-cases, Option-cases, true, false, not, ◌&&◌, ◌||◌, &&_iff, ◌≡◌, ◌≢◌, ◌⊎◌, inl, inr, refl,
  arith, List, [], ◌∷◌, none, some, some_inj, subst, sym, ap, ◌∙◌,
}
use orb_mq.Protocol.Wire.{check_topic_filter}
use orb_mq.Topic.Parse.{match_filter, covers_filter}
use orb_mq.Topic.Parse.Covers.{covers_filter_sound}
use orb_mq.Auth.Password.{Crypto, parse_password_hash}
use orb_mq.Auth.Local.{
  User, Entry, Local, Policy, PolicyError, valid, invalid, valid_name, has_wildcard, contains,
  take_ids, is_valid_filter, valid_filters, is_nil, is_known, add_user, add_users, new_local,
  subscribe_of, can_use_client_id, any_covers, can_subscribe,
}

-- A permission of a list that matches a topic.
abbrev pub Allowed : List Bytes → Bytes → Type 0
Allowed permissions topic =
    (f : Bytes) × (contains f permissions ≡ true) × (match_filter f topic ≡ true)

Allowed-cons :
    (f : Bytes) (fs : List Bytes) (topic : Bytes) → Allowed fs topic → Allowed (f ∷ fs) topic
unfolding contains
Allowed-cons f fs topic (g, h, m) = (g, ground (arith, h), m)

any_covers-Allowed :
    (permissions : List Bytes) (filter topic : Bytes)
    → topic ≢ []
    → any_covers permissions filter ≡ some true
    → match_filter filter topic ≡ true
    → Allowed permissions topic
unfolding any_covers contains
any_covers-Allowed [] filter topic nz h m = cc
any_covers-Allowed (f ∷ fs) filter topic nz h m = elim (Option-cases (covers_filter f filter)) [
  | inl e ↦ cc (rw (e, any_covers) at h)
  | inr (true, e) ↦ (f, ground (arith, bytes_eq_iff f f), covers_filter_sound f filter topic nz e m)
  | inr (false, e) ↦
      Allowed-cons f fs topic (any_covers-Allowed fs filter topic nz (rw (e, any_covers) at h) m)
]

-- A subscription that CanSubscribe grants brings the identity no topic that its permissions do not
-- allow; the topic is not the empty text.
pub can_subscribe-Allowed :
    (l : Local) (identity filter topic : Bytes)
    → topic ≢ []
    → can_subscribe l identity filter ≡ some true
    → match_filter filter topic ≡ true
    → Allowed (subscribe_of (lookup identity l.users)) topic
unfolding can_subscribe
can_subscribe-Allowed l identity filter topic nz h m = elim (Bool-cases (is_valid_filter filter)) [
  | inl q ↦
      any_covers-Allowed (subscribe_of (lookup identity l.users)) filter topic nz
        (rw (can_subscribe, q) at h) m
  | inr q ↦ cc (rw (can_subscribe, q) at h)
]

valid_filter_nonempty : (f : Bytes) → is_valid_filter f ≡ true → f ≢ []
unfolding is_valid_filter check_topic_filter
valid_filter_nonempty [] h e = ground (arith, bytes_eq_iff [] [])
valid_filter_nonempty (c ∷ f) h e = cc e

covers_filter_total : (f filter : Bytes) → f ≢ [] → covers_filter f filter ≢ none
unfolding covers_filter
covers_filter_total [] filter nz h = nz refl
covers_filter_total (c ∷ f) filter nz h = ground arith

any_covers_total :
    (permissions : List Bytes) (filter : Bytes)
    → valid_filters permissions ≡ true
    → any_covers permissions filter ≢ none
unfolding any_covers valid_filters
any_covers_total [] filter v h = cc
any_covers_total (f ∷ fs) filter v h =
    let (here, there) = (&&_iff (is_valid_filter f) (valid_filters fs)).0 v in
    elim (Option-cases (covers_filter f filter)) [
      | inl e ↦ covers_filter_total f filter (valid_filter_nonempty f here) e
      | inr (true, e) ↦ cc (rw (e, any_covers) at h)
      | inr (false, e) ↦ any_covers_total fs filter there (rw (e, any_covers) at h)
    ]

take_ids_inv :
    (ids taken taken' : List Bytes) (id : Bytes)
    → take_ids ids taken ≡ some taken'
    → (contains id taken ≡ true → contains id taken' ≡ true)
      × (contains id ids ≡ true → (contains id taken ≡ false) × (contains id taken' ≡ true))
unfolding take_ids contains
take_ids_inv [] taken taken' id h =
    let same : taken ≡ taken' = some_inj h in (subst (λ t. contains id t ≡ true) same, λ q. cc q)
take_ids_inv (i ∷ ids) taken taken' id h =
    elim (Bool-cases (not (valid_name i) || has_wildcard i || contains i taken)) [
      | inl bad ↦ cc (rw (take_ids, bad) at h)
      | inr good ↦
          let (keeps, new) = take_ids_inv ids (i ∷ taken) taken' id (rw (take_ids, good) at h) in
          let apart : contains i taken ≡ false = ground arith in
          (
            λ q. keeps (ground arith),
            λ q. elim (Bool-cases (bytes_eq i id)) [
              | inl e ↦ (
                subst (λ x. contains x taken ≡ false) ((bytes_eq_iff i id).0 e) apart,
                keeps (ground arith),
              )
              | inr e ↦ let (f, g) = new (ground arith) in (ground arith, g)
            ],
          )
    ]

-- What New's loop keeps to: a user's identifiers are taken, by that user alone, and the filters of
-- its permissions are valid.
record IsPolicy (taken : List Bytes) (users : Map Bytes Entry) : Type 0 where
  claimed :
      (a id : Bytes) (e : Entry)
      → lookup a users ≡ some e
      → contains id e.client_ids ≡ true
      → contains id taken ≡ true
  unique :
      (a b id : Bytes) (e f : Entry)
      → lookup a users ≡ some e
      → lookup b users ≡ some f
      → contains id e.client_ids ≡ true
      → contains id f.client_ids ≡ true
      → a ≡ b
  filters : (a : Bytes) (e : Entry) → lookup a users ≡ some e → valid_filters e.subscribe ≡ true

insert-IsPolicy :
    (u : Bytes) (e : Entry) (taken taken' : List Bytes) (users : Map Bytes Entry)
    → take_ids e.client_ids taken ≡ some taken'
    → valid_filters e.subscribe ≡ true
    → IsPolicy taken users
    → IsPolicy taken' (insert u e users)
insert-IsPolicy u e taken taken' users h v p = record {
  claimed = λ a id f look q. elim (lookup-insert_inv u a e f users look) [
    | inl (i, same) ↦
        ((take_ids_inv e.client_ids taken taken' id h).1
          (subst (λ (x : Entry). contains id x.client_ids ≡ true) (sym same) q)).1
    | inr (i, old) ↦ (take_ids_inv e.client_ids taken taken' id h).0 (p.claimed a id f old q)
  ];
  unique = λ a b id f g look look' q r. elim (lookup-insert_inv u a e f users look) [
    | inl (i, same) ↦ elim (lookup-insert_inv u b e g users look') [
      | inl (j, same') ↦ sym i ∙ j
      | inr (j, old) ↦ absurd (
          apart id (subst (λ (x : Entry). contains id x.client_ids ≡ true) (sym same) q)
            (p.claimed b id g old r))
    ]
    | inr (i, old) ↦ elim (lookup-insert_inv u b e g users look') [
      | inl (j, same') ↦ absurd (
          apart id (subst (λ (x : Entry). contains id x.client_ids ≡ true) (sym same') r)
            (p.claimed a id f old q))
      | inr (j, old') ↦ p.unique a b id f g old old' q r
    ]
  ];
  filters = λ a f look. elim (lookup-insert_inv u a e f users look) [
    | inl (i, same) ↦ subst (λ (x : Entry). valid_filters x.subscribe ≡ true) same v
    | inr (i, old) ↦ p.filters a f old
  ];
}
  where
    apart : (id : Bytes) → contains id e.client_ids ≡ true → contains id taken ≡ true → ⊥
    apart id q r = cc (((take_ids_inv e.client_ids taken taken' id h).1 q).0, r)

valid_inj : {A : Type 0} {a b : A} → valid a ≡ valid b → a ≡ b
valid_inj {A} {a} e = ap (λ p. elim p [ valid x ↦ x | invalid e ↦ a ]) e

Policy-cases :
    {A : Type 0} (p : Policy A) → ((e : PolicyError) × (p ≡ invalid e)) ⊎ ((a : A) × (p ≡ valid a))
Policy-cases (valid a) = inr (a, refl)
Policy-cases (invalid e) = inl (e, refl)

can_use_client_id_inv :
    (l : Local) (a id : Bytes)
    → can_use_client_id l a id ≡ true
    → (e : Entry) × (lookup a l.users ≡ some e) × (contains id e.client_ids ≡ true)
unfolding can_use_client_id contains
can_use_client_id_inv l a id h = elim (Option-cases (lookup a l.users)) [
  | inl e ↦ cc (rw (e, can_use_client_id) at h)
  | inr (u, e) ↦ (u, e, rw (e, can_use_client_id) at h)
]

module _ (k : Crypto) where
  add_user-IsPolicy :
      (u : User) (acc acc' : List Bytes × Map Bytes Entry)
      → add_user k u acc ≡ valid acc'
      → IsPolicy acc.0 acc.1
      → IsPolicy acc'.0 acc'.1
  unfolding add_user
  add_user-IsPolicy u (taken, users) acc' h p =
      elim (Bool-cases (not (valid_name u.username) || is_nil u.client_ids)) [
        | inl q ↦ cc (rw (add_user, q) at h)
        | inr q ↦ elim (Bool-cases (is_known u.username users)) [
          | inl r ↦ cc (rw (add_user, q, r) at h)
          | inr r ↦ elim (Option-cases (parse_password_hash k u.password_hash)) [
            | inl s ↦ cc (rw (add_user, q, r, s) at h)
            | inr (hash, s) ↦ elim (Option-cases (take_ids u.client_ids taken)) [
              | inl t ↦ cc (rw (add_user, q, r, s, t) at h)
              | inr (taken', t) ↦
                  elim (Bool-cases (valid_filters u.publish && valid_filters u.subscribe)) [
                    | inr w ↦ cc (rw (add_user, q, r, s, t, w) at h)
                    | inl w ↦
                        subst (λ x. IsPolicy x.0 x.1)
                          (valid_inj (rw (add_user, q, r, s, t, w) at h))
                          (insert-IsPolicy u.username _ taken taken' users t
                            ((&&_iff (valid_filters u.publish) (valid_filters u.subscribe)).0 w).1
                            p)
                  ]
            ]
          ]
        ]
      ]

  add_users-IsPolicy :
      (us : List User) (acc acc' : List Bytes × Map Bytes Entry)
      → add_users k us acc ≡ valid acc'
      → IsPolicy acc.0 acc.1
      → IsPolicy acc'.0 acc'.1
  unfolding add_users
  add_users-IsPolicy [] acc acc' h p = subst (λ x. IsPolicy x.0 x.1) (valid_inj h) p
  add_users-IsPolicy (u ∷ us) acc acc' h p = elim (Policy-cases (add_user k u acc)) [
    | inl (e, q) ↦ cc (rw (q, add_users) at h)
    | inr (acc'', q) ↦
        add_users-IsPolicy us acc'' acc' (rw (q, add_users) at h)
          (add_user-IsPolicy u acc acc'' q p)
  ]

  new_local-IsPolicy :
      (us : List User) (processors : ℕ) (l : Local)
      → new_local k us processors ≡ valid l
      → (taken : List Bytes) × IsPolicy taken l.users
  unfolding new_local
  new_local-IsPolicy us processors l h = elim (Bool-cases (is_nil us)) [
    | inl q ↦ cc (rw (new_local, q) at h)
    | inr q ↦ elim (Policy-cases (add_users k us ([], []))) [
      | inl (e, r) ↦ cc (rw (new_local, q, r) at h)
      | inr ((taken, users), r) ↦ (
        taken,
        subst (λ (x : Local). IsPolicy taken x.users) (valid_inj (rw (new_local, q, r) at h))
            (add_users-IsPolicy us ([], []) (taken, users) r none_yet),
      )
    ]
  ]
    where
      none_yet : IsPolicy [] []
      none_yet = record {
        claimed = λ a id e look q. cc (lookup_nil {V = Entry} a, look);
        unique = λ a b id e f look look' q r. cc (lookup_nil {V = Entry} a, look);
        filters = λ a e look. cc (lookup_nil {V = Entry} a, look);
      }

  -- In a policy that New accepts, a client identifier belongs to one identity.
  pub can_use_client_id_unique :
      (us : List User) (processors : ℕ) (l : Local) (a b id : Bytes)
      → new_local k us processors ≡ valid l
      → can_use_client_id l a id ≡ true
      → can_use_client_id l b id ≡ true
      → a ≡ b
  can_use_client_id_unique us processors l a b id h q r =
      let (taken, p) = new_local-IsPolicy us processors l h in
      let (e, look, own) = can_use_client_id_inv l a id q in
      let (f, look', own') = can_use_client_id_inv l b id r in
      p.unique a b id e f look look' own own'

  -- In a policy that New accepts, CanSubscribe answers every filter: no permission makes
  -- CoversFilter panic.
  pub can_subscribe_total :
      (us : List User) (processors : ℕ) (l : Local) (identity filter : Bytes)
      → new_local k us processors ≡ valid l
      → can_subscribe l identity filter ≢ none
  unfolding valid_filters can_subscribe
  can_subscribe_total us processors l identity filter h n =
      let (taken, p) = new_local-IsPolicy us processors l h in
      elim (Bool-cases (is_valid_filter filter)) [
        | inr q ↦ cc (rw (can_subscribe, q) at n)
        | inl q ↦ elim (Option-cases (lookup identity l.users)) [
          | inl e ↦ any_covers_total [] filter refl (rw (can_subscribe, q, e) at n)
          | inr (u, e) ↦
              any_covers_total u.subscribe filter (p.filters identity u e)
                (rw (can_subscribe, q, e) at n)
        ]
      ]
