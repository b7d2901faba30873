-- ===== src/Server/Sessions/Acquire.antt =====
-- internal/server: openSession and acquireConnection, and the invariant of the server.
use orb_mq.Base.{
  ℕ, Bytes, bytes_eq, bytes_Eq, nat_eq, lookup, insert, lookup-insert_self, lookup-insert_inv,
  Distinct, Bool, Bool-cases, if_rule, Option-cases, true, false, not, leb, if◌then◌else◌, none,
  some, some_inj, length, ◌≡◌, ◌⊎◌, inl, inr, refl, subst, sym, ap, ◌∙◌,
}
use orb_mq.Protocol.Packet.{ConnectPacket}
use orb_mq.Session.State.{State}
use orb_mq.Session.Subscriptions.{mark_connected, snapshot_subscriptions}
use orb_mq.Session.Store.{
  Store, Opening, opened, session_owner, session_limit, cell_of, put_cell, call, on_state, owner_of,
  get_or_create_owned,
}
use orb_mq.Session.Store.Methods.{mark_connected-Keeps}
use orb_mq.Session.Store.Invariant.{IsStore}
use orb_mq.Session.Store.Lifetimes.{get_or_create_owned-IsStore}
use orb_mq.Session.Store.Reachable.{call_at, call-IsStore}
use orb_mq.Server.Sessions.{
  Connection, Server, Acquisition, begin_closing, expire_client, drop_client, open_session,
  subscriptions_of, id_of, restore, new_connection, enter, is_foreign, acquire_once,
}
use orb_mq.Server.Sessions.Stored.{route_of, stored-at}
use orb_mq.Server.Sessions.Expiry.{stored-get_or_create_owned}
use orb_mq.Server.Sessions.Routes.{routed, routed-restore, snapshot_subscriptions-HasRoutes}
use orb_mq.Server.Sessions.Held.{IsHeld, get_or_create_owned-IsHeld, get_or_create_owned-Distinct}
use orb_mq.Server.Sessions.Coherent.{
  IsServer, resession-IsServer, drop_client-IsServer, expire_client-IsServer, call-IsServer,
}

pub opened_inj : {a b : ℕ} {x y : Bool} → opened a x ≡ opened b y → a ≡ b
opened_inj {a} e = ap (λ o. elim o [ opened r p ↦ r | session_owner ↦ a | session_limit ↦ a ]) e

-- The session that GetOrCreateOwned opens is the one of the identifier.
get_or_create_owned-opened :
    (id owner : Bytes) (now : ℕ) (st : Store) (ref : ℕ) (present : Bool)
    → (get_or_create_owned id owner now st).0 ≡ opened ref present
    → lookup id (get_or_create_owned id owner now st).1.by_id ≡ some ref
unfolding get_or_create_owned
get_or_create_owned-opened id owner now st ref present h =
    elim (Option-cases (lookup id st.by_id)) [
      | inr (r, e) ↦ elim (Bool-cases (not (bytes_eq (owner_of r st) owner))) [
        | inl q ↦ cc (rw (get_or_create_owned, e, q) at h)
        | inr q ↦
            rw (get_or_create_owned, e, q)
              (e ∙ ap some (opened_inj (rw (get_or_create_owned, e, q) at h)))
      ]
      | inl e ↦ elim (Bool-cases (leb st.limits.max_sessions (length st.by_id))) [
        | inl q ↦ cc (rw (get_or_create_owned, e, q) at h)
        | inr q ↦
            rw (get_or_create_owned, e, q)
              (lookup-insert_self id st.next_state st.by_id
                ∙ ap some (opened_inj (rw (get_or_create_owned, e, q) at h)))
      ]
    ]

-- `openSession` for a client that has no connection.
module _ (p : ConnectPacket) (identity : Bytes) (now : ℕ) (srv : Server)
    (absent : lookup p.client_id srv.clients ≡ none) (v : IsServer srv) where
  cleared-IsServer : IsServer (
      if p.clean_session
      then drop_client p.client_id (expire_client p.client_id now srv)
      else expire_client p.client_id now srv)
  unfolding expire_client
  cleared-IsServer =
      let w = expire_client-IsServer p.client_id now srv v in
      if_rule IsServer p.clean_session _ _
        (λ q. drop_client-IsServer p.client_id (expire_client p.client_id now srv) absent w)
        (λ q. w)

  pub open_session-IsServer : IsServer (open_session p identity now srv).1
  unfolding open_session
  open_session-IsServer =
      let x =
        if p.clean_session
        then drop_client p.client_id (expire_client p.client_id now srv)
        else expire_client p.client_id now srv in
      let w : IsServer x = cleared-IsServer in
      resession-IsServer x (get_or_create_owned p.client_id identity now x.sessions).1
        (get_or_create_owned-IsStore p.client_id identity now x.sessions w.store)
        (get_or_create_owned-Distinct p.client_id identity now x.sessions w.distinct)
        (λ j filter.
          stored-get_or_create_owned p.client_id identity now j filter x.sessions w.store)
        (λ j k e.
          let (i, h) = w.owned j k e in
          (i, get_or_create_owned-IsHeld p.client_id identity now j k.session x.sessions w.store h))
        w

  pub open_session-clients : (open_session p identity now srv).1.clients ≡ srv.clients
  unfolding open_session expire_client
  open_session-clients = elim (Bool-cases p.clean_session) [ inl q ↦ rw q refl | inr q ↦ rw q refl ]

  pub open_session-opened :
      (ref : ℕ) (present : Bool)
      → (open_session p identity now srv).0 ≡ opened ref present
      → lookup p.client_id (open_session p identity now srv).1.sessions.by_id ≡ some ref
  unfolding open_session
  open_session-opened ref present h =
      get_or_create_owned-opened p.client_id identity now _ ref present h

mark_connected-connected : (s : State) → s.deleted ≡ false → (mark_connected s).connected ≡ true
unfolding mark_connected
mark_connected-connected s d = rw (mark_connected, d) refl

pub mark_connected-subscriptions : (s : State) → (mark_connected s).subscriptions ≡ s.subscriptions
unfolding mark_connected
mark_connected-subscriptions s = elim (Bool-cases s.deleted) [
  | inl q ↦ rw (mark_connected, q) refl
  | inr q ↦ rw (mark_connected, q) refl
]

mark_connected-stays : (s : State) → s.connected ≡ true → (mark_connected s).connected ≡ true
unfolding mark_connected
mark_connected-stays s h = elim (Bool-cases s.deleted) [
  | inl q ↦ rw (mark_connected, q) h
  | inr q ↦ rw (mark_connected, q) refl
]

mark_connected-id : (s : State) → (mark_connected s).id ≡ s.id
unfolding mark_connected
mark_connected-id s = elim (Bool-cases s.deleted) [
  | inl q ↦ rw (mark_connected, q) refl
  | inr q ↦ rw (mark_connected, q) refl
]

filters-Distinct :
    (st : Store) (ref : ℕ) (s : State)
    → IsStore st
    → lookup ref st.states ≡ some s
    → Distinct s.subscriptions
filters-Distinct st ref s v e = elim (v.objects ref s e) [
  | inl h ↦ h.filters
  | inr h ↦ subst Distinct (sym h.subscriptions) tt
]

subscriptions_of_at :
    (ref : ℕ) (s : State) (st : Store)
    → lookup ref st.states ≡ some s
    → (subscriptions_of ref st ≡ snapshot_subscriptions s.subscriptions) × (id_of ref st ≡ s.id)
unfolding subscriptions_of id_of
subscriptions_of_at ref s st e = (rw (subscriptions_of, e) refl, rw (id_of, e) refl)

-- The restored routes of a session are already there.
routed-restored :
    (srv : Server) (id : Bytes) (ref : ℕ) (s : State)
    → IsServer srv
    → lookup id srv.sessions.by_id ≡ some ref
    → lookup ref srv.sessions.states ≡ some s
    → s.id ≡ id
    → (j filter : Bytes)
    → routed j filter
        (restore (subscriptions_of ref srv.sessions) (id_of ref srv.sessions) ref srv.broker)
      ≡ routed j filter srv.broker
routed-restored srv id ref s v found here own j filter =
    let (subs, name) = subscriptions_of_at ref s srv.sessions here in
    rw (subs, name, own)
      (routed-restore (snapshot_subscriptions s.subscriptions) id ref srv.broker filter j (
        snapshot_subscriptions-HasRoutes id ref srv.broker s.subscriptions
          (filters-Distinct srv.sessions ref s v.store here)
          (λ f q e.
            v.routes id f
            ∙ (stored-at id f ref s srv.sessions found here ∙ ap (route_of id ref) e))))

enter-IsServer :
    (p : ConnectPacket) (ref : ℕ) (present : Bool) (srv : Server)
    → lookup p.client_id srv.sessions.by_id ≡ some ref
    → IsServer srv
    → IsServer (enter p (opened ref present, srv)).1
enter-IsServer p ref present srv found v =
    let (s, here, own, d) = v.store.named p.client_id ref found in
    let c = on_state mark_connected (cell_of srv.sessions s) in
    let at : call (on_state mark_connected) ref srv.sessions ≡ put_cell ref c srv.sessions =
      call_at (on_state mark_connected) ref s srv.sessions here in
    let w : IsServer (record srv { sessions = put_cell ref c srv.sessions }) =
      subst (λ st. IsServer (record srv { sessions = st })) at
        (call-IsServer (on_state mark_connected) ref srv
          (call-IsStore (on_state mark_connected) ref srv.sessions (λ c a b. mark_connected-Keeps c)
            v.store)
          (λ t e. (
            mark_connected-subscriptions t,
            λ id k look q.
                let h = (v.owned id k look).1 in
                mark_connected-stays t (
                  subst (λ x. x.connected ≡ true)
                    (some_inj
                      (sym (subst (λ r. lookup r srv.sessions.states ≡ some h.state) q h.here) ∙ e))
                    h.connected),
          ))
          v) in
    let there : lookup ref (insert ref c.state srv.sessions.states) ≡ some c.state =
      lookup-insert_self ref c.state srv.sessions.states in
    rw at (record {
      store = w.store;
      distinct = w.distinct;
      routes = λ j filter.
          routed-restored (record srv { sessions = put_cell ref c srv.sessions }) p.client_id ref
            c.state w found there (mark_connected-id s ∙ own) j filter
          ∙ w.routes j filter;
      owned = λ id k e.
          elim (lookup-insert_inv p.client_id id (new_connection p ref srv) k srv.clients e) [
            | inr (q, f) ↦ w.owned id k f
            | inl (q, f) ↦
                subst
                  (λ k'. (k'.client_id ≡ id) × IsHeld id k'.session (put_cell ref c srv.sessions)) f
                  (
                    q,
                    record {
                      found = subst (λ i. lookup i srv.sessions.by_id ≡ some ref) q found;
                      state = c.state;
                      here = there;
                      connected = mark_connected-connected s d;
                    },
                  )
          ];
    })

begin_closing-same :
    (now : ℕ) (k : Connection)
    → ((begin_closing now k).client_id ≡ k.client_id) × ((begin_closing now k).session ≡ k.session)
unfolding begin_closing
begin_closing-same now k = elim (Bool-cases k.closing) [
  | inl q ↦ rw (begin_closing, q) (refl, refl)
  | inr q ↦ rw (begin_closing, q) (refl, refl)
]

-- The record of a connection changes, but for its client and its session.
pub replaced-IsServer :
    (id : Bytes) (k k' : Connection) (srv : Server)
    → (k'.client_id ≡ k.client_id) × (k'.session ≡ k.session)
    → lookup id srv.clients ≡ some k
    → IsServer srv
    → IsServer (record srv { clients = insert id k' srv.clients })
replaced-IsServer id k k' srv (a, b) e v = record {
  store = v.store;
  distinct = v.distinct;
  routes = v.routes;
  owned = λ j x f. elim (lookup-insert_inv id j k' x srv.clients f) [
    | inr (q, g) ↦ v.owned j x g
    | inl (q, g) ↦
        let (i, h) = v.owned id k e in
        subst (λ y. (y.client_id ≡ j) × IsHeld j y.session srv.sessions) g
          (
            a ∙ (i ∙ q),
            subst (λ r. IsHeld j r srv.sessions) (sym b)
                (subst (λ y. IsHeld y k.session srv.sessions) q h),
          )
  ];
}

pub closing-IsServer :
    (id : Bytes) (now : ℕ) (k : Connection) (srv : Server)
    → lookup id srv.clients ≡ some k
    → IsServer srv
    → IsServer (record srv { clients = insert id (begin_closing now k) srv.clients })
closing-IsServer id now k srv =
    replaced-IsServer id k (begin_closing now k) srv (begin_closing-same now k)

pub Opening-cases :
    (o : Opening)
    → ((ref : ℕ) × (present : Bool) × (o ≡ opened ref present))
      ⊎ ((o ≡ session_owner) ⊎ (o ≡ session_limit))
Opening-cases (opened ref present) = inl (ref, present, refl)
Opening-cases session_owner = inr (inl refl)
Opening-cases session_limit = inr (inr refl)

pub acquire_once-IsServer :
    (late : Bool) (p : ConnectPacket) (identity : Bytes) (now : ℕ) (srv : Server)
    → IsServer srv
    → IsServer (acquire_once late p identity now srv).1
unfolding acquire_once
acquire_once-IsServer late p identity now srv v =
    if_rule P late _ _ (λ q. v)
      (λ q.
        if_rule P (is_foreign p.client_id identity srv.sessions) _ _ (λ q. v)
          (λ q. elim (Option-cases (lookup p.client_id srv.clients)) [
            | inr (k, e) ↦ rw e (closing-IsServer p.client_id now k srv e v)
            | inl e ↦
                let w = open_session-IsServer p identity now srv e v in
                let srv' = (open_session p identity now srv).1 in
                elim (Opening-cases (open_session p identity now srv).0) [
                  | inl (ref, present, o) ↦
                      rw (e, o)
                        (enter-IsServer p ref present srv'
                          (open_session-opened p identity now srv e v ref present o) w)
                  | inr (inl o) ↦ rw (e, o) w
                  | inr (inr o) ↦ rw (e, o) w
                ]
          ]))
  where
    P : Acquisition × Server → Type 0
    P r = IsServer r.1
