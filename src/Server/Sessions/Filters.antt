-- ===== src/Server/Sessions/Filters.antt =====
-- internal/server: the filters that handleSubscribe and handleUnsubscribe go through, and the
-- invariant of the server.
use orb_mq.Base.{
  ℕ, Bytes, bytes_eq, bytes_eq_iff, bytes_Eq, nat_eq, lookup, insert, lookup-insert,
  lookup-insert_self, lookup-delete, Bool-cases, Option-cases, true, false, if◌then◌else◌, ◌&&◌,
  Option, none, some, some_inj, ◌≡◌, ◌≢◌, inl, inr, refl, arith, subst, sym, ap, ◌∙◌,
}
use orb_mq.Protocol.Packet.{Subscription}
use orb_mq.Broker.{Broker, subscribe, unsubscribe}
use orb_mq.Session.State.{State, Cell}
use orb_mq.Session.Subscriptions.{
  Grant, accepted, session_removed, filter_limit, subscription_limit, is_long_filter, is_subscribed,
  is_full, reject_filter, reject_subscription, store_subscription, set_subscription,
  delete_subscription,
}
use orb_mq.Session.Store.{owner_of, Store, cell_of, put_cell}
use orb_mq.Session.Store.Accounts.{Keeps}
use orb_mq.Session.Store.Methods.{set_subscription-Keeps, delete_subscription-Keeps}
use orb_mq.Session.Store.Invariant.{IsStore, IsWithin-totals, put_cell-IsStore}
use orb_mq.Session.Store.Reachable.{call_at}
use orb_mq.Server.Sessions.{
  Connection, Server, route, id_of, may_subscribe, set_at, answer, granted_qos, subscribe_filter,
  unsubscribe_filter,
}
use orb_mq.Server.Sessions.Stored.{
  route_of, stored-at, stored-put_at, stored-put_other, stored-put_same, by_id_injective,
}
use orb_mq.Server.Sessions.Routes.{routed, routed-subscribe, routed-unsubscribe}
use orb_mq.Server.Sessions.Held.{IsHeld, put_cell-IsHeld}
use orb_mq.Server.Sessions.Coherent.{Coherent, IsServer, resession-IsServer}

-- The broker and a session change one filter of one client alike.
module _ (srv : Server) (id : Bytes) (k : Connection) (look : lookup id srv.clients ≡ some k)
    (v : IsServer srv) where
  held : IsHeld id k.session srv.sessions
  held = (v.owned id k look).1

  named_so : held.state.id ≡ id
  named_so =
      let (s, f, i, d) = v.store.named id k.session held.found in
      ap (λ x. x.id) (some_inj (sym held.here ∙ f)) ∙ i

  reroute-Coherent :
      (filter : Bytes) (new : Option ℕ) (c : Cell) (b : Broker)
      → ((j g : Bytes)
          → routed j g b ≡ (
              if bytes_eq filter g && bytes_eq id j
              then route_of id k.session new
              else routed j g srv.broker))
      → ((g : Bytes)
          → lookup g c.state.subscriptions
            ≡ (if bytes_eq filter g then new else lookup g held.state.subscriptions))
      → Coherent b (put_cell k.session c srv.sessions)
  reroute-Coherent filter new c b here there j g = elim (Bool-cases (bytes_eq id j)) [
    | inl q ↦
        let same = (bytes_eq_iff id j).0 q in
        let found : lookup j srv.sessions.by_id ≡ some k.session =
          subst (λ i. lookup i srv.sessions.by_id ≡ some k.session) same held.found in
        here j g
        ∙ ((elim (Bool-cases (bytes_eq filter g)) [
          | inl z ↦
              rw (q, z)
                (ap (λ i. route_of i k.session new) same
                  ∙ ap (route_of j k.session) (sym (rw z at (there g))))
          | inr z ↦
              rw (q, z)
                (v.routes j g
                  ∙ (stored-at j g k.session held.state srv.sessions found held.here
                      ∙ ap (route_of j k.session) (sym (rw z at (there g)))))
        ])
            ∙ sym (stored-put_at j g k.session c srv.sessions found))
    | inr q ↦
        let apart : lookup j srv.sessions.by_id ≢ some k.session =
          λ e. differs j q (by_id_injective srv.sessions id j k.session v.store held.found e) in
        here j g
        ∙ (ground (arith, q)
            ∙ (v.routes j g ∙ sym (stored-put_other j g k.session c srv.sessions apart)))
  ]
    where
      differs : (j : Bytes) → bytes_eq id j ≡ false → ¬ (id ≡ j)
      differs j q p = ground (arith, bytes_eq_iff id j, p)

  rerouted-IsServer :
      (filter : Bytes) (new : Option ℕ) (c : Cell) (b : Broker)
      → IsStore (put_cell k.session c srv.sessions)
      → c.state.connected ≡ held.state.connected
      → ((j g : Bytes)
          → routed j g b ≡ (
              if bytes_eq filter g && bytes_eq id j
              then route_of id k.session new
              else routed j g srv.broker))
      → ((g : Bytes)
          → lookup g c.state.subscriptions
            ≡ (if bytes_eq filter g then new else lookup g held.state.subscriptions))
      → IsServer (record srv { sessions = put_cell k.session c srv.sessions; broker = b })
  rerouted-IsServer filter new c b store on here there = record {
    store = store;
    distinct = v.distinct;
    routes = reroute-Coherent filter new c b here there;
    owned = λ j k' e.
        let (p, h) = v.owned j k' e in
        (p, put_cell-IsHeld k.session c j k'.session srv.sessions (λ q. on ∙ held.connected) h);
  }

lookup-delete_subscription :
    (filter g : Bytes) (c : Cell)
    → (lookup g (delete_subscription filter c).state.subscriptions
        ≡ (if bytes_eq filter g then none else lookup g c.state.subscriptions))
      × ((delete_subscription filter c).state.connected ≡ c.state.connected)
unfolding delete_subscription is_subscribed
lookup-delete_subscription filter g c = elim (Option-cases (lookup filter c.state.subscriptions)) [
  | inr (q, e) ↦
      rw (delete_subscription, is_subscribed, e)
        (lookup-delete filter g c.state.subscriptions, refl)
  | inl e ↦ elim (Bool-cases (bytes_eq filter g)) [
    | inl z ↦
        rw (delete_subscription, is_subscribed, e, z)
          (subst (λ i. lookup i c.state.subscriptions ≡ none) ((bytes_eq_iff filter g).0 z) e, refl)
    | inr z ↦ rw (delete_subscription, is_subscribed, e, z) (refl, refl)
  ]
]

pub unsubscribe_filter-IsServer :
    (srv : Server) (id : Bytes) (k : Connection) (filter : Bytes)
    → lookup id srv.clients ≡ some k
    → IsServer srv
    → IsServer (unsubscribe_filter id k.session filter srv)
unfolding unsubscribe_filter held
unsubscribe_filter-IsServer srv id k filter look v =
    let h = (v.owned id k look).1 in
    let st = srv.sessions in
    let c = delete_subscription filter (cell_of st h.state) in
    rw (call_at (delete_subscription filter) k.session h.state st h.here) (
      rerouted-IsServer srv id k look v filter none c (unsubscribe srv.broker filter id)
        (put_cell-IsStore st k.session h.state c v.store h.here (
          delete_subscription-Keeps filter (cell_of st h.state)
            (IsWithin-totals st k.session h.state v.store h.here)
            (v.store.objects k.session h.state h.here)))
        (lookup-delete_subscription filter filter (cell_of st h.state)).1
        (λ j g. routed-unsubscribe srv.broker filter g id j)
        (λ g. (lookup-delete_subscription filter g (cell_of st h.state)).0))

-- What SetSubscription comes to: the subscription is set, or an error and no change of the session.
data Granted (filter : Bytes) (qos : ℕ) (c : Cell) : Type 0 where
  taken :
      (c' : Cell)
      → set_subscription filter qos c ≡ (accepted, c')
      → c'.state ≡ record c.state { subscriptions = insert filter qos c.state.subscriptions }
      → Granted filter qos c
  not_taken :
      (g : Grant) (c' : Cell)
      → g ≢ accepted
      → set_subscription filter qos c ≡ (g, c')
      → c'.state ≡ c.state
      → Granted filter qos c

removed_apart : session_removed ≢ accepted
removed_apart e = cc e

filter_apart : filter_limit ≢ accepted
filter_apart e = cc e

limit_apart : subscription_limit ≢ accepted
limit_apart e = cc e

granted : (filter : Bytes) (qos : ℕ) (c : Cell) → Granted filter qos c
unfolding set_subscription is_subscribed insert is_full
granted filter qos c = elim (Bool-cases c.state.deleted) [
  | inl d ↦ not_taken session_removed c removed_apart (rw (set_subscription, d) refl) refl
  | inr d ↦ elim (Bool-cases (is_long_filter c.limits filter)) [
    | inl l ↦
        not_taken filter_limit (reject_filter c) filter_apart (rw (set_subscription, d, l) refl)
          refl
    | inr l ↦ elim (Bool-cases (is_subscribed filter c.state)) [
      | inl s ↦ taken (store_subscription filter qos 0 c) (rw (set_subscription, d, l, s) refl) refl
      | inr s ↦ elim (Bool-cases (is_full c)) [
        | inl f ↦
            not_taken subscription_limit (reject_subscription c) limit_apart
              (rw (set_subscription, d, l, s, f) refl) refl
        | inr f ↦
            taken (store_subscription filter qos 1 c) (rw (set_subscription, d, l, s, f) refl) refl
      ]
    ]
  ]
]

set_at_here :
    (ref : ℕ) (filter : Bytes) (qos : ℕ) (st : Store) (s : State) (g : Grant) (c : Cell)
    → lookup ref st.states ≡ some s
    → set_subscription filter qos (cell_of st s) ≡ (g, c)
    → set_at ref filter qos st ≡ (g, put_cell ref c st)
unfolding set_at
set_at_here ref filter qos st s g c e h = rw (set_at, e) (ap (λ r. (r.0, put_cell ref r.1 st)) h)

id_of_at : (ref : ℕ) (s : State) (st : Store) → lookup ref st.states ≡ some s → id_of ref st ≡ s.id
unfolding id_of
id_of_at ref s st e = rw (id_of, e) refl

answer_other :
    (ref : ℕ) (filter : Bytes) (qos : ℕ) (srv : Server) (g : Grant) (st : Store)
    → g ≢ accepted
    → (answer ref filter qos srv (g, st)).1 ≡ record srv { sessions = st }
answer_other ref filter qos srv accepted st h = absurd (h refl)
answer_other ref filter qos srv session_removed st h = refl
answer_other ref filter qos srv filter_limit st h = refl
answer_other ref filter qos srv subscription_limit st h = refl

set_filter-IsServer :
    (srv : Server) (id : Bytes) (k : Connection) (filter : Bytes) (qos : ℕ)
    → lookup id srv.clients ≡ some k
    → IsServer srv
    → IsServer (answer k.session filter qos srv (set_at k.session filter qos srv.sessions)).1
unfolding held
set_filter-IsServer srv id k filter qos look v =
    let h = held srv id k look v in
    let st = srv.sessions in
    let keeps = set_subscription-Keeps filter qos (cell_of st h.state) in
    elim (granted filter qos (cell_of st h.state)) [
      | taken c q same ↦
          let st' = put_cell k.session c st in
          let name : id_of k.session st' ≡ id =
            id_of_at k.session c.state st' (lookup-insert_self k.session c.state st.states)
            ∙ (ap (λ x. x.id) same ∙ named_so srv id k look v) in
          rw (set_at_here k.session filter qos st h.state accepted c h.here q) (
            rerouted-IsServer srv id k look v filter (some qos) c
              (subscribe srv.broker filter (route (id_of k.session st') k.session qos))
              (put_cell-IsStore st k.session h.state c v.store h.here
                (subst (λ r. Keeps (cell_of st h.state) r.1) q keeps))
              (ap (λ x. x.connected) same)
              (λ j g.
                subst
                  (λ i. routed j g (subscribe srv.broker filter (route i k.session qos)) ≡ (
                    if bytes_eq filter g && bytes_eq id j
                    then some (route id k.session qos)
                    else routed j g srv.broker))
                  (sym name) (routed-subscribe srv.broker filter g j (route id k.session qos)))
              (λ g.
                ap (λ x. lookup g x.subscriptions) same
                ∙ lookup-insert filter g qos h.state.subscriptions))
      | not_taken g c apart q same ↦
          let store =
            put_cell-IsStore st k.session h.state c v.store h.here
              (subst (λ r. Keeps (cell_of st h.state) r.1) q keeps) in
          rw
            (
              set_at_here k.session filter qos st h.state g c h.here q,
              answer_other k.session filter qos srv g (put_cell k.session c st) apart,
            )
            (resession-IsServer srv (put_cell k.session c st) store v.distinct
              (λ j g.
                stored-put_same j g k.session h.state c st h.here (ap (λ x. x.subscriptions) same))
              (λ j k' e.
                let (p, h') = v.owned j k' e in
                (
                  p,
                  put_cell-IsHeld k.session c j k'.session st
                      (λ r. ap (λ x. x.connected) same ∙ h.connected) h',
                ))
              v)
    ]

pub subscribe_filter-IsServer :
    (srv : Server) (id : Bytes) (k : Connection) (sub : Subscription)
    → lookup id srv.clients ≡ some k
    → IsServer srv
    → IsServer (subscribe_filter k.session sub srv).1
unfolding subscribe_filter
subscribe_filter-IsServer srv id k sub look v =
    elim (Option-cases (may_subscribe (owner_of k.session srv.sessions) sub.topic srv)) [
      | inl e ↦ rw (subscribe_filter, e) v
      | inr (false, e) ↦
          rw (subscribe_filter, e)
            (record { store = v.store; distinct = v.distinct; routes = v.routes; owned = v.owned })
      | inr (true, e) ↦
          rw (subscribe_filter, e)
            (set_filter-IsServer srv id k sub.topic (granted_qos sub.qos) look v)
    ]
