-- ===== src/Server/Sessions/Reaches.antt =====
-- internal/server with internal/broker: which sessions the subscriptions that Match returns lead to.
use orb_mq.Base.{
  ℕ, Bytes, bytes_Eq, nat_eq, Map, lookup, Bool, Bool-cases, if_rule, Option-cases, true, false,
  ◌==◌, List, [], ◌∷◌, some, some_inj, ◌≡◌, inl, inr, subst, sym, ap, ◌∙◌,
}
use orb_mq.Protocol.Packet.{ConnectPacket, Subscription}
use orb_mq.Topic.Parse.{split_filter, match_filter}
use orb_mq.Topic.Tree.{Subscription as Route, match_map}
use orb_mq.Topic.Tree.Delivery.{HashLast, match_map_sound, match_map_complete}
use orb_mq.Topic.Tree.Match.Complete.{Covers}
use orb_mq.Broker.{Broker, unsubscribe_all}
use orb_mq.Broker.Reachable.{
  Reachable, started, subscribes, unsubscribes, unsubscribes_all, publishes as published_to,
  Reachable-IsBroker,
}
use orb_mq.Session.State.{State}
use orb_mq.Session.Store.{
  Store, find, Opening, opened, session_owner, session_limit, expire, expire_session, owner_of,
}
use orb_mq.Session.Store.Lifetimes.{find_inv}
use orb_mq.Session.Subscriptions.{
  Grant, accepted, session_removed, filter_limit, subscription_limit,
}
use orb_mq.Server.Sessions.{
  Connection, Server, Acquisition, expire_client, drop_client, open_session, route, restore,
  is_foreign, enter, acquire_once, leave, close_session, drop_routes, sweep, may_subscribe,
  granted_qos, set_at, answer, subscribe_filter, unsubscribe_filter,
}
use orb_mq.Server.Sessions.Stored.{stored, route_of, stored-at}
use orb_mq.Server.Sessions.Serves.{
  Serves, starts, connects, readies, closes, leaves, ticks, asks, withdraws, publishes, delivers,
  begins, Serves-IsServer,
}

restore-Reachable :
    (m : Map Bytes ℕ) (id : Bytes) (ref : ℕ) (b : Broker)
    → Reachable b
    → Reachable (restore m id ref b)
unfolding restore
restore-Reachable [] id ref b r = r
restore-Reachable ((f, q) ∷ m) id ref b r =
    restore-Reachable m id ref _ (subscribes f (route id ref q) r)

drop_routes-Reachable :
    (ids : List Bytes) (b : Broker) → Reachable b → Reachable (drop_routes ids b)
unfolding drop_routes
drop_routes-Reachable [] b r = r
drop_routes-Reachable (id ∷ ids) b r = drop_routes-Reachable ids _ (unsubscribes_all id r)

-- The broker of a server is one that calls lead to.
abbrev Routes : Server → Type 0
Routes srv = Reachable srv.broker

expire_client-Routes :
    (id : Bytes) (now : ℕ) (srv : Server) → Routes srv → Routes (expire_client id now srv)
unfolding expire_client
expire_client-Routes id now srv r =
    if_rule Reachable (expire_session id now srv.sessions).0 (unsubscribe_all srv.broker id)
      srv.broker (λ q. unsubscribes_all id r) (λ q. r)

open_session-Routes :
    (p : ConnectPacket) (identity : Bytes) (now : ℕ) (srv : Server)
    → Routes srv
    → Routes (open_session p identity now srv).1
unfolding open_session
open_session-Routes p identity now srv r =
    if_rule Routes p.clean_session (drop_client p.client_id (expire_client p.client_id now srv))
      (expire_client p.client_id now srv)
      (λ q. unsubscribes_all p.client_id (expire_client-Routes p.client_id now srv r))
      (λ q. expire_client-Routes p.client_id now srv r)

enter-Routes : (p : ConnectPacket) (r : Opening × Server) → Routes r.1 → Routes (enter p r).1
enter-Routes p (opened ref present, srv) r = restore-Reachable _ _ ref srv.broker r
enter-Routes p (session_owner, srv) r = r
enter-Routes p (session_limit, srv) r = r

acquire_once-Routes :
    (late : Bool) (p : ConnectPacket) (identity : Bytes) (now : ℕ) (srv : Server)
    → Routes srv
    → Routes (acquire_once late p identity now srv).1
unfolding acquire_once
acquire_once-Routes late p identity now srv r =
    if_rule P late _ _ (λ q. r)
      (λ q.
        if_rule P (is_foreign p.client_id identity srv.sessions) _ _ (λ q. r)
          (λ q. elim (Option-cases (lookup p.client_id srv.clients)) [
            | inr (k, e) ↦ rw e r
            | inl e ↦ rw e (
                enter-Routes p (open_session p identity now srv)
                  (open_session-Routes p identity now srv r))
          ]))
  where
    P : Acquisition × Server → Type 0
    P r = Routes r.1

leave-Routes : (k : Connection) (srv : Server) → Routes srv → Routes (leave k srv)
leave-Routes k srv r = elim (Bool-cases k.clean_session) [
  | inl q ↦ rw q (unsubscribes_all k.client_id r)
  | inr q ↦ rw q r
]

close_session-Routes :
    (id : Bytes) (ref : ℕ) (srv : Server) → Routes srv → Routes (close_session id ref srv)
unfolding close_session
close_session-Routes id ref srv r = elim (Option-cases (lookup id srv.clients)) [
  | inl e ↦ rw (close_session, e) r
  | inr (k, e) ↦ elim (Bool-cases (k.ref == ref)) [
    | inl q ↦ rw (close_session, e, q) (leave-Routes k srv r)
    | inr q ↦ rw (close_session, e, q) r
  ]
]

answer-Routes :
    (ref : ℕ) (filter : Bytes) (qos : ℕ) (srv : Server) (g : Grant × Store)
    → Routes srv
    → Routes (answer ref filter qos srv g).1
answer-Routes ref filter qos srv (accepted, st) r = subscribes filter _ r
answer-Routes ref filter qos srv (session_removed, st) r = r
answer-Routes ref filter qos srv (filter_limit, st) r = r
answer-Routes ref filter qos srv (subscription_limit, st) r = r

subscribe_filter-Routes :
    (ref : ℕ) (sub : Subscription) (srv : Server)
    → Routes srv
    → Routes (subscribe_filter ref sub srv).1
unfolding subscribe_filter
subscribe_filter-Routes ref sub srv r =
    elim (Option-cases (may_subscribe (owner_of ref srv.sessions) sub.topic srv)) [
      | inl e ↦ rw (subscribe_filter, e) r
      | inr (false, e) ↦ rw (subscribe_filter, e) r
      | inr (true, e) ↦
          rw (subscribe_filter, e)
            (answer-Routes ref sub.topic (granted_qos sub.qos) srv
              (set_at ref sub.topic (granted_qos sub.qos) srv.sessions) r)
    ]

Serves-Routes : (srv : Server) → Serves srv → Routes srv
unfolding sweep unsubscribe_filter
Serves-Routes _ (starts auth l r b st e f) = started r b e
Serves-Routes _ (connects {srv} late p identity now s) =
    acquire_once-Routes late p identity now srv (Serves-Routes srv s)
Serves-Routes _ (readies {srv} id k e s) = Serves-Routes srv s
Serves-Routes _ (closes {srv} id now k e s) = Serves-Routes srv s
Serves-Routes _ (leaves {srv} id ref s) = close_session-Routes id ref srv (Serves-Routes srv s)
Serves-Routes _ (ticks {srv} now s) =
    drop_routes-Reachable (expire now srv.sessions).0 srv.broker (Serves-Routes srv s)
Serves-Routes _ (asks {srv} id k sub e s) =
    subscribe_filter-Routes k.session sub srv (Serves-Routes srv s)
Serves-Routes _ (withdraws {srv} id k filter e s) = unsubscribes filter id (Serves-Routes srv s)
Serves-Routes _ (publishes {srv} p s) = published_to p (Serves-Routes srv s)
Serves-Routes _ (delivers {srv} f ref d s) = Serves-Routes srv s
Serves-Routes _ (begins {srv} ref t e lt s) = Serves-Routes srv s

-- A session of the store, under the client's identifier and at this address, that is subscribed
-- under a filter which matches the topic, with this QoS.
pub record Wants (st : Store) (id : Bytes) (ref : ℕ) (topic : Bytes) (qos : ℕ) : Type 0 where
  pub filter : Bytes
  pub state : State
  pub found : lookup id st.by_id ≡ some ref
  pub here : lookup ref st.states ≡ some state
  pub asked : lookup filter state.subscriptions ≡ some qos
  pub matches : match_filter filter topic ≡ true

stored-Wants :
    (st : Store) (id filter topic : Bytes) (sub : Route)
    → stored id filter st ≡ some sub
    → match_filter filter topic ≡ true
    → Wants st id sub.subscriber topic sub.qos
unfolding stored
stored-Wants st id filter topic sub h m = elim (Option-cases (find id st)) [
  | inl e ↦ cc (rw e at h)
  | inr ((ref, s), e) ↦ elim (Option-cases (lookup filter s.subscriptions)) [
    | inl f ↦ cc (rw (e, f) at h)
    | inr (q, f) ↦
        let same : route id ref q ≡ sub = some_inj (rw (e, f) at h) in
        let (found, here) = find_inv id st ref s e in
        subst (λ (x : Route). Wants st id x.subscriber topic x.qos) same
          (record {
            filter = filter;
            state = s;
            found = found;
            here = here;
            asked = f;
            matches = m;
          })
  ]
]

-- Match reaches only sessions that want the topic: what it returns for a client, in a state that
-- steps lead to from a new server, is a subscription of the client's session in the store.
pub match_map-Wants :
    (srv : Server) (id topic : Bytes) (sub : Route)
    → Serves srv
    → lookup id (match_map srv.broker.topics topic) ≡ some sub
    → Wants srv.sessions id sub.subscriber topic sub.qos
match_map-Wants srv id topic sub s e =
    let (filter, there, m) =
      match_map_sound srv.broker.topics id topic sub
        (Reachable-IsBroker srv.broker (Serves-Routes srv s)).tree e in
    stored-Wants srv.sessions id filter topic sub
      (sym ((Serves-IsServer srv s).routes id filter) ∙ there) m

-- Match reaches every session that wants the topic, with at least the QoS it asked for, in a state
-- that steps lead to from a new server. The session's filter has `#` in last place only.
pub match_map-reaches :
    (srv : Server) (id topic : Bytes) (ref qos : ℕ)
    → Serves srv
    → (w : Wants srv.sessions id ref topic qos) → HashLast (split_filter w.filter)
    → Covers qos (lookup id (match_map srv.broker.topics topic))
match_map-reaches srv id topic ref qos s w l =
    match_map_complete srv.broker.topics w.filter id topic (route id ref qos)
      (Reachable-IsBroker srv.broker (Serves-Routes srv s)).tree l
      ((Serves-IsServer srv s).routes id w.filter
        ∙ (stored-at id w.filter ref w.state srv.sessions w.found w.here
            ∙ ap (route_of id ref) w.asked))
      w.matches
