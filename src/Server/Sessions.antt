-- ===== src/Server/Sessions.antt =====
-- internal/server/server.go and security.go: which connection owns a session, and the subscriptions
-- that the sessions and the broker hold of each other. `clientsMu` makes each function here but
-- those of one filter a single step; a connection's handler asks for one filter at a time.
pub mod Stored
pub mod Expiry
pub mod Routes
pub mod Quiet
pub mod Held
pub mod Coherent
pub mod Acquire
pub mod Filters
pub mod Serves
pub mod Ownership
pub mod Reaches
use orb_mq.Base.{
  ℕ, ◌+◌, Bytes, bytes_eq, bytes_Eq, nat_eq, Map, lookup, insert, delete, Bool, true, false, not,
  ltb, ◌==◌, if◌then◌else◌, List, [], ◌∷◌, Option, none, some,
}
use orb_mq.Protocol.Packet.{ConnectPacket, Subscription}
use orb_mq.Topic.Tree.{Subscription as Route}
use orb_mq.Broker.{Broker, subscribe, unsubscribe, unsubscribe_all}
use orb_mq.Auth.Local.{Local, can_subscribe}
use orb_mq.Session.State.{State, Cell, next64}
use orb_mq.Session.Subscriptions.{
  Grant, accepted, session_removed, set_subscription, delete_subscription, mark_connected,
  mark_disconnected_at, snapshot_subscriptions,
}
use orb_mq.Session.Store.{
  Store, Opening, opened, session_owner, session_limit, cell_of, put_cell, call, on_state, get,
  owner_of, get_or_create_owned, delete_session, expire, expire_session,
}
use orb_mq.Server.Connections.{Group}

-- `activeConnection`, with its address. The client is known by its identifier.
pub record Connection : Type 0 where
  pub ref : ℕ
  pub client_id : Bytes
  pub session : ℕ
  pub clean_session : Bool
  pub closing : Bool
  pub ready : Bool
  pub disconnected_at : ℕ

-- `finished` are the addresses of the connections whose channel `done` is closed.
pub record Server : Type 0 where
  pub auth : Option Local
  pub broker : Broker
  pub sessions : Store
  pub connections : Group
  pub clients : Map Bytes Connection
  pub next_connection : ℕ
  pub finished : List ℕ

-- `beginClosing`
unfoldable pub begin_closing : ℕ → Connection → Connection
begin_closing now k = if k.closing then k else record k { closing = true; disconnected_at = now }

-- `s.sessions.ExpireSession`, and the removal of the routes of a session that expired.
unfoldable pub expire_client : Bytes → ℕ → Server → Server
expire_client id now srv =
    let (gone, st) = expire_session id now srv.sessions in
    record srv {
      sessions = st;
      broker = if gone then unsubscribe_all srv.broker id else srv.broker;
    }

-- `UnsubscribeAll` of the broker and `Delete` of the store.
abbrev pub drop_client : Bytes → Server → Server
drop_client id srv = record srv {
  broker = unsubscribe_all srv.broker id;
  sessions = delete_session id srv.sessions;
}

-- `openSession`
unfoldable pub open_session : ConnectPacket → Bytes → ℕ → Server → Opening × Server
open_session p identity now srv =
    let srv' = expire_client p.client_id now srv in
    let srv'' = if p.clean_session then drop_client p.client_id srv' else srv' in
    let (o, st) = get_or_create_owned p.client_id identity now srv''.sessions in
    (o, record srv'' { sessions = st })

-- `SnapshotSubscriptions` and `ID` of the session at an address.
unfoldable pub subscriptions_of : ℕ → Store → Map Bytes ℕ
subscriptions_of ref st = elim (lookup ref st.states) [
  | none ↦ []
  | some s ↦ snapshot_subscriptions s.subscriptions
]

unfoldable pub id_of : ℕ → Store → Bytes
id_of ref st = elim (lookup ref st.states) [ none ↦ [] | some s ↦ s.id ]

abbrev pub route : Bytes → ℕ → ℕ → Route
route id ref qos = record { client_id = id; subscriber = ref; qos = qos }

-- The loop of `acquireConnection` over the subscriptions of a session.
unfoldable pub restore : Map Bytes ℕ → Bytes → ℕ → Broker → Broker
restore [] id ref b = b
restore ((filter, qos) ∷ m) id ref b = restore m id ref (subscribe b filter (route id ref qos))

-- What a round of `acquireConnection` comes to: an error, the connection, or the wait for a
-- previous one.
pub data Acquisition : Type 0 where
  ended foreign : Acquisition
  refused : Opening → Acquisition
  acquired : Connection → Bool → Acquisition
  waits_for : ℕ → Acquisition

-- The session is there, and another identity owns it.
unfoldable pub is_foreign : Bytes → Bytes → Store → Bool
is_foreign id identity st = elim (get id st) [
  | none ↦ false
  | some ref ↦ not (bytes_eq (owner_of ref st) identity)
]

abbrev pub new_connection : ConnectPacket → ℕ → Server → Connection
new_connection p session srv = record {
  ref = srv.next_connection;
  client_id = p.client_id;
  session = session;
  clean_session = p.clean_session;
  closing = false;
  ready = false;
  disconnected_at = 0;
}

-- `acquireConnection` behind `openSession`.
abbrev pub enter : ConnectPacket → Opening × Server → Acquisition × Server
enter p (opened ref present, srv) =
    let st = call (on_state mark_connected) ref srv.sessions in
    let k = new_connection p ref srv in
    (
      acquired k present,
      record srv {
        sessions = st;
        broker = restore (subscriptions_of ref st) (id_of ref st) ref srv.broker;
        clients = insert p.client_id k srv.clients;
        next_connection = srv.next_connection + 1;
      },
    )
enter p (session_owner, srv) = (refused session_owner, srv)
enter p (session_limit, srv) = (refused session_limit, srv)

-- One round of `acquireConnection`; `late` is an error of the context.
unfoldable pub acquire_once : Bool → ConnectPacket → Bytes → ℕ → Server → Acquisition × Server
acquire_once late p identity now srv =
    if late
    then (ended, srv)
    else if is_foreign p.client_id identity srv.sessions
    then (foreign, srv)
    else elim (lookup p.client_id srv.clients) [
      | some previous ↦ (
        waits_for previous.ref,
        record srv { clients = insert p.client_id (begin_closing now previous) srv.clients },
      )
      | none ↦ enter p (open_session p identity now srv)
    ]

-- What `closeSession` does for the owner of the identifier.
abbrev pub leave : Connection → Server → Server
leave k srv =
    let srv' = if k.clean_session then drop_client k.client_id srv else record srv {
      sessions = call (on_state (mark_disconnected_at k.disconnected_at)) k.session srv.sessions;
    } in
    record srv' { clients = delete k.client_id srv'.clients }

-- `closeSession`, on the connection at an address.
unfoldable pub close_session : Bytes → ℕ → Server → Server
close_session id ref srv =
    let srv' : Server = elim (lookup id srv.clients) [
      | none ↦ srv
      | some k ↦ if k.ref == ref then leave k srv else srv
    ] in
    record srv' { finished = ref ∷ srv'.finished }

-- `UnsubscribeAll` of the broker, for each of the clients.
unfoldable pub drop_routes : List Bytes → Broker → Broker
drop_routes [] b = b
drop_routes (id ∷ ids) b = drop_routes ids (unsubscribe_all b id)

-- A tick of `startSessionExpiry`.
unfoldable pub sweep : ℕ → Server → Server
sweep now srv =
    let (ids, st) = expire now srv.sessions in
    record srv { sessions = st; broker = drop_routes ids srv.broker }

-- `recordAuthorizationRejection`
abbrev pub record_authorization_rejection : Server → Server
record_authorization_rejection srv = record srv {
  connections = record srv.connections {
    stats = record srv.connections.stats {
      authorization_rejections = next64 srv.connections.stats.authorization_rejections;
    };
  };
}

-- `canSubscribe`, without its count; `none` is the panic of CanSubscribe.
unfoldable pub may_subscribe : Bytes → Bytes → Server → Option Bool
may_subscribe identity filter srv = elim srv.auth [
  | none ↦ some true
  | some l ↦ can_subscribe l identity filter
]

-- `SetSubscription` on the session at an address.
unfoldable pub set_at : ℕ → Bytes → ℕ → Store → Grant × Store
set_at ref filter qos st = elim (lookup ref st.states) [
  | none ↦ (session_removed, st)
  | some s ↦ let (g, c) = set_subscription filter qos (cell_of st s) in (g, put_cell ref c st)
]

abbrev pub granted_qos : ℕ → ℕ
granted_qos qos = if ltb 1 qos then 1 else qos

-- The code of a filter that SetSubscription answered, and the route of one that it took.
abbrev pub answer : ℕ → Bytes → ℕ → Server → Grant × Store → ℕ × Server
answer ref filter qos srv (accepted, st) = (
  qos,
  record srv { sessions = st; broker = subscribe srv.broker filter (route (id_of ref st) ref qos) },
)
answer ref filter qos srv (g, st) = (0x80, record srv { sessions = st })

-- One round of the first loop of `handleSubscribe`, with the code that it writes.
unfoldable pub subscribe_filter : ℕ → Subscription → Server → Option ℕ × Server
subscribe_filter ref sub srv = elim (may_subscribe (owner_of ref srv.sessions) sub.topic srv) [
  | none ↦ (none, srv)
  | some false ↦ (some 0x80, record_authorization_rejection srv)
  | some true ↦
      let qos = granted_qos sub.qos in
      let (code, srv') = answer ref sub.topic qos srv (set_at ref sub.topic qos srv.sessions) in
      (some code, srv')
]

-- The loop, over the filters of a packet.
unfoldable pub subscribe_filters : ℕ → List Subscription → Server → Option (List ℕ) × Server
subscribe_filters ref [] srv = (some [], srv)
subscribe_filters ref (sub ∷ subs) srv =
    let (code, srv') = subscribe_filter ref sub srv in
    let (codes, srv'') = subscribe_filters ref subs srv' in
    elim code [
      | none ↦ (none, srv')
      | some c ↦ elim codes [ none ↦ (none, srv'') | some cs ↦ (some (c ∷ cs), srv'') ]
    ]

-- One round of the loop of `handleUnsubscribe`.
unfoldable pub unsubscribe_filter : Bytes → ℕ → Bytes → Server → Server
unsubscribe_filter id ref filter srv = record srv {
  broker = unsubscribe srv.broker filter id;
  sessions = call (delete_subscription filter) ref srv.sessions;
}

-- The loop, over the filters of a packet.
unfoldable pub unsubscribe_filters : Bytes → ℕ → List Bytes → Server → Server
unsubscribe_filters id ref [] srv = srv
unsubscribe_filters id ref (f ∷ fs) srv =
    unsubscribe_filters id ref fs (unsubscribe_filter id ref f srv)
