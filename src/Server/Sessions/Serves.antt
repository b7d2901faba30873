-- ===== src/Server/Sessions/Serves.antt =====
-- internal/server: the states that the steps of connections and of the expiry lead to.
use orb_mq.Base.{
  ℕ, ◌+◌, ◌<◌, ◌^◌, Distinct, Bytes, bytes_Eq, nat_eq, lookup, lookup_nil, insert, Bool, Bool-cases,
  true, [], Option, none, some, some_inj, Option-cases, ◌≡◌, inl, inr, refl, subst, sym, ap, ◌∙◌,
}
use orb_mq.Protocol.Packet.{ConnectPacket, PublishPacket, Subscription}
use orb_mq.Topic.Tree.{empty_node, Subscription as Route}
use orb_mq.Topic.Parse.{split_filter}
use orb_mq.Topic.Tree.Lookup.{subs_at-empty_node}
use orb_mq.Topic.Tree.Subscribed.{subscribed}
use orb_mq.Broker.{Broker, RetainedLimits, valid_limits, new_with_limits, update_retained, publish}
use orb_mq.Broker.Reachable.{published, topics-update_retained}
use orb_mq.Auth.Local.{Local}
use orb_mq.Session.Limits.{Limits, validate}
use orb_mq.Session.State.{State, Cell}
use orb_mq.Session.Queue.{begin_delivery}
use orb_mq.Session.Store.{Store, cell_of, call, on_state, new_store}
use orb_mq.Session.Store.Deliveries.{begin_delivery-Keeps}
use orb_mq.Session.Store.Invariant.{IsStore, put_cell-IsStore}
use orb_mq.Session.Store.Lifetimes.{new_store-IsStore}
use orb_mq.Session.Store.Reachable.{Method-Keeps, call_at, call-IsStore}
use orb_mq.Server.Connections.{no_connections}
use orb_mq.Server.Sessions.{
  Connection, Server, begin_closing, acquire_once, close_session, sweep, subscribe_filter,
  unsubscribe_filter,
}
use orb_mq.Server.Sessions.Stored.{stored, routes_of, find_absent}
use orb_mq.Server.Sessions.Routes.{routed}
use orb_mq.Server.Sessions.Quiet.{
  Quiet, Delivering, Delivering-Method, Delivering-Quiet, begin_delivery-Quiet,
}
use orb_mq.Server.Sessions.Coherent.{
  IsServer, sweep-IsServer, call-IsServer, close_session-IsServer,
}
use orb_mq.Server.Sessions.Acquire.{replaced-IsServer, closing-IsServer, acquire_once-IsServer}
use orb_mq.Server.Sessions.Filters.{subscribe_filter-IsServer, unsubscribe_filter-IsServer}

-- The state of `New`.
abbrev pub new_server : Option Local → Broker → Store → Server
new_server auth b st = record {
  auth = auth;
  broker = b;
  sessions = st;
  connections = no_connections;
  clients = [];
  next_connection = 0;
  finished = [];
}

-- Any sequence of steps: a connection asks for its session, becomes ready, begins its delivery, has
-- a filter granted or withdrawn, publishes, begins to close and leaves; a session takes part in the
-- delivery; the expiry ticks. Only registered connections ask for filters.
pub data Serves : Server → Type 0 where
  starts :
      (auth : Option Local) (l : Limits) (r : RetainedLimits) (b : Broker) (st : Store)
      → new_with_limits r ≡ some b
      → new_store l ≡ some st
      → Serves (new_server auth b st)
  connects :
      {srv : Server} (late : Bool) (p : ConnectPacket) (identity : Bytes) (now : ℕ)
      → Serves srv
      → Serves (acquire_once late p identity now srv).1
  readies :
      {srv : Server} (id : Bytes) (k : Connection)
      → lookup id srv.clients ≡ some k
      → Serves srv
      → Serves (record srv { clients = insert id (record k { ready = true }) srv.clients })
  closes :
      {srv : Server} (id : Bytes) (now : ℕ) (k : Connection)
      → lookup id srv.clients ≡ some k
      → Serves srv
      → Serves (record srv { clients = insert id (begin_closing now k) srv.clients })
  leaves : {srv : Server} (id : Bytes) (ref : ℕ) → Serves srv → Serves (close_session id ref srv)
  ticks : {srv : Server} (now : ℕ) → Serves srv → Serves (sweep now srv)
  asks :
      {srv : Server} (id : Bytes) (k : Connection) (sub : Subscription)
      → lookup id srv.clients ≡ some k
      → Serves srv
      → Serves (subscribe_filter k.session sub srv).1
  withdraws :
      {srv : Server} (id : Bytes) (k : Connection) (filter : Bytes)
      → lookup id srv.clients ≡ some k
      → Serves srv
      → Serves (unsubscribe_filter id k.session filter srv)
  publishes :
      {srv : Server} (p : PublishPacket)
      → Serves srv
      → Serves (record srv { broker = (publish srv.broker p).1 })
  delivers :
      {srv : Server} (f : Cell → Cell) (ref : ℕ)
      → Delivering f
      → Serves srv
      → Serves (record srv { sessions = call f ref srv.sessions })
  begins :
      {srv : Server} (ref : ℕ) (s : State)
      → lookup ref srv.sessions.states ≡ some s
      → s.epoch + 1 < 2 ^ 64
      → Serves srv
      → Serves
          (record srv { sessions = call (on_state (λ t. (begin_delivery t).1)) ref srv.sessions })

topics-publish : (b : Broker) (p : PublishPacket) → (publish b p).1.topics ≡ b.topics
unfolding update_retained orb_mq.Broker.exceeds
topics-publish b p = elim (Bool-cases p.retain) [
  | inl q ↦ ap (λ x. x.topics) (published b p) ∙ rw q (topics-update_retained b p)
  | inr q ↦ ap (λ x. x.topics) (published b p) ∙ rw q refl
]

topics-new_with_limits :
    (r : RetainedLimits) (b : Broker) → new_with_limits r ≡ some b → empty_node ≡ b.topics
unfolding new_with_limits
topics-new_with_limits r b e = elim (Bool-cases (valid_limits r)) [
  | inl q ↦ ap (λ x. x.topics) (some_inj (rw (new_with_limits, q) at e))
  | inr q ↦ cc (rw (new_with_limits, q) at e)
]

by_id-new_store : (l : Limits) (st : Store) → new_store l ≡ some st → [] ≡ st.by_id
unfolding new_store
by_id-new_store l st e = elim (Option-cases (validate l)) [
  | inl q ↦ ap (λ x. x.by_id) (some_inj (rw (new_store, q) at e))
  | inr (x, q) ↦ cc (rw (new_store, q) at e)
]

new_server-IsServer :
    (auth : Option Local) (l : Limits) (r : RetainedLimits) (b : Broker) (st : Store)
    → new_with_limits r ≡ some b
    → new_store l ≡ some st
    → IsServer (new_server auth b st)
unfolding stored subscribed
new_server-IsServer auth l r b st e f =
    let empty = by_id-new_store l st f in
    record {
      store = new_store-IsStore l st f;
      distinct = subst Distinct empty tt;
      routes = λ j g.
          subst (λ n. routed j g (record b { topics = n }) ≡ none) (topics-new_with_limits r b e)
            (ap (lookup j) (subs_at-empty_node (split_filter g)) ∙ lookup_nil {V = Route} j)
          ∙ sym (
              ap (routes_of j g)
                (find_absent j st (subst (λ m. lookup j m ≡ none) empty (lookup_nil {V = ℕ} j))));
      owned = λ id k q. cc (lookup_nil {V = Connection} id, q);
    }

-- A quiet method keeps the session of every connection connected.
Quiet-IsServer :
    (f : Cell → Cell) (ref : ℕ) (srv : Server)
    → IsStore (call f ref srv.sessions)
    → ((s : State)
        → lookup ref srv.sessions.states ≡ some s
        → Quiet (cell_of srv.sessions s) (f (cell_of srv.sessions s)))
    → IsServer srv
    → IsServer (record srv { sessions = call f ref srv.sessions })
Quiet-IsServer f ref srv store quiet v =
    call-IsServer f ref srv store
      (λ s e. (
        (quiet s e).subscriptions,
        λ id k look q.
            let h = (v.owned id k look).1 in
            (quiet s e).connected
            ∙ subst (λ x. x.connected ≡ true)
                (some_inj
                  (sym (subst (λ i. lookup i srv.sessions.states ≡ some h.state) q h.here) ∙ e))
                h.connected,
      ))
      v

-- In every state that steps lead to from a new server: the store has its invariant; the broker has
-- exactly the subscriptions of the sessions in the store, each with its QoS and its session; and each
-- registered connection holds the session of its client, which is connected.
pub Serves-IsServer : (srv : Server) → Serves srv → IsServer srv
Serves-IsServer _ (starts auth l r b st e f) = new_server-IsServer auth l r b st e f
Serves-IsServer _ (connects {srv} late p identity now s) =
    acquire_once-IsServer late p identity now srv (Serves-IsServer srv s)
Serves-IsServer _ (readies {srv} id k e s) =
    replaced-IsServer id k (record k { ready = true }) srv (refl, refl) e (Serves-IsServer srv s)
Serves-IsServer _ (closes {srv} id now k e s) =
    closing-IsServer id now k srv e (Serves-IsServer srv s)
Serves-IsServer _ (leaves {srv} id ref s) =
    close_session-IsServer id ref srv (Serves-IsServer srv s)
Serves-IsServer _ (ticks {srv} now s) = sweep-IsServer now srv (Serves-IsServer srv s)
Serves-IsServer _ (asks {srv} id k sub e s) =
    subscribe_filter-IsServer srv id k sub e (Serves-IsServer srv s)
Serves-IsServer _ (withdraws {srv} id k filter e s) =
    unsubscribe_filter-IsServer srv id k filter e (Serves-IsServer srv s)
Serves-IsServer _ (publishes {srv} p s) =
    let v = Serves-IsServer srv s in
    record {
      store = v.store;
      distinct = v.distinct;
      routes = λ j g. ap (subscribed g j) (topics-publish srv.broker p) ∙ v.routes j g;
      owned = v.owned;
    }
Serves-IsServer _ (delivers {srv} f ref d s) =
    let v = Serves-IsServer srv s in
    Quiet-IsServer f ref srv
      (call-IsStore f ref srv.sessions (Method-Keeps (Delivering-Method d)) v.store)
      (λ t e. Delivering-Quiet d (cell_of srv.sessions t)) v
Serves-IsServer _ (begins {srv} ref t e lt s) =
    let v = Serves-IsServer srv s in
    let f = on_state (λ x. (begin_delivery x).1) in
    Quiet-IsServer f ref srv
      (rw (call_at f ref t srv.sessions e) (
        put_cell-IsStore srv.sessions ref t (f (cell_of srv.sessions t)) v.store e
          (begin_delivery-Keeps (cell_of srv.sessions t) lt)))
      (λ x q. begin_delivery-Quiet (cell_of srv.sessions x)) v
