-- ===== src/Server/Sessions/Ownership.antt =====
-- internal/server: whose session a connection gets.
use orb_mq.Base.{
  ℕ, Bytes, bytes_eq, bytes_eq_iff, bytes_Eq, nat_eq, lookup, lookup-insert_self, Bool, Bool-cases,
  Option-cases, true, not, leb, none, some, length, ◌≡◌, inl, inr, refl, arith, subst, sym, ap, ◌∙◌,
}
use orb_mq.Protocol.Packet.{ConnectPacket}
use orb_mq.Session.State.{State}
use orb_mq.Session.Subscriptions.{mark_connected}
use orb_mq.Session.Store.{
  Store, Opening, opened, session_owner, session_limit, cell_of, put_cell, on_state, new_state,
  create, owner_of, get_or_create_owned,
}
use orb_mq.Session.Store.Reachable.{call_at}
use orb_mq.Server.Sessions.{
  Connection, Server, Acquisition, acquired, expire_client, drop_client, open_session,
  new_connection, enter, is_foreign, acquire_once,
}
use orb_mq.Server.Sessions.Stored.{stored, stored-put_same, stored-delete_session}
use orb_mq.Server.Sessions.Expiry.{stored-get_or_create_owned}
use orb_mq.Server.Sessions.Routes.{routed}
use orb_mq.Server.Sessions.Held.{IsHeld}
use orb_mq.Server.Sessions.Coherent.{IsServer, drop_client-IsServer, expire_client-IsServer}
use orb_mq.Server.Sessions.Acquire.{
  opened_inj, mark_connected-subscriptions, open_session-IsServer, open_session-opened,
  acquire_once-IsServer,
}

owner_of_at :
    (ref : ℕ) (s : State) (st : Store) → lookup ref st.states ≡ some s → owner_of ref st ≡ s.owner
unfolding owner_of
owner_of_at ref s st e = rw (owner_of, e) refl

-- GetOrCreateOwned opens a session of the owner it was asked for.
get_or_create_owned-owner :
    (id owner : Bytes) (now : ℕ) (st : Store) (ref : ℕ) (present : Bool)
    → (get_or_create_owned id owner now st).0 ≡ opened ref present
    → owner_of ref (get_or_create_owned id owner now st).1 ≡ owner
unfolding get_or_create_owned
get_or_create_owned-owner id owner now st ref present h = elim (Option-cases (lookup id st.by_id)) [
  | inr (r, e) ↦ elim (Bool-cases (not (bytes_eq (owner_of r st) owner))) [
    | inl q ↦ cc (rw (get_or_create_owned, e, q) at h)
    | inr q ↦
        rw (get_or_create_owned, e, q)
          (ap (λ x. owner_of x st) (sym (opened_inj (rw (get_or_create_owned, e, q) at h)))
            ∙ (bytes_eq_iff (owner_of r st) owner).0 (ground arith))
  ]
  | inl e ↦ elim (Bool-cases (leb st.limits.max_sessions (length st.by_id))) [
    | inl q ↦ cc (rw (get_or_create_owned, e, q) at h)
    | inr q ↦
        rw (get_or_create_owned, e, q)
          (ap (λ x. owner_of x (create id owner now st))
              (sym (opened_inj (rw (get_or_create_owned, e, q) at h)))
            ∙ owner_of_at st.next_state (new_state id owner now) (create id owner now st)
                (lookup-insert_self st.next_state (new_state id owner now) st.states))
  ]
]

-- An opening that `acquireConnection` made a connection of.
record Entered (p : ConnectPacket) (identity : Bytes) (now : ℕ) (srv : Server)
    (r : Acquisition × Server) : Type 0 where
  absent : lookup p.client_id srv.clients ≡ none
  ref : ℕ
  present : Bool
  opening : (open_session p identity now srv).0 ≡ opened ref present
  entered : r ≡ enter p (opened ref present, (open_session p identity now srv).1)

enter-opened :
    (p : ConnectPacket) (r : Opening × Server) (k : Connection) (present : Bool)
    → (enter p r).0 ≡ acquired k present
    → (ref : ℕ) × (q : Bool) × (r.0 ≡ opened ref q)
enter-opened p (opened ref q, srv) k present h = (ref, q, refl)
enter-opened p (session_owner, srv) k present h = cc h
enter-opened p (session_limit, srv) k present h = cc h

-- A round that acquires goes on behind `openSession`.
acquire_once-enter :
    (late : Bool) (p : ConnectPacket) (identity : Bytes) (now : ℕ) (srv : Server) (k : Connection)
    (present : Bool)
    → (acquire_once late p identity now srv).0 ≡ acquired k present
    → (lookup p.client_id srv.clients ≡ none)
      × (acquire_once late p identity now srv ≡ enter p (open_session p identity now srv))
unfolding acquire_once
acquire_once-enter late p identity now srv k present h = elim (Bool-cases late) [
  | inl a ↦ cc (rw (acquire_once, a) at h)
  | inr a ↦ elim (Bool-cases (is_foreign p.client_id identity srv.sessions)) [
    | inl b ↦ cc (rw (acquire_once, a, b) at h)
    | inr b ↦ elim (Option-cases (lookup p.client_id srv.clients)) [
      | inr (c, e) ↦ cc (rw (acquire_once, a, b, e) at h)
      | inl e ↦ (e, rw (acquire_once, a, b, e) refl)
    ]
  ]
]

acquire_once-Entered :
    (late : Bool) (p : ConnectPacket) (identity : Bytes) (now : ℕ) (srv : Server) (k : Connection)
    (present : Bool)
    → (acquire_once late p identity now srv).0 ≡ acquired k present
    → Entered p identity now srv (acquire_once late p identity now srv)
acquire_once-Entered late p identity now srv k present h =
    let (absent, same) = acquire_once-enter late p identity now srv k present h in
    let x = open_session p identity now srv in
    let (ref, q, o) = enter-opened p x k present (sym (ap (λ r. r.0) same) ∙ h) in
    record {
      absent = absent;
      ref = ref;
      present = q;
      opening = o;
      entered = same ∙ ap (λ y. enter p (y, x.1)) o;
    }

mark_connected-owner : (s : State) → (mark_connected s).owner ≡ s.owner
unfolding mark_connected
mark_connected-owner s = elim (Bool-cases s.deleted) [
  | inl q ↦ rw (mark_connected, q) refl
  | inr q ↦ rw (mark_connected, q) refl
]

acquired_inj : {a b : Connection} {x y : Bool} → acquired a x ≡ acquired b y → a ≡ b
acquired_inj {a} e = ap (λ o. elim o [ acquired k q ↦ k | _ ↦ a ]) e

-- What a connection gets: it is registered, it holds the session of its client, that session
-- belongs to its identity, and a clean one starts without subscriptions.
pub record IsAcquired (p : ConnectPacket) (identity : Bytes) (k : Connection) (srv : Server)
    : Type 0 where
  pub registered : lookup p.client_id srv.clients ≡ some k
  pub session : IsHeld p.client_id k.session srv.sessions
  pub owner : owner_of k.session srv.sessions ≡ identity
  pub clean :
      p.clean_session ≡ true → (filter : Bytes) → routed p.client_id filter srv.broker ≡ none

open_session-owner :
    (p : ConnectPacket) (identity : Bytes) (now : ℕ) (srv : Server) (ref : ℕ) (present : Bool)
    → (open_session p identity now srv).0 ≡ opened ref present
    → owner_of ref (open_session p identity now srv).1.sessions ≡ identity
unfolding open_session
open_session-owner p identity now srv ref present h =
    get_or_create_owned-owner p.client_id identity now _ ref present h

open_session-clean :
    (p : ConnectPacket) (identity : Bytes) (now : ℕ) (srv : Server)
    → lookup p.client_id srv.clients ≡ none
    → IsServer srv
    → p.clean_session ≡ true
    → (filter : Bytes)
    → stored p.client_id filter (open_session p identity now srv).1.sessions ≡ none
unfolding open_session expire_client
open_session-clean p identity now srv absent v q filter =
    let x = expire_client p.client_id now srv in
    let w = expire_client-IsServer p.client_id now srv v in
    let d = drop_client-IsServer p.client_id x absent w in
    rw q (
      stored-get_or_create_owned p.client_id identity now p.client_id filter
        (drop_client p.client_id x).sessions d.store
      ∙ (stored-delete_session p.client_id p.client_id filter x.sessions w.store
          ∙ ground (arith, bytes_eq_iff p.client_id p.client_id)))

entered-IsAcquired :
    (p : ConnectPacket) (identity : Bytes) (now : ℕ) (srv : Server) (ref : ℕ) (present : Bool)
    → lookup p.client_id srv.clients ≡ none
    → (open_session p identity now srv).0 ≡ opened ref present
    → IsServer srv
    → IsServer (enter p (opened ref present, (open_session p identity now srv).1)).1
    → IsAcquired p identity
        (new_connection p ref (open_session p identity now srv).1)
        (enter p (opened ref present, (open_session p identity now srv).1)).1
entered-IsAcquired p identity now srv ref present absent o v w =
    let x = (open_session p identity now srv).1 in
    let k = new_connection p ref x in
    let found = open_session-opened p identity now srv absent v ref present o in
    let (s, here, own, d) =
      (open_session-IsServer p identity now srv absent v).store.named p.client_id ref found in
    let c = on_state mark_connected (cell_of x.sessions s) in
    let at = call_at (on_state mark_connected) ref s x.sessions here in
    let registered = lookup-insert_self p.client_id k x.clients in
    record {
      registered = registered;
      session = (w.owned p.client_id k registered).1;
      owner =
          ap (owner_of ref) at
          ∙ (owner_of_at ref c.state (put_cell ref c x.sessions)
                (lookup-insert_self ref c.state x.sessions.states)
              ∙ (mark_connected-owner s
                  ∙ (sym (owner_of_at ref s x.sessions here)
                      ∙ open_session-owner p identity now srv ref present o)));
      clean = λ q filter.
          w.routes p.client_id filter
          ∙ (ap (stored p.client_id filter) at
              ∙ (stored-put_same p.client_id filter ref s c x.sessions here
                    (mark_connected-subscriptions s)
                  ∙ open_session-clean p identity now srv absent v q filter));
    }

-- In a server with its invariant, a connection that acquires a session is registered under its
-- client and holds the client's session, which is connected and belongs to the connection's
-- identity. If it asked for a clean session, the broker has no subscription of the client.
pub acquire_once-IsAcquired :
    (late : Bool) (p : ConnectPacket) (identity : Bytes) (now : ℕ) (srv : Server) (k : Connection)
    (present : Bool)
    → IsServer srv
    → (acquire_once late p identity now srv).0 ≡ acquired k present
    → IsAcquired p identity k (acquire_once late p identity now srv).1
acquire_once-IsAcquired late p identity now srv k present v h =
    let e = acquire_once-Entered late p identity now srv k present h in
    let x = (open_session p identity now srv).1 in
    let w = acquire_once-IsServer late p identity now srv v in
    let same : new_connection p e.ref x ≡ k = acquired_inj (sym (ap (λ r. r.0) e.entered) ∙ h) in
    subst (λ c. IsAcquired p identity c (acquire_once late p identity now srv).1) same
      (subst (λ r. IsAcquired p identity (new_connection p e.ref x) r.1) (sym e.entered)
        (entered-IsAcquired p identity now srv e.ref e.present e.absent e.opening v
          (subst (λ r. IsServer r.1) e.entered w)))
