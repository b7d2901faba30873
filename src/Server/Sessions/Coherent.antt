-- ===== src/Server/Sessions/Coherent.antt =====
-- internal/server: the broker's subscriptions against the sessions', and the sessions that the
-- registered connections hold, through each function of the server.
use orb_mq.Base.{
  ℕ, Bytes, bytes_eq, bytes_eq_iff, bytes_Eq, nat_eq, Map, lookup, delete, lookup-delete,
  lookup-delete_inv, Distinct, Bool-cases, Option-cases, true, not, ◌==◌, if◌then◌else◌, ◌&&◌, ◌∷◌,
  none, some, ◌≡◌, inl, inr, refl, arith, subst, sym, ap, ◌∙◌,
}
use orb_mq.Auth.Local.{contains}
use orb_mq.Broker.{Broker}
use orb_mq.Session.State.{State, Cell}
use orb_mq.Session.Subscriptions.{mark_disconnected_at}
use orb_mq.Session.Store.{
  Store, cell_of, put_cell, call, on_state, expire, expire_locked, expire_session,
}
use orb_mq.Session.Store.Methods.{mark_disconnected_at-Keeps}
use orb_mq.Session.Store.Invariant.{IsStore}
use orb_mq.Session.Store.Lifetimes.{delete_session-IsStore, expire-IsStore, expire_session-IsStore}
use orb_mq.Session.Store.Reachable.{call-IsStore}
use orb_mq.Server.Sessions.{
  Connection, Server, expire_client, drop_client, leave, close_session, sweep,
}
use orb_mq.Server.Sessions.Stored.{stored, by_id_injective, stored-put_same, stored-delete_session}
use orb_mq.Server.Sessions.Expiry.{stored-expire_locked, stored-expire, IsStore-IsNamed}
use orb_mq.Server.Sessions.Routes.{routed, routed-unsubscribe_all, routed-drop_routes}
use orb_mq.Server.Sessions.Held.{
  IsHeld, delete_session-IsHeld, expire_locked-IsHeld, expire-IsHeld, put_cell-IsHeld,
  delete_session-Distinct, expire_session-Distinct, expire-Distinct,
}

-- The broker has exactly the subscriptions of the sessions of the store: each under its filter, with
-- its QoS, for the client and the address of its session.
abbrev pub Coherent : Broker → Store → Type 0
Coherent b st = (j filter : Bytes) → routed j filter b ≡ stored j filter st

-- Each registered connection stands under its client's identifier and holds the session there,
-- which is connected.
abbrev pub Owned : Map Bytes Connection → Store → Type 0
Owned clients st =
    (id : Bytes) (k : Connection)
    → lookup id clients ≡ some k
    → (k.client_id ≡ id) × IsHeld id k.session st

pub record IsServer (srv : Server) : Type 0 where
  pub store : IsStore srv.sessions
  pub distinct : Distinct srv.sessions.by_id
  pub routes : Coherent srv.broker srv.sessions
  pub owned : Owned srv.clients srv.sessions

-- A change of the store that keeps what it holds and what connections hold.
pub resession-IsServer :
    (srv : Server) (st : Store)
    → IsStore st
    → Distinct st.by_id
    → ((j filter : Bytes) → stored j filter st ≡ stored j filter srv.sessions)
    → Owned srv.clients st
    → IsServer srv
    → IsServer (record srv { sessions = st })
resession-IsServer srv st s d e o v = record {
  store = s;
  distinct = d;
  routes = λ j filter. v.routes j filter ∙ sym (e j filter);
  owned = o;
}

-- A client that has no connection loses its routes and its session.
pub drop_client-IsServer :
    (id : Bytes) (srv : Server)
    → lookup id srv.clients ≡ none
    → IsServer srv
    → IsServer (drop_client id srv)
drop_client-IsServer id srv absent v = record {
  store = delete_session-IsStore id srv.sessions v.store;
  distinct = delete_session-Distinct id srv.sessions v.distinct;
  routes = λ j filter.
      routed-unsubscribe_all srv.broker filter id j
      ∙ (ap (λ o. if bytes_eq id j then none else o) (v.routes j filter)
          ∙ sym (stored-delete_session id j filter srv.sessions v.store));
  owned = λ j k e.
      let (p, h) = v.owned j k e in
      (
        p,
        delete_session-IsHeld id j k.session srv.sessions v.store
            (λ same. taken k (sym absent ∙ subst (λ x. lookup x srv.clients ≡ some k) (sym same) e))
            h,
      );
}
  where
    taken : (k : Connection) → none ≡ some k → ⊥
    taken k p = cc

pub expire_client-IsServer :
    (id : Bytes) (now : ℕ) (srv : Server) → IsServer srv → IsServer (expire_client id now srv)
unfolding expire_client expire_session
expire_client-IsServer id now srv v = elim (Option-cases (lookup id srv.sessions.by_id)) [
  | inl e ↦ rw (expire_client, expire_session, e) v
  | inr (ref, e) ↦
      let st = srv.sessions in
      let here = λ (j filter : Bytes).
        stored-expire_locked id ref now j filter st v.store (IsStore-IsNamed id ref st v.store e) in
      rw (expire_client, expire_session, e)
        (record {
          store = rw (expire_session, e) at (expire_session-IsStore id now st v.store);
          distinct = rw (expire_session, e) at (expire_session-Distinct id now st v.distinct);
          routes = λ j filter. elim (Bool-cases (expire_locked ref now st).0) [
            | inl q ↦ rw q (
                routed-unsubscribe_all srv.broker filter id j
                ∙ (ap (λ o. if bytes_eq id j then none else o) (v.routes j filter)
                    ∙ sym (rw q at (here j filter))))
            | inr q ↦ rw q (v.routes j filter ∙ sym (rw q at (here j filter)))
          ];
          owned = λ j k f.
              let (p, h) = v.owned j k f in
              (p, expire_locked-IsHeld id ref now j k.session st v.store e h);
        })
]

pub sweep-IsServer : (now : ℕ) (srv : Server) → IsServer srv → IsServer (sweep now srv)
unfolding sweep
sweep-IsServer now srv v =
    let st = srv.sessions in
    record {
      store = expire-IsStore now st v.store;
      distinct = expire-Distinct now st v.distinct;
      routes = λ j filter.
          routed-drop_routes (expire now st).0 srv.broker filter j
          ∙ (ap (λ o. if contains j (expire now st).0 then none else o) (v.routes j filter)
              ∙ sym (stored-expire now j filter st v.store v.distinct));
      owned = λ j k f.
          let (p, h) = v.owned j k f in (p, expire-IsHeld now j k.session st v.store v.distinct h);
    }

-- A method of the session at `ref` that leaves the subscriptions alone, and the connection of a
-- session that is held.
pub call-IsServer :
    (f : Cell → Cell) (ref : ℕ) (srv : Server)
    → IsStore (call f ref srv.sessions)
    → ((s : State)
        → lookup ref srv.sessions.states ≡ some s
        → ((f (cell_of srv.sessions s)).state.subscriptions ≡ s.subscriptions)
          × ((id : Bytes) (k : Connection)
              → lookup id srv.clients ≡ some k
              → k.session ≡ ref
              → (f (cell_of srv.sessions s)).state.connected ≡ true))
    → IsServer srv
    → IsServer (record srv { sessions = call f ref srv.sessions })
unfolding call
call-IsServer f ref srv store quiet v = elim (Option-cases (lookup ref srv.sessions.states)) [
  | inl e ↦
      rw (call, e)
        (resession-IsServer srv srv.sessions v.store v.distinct (λ j filter. refl) v.owned v)
  | inr (s, e) ↦
      let c = f (cell_of srv.sessions s) in
      let (same, stays) = quiet s e in
      rw (call, e)
        (resession-IsServer srv (put_cell ref c srv.sessions) (rw (call, e) at store) v.distinct
          (λ j filter. stored-put_same j filter ref s c srv.sessions e same)
          (λ id k look.
            let (p, h) = v.owned id k look in
            (p, put_cell-IsHeld ref c id k.session srv.sessions (λ at. stays id k look (sym at)) h))
          v)
]

-- A connection leaves the registry, whose other entries are as they were.
pub forget-IsServer :
    (id : Bytes) (srv : Server)
    → IsServer srv
    → IsServer (record srv { clients = delete id srv.clients })
forget-IsServer id srv v = record {
  store = v.store;
  distinct = v.distinct;
  routes = v.routes;
  owned = λ j k e. v.owned j k (lookup-delete_inv id j k srv.clients e).1;
}

mark_disconnected-subscriptions :
    (at : ℕ) (s : State) → (mark_disconnected_at at s).subscriptions ≡ s.subscriptions
unfolding mark_disconnected_at
mark_disconnected-subscriptions at s = elim (Bool-cases (not s.deleted && s.connected)) [
  | inl q ↦ rw (mark_disconnected_at, q) refl
  | inr q ↦ rw (mark_disconnected_at, q) refl
]

leave-IsServer :
    (k : Connection) (srv : Server)
    → lookup k.client_id srv.clients ≡ some k
    → IsServer srv
    → IsServer (leave k srv)
leave-IsServer k srv e v =
    let less = record srv { clients = delete k.client_id srv.clients } in
    let w = forget-IsServer k.client_id srv v in
    elim (Bool-cases k.clean_session) [
      | inl q ↦ rw q (
          drop_client-IsServer k.client_id less
            (ground (
              arith,
              lookup-delete k.client_id k.client_id srv.clients,
              bytes_eq_iff k.client_id k.client_id,
            ))
            w)
      | inr q ↦
          let f = on_state (mark_disconnected_at k.disconnected_at) in
          rw q (
            call-IsServer f k.session less
              (call-IsStore f k.session srv.sessions
                (λ c a b. mark_disconnected_at-Keeps k.disconnected_at c) v.store)
              (λ s g. (
                mark_disconnected-subscriptions k.disconnected_at s,
                λ id k' look at.
                    let (other, there) = lookup-delete_inv k.client_id id k' srv.clients look in
                    absurd (
                      other (
                        by_id_injective srv.sessions k.client_id id k.session v.store
                          (v.owned k.client_id k e).1.found
                          (subst (λ r. lookup id srv.sessions.by_id ≡ some r) at
                            (v.owned id k' there).1.found))),
              ))
              w)
    ]

pub close_session-IsServer :
    (id : Bytes) (ref : ℕ) (srv : Server) → IsServer srv → IsServer (close_session id ref srv)
unfolding close_session
close_session-IsServer id ref srv v = elim (Option-cases (lookup id srv.clients)) [
  | inl e ↦ rw (close_session, e) (finished-IsServer srv v)
  | inr (k, e) ↦ elim (Bool-cases (k.ref == ref)) [
    | inr q ↦ rw (close_session, e, q) (finished-IsServer srv v)
    | inl q ↦
        rw (close_session, e, q)
          (finished-IsServer (leave k srv) (
            leave-IsServer k srv
              (subst (λ i. lookup i srv.clients ≡ some k) (sym (v.owned id k e).0) e) v))
  ]
]
  where
    finished-IsServer :
        (x : Server) → IsServer x → IsServer (record x { finished = ref ∷ x.finished })
    finished-IsServer x w = record {
      store = w.store;
      distinct = w.distinct;
      routes = w.routes;
      owned = w.owned;
    }
