-- ===== src/Server/Delivery/Loop.antt =====
-- internal/server/server.go with internal/broker: the loop over the subscriptions that match, and the
-- session of one of them.
use orb_mq.Base.{
  ℕ, Bytes, bytes_eq, bytes_eq_iff, bytes_Eq, nat_eq, Map, lookup, Bool-cases, true, false, [], ◌∷◌,
  none, some, some_inj, inl, inr, arith, refl, sym, ap, ◌∙◌, subst, Distinct, All, ◌≡◌, ◌≢◌, ◌≤◌,
}
use orb_mq.Protocol.Packet.{PublishPacket}
use orb_mq.Protocol.Reader.{Result, ok}
use orb_mq.Topic.Tree.{Subscription as Route, Subs, values}
use orb_mq.Session.Limits.{Limits}
use orb_mq.Session.State.{State}
use orb_mq.Session.Queue.{is_queued_publish, admit}
use orb_mq.Session.Store.{Store, cell_of, call, get}
use orb_mq.Server.Templates.{Template, Cache, new_outbound_publish, new_publish_template}
use orb_mq.Server.Sessions.{Server}
use orb_mq.Server.Delivery.{deliver_publish, deliver_all}
use orb_mq.Server.Delivery.Fills.{Fills, admits-Fills}
use orb_mq.Server.Delivery.Spares.{
  call_here, deliver_publish-Spares, deliver_publish_by_id, deliver_publish-Fills,
  deliver_all-Fills,
}
use orb_mq.Server.Delivery.Offers.{
  Offers, Offers-more, IsCached, Admits, admit-Offers, deliver_publish-offers,
  deliver_publish-IsCached,
}

-- Each subscription of the list leads to the session that the store has for its client.
abbrev pub Led : Map Bytes ℕ → Subs → Type 0
Led ids m = All (λ e. (e.1.client_id ≡ e.0) × (lookup e.0 ids ≡ some e.1.subscriber)) m

-- What holds of each value that a lookup finds holds of all entries.
pub All-lookup :
    (P : Bytes × Route → Type 0) (m : Subs)
    → Distinct m
    → ((k : Bytes) (s : Route) → lookup k m ≡ some s → P (k, s))
    → All P m
unfolding lookup
All-lookup P [] d h = tt
All-lookup P ((k, s) ∷ m) d h = (
  h k s (ground (arith, bytes_eq_iff k k)),
  All-lookup P m d.1 (λ j r e. h j r (ground (arith, e, d.0, bytes_eq_iff k j))),
)

pub hold_both :
    (P Q : Bytes × Route → Type 0) (m : Subs) → All P m → All Q m → All (λ e. P e × Q e) m
hold_both P Q [] a b = tt
hold_both P Q (e ∷ m) a b = ((a.0, b.0), hold_both P Q m a.1 b.1)

-- The session at `ref`, to which the message was offered under these limits, in the store that this
-- led to.
abbrev pub Offered : Template → ℕ → Limits → State → Store → Type 0
Offered t ref l before st =
    (after : State) × (lookup ref st.states ≡ some after) × Offers t l st.totals before after

later-Offered :
    (t : Template) (ref : ℕ) (l : Limits) (before : State) (st st' : Store)
    → Fills st st'
    → lookup ref st'.states ≡ lookup ref st.states
    → Offered t ref l before st
    → Offered t ref l before st'
later-Offered t ref l before st st' f same (after, here, offers) = (
  after,
  same ∙ here,
  Offers-more t l st.totals st'.totals before after f.messages f.bytes offers,
)

module _ (encode : PublishPacket → Result Bytes) (p : PublishPacket) (now : ℕ) (id : Bytes)
    (ref : ℕ) (ids : Map Bytes ℕ) (here : lookup id ids ≡ some ref)
    (one_id : (j : Bytes) → lookup j ids ≡ some ref → j ≡ id) where
  apart : (k : Bytes) (r : ℕ) → bytes_eq k id ≡ false → lookup k ids ≡ some r → r ≢ ref
  apart k r q e = λ h. ground (arith, q, bytes_eq_iff k id, one_id k (e ∙ ap some h))

  pub deliver_all-Spares :
      (m : Subs) (cache : Cache) (srv : Server)
      → Led ids m
      → lookup id m ≡ none
      → lookup ref (deliver_all encode p (values m) now cache srv).1.sessions.states
        ≡ lookup ref srv.sessions.states
  unfolding deliver_all values lookup
  deliver_all-Spares [] cache srv l e = refl
  deliver_all-Spares ((k, s) ∷ m) cache srv l e = elim (Bool-cases (bytes_eq k id)) [
    | inl q ↦ cc (rw q at e)
    | inr q ↦
        deliver_all-Spares m _ _ l.1 (rw q at e)
        ∙ (deliver_publish-Spares encode p now s ref cache srv (apart k s.subscriber q l.0.1)).0
  ]

  module _ (t : Template) (one : p.qos ≡ 1)
      (encoded : new_publish_template encode (new_outbound_publish p 1) ≡ ok t)
      (queued : is_queued_publish t.raw t.packet_id_offset ≡ true) (state : State)
      (alive : state.deleted ≡ false) (limits : Limits) where
    -- The subscription of the session.
    deliver_publish-Offered :
        (s : Route) (cache : Cache) (srv : Server)
        → s.client_id ≡ id
        → lookup id ids ≡ some s.subscriber
        → 1 ≤ s.qos
        → IsCached encode p t now one encoded cache
        → srv.sessions.by_id ≡ ids
        → lookup ref srv.sessions.states ≡ some state
        → srv.sessions.limits ≡ limits
        → Offered t ref limits state (deliver_publish encode p s now cache srv).2.sessions
    unfolding get
    deliver_publish-Offered s cache srv named led le c i f g =
        let leads : s.subscriber ≡ ref = some_inj (sym led ∙ here) in
        let found : get s.client_id srv.sessions ≡ some s.subscriber =
          ap (λ j. lookup j srv.sessions.by_id) named ∙ (ap (λ m. lookup id m) i ∙ led) in
        let calls =
          deliver_publish-offers encode p t now one encoded s cache srv c found le
          ∙ ap (λ r. call (Admits encode p t now one encoded) r srv.sessions) leads in
        let fills = admits-Fills t.raw t.packet_id_offset now ref srv.sessions in
        subst (λ st. Offered t ref limits state st) (sym calls)
          (
            (admit t.raw t.packet_id_offset now (cell_of srv.sessions state)).1.state,
            call_here (Admits encode p t now one encoded) ref state srv.sessions f,
            Offers-more t limits srv.sessions.totals
                (call (Admits encode p t now one encoded) ref srv.sessions).totals state _
                fills.messages fills.bytes
                (subst
                  (λ l.
                    Offers t l srv.sessions.totals state
                      (admit t.raw t.packet_id_offset now (cell_of srv.sessions state)).1.state)
                  g (admit-Offers t now (cell_of srv.sessions state) queued alive)),
          )

    pub deliver_all-Offered :
        (m : Subs) (sub : Route) (cache : Cache) (srv : Server)
        → Led ids m
        → Distinct m
        → lookup id m ≡ some sub
        → 1 ≤ sub.qos
        → IsCached encode p t now one encoded cache
        → srv.sessions.by_id ≡ ids
        → lookup ref srv.sessions.states ≡ some state
        → srv.sessions.limits ≡ limits
        → Offered t ref limits state (deliver_all encode p (values m) now cache srv).1.sessions
    unfolding deliver_all values lookup
    deliver_all-Offered [] sub cache srv l d e le c i f g = cc
    deliver_all-Offered ((k, s) ∷ m) sub cache srv l d e le c i f g =
        elim (Bool-cases (bytes_eq k id)) [
          | inl q ↦
              let same : k ≡ id = (bytes_eq_iff k id).0 q in
              later-Offered t ref limits state _ _ (deliver_all-Fills encode p now (values m) _ _)
                (deliver_all-Spares m _ _ l.1 (subst (λ j. lookup j m ≡ none) same d.0))
                (deliver_publish-Offered s cache srv (l.0.0 ∙ same)
                  (subst (λ j. lookup j ids ≡ some s.subscriber) same l.0.1)
                  (subst (λ r. 1 ≤ r.qos) (sym (some_inj (rw q at e))) le) c i f g)
          | inr q ↦
              deliver_all-Offered m sub _ _ l.1 d.1 (rw q at e) le
                (deliver_publish-IsCached encode p t now one encoded s cache srv c)
                (deliver_publish_by_id encode p now s cache srv ∙ i)
                ((deliver_publish-Spares encode p now s ref cache srv
                    (apart k s.subscriber q l.0.1)).0
                  ∙ f)
                ((deliver_publish-Fills encode p now s cache srv).limits ∙ g)
        ]
