-- ===== src/Server/Delivery/Once.antt =====
-- internal/server/server.go: publishMessage with QoS 1, which offers the message to the queue of each
-- session that wants it, once.
use orb_mq.Base.{
  ℕ, Bytes, bytes_Eq, nat_eq, lookup, Option-cases, false, List, none, some, some_inj, inl, inr,
  arith, refl, sym, ap, ◌∙◌, subst, Distinct, ◌≡◌, ◌≤◌,
}
use orb_mq.Protocol.Packet.{PublishPacket}
use orb_mq.Protocol.Reader.{Result, ok}
use orb_mq.Protocol.Encoder.{encode_publish}
use orb_mq.Topic.Parse.{split_filter}
use orb_mq.Topic.Tree.{Subscription as Route, match_map, match_tree}
use orb_mq.Topic.Tree.Delivery.{HashLast}
use orb_mq.Topic.Tree.Match.Once.{match_map-IsOnce}
use orb_mq.Broker.{Broker, update_retained, publish}
use orb_mq.Server.Templates.{Template, new_outbound_publish, new_publish_template}
use orb_mq.Server.Templates.Offset.{new_publish_template-IsTemplate}
use orb_mq.Server.Sessions.{Server}
use orb_mq.Server.Sessions.Stored.{by_id_injective}
use orb_mq.Server.Sessions.Serves.{Serves, Serves-IsServer}
use orb_mq.Server.Sessions.Reaches.{Wants, match_map-Wants, match_map-reaches}
use orb_mq.Server.Delivery.{deliver_all, publish_message}
use orb_mq.Server.Delivery.Loop.{
  Led, All-lookup, hold_both, Offered, deliver_all-Spares, deliver_all-Offered,
}

-- What the broker returns is what its tree matches.
publish_subs :
    (b : Broker) (p : PublishPacket) (subs : List Route)
    → (publish b p).0 ≡ some subs
    → subs ≡ match_tree b.topics p.topic
unfolding publish update_retained
publish_subs b p subs h = ground arith

publish_message_at :
    (encode : PublishPacket → Result Bytes) (p : PublishPacket) (now : ℕ) (srv : Server)
    (subs : List Route)
    → (publish srv.broker p).0 ≡ some subs
    → (publish_message encode p now srv).1
      ≡ (deliver_all encode p subs now
          (record { qos0 = none; qos1 = none })
          (record srv { broker = (publish srv.broker p).1 })).1
unfolding publish_message
publish_message_at encode p now srv subs h = rw (publish_message, h) refl

-- The subscriptions that Match returns, each once and of its own session.
matched-Led :
    (srv : Server) (topic : Bytes)
    → Serves srv
    → let m = match_map srv.broker.topics topic in Led srv.sessions.by_id m × Distinct m
matched-Led srv topic s =
    let m = match_map srv.broker.topics topic in
    let (distinct, own) = match_map-IsOnce srv.broker.topics topic in
    let aims = λ (k : Bytes) (r : Route) (q : lookup k m ≡ some r).
      (match_map-Wants srv k topic r s q).found in
    (hold_both _ _ m own (All-lookup _ m distinct aims), distinct)

-- publishMessage offers a message of QoS 1 to each session that wants it, and once: behind it, the
-- message stands at the end of the session's queue, in its encoding and without an identifier, and
-- nothing else was added; or the queue is as it was, a drop is counted, and the message exceeds a limit
-- of what the session held before or of what all sessions hold behind it. The state is one that steps
-- lead to from a new server, the session's filter has `#` in last place only and is subscribed with
-- QoS 1 at least, the broker's retained store does not refuse the message, and the encoder takes it.
pub publish_message-Offered :
    (p : PublishPacket) (t : Template) (now : ℕ) (srv : Server) (id : Bytes) (ref qos : ℕ)
    (subs : List Route)
    → Serves srv
    → p.qos ≡ 1
    → (w : Wants srv.sessions id ref p.topic qos) → HashLast (split_filter w.filter)
    → 1 ≤ qos
    → (publish srv.broker p).0 ≡ some subs
    → new_publish_template encode_publish (new_outbound_publish p 1) ≡ ok t
    → Offered t ref srv.sessions.limits w.state
        (publish_message encode_publish p now srv).1.sessions
unfolding publish_message match_tree
publish_message-Offered p t now srv id ref qos subs s one w l le h encoded =
    let m = match_map srv.broker.topics p.topic in
    let v = (Serves-IsServer srv s).store in
    let (sub, e, covers) = match_map-reaches srv id p.topic ref qos s w l in
    let (state, there, named, alive) = v.named id ref w.found in
    let (led, distinct) = matched-Led srv p.topic s in
    let b = (publish srv.broker p).1 in
    subst (λ st. Offered t ref srv.sessions.limits w.state st)
      (ap (λ x. x.sessions)
        (ap
            (λ r.
              (deliver_all encode_publish p r now (record { qos0 = none; qos1 = none })
                (record srv { broker = b })).1)
            (sym (publish_subs srv.broker p subs h))
          ∙ sym (publish_message_at encode_publish p now srv subs h)))
      (deliver_all-Offered encode_publish p now id ref srv.sessions.by_id w.found
        (λ j q. by_id_injective srv.sessions j id ref v q w.found) t one encoded
        (new_publish_template-IsTemplate (new_outbound_publish p 1) t encoded).queued w.state
        (subst (λ x. x.deleted ≡ false) (some_inj (sym there ∙ w.here)) alive) srv.sessions.limits m
        sub (record { qos0 = none; qos1 = none }) (record srv { broker = b }) led distinct e
        (omega arith) (inl refl) refl w.here refl)

-- Match finds nothing for a session that has no subscription which matches.
unwanted-none :
    (srv : Server) (topic id : Bytes) (ref : ℕ)
    → Serves srv
    → lookup id srv.sessions.by_id ≡ some ref
    → ((qos : ℕ) → ¬ Wants srv.sessions id ref topic qos)
    → lookup id (match_map srv.broker.topics topic) ≡ none
unwanted-none srv topic id ref s here unwanted =
    elim (Option-cases (lookup id (match_map srv.broker.topics topic))) [
      | inl e ↦ e
      | inr (r, e) ↦
          let w = match_map-Wants srv id topic r s e in
          let same : r.subscriber ≡ ref = some_inj (sym w.found ∙ here) in
          absurd (unwanted r.qos (subst (λ x. Wants srv.sessions id x topic r.qos) same w))
    ]

-- publishMessage leaves every other session as it is: one of the store that has no subscription which
-- matches the topic. The state is one that steps lead to from a new server; the message, its QoS and
-- the encoder are any.
pub publish_message-Spares :
    (encode : PublishPacket → Result Bytes) (p : PublishPacket) (now : ℕ) (srv : Server)
    (id : Bytes) (ref : ℕ)
    → Serves srv
    → lookup id srv.sessions.by_id ≡ some ref
    → ((qos : ℕ) → ¬ Wants srv.sessions id ref p.topic qos)
    → lookup ref (publish_message encode p now srv).1.sessions.states
      ≡ lookup ref srv.sessions.states
unfolding publish_message match_tree
publish_message-Spares encode p now srv id ref s here unwanted =
    elim (Option-cases (publish srv.broker p).0) [
      | inl h ↦ rw (publish_message, h) refl
      | inr (subs, h) ↦
          let m = match_map srv.broker.topics p.topic in
          let v = (Serves-IsServer srv s).store in
          let (led, distinct) = matched-Led srv p.topic s in
          ap (λ (x : Server). lookup ref x.sessions.states)
            (publish_message_at encode p now srv subs h
              ∙ ap
                  (λ r.
                    (deliver_all encode p r now (record { qos0 = none; qos1 = none })
                      (record srv { broker = (publish srv.broker p).1 })).1)
                  (publish_subs srv.broker p subs h))
          ∙ deliver_all-Spares encode p now id ref srv.sessions.by_id here
              (λ j q. by_id_injective srv.sessions j id ref v q here) m
              (record { qos0 = none; qos1 = none })
              (record srv { broker = (publish srv.broker p).1 }) led
              (unwanted-none srv p.topic id ref s here unwanted)
    ]
