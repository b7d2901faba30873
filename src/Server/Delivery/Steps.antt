-- ===== src/Server/Delivery/Steps.antt =====
-- internal/server: publishMessage as a sequence of steps of the server.
use orb_mq.Base.{
  ℕ, Bytes, bytes_Eq, lookup, Option-cases, not, if_rule, ◌==◌, List, [], ◌∷◌, Option, none, some,
  inl, inr,
}
use orb_mq.Protocol.Packet.{PublishPacket}
use orb_mq.Protocol.Reader.{Result, ok, err}
use orb_mq.Topic.Tree.{Subscription as Route}
use orb_mq.Broker.{publish}
use orb_mq.Session.Store.{get}
use orb_mq.Server.Templates.{
  Template, Cache, delivery_qos, new_outbound_publish, qos0_payload, qos1_template,
}
use orb_mq.Server.Sessions.{Server}
use orb_mq.Server.Sessions.Coherent.{IsServer}
use orb_mq.Server.Sessions.Quiet.{admitting}
use orb_mq.Server.Sessions.Serves.{Serves, publishes, delivers, Serves-IsServer}
use orb_mq.Server.Delivery.{
  Step, takes, encoded_qos0, encoded_qos1, deliver_qos0, deliver_publish, deliver_all,
  deliver_matched, publish_message,
}

abbrev Goes : Step → Type 0
Goes r = Serves r.2

encoded_qos0-Serves :
    (owner : ℕ) (srv : Server) (r : Result Bytes × Cache)
    → Serves srv
    → Goes (encoded_qos0 owner srv r)
encoded_qos0-Serves owner srv (err e, cache) s = s
encoded_qos0-Serves owner srv (ok raw, cache) s = s

encoded_qos1-Serves :
    (now ref : ℕ) (srv : Server) (r : Result Template × Cache)
    → Serves srv
    → Goes (encoded_qos1 now ref srv r)
encoded_qos1-Serves now ref srv (err e, cache) s = s
encoded_qos1-Serves now ref srv (ok t, cache) s =
    delivers _ ref (admitting t.raw t.packet_id_offset now) s

module _ (encode : PublishPacket → Result Bytes) where
  deliver_qos0-Serves :
      (p : PublishPacket) (id : Bytes) (ref : ℕ) (cache : Cache) (srv : Server)
      → Serves srv
      → Goes (deliver_qos0 encode p id ref cache srv)
  unfolding deliver_qos0
  deliver_qos0-Serves p id ref cache srv s = elim (Option-cases (lookup id srv.clients)) [
    | inl e ↦ rw (deliver_qos0, e) s
    | inr (k, e) ↦
        rw (deliver_qos0, e)
          (if_rule Goes (takes ref k) _ _
            (λ q. encoded_qos0-Serves k.ref srv (qos0_payload encode p cache) s) (λ q. s))
  ]

  deliver_publish-Serves :
      (p : PublishPacket) (sub : Route) (now : ℕ) (cache : Cache) (srv : Server)
      → Serves srv
      → Goes (deliver_publish encode p sub now cache srv)
  unfolding deliver_publish
  deliver_publish-Serves p sub now cache srv s =
      elim (Option-cases (get sub.client_id srv.sessions)) [
        | inl e ↦ rw (deliver_publish, e) s
        | inr (ref, e) ↦
            let qos = delivery_qos p.qos sub.qos in
            let outbound = new_outbound_publish p qos in
            rw (deliver_publish, e)
              (if_rule Goes (not (sub.subscriber == ref)) _ _ (λ q. s)
                (λ q.
                  if_rule Goes (qos == 0) _ _
                    (λ z. deliver_qos0-Serves outbound sub.client_id ref cache srv s)
                    (λ z. encoded_qos1-Serves now ref srv (qos1_template encode outbound cache) s)))
      ]

  deliver_all-Serves :
      (p : PublishPacket) (subs : List Route) (now : ℕ) (cache : Cache) (srv : Server)
      → Serves srv
      → Serves (deliver_all encode p subs now cache srv).1
  unfolding deliver_all
  deliver_all-Serves p [] now cache srv s = s
  deliver_all-Serves p (sub ∷ subs) now cache srv s =
      deliver_all-Serves p subs now _ _ (deliver_publish-Serves p sub now cache srv s)

  deliver_matched-Serves :
      (p : PublishPacket) (now : ℕ) (srv : Server) (subs : Option (List Route))
      → Serves srv
      → Serves (deliver_matched encode p now srv subs).1
  deliver_matched-Serves p now srv none s = s
  deliver_matched-Serves p now srv (some subs) s =
      deliver_all-Serves p subs now (record { qos0 = none; qos1 = none }) srv s

  -- Whatever publishMessage answers, from a state that steps lead to, and whatever the encoder
  -- gives, it leaves a server with its invariant: the totals of all queues are right and within
  -- the limits, and routes and ownership are as the sessions have them.
  publish_message-IsServer :
      (p : PublishPacket) (now : ℕ) (srv : Server)
      → Serves srv
      → IsServer (publish_message encode p now srv).1
  unfolding publish_message
  publish_message-IsServer p now srv s = Serves-IsServer (publish_message encode p now srv).1 (
      deliver_matched-Serves p now (record srv { broker = (publish srv.broker p).1 })
        (publish srv.broker p).0 (publishes p s))
