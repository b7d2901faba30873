-- ===== src/Server/Delivery/Spares.antt =====
-- internal/server/server.go: what a delivery leaves of the sessions it is not for.
use orb_mq.Base.{
  ℕ, Bytes, bytes_Eq, nat_eq, lookup, lookup-insert, Bool-cases, Option-cases, not, if_rule, ◌==◌,
  some, inl, inr, arith, refl, sym, ap, ◌∙◌, subst, ◌⊎◌, ◌≡◌, ◌≢◌, List, [], ◌∷◌,
}
use orb_mq.Protocol.Packet.{PublishPacket}
use orb_mq.Protocol.Reader.{Result, ok, err}
use orb_mq.Topic.Tree.{Subscription as Route}
use orb_mq.Session.State.{State, Cell}
use orb_mq.Session.Store.{Store, cell_of, call, get}
use orb_mq.Server.Templates.{
  Template, Cache, delivery_qos, new_outbound_publish, qos0_payload, qos1_template,
}
use orb_mq.Server.Sessions.{Server}
use orb_mq.Server.Delivery.Fills.{Fills, same_store, chained, admits, admits-Fills}
use orb_mq.Server.Delivery.{
  Step, takes, encoded_qos0, encoded_qos1, deliver_qos0, deliver_publish, deliver_all,
}

-- The addresses are those they were, and the session at `ref` is as it was.
abbrev pub Spares : ℕ → Store → Store → Type 0
Spares ref st st' = (lookup ref st'.states ≡ lookup ref st.states) × (st'.by_id ≡ st.by_id)

call-Spares : (f : Cell → Cell) (r ref : ℕ) (st : Store) → r ≢ ref → Spares ref st (call f r st)
unfolding call
call-Spares f r ref st apart = elim (Option-cases (lookup r st.states)) [
  | inl e ↦ rw (call, e) (refl, refl)
  | inr (s, e) ↦ elim (Bool-cases (r == ref)) [
    | inl q ↦ ground (arith, apart, q)
    | inr q ↦
        rw (call, e) (lookup-insert r ref (f (cell_of st s)).state st.states ∙ rw q refl, refl)
  ]
]

call_by_id : (f : Cell → Cell) (r : ℕ) (st : Store) → (call f r st).by_id ≡ st.by_id
unfolding call
call_by_id f r st = elim (Option-cases (lookup r st.states)) [
  | inl e ↦ rw (call, e) refl
  | inr (s, e) ↦ rw (call, e) refl
]

pub call_here :
    (f : Cell → Cell) (ref : ℕ) (s : State) (st : Store)
    → lookup ref st.states ≡ some s
    → lookup ref (call f ref st).states ≡ some (f (cell_of st s)).state
unfolding call
call_here f ref s st e =
    rw (call, e) (lookup-insert ref ref (f (cell_of st s)).state st.states ∙ ground arith)

-- What every subscription of the message does with the store: nothing, or a call on its session.
module _ (encode : PublishPacket → Result Bytes) (p : PublishPacket) (now : ℕ) where
  abbrev Changes : Route → Server → Step → Type 0
  Changes sub srv r =
      (r.2.sessions ≡ srv.sessions)
      ⊎ (raw : Bytes) × (offset : ℕ) × (r.2.sessions
          ≡ call (admits raw offset now) sub.subscriber srv.sessions)

  encoded_qos0-same :
      (owner : ℕ) (srv : Server) (r : Result Bytes × Cache)
      → (encoded_qos0 owner srv r).2.sessions ≡ srv.sessions
  encoded_qos0-same owner srv (err e, cache) = refl
  encoded_qos0-same owner srv (ok raw, cache) = refl

  deliver_qos0-same :
      (o : PublishPacket) (id : Bytes) (ref : ℕ) (cache : Cache) (srv : Server)
      → (deliver_qos0 encode o id ref cache srv).2.sessions ≡ srv.sessions
  unfolding deliver_qos0
  deliver_qos0-same o id ref cache srv = elim (Option-cases (lookup id srv.clients)) [
    | inl e ↦ rw (deliver_qos0, e) refl
    | inr (k, e) ↦
        rw (deliver_qos0, e)
          (if_rule (λ (r : Step). r.2.sessions ≡ srv.sessions) (takes ref k) _ _
            (λ q. encoded_qos0-same k.ref srv (qos0_payload encode o cache)) (λ q. refl))
  ]

  encoded_qos1-Changes :
      (sub : Route) (srv : Server) (r : Result Template × Cache)
      → Changes sub srv (encoded_qos1 now sub.subscriber srv r)
  encoded_qos1-Changes sub srv (err e, cache) = inl refl
  encoded_qos1-Changes sub srv (ok t, cache) = inr (t.raw, t.packet_id_offset, refl)

  deliver_publish-Changes :
      (sub : Route) (cache : Cache) (srv : Server)
      → Changes sub srv (deliver_publish encode p sub now cache srv)
  unfolding deliver_publish
  deliver_publish-Changes sub cache srv = elim (Option-cases (get sub.client_id srv.sessions)) [
    | inl e ↦ rw (deliver_publish, e) (inl refl)
    | inr (r, e) ↦
        let qos = delivery_qos p.qos sub.qos in
        let outbound = new_outbound_publish p qos in
        rw (deliver_publish, e)
          (if_rule (Changes sub srv) (not (sub.subscriber == r)) _ _ (λ q. inl refl)
            (λ q.
              if_rule (Changes sub srv) (qos == 0) _ _
                (λ z. inl (deliver_qos0-same outbound sub.client_id r cache srv))
                (λ z.
                  subst
                    (λ x.
                      Changes sub srv
                        (encoded_qos1 now x srv (qos1_template encode outbound cache)))
                    (ground (arith, q))
                    (encoded_qos1-Changes sub srv (qos1_template encode outbound cache)))))
  ]

  pub deliver_publish-Spares :
      (sub : Route) (ref : ℕ) (cache : Cache) (srv : Server)
      → sub.subscriber ≢ ref
      → Spares ref srv.sessions (deliver_publish encode p sub now cache srv).2.sessions
  deliver_publish-Spares sub ref cache srv apart = elim (deliver_publish-Changes sub cache srv) [
    | inl e ↦ subst (λ st. Spares ref srv.sessions st) (sym e) (refl, refl)
    | inr (raw, offset, e) ↦
        subst (λ st. Spares ref srv.sessions st) (sym e)
          (call-Spares (admits raw offset now) sub.subscriber ref srv.sessions apart)
  ]

  pub deliver_publish_by_id :
      (sub : Route) (cache : Cache) (srv : Server)
      → (deliver_publish encode p sub now cache srv).2.sessions.by_id ≡ srv.sessions.by_id
  deliver_publish_by_id sub cache srv = elim (deliver_publish-Changes sub cache srv) [
    | inl e ↦ ap (λ st. st.by_id) e
    | inr (raw, offset, e) ↦
        ap (λ st. st.by_id) e ∙ call_by_id (admits raw offset now) sub.subscriber srv.sessions
  ]

  pub deliver_publish-Fills :
      (sub : Route) (cache : Cache) (srv : Server)
      → Fills srv.sessions (deliver_publish encode p sub now cache srv).2.sessions
  deliver_publish-Fills sub cache srv = elim (deliver_publish-Changes sub cache srv) [
    | inl e ↦ subst (λ st. Fills srv.sessions st) (sym e) (same_store srv.sessions)
    | inr (raw, offset, e) ↦
        subst (λ st. Fills srv.sessions st) (sym e)
          (admits-Fills raw offset now sub.subscriber srv.sessions)
  ]

  pub deliver_all-Fills :
      (subs : List Route) (cache : Cache) (srv : Server)
      → Fills srv.sessions (deliver_all encode p subs now cache srv).1.sessions
  unfolding deliver_all
  deliver_all-Fills [] cache srv = same_store srv.sessions
  deliver_all-Fills (sub ∷ subs) cache srv =
      chained _ _ _ (deliver_publish-Fills sub cache srv) (deliver_all-Fills subs _ _)
