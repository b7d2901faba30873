-- ===== src/Server/Delivery/Fills.antt =====
-- internal/server/server.go: what deliveries do to what all sessions hold together.
use orb_mq.Base.{
  ℕ, Bytes, nat_eq, lookup, Bool-cases, Option-cases, inl, inr, arith, refl, ◌∙◌, ◌≡◌, ◌≤◌, length,
}
use orb_mq.Session.State.{Cell}
use orb_mq.Session.Queue.{
  DropReason, session_limit, global_limit, is_queued_publish, drop_reason, refuse, admit,
}
use orb_mq.Session.Queue.Invariant.{admit_room, admit_full}
use orb_mq.Session.Store.{Store, cell_of, call}

-- What is admitted only adds to what the sessions hold together.
pub record Fills (st st' : Store) : Type 0 where
  pub limits : st'.limits ≡ st.limits
  pub messages : st.totals.pending_messages ≤ st'.totals.pending_messages
  pub bytes : st.totals.pending_bytes ≤ st'.totals.pending_bytes

pub same_store : (st : Store) → Fills st st
same_store st = record { limits = refl; messages = omega arith; bytes = omega arith }

pub chained : (a b c : Store) → Fills a b → Fills b c → Fills a c
chained a b c f g = record {
  limits = g.limits ∙ f.limits;
  messages = omega (arith, f.messages, g.messages);
  bytes = omega (arith, f.bytes, g.bytes);
}

-- `Admit` as a method.
abbrev pub admits : Bytes → ℕ → ℕ → Cell → Cell
admits raw offset now c = (admit raw offset now c).1

refuse-pending :
    (c : Cell) (reason : DropReason)
    → ((refuse c reason).totals.pending_messages ≡ c.totals.pending_messages)
      × ((refuse c reason).totals.pending_bytes ≡ c.totals.pending_bytes)
refuse-pending c session_limit = (refl, refl)
refuse-pending c global_limit = (refl, refl)

admits-pending :
    (raw : Bytes) (offset now : ℕ) (c : Cell)
    → (c.totals.pending_messages ≤ (admit raw offset now c).1.totals.pending_messages)
      × (c.totals.pending_bytes ≤ (admit raw offset now c).1.totals.pending_bytes)
admits-pending raw offset now c = elim (Bool-cases (is_queued_publish raw offset)) [
  | inr q ↦ unfold admit in rw q (omega arith, omega arith)
  | inl q ↦ elim (Bool-cases c.state.deleted) [
    | inl d ↦ unfold admit in simp (q, d) (omega arith, omega arith)
    | inr d ↦ elim (Option-cases (drop_reason c.limits c.state.stats c.totals (length raw))) [
      | inl e ↦ rw (admit_room raw offset now c q d e) (omega arith, omega arith)
      | inr (reason, e) ↦
          let (m, b) = refuse-pending c reason in
          rw (admit_full raw offset now c reason q d e) (omega (arith, m), omega (arith, b))
    ]
  ]
]

pub admits-Fills :
    (raw : Bytes) (offset now r : ℕ) (st : Store) → Fills st (call (admits raw offset now) r st)
unfolding call
admits-Fills raw offset now r st = elim (Option-cases (lookup r st.states)) [
  | inl e ↦ rw (call, e) (same_store st)
  | inr (s, e) ↦
      let (m, b) = admits-pending raw offset now (cell_of st s) in
      rw (call, e) (record { limits = refl; messages = m; bytes = b })
]
