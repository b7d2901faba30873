-- ===== src/Session/Store/Invariant.antt =====
-- internal/session/store.go: the invariant of the store.
use orb_mq.Base.{
  ℕ, ◌+◌, ◌≤◌, Bytes, bytes_Eq, nat_eq, ==_iff, Map, lookup, insert, lookup-insert_self,
  lookup-insert_other, lookup-insert_inv, Bool-cases, false, ◌==◌, ◌≡◌, ◌⊎◌, inl, inr, arith, [],
  ◌∷◌, Option, none, some, some_inj, length, subst, sym, ap, ◌∙◌,
}
use orb_mq.Session.Limits.{validate}
use orb_mq.Session.State.{State, Cell}
use orb_mq.Session.Store.{Store, cell_of, put_cell}
use orb_mq.Session.Store.Accounts.{
  IsLive, IsGone, Counts, counts, total_counts, IsWithin, Moves, IsLimited, Keeps,
}

abbrev pub zero_counts : Counts
zero_counts = record { messages = 0; bytes = 0; inflight = 0; subscriptions = 0 }

abbrev pub add_counts : Counts → Counts → Counts
add_counts a b = record {
  messages = a.messages + b.messages;
  bytes = a.bytes + b.bytes;
  inflight = a.inflight + b.inflight;
  subscriptions = a.subscriptions + b.subscriptions;
}

-- The counts of all sessions of the heap together. A deleted one counts nothing.
unfoldable pub sum_counts : Map ℕ State → Counts
sum_counts [] = zero_counts
sum_counts ((ref, s) ∷ m) = add_counts (counts s) (sum_counts m)

abbrev pub counts_at : Option State → Counts
counts_at none = zero_counts
counts_at (some s) = counts s

pub sum_counts-insert :
    (ref : ℕ) (s : State) (m : Map ℕ State)
    → Moves (sum_counts m) (counts_at (lookup ref m)) (sum_counts (insert ref s m)) (counts s)
unfolding sum_counts insert lookup
sum_counts-insert ref s [] = omega arith
sum_counts-insert ref s ((j, t) ∷ m) = elim (Bool-cases (j == ref)) [
  | inl q ↦ rw q (omega arith)
  | inr q ↦ rw q (omega (arith, sum_counts-insert ref s m))
]

pub sum_counts-lookup :
    (ref : ℕ) (s : State) (m : Map ℕ State)
    → lookup ref m ≡ some s
    → IsWithin (counts s) (sum_counts m)
unfolding sum_counts lookup
sum_counts-lookup ref s [] h = cc
sum_counts-lookup ref s ((j, t) ∷ m) h = elim (Bool-cases (j == ref)) [
  | inl q ↦ let e : t ≡ s = some_inj (rw q at h) in rw (← e) (omega arith)
  | inr q ↦ omega (arith, sum_counts-lookup ref s m (rw q at h))
]

pub record Agrees (a b : Counts) : Type 0 where
  pub messages : a.messages ≡ b.messages
  pub bytes : a.bytes ≡ b.bytes
  pub inflight : a.inflight ≡ b.inflight
  pub subscriptions : a.subscriptions ≡ b.subscriptions

-- The limits are valid ones. The totals are the sums over the sessions, and within the limits. Each
-- session is live or deleted. An identifier leads to a live session that has it, and each live
-- session is found under its identifier.
pub record IsStore (st : Store) : Type 0 where
  pub valid : validate st.limits ≡ none
  pub accounts : Agrees (total_counts st.totals) (sum_counts st.states)
  pub limited : IsLimited st.limits st.totals
  pub sessions : length st.by_id ≤ st.limits.max_sessions
  pub objects :
      (ref : ℕ) (s : State) → lookup ref st.states ≡ some s → IsLive st.limits s ⊎ IsGone s
  pub named :
      (id : Bytes) (ref : ℕ)
      → lookup id st.by_id ≡ some ref
      → (s : State) × (lookup ref st.states ≡ some s) × (s.id ≡ id) × (s.deleted ≡ false)
  pub registered :
      (ref : ℕ) (s : State)
      → lookup ref st.states ≡ some s
      → s.deleted ≡ false
      → lookup s.id st.by_id ≡ some ref
  pub fresh : (ref : ℕ) → st.next_state ≤ ref → lookup ref st.states ≡ none

-- The totals follow the sums.
pub follows :
    (t m a t' m' a' : Counts) → Agrees t m → Moves t a t' a' → Moves m a m' a' → Agrees t' m'
follows t m a t' m' a' g p q = omega (arith, g, p, q)

pub IsWithin-totals :
    (st : Store) (ref : ℕ) (s : State)
    → IsStore st
    → lookup ref st.states ≡ some s
    → IsWithin (counts s) (total_counts st.totals)
IsWithin-totals st ref s v e = omega (arith, v.accounts, sum_counts-lookup ref s st.states e)

-- A method's effect on a session of the store.
module _ (st : Store) (ref : ℕ) (s : State) (c : Cell) (v : IsStore st)
    (e : lookup ref st.states ≡ some s) (k : Keeps (cell_of st s) c) where
  put-accounts : Agrees (total_counts c.totals) (sum_counts (insert ref c.state st.states))
  put-accounts = follows _ _ _ _ _ _ v.accounts k.moves (
      subst
        (λ o.
          Moves (sum_counts st.states) (counts_at o) (sum_counts (insert ref c.state st.states))
            (counts c.state))
        e (sum_counts-insert ref c.state st.states))

  put-object : IsLive st.limits c.state ⊎ IsGone c.state
  put-object = elim (v.objects ref s e) [ inl h ↦ inl (k.live h) | inr h ↦ inr (k.gone h) ]

  pub put_cell-IsStore : IsStore (put_cell ref c st)
  put_cell-IsStore = record {
    valid = v.valid;
    accounts = put-accounts;
    limited = k.limited v.limited;
    sessions = v.sessions;
    objects = λ r s' h. elim (lookup-insert_inv ref r c.state s' st.states h) [
      | inl (p, q) ↦ subst (λ x. IsLive st.limits x ⊎ IsGone x) q put-object
      | inr (p, q) ↦ v.objects r s' q
    ];
    named = λ id r h.
        let (s', f, i, d) = v.named id r h in
        elim (Bool-cases (ref == r)) [
          | inl q ↦
              let same : ref ≡ r = (==_iff ref r).0 q in
              let old : s' ≡ s =
                some_inj (sym f ∙ subst (λ x. lookup x st.states ≡ some s) same e) in
              (
                c.state,
                subst (λ x. lookup x (insert ref c.state st.states) ≡ some c.state) same
                    (lookup-insert_self ref c.state st.states),
                k.id ∙ (sym (ap (λ x. x.id) old) ∙ i),
                k.deleted ∙ (sym (ap (λ x. x.deleted) old) ∙ d),
              )
          | inr q ↦ (
            s',
            lookup-insert_other ref r c.state st.states (λ p. ground (arith, q, p)) ∙ f,
            i,
            d,
          )
        ];
    registered = λ r s' h d. elim (lookup-insert_inv ref r c.state s' st.states h) [
      | inl (p, q) ↦
          let own : lookup s.id st.by_id ≡ some ref =
            v.registered ref s e (sym k.deleted ∙ (ap (λ x. x.deleted) q ∙ d)) in
          subst (λ x. lookup x st.by_id ≡ some r) (sym k.id ∙ ap (λ x. x.id) q) (own ∙ ap some p)
      | inr (p, q) ↦ v.registered r s' q d
    ];
    fresh = λ r h.
        lookup-insert_other ref r c.state st.states
          (λ p. absurd_some (sym (v.fresh r h) ∙ subst (λ x. lookup x st.states ≡ some s) p e))
        ∙ v.fresh r h;
  }
    where
      absurd_some : none ≡ some s → ⊥
      absurd_some h = cc
