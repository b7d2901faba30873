-- ===== src/Session/Store/Lifetimes.antt =====
-- internal/session/store.go: where sessions begin and end.
use orb_mq.Base.{
  ℕ, suc, ◌<◌, Bytes, bytes_eq, bytes_Eq, nat_eq, Map, lookup, insert, lookup_nil,
  lookup-insert_self, lookup-insert_other, lookup-insert_inv, lookup-delete_other,
  lookup-delete_inv, length-insert, length-delete-le, Bool, if_rule, Option-cases, true, false, not,
  leb, ◌==◌, ◌≡◌, inl, inr, refl, arith, List, [], ◌∷◌, none, some, some_inj, length, subst, sym,
  ap, ◌∙◌,
}
use orb_mq.Session.Limits.{Limits, validate}
use orb_mq.Session.State.{Snapshot, State}
use orb_mq.Session.Queue.Entries.{assigned, current, total_bytes}
use orb_mq.Session.Store.{
  Store, Opening, get_or_create_owned, owner_of, new_state, create, removed, remove, find,
  delete_session, is_kept, expire_locked, expire_session, expire_loop, expire, new_store,
}
use orb_mq.Session.Store.Accounts.{IsLive, IsGone, counts, total_counts, Moves}
use orb_mq.Session.Store.Invariant.{
  zero_counts, counts_at, sum_counts, sum_counts-insert, Agrees, IsStore, IsWithin-totals,
}

-- Refusals and expiries are counted beside the accounts.
retotal-IsStore :
    (st : Store) (t : Snapshot)
    → total_counts t ≡ total_counts st.totals
    → IsStore st
    → IsStore (record st { totals = t })
retotal-IsStore st t e v = record {
  valid = v.valid;
  accounts = subst (λ x. Agrees x (sum_counts st.states)) (sym e) v.accounts;
  limited = record {
    messages = omega (arith, ap (λ x. x.messages) e, v.limited.messages);
    bytes = omega (arith, ap (λ x. x.bytes) e, v.limited.bytes);
    subscriptions = omega (arith, ap (λ x. x.subscriptions) e, v.limited.subscriptions);
  };
  sessions = v.sessions;
  objects = v.objects;
  named = v.named;
  registered = v.registered;
  fresh = v.fresh;
}

new_state-IsLive : (l : Limits) (id owner : Bytes) (now : ℕ) → IsLive l (new_state id owner now)
unfolding assigned current total_bytes
new_state-IsLive l id owner now = record {
  present = refl;
  session = record {
    messages = refl;
    bytes = refl;
    messages_bound = omega arith;
    bytes_bound = omega arith;
    entries_ok = tt;
    in_flight = refl;
    ids = tt;
    active = refl;
    ordered = tt;
    window = omega arith;
    epoch_range = omega arith;
    last_id = omega arith;
  };
  filters = tt;
  room = omega arith;
}

create-IsStore :
    (id owner : Bytes) (now : ℕ) (st : Store)
    → IsStore st
    → lookup id st.by_id ≡ none
    → length st.by_id < st.limits.max_sessions
    → IsStore (create id owner now st)
create-IsStore id owner now st v absent room =
    let s = new_state id owner now in
    let unused = v.fresh st.next_state (omega arith) in
    let sums : Moves (sum_counts st.states) zero_counts
        (sum_counts (insert st.next_state s st.states)) (counts s) =
      subst
        (λ o.
          Moves (sum_counts st.states) (counts_at o) (sum_counts (insert st.next_state s st.states))
            (counts s))
        unused (sum_counts-insert st.next_state s st.states) in
    let more : length (insert id st.next_state st.by_id) ≡ suc (length st.by_id) =
      rw absent at (length-insert id st.next_state st.by_id) in
    record {
      valid = v.valid;
      accounts = omega (arith, v.accounts, sums);
      limited = v.limited;
      sessions = omega (arith, more, room);
      objects = λ r s' h. elim (lookup-insert_inv st.next_state r s s' st.states h) [
        | inl (p, q) ↦ inl (subst (IsLive st.limits) q (new_state-IsLive st.limits id owner now))
        | inr (p, q) ↦ v.objects r s' q
      ];
      named = λ j r h. elim (lookup-insert_inv id j st.next_state r st.by_id h) [
        | inl (p, q) ↦ (
          s,
          subst (λ x. lookup x (insert st.next_state s st.states) ≡ some s) q
              (lookup-insert_self st.next_state s st.states),
          p,
          refl,
        )
        | inr (p, q) ↦
            let (s', f, i, d) = v.named j r q in
            (
              s',
              lookup-insert_other st.next_state r s st.states (λ same.
                    taken s' (subst (λ x. lookup x st.states ≡ some s') (sym same) f) unused)
                  ∙ f,
              i,
              d,
            )
      ];
      registered = λ r s' h d. elim (lookup-insert_inv st.next_state r s s' st.states h) [
        | inl (p, q) ↦
            subst (λ x. lookup x.id (insert id st.next_state st.by_id) ≡ some r) q
              (lookup-insert_self id st.next_state st.by_id ∙ ap some p)
        | inr (p, q) ↦
            let own = v.registered r s' q d in
            lookup-insert_other id s'.id st.next_state st.by_id
              (λ same. free r (subst (λ x. lookup x st.by_id ≡ some r) (sym same) own) absent)
            ∙ own
      ];
      fresh = λ r h.
          lookup-insert_other st.next_state r s st.states (λ p. omega arith)
          ∙ v.fresh r (omega arith);
    }
  where
    taken :
        (s' : State)
        → lookup st.next_state st.states ≡ some s'
        → lookup st.next_state st.states ≡ none
        → ⊥
    taken s' f g = cc

    free : (r : ℕ) → lookup id st.by_id ≡ some r → lookup id st.by_id ≡ none → ⊥
    free r f g = cc

remove-IsStore :
    (id : Bytes) (ref : ℕ) (s : State) (st : Store)
    → IsStore st
    → lookup id st.by_id ≡ some ref
    → lookup ref st.states ≡ some s
    → IsStore (remove id ref s st)
remove-IsStore id ref s st v here e =
    let own : s.id ≡ id =
      (let (s', f, i, d) = v.named id ref here in ap (λ x. x.id) (some_inj (sym e ∙ f)) ∙ i) in
    let sums : Moves (sum_counts st.states) (counts s)
        (sum_counts (insert ref (removed s) st.states)) zero_counts =
      subst
        (λ o.
          Moves (sum_counts st.states) (counts_at o) (sum_counts (insert ref (removed s) st.states))
            zero_counts)
        e (sum_counts-insert ref (removed s) st.states) in
    let enough = IsWithin-totals st ref s v e in
    record {
      valid = v.valid;
      accounts = omega (arith, v.accounts, sums, enough);
      limited = record {
        messages = omega (arith, v.limited.messages);
        bytes = omega (arith, v.limited.bytes);
        subscriptions = omega (arith, v.limited.subscriptions);
      };
      sessions = omega (arith, v.sessions, length-delete-le id st.by_id);
      objects = λ r s' h. elim (lookup-insert_inv ref r (removed s) s' st.states h) [
        | inl (p, q) ↦ inr (
            subst IsGone q (record {
              deleted = refl;
              entries = refl;
              inflight = refl;
              subscriptions = refl;
              messages = refl;
              bytes = refl;
            }))
        | inr (p, q) ↦ v.objects r s' q
      ];
      named = λ j r h.
          let (other, q) = lookup-delete_inv id j r st.by_id h in
          let (s', f, i, d) = v.named j r q in
          (
            s',
            lookup-insert_other ref r (removed s) st.states (λ same. other (
                  sym own
                  ∙ (ap (λ x. x.id)
                        (some_inj (sym e ∙ subst (λ x. lookup x st.states ≡ some s') (sym same) f))
                      ∙ i)))
                ∙ f,
            i,
            d,
          );
      registered = λ r s' h d. elim (lookup-insert_inv ref r (removed s) s' st.states h) [
        | inl (p, q) ↦ absurd (gone (ap (λ x. x.deleted) q ∙ d))
        | inr (p, q) ↦
            let found = v.registered r s' q d in
            lookup-delete_other id s'.id st.by_id (λ same.
              p (some_inj (sym here ∙ subst (λ x. lookup x st.by_id ≡ some r) (sym same) found)))
            ∙ found
      ];
      fresh = λ r h.
          lookup-insert_other ref r (removed s) st.states
            (λ p. taken (sym (v.fresh r h) ∙ subst (λ x. lookup x st.states ≡ some s) p e))
          ∙ v.fresh r h;
    }
  where
    gone : true ≡ false → ⊥
    gone h = cc

    taken : none ≡ some s → ⊥
    taken h = cc

pub get_or_create_owned-IsStore :
    (id owner : Bytes) (now : ℕ) (st : Store)
    → IsStore st
    → IsStore (get_or_create_owned id owner now st).1
unfolding get_or_create_owned
get_or_create_owned-IsStore id owner now st v = elim (Option-cases (lookup id st.by_id)) [
  | inr (ref, e) ↦
      rw (get_or_create_owned, e)
        (if_rule (λ (r : Opening × Store). IsStore r.1) (not (bytes_eq (owner_of ref st) owner)) _ _
          (λ _. v) (λ _. v))
  | inl e ↦
      rw (get_or_create_owned, e)
        (if_rule (λ (r : Opening × Store). IsStore r.1)
          (leb st.limits.max_sessions (length st.by_id)) _ _ (λ _. retotal-IsStore st _ refl v)
          (λ b. create-IsStore id owner now st v e (ground arith)))
]

pub find_inv :
    (id : Bytes) (st : Store) (ref : ℕ) (s : State)
    → find id st ≡ some (ref, s)
    → (lookup id st.by_id ≡ some ref) × (lookup ref st.states ≡ some s)
unfolding find
find_inv id st ref s h = elim (Option-cases (lookup id st.by_id)) [
  | inl e ↦ cc (rw (find, e) at h)
  | inr (r, e) ↦ elim (Option-cases (lookup r st.states)) [
    | inl f ↦ cc (rw (find, e, f) at h)
    | inr (t, f) ↦
        let same : (r, t) ≡ (ref, s) = some_inj (rw (find, e, f) at h) in
        (e ∙ ap (λ x. some x.0) same, subst (λ x. lookup x.0 st.states ≡ some x.1) same f)
  ]
]

pub delete_session-IsStore : (id : Bytes) (st : Store) → IsStore st → IsStore (delete_session id st)
unfolding delete_session
delete_session-IsStore id st v = elim (Option-cases (find id st)) [
  | inl e ↦ rw (delete_session, e) v
  | inr ((ref, s), e) ↦
      let (here, f) = find_inv id st ref s e in
      rw (delete_session, e) (remove-IsStore id ref s st v here f)
]

pub expire_locked-IsStore :
    (ref now : ℕ) (st : Store) → IsStore st → IsStore (expire_locked ref now st).1
unfolding expire_locked
expire_locked-IsStore ref now st v = elim (Option-cases (lookup ref st.states)) [
  | inl e ↦ rw (expire_locked, e) v
  | inr (s, e) ↦
      rw (expire_locked, e)
        (if_rule (λ (r : Bool × Store). IsStore r.1) (is_kept st.limits s now) _ _ (λ _. v)
          (λ _. retotal-IsStore (delete_session s.id st) _ refl (delete_session-IsStore s.id st v)))
]

pub expire_session-IsStore :
    (id : Bytes) (now : ℕ) (st : Store) → IsStore st → IsStore (expire_session id now st).1
unfolding expire_session
expire_session-IsStore id now st v = elim (Option-cases (lookup id st.by_id)) [
  | inl e ↦ rw (expire_session, e) v
  | inr (ref, e) ↦ rw (expire_session, e) (expire_locked-IsStore ref now st v)
]

expire_loop-IsStore :
    (m : Map Bytes ℕ) (now : ℕ) (st : Store) → IsStore st → IsStore (expire_loop m now st).1
unfolding expire_loop
expire_loop-IsStore [] now st v = v
expire_loop-IsStore ((id, ref) ∷ m) now st v =
    expire_loop-IsStore m now (expire_locked ref now st).1 (expire_locked-IsStore ref now st v)

pub expire-IsStore : (now : ℕ) (st : Store) → IsStore st → IsStore (expire now st).1
unfolding expire
expire-IsStore now st v =
    if_rule (λ (r : List Bytes × Store). IsStore r.1) (st.limits.offline_ttl == 0) _ _ (λ _. v)
      (λ _. expire_loop-IsStore st.by_id now st v)

pub new_store-IsStore : (l : Limits) (st : Store) → new_store l ≡ some st → IsStore st
unfolding new_store
new_store-IsStore l st h = elim (Option-cases (validate l)) [
  | inr (x, e) ↦ cc (rw (new_store, e) at h)
  | inl e ↦ subst IsStore (some_inj (rw (new_store, e) at h)) (record {
    valid = e;
    accounts =
        unfold sum_counts in
        record { messages = refl; bytes = refl; inflight = refl; subscriptions = refl };
    limited = omega arith;
    sessions = omega arith;
    objects = λ ref s q. cc (lookup_nil {V = State} ref, q);
    named = λ id ref q. cc (lookup_nil {V = ℕ} id, q);
    registered = λ ref s q. cc (lookup_nil {V = State} ref, q);
    fresh = λ ref q. lookup_nil {V = State} ref;
  })
]
