-- ===== src/Server/Sessions/Stored.antt =====
-- internal/session/store.go: the subscriptions that a store holds, as the routes that the broker
-- should have, and what the operations of the store do to them.
use orb_mq.Base.{
  ℕ, Bytes, bytes_eq, bytes_eq_iff, bytes_Eq, nat_eq, ==_iff, lookup, lookup-insert_self,
  lookup-insert_other, lookup-delete, lookup-delete_other, Bool-cases, Option-cases, ◌==◌,
  if◌then◌else◌, Option, none, some, some_inj, ◌≡◌, ◌≢◌, ◌⊎◌, inl, inr, refl, arith, subst, sym, ap,
  ◌∙◌,
}
use orb_mq.Topic.Tree.{Subscription as Route}
use orb_mq.Session.State.{State, Cell}
use orb_mq.Session.Store.{Store, put_cell, removed, remove, find, delete_session}
use orb_mq.Session.Store.Invariant.{IsStore}
use orb_mq.Session.Store.Lifetimes.{find_inv}
use orb_mq.Server.Sessions.{route}

abbrev pub route_of : Bytes → ℕ → Option ℕ → Option Route
route_of id ref none = none
route_of id ref (some qos) = some (route id ref qos)

abbrev pub routes_of : Bytes → Bytes → Option (ℕ × State) → Option Route
routes_of id filter none = none
routes_of id filter (some (ref, s)) = route_of id ref (lookup filter s.subscriptions)

-- The route that a client's session asks for under a filter.
unfoldable pub stored : Bytes → Bytes → Store → Option Route
stored id filter st = routes_of id filter (find id st)

find_at :
    (id : Bytes) (ref : ℕ) (st : Store)
    → lookup id st.by_id ≡ some ref
    → find id st ≡ elim (lookup ref st.states) [ none ↦ none | some s ↦ some (ref, s) ]
unfolding find
find_at id ref st e = rw (find, e) refl

pub find_absent : (id : Bytes) (st : Store) → lookup id st.by_id ≡ none → find id st ≡ none
unfolding find
find_absent id st e = rw (find, e) refl

pub find_here :
    (id : Bytes) (ref : ℕ) (s : State) (st : Store)
    → lookup id st.by_id ≡ some ref
    → lookup ref st.states ≡ some s
    → find id st ≡ some (ref, s)
find_here id ref s st e f = find_at id ref st e ∙ rw f refl

-- A heap that has the same session at the address of an identifier.
pub find_as :
    (id : Bytes) (st st' : Store)
    → lookup id st'.by_id ≡ lookup id st.by_id
    → ((ref : ℕ) → lookup id st.by_id ≡ some ref → lookup ref st'.states ≡ lookup ref st.states)
    → find id st' ≡ find id st
find_as id st st' e f = elim (Option-cases (lookup id st.by_id)) [
  | inl n ↦ find_absent id st' (e ∙ n) ∙ sym (find_absent id st n)
  | inr (ref, n) ↦ find_at id ref st' (e ∙ n) ∙ (rw (f ref n) refl ∙ sym (find_at id ref st n))
]

pub stored-put_other :
    (j filter : Bytes) (ref : ℕ) (c : Cell) (st : Store)
    → lookup j st.by_id ≢ some ref
    → stored j filter (put_cell ref c st) ≡ stored j filter st
unfolding stored
stored-put_other j filter ref c st h = ap (routes_of j filter) (
    find_as j st (put_cell ref c st) refl
      (λ r e. lookup-insert_other ref r c.state st.states (λ same. h (e ∙ ap some (sym same)))))

pub stored-put_at :
    (j filter : Bytes) (ref : ℕ) (c : Cell) (st : Store)
    → lookup j st.by_id ≡ some ref
    → stored j filter (put_cell ref c st) ≡ route_of j ref (lookup filter c.state.subscriptions)
unfolding stored
stored-put_at j filter ref c st h =
    ap (routes_of j filter)
      (find_here j ref c.state (put_cell ref c st) h (lookup-insert_self ref c.state st.states))

pub stored-at :
    (j filter : Bytes) (ref : ℕ) (s : State) (st : Store)
    → lookup j st.by_id ≡ some ref
    → lookup ref st.states ≡ some s
    → stored j filter st ≡ route_of j ref (lookup filter s.subscriptions)
unfolding stored
stored-at j filter ref s st h e = ap (routes_of j filter) (find_here j ref s st h e)

is_at :
    (j : Bytes) (ref : ℕ) (st : Store)
    → (lookup j st.by_id ≡ some ref) ⊎ (lookup j st.by_id ≢ some ref)
is_at j ref st = elim (Option-cases (lookup j st.by_id)) [
  | inl n ↦ inr (λ e. cc (n, e))
  | inr (r, n) ↦ elim (Bool-cases (r == ref)) [
    | inl q ↦ inl (n ∙ ap some ((==_iff r ref).0 q))
    | inr q ↦ inr (λ e. ground (arith, some_inj (sym n ∙ e)))
  ]
]

-- A method that leaves the subscriptions of its session alone.
pub stored-put_same :
    (j filter : Bytes) (ref : ℕ) (s : State) (c : Cell) (st : Store)
    → lookup ref st.states ≡ some s
    → c.state.subscriptions ≡ s.subscriptions
    → stored j filter (put_cell ref c st) ≡ stored j filter st
stored-put_same j filter ref s c st e same = elim (is_at j ref st) [
  | inl h ↦
      stored-put_at j filter ref c st h
      ∙ (ap (λ m. route_of j ref (lookup filter m)) same ∙ sym (stored-at j filter ref s st h e))
  | inr h ↦ stored-put_other j filter ref c st h
]

-- Two identifiers do not lead to one session.
pub by_id_injective :
    (st : Store) (i j : Bytes) (ref : ℕ)
    → IsStore st
    → lookup i st.by_id ≡ some ref
    → lookup j st.by_id ≡ some ref
    → i ≡ j
by_id_injective st i j ref v a b =
    let (s, f, p, d) = v.named i ref a in
    let (t, g, q, d') = v.named j ref b in sym p ∙ (ap (λ x. x.id) (some_inj (sym f ∙ g)) ∙ q)

stored-remove :
    (id j filter : Bytes) (ref : ℕ) (s : State) (st : Store)
    → IsStore st
    → lookup id st.by_id ≡ some ref
    → stored j filter (remove id ref s st) ≡ (if bytes_eq id j then none else stored j filter st)
unfolding stored
stored-remove id j filter ref s st v here = elim (Bool-cases (bytes_eq id j)) [
  | inl q ↦ rw q (
      ap (routes_of j filter)
        (find_absent j (remove id ref s st) (ground (arith, lookup-delete id j st.by_id))))
  | inr q ↦
      let apart : ¬ (id ≡ j) = λ p. ground (arith, bytes_eq_iff id j, p) in
      rw q (
        ap (routes_of j filter) (
          find_as j st (remove id ref s st) (lookup-delete_other id j st.by_id apart) (λ r e.
            lookup-insert_other ref r (removed s) st.states
              (λ same. apart (by_id_injective st id j r v (here ∙ ap some same) e)))))
]

pub stored-delete_session :
    (id j filter : Bytes) (st : Store)
    → IsStore st
    → stored j filter (delete_session id st) ≡ (if bytes_eq id j then none else stored j filter st)
unfolding delete_session stored
stored-delete_session id j filter st v = elim (Option-cases (find id st)) [
  | inr ((ref, s), e) ↦
      rw (delete_session, e) (stored-remove id j filter ref s st v (find_inv id st ref s e).0)
  | inl e ↦ elim (Bool-cases (bytes_eq id j)) [
    | inr q ↦ rw (delete_session, e, q) refl
    | inl q ↦
        rw (delete_session, e, q)
          (ap (routes_of j filter) (subst (λ i. find i st ≡ none) ((bytes_eq_iff id j).0 q) e))
  ]
]
