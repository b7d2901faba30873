-- ===== src/Server/Sessions/Expiry.antt =====
-- internal/session/store.go: what the opening and the expiry of sessions do to the subscriptions that
-- the store holds.
use orb_mq.Base.{
  ℕ, Bytes, bytes_eq, bytes_eq_iff, bytes_Eq, nat_eq, Map, lookup, lookup_nil, insert,
  lookup-insert_self, lookup-insert_other, lookup-insert_inv, Bool-cases, Option-cases, not, leb,
  ◌==◌, if◌then◌else◌, [], ◌∷◌, none, some, some_inj, length, Distinct, ◌≡◌, inl, inr, refl, arith,
  subst, sym, ap, ◌∙◌,
}
use orb_mq.Auth.Local.{contains}
use orb_mq.Session.State.{State}
use orb_mq.Session.Store.{
  Store, new_state, create, removed, owner_of, find, delete_session, get_or_create_owned, is_kept,
  expire_locked, expire_loop, expire,
}
use orb_mq.Session.Store.Invariant.{IsStore}
use orb_mq.Session.Store.Lifetimes.{find_inv, expire_locked-IsStore}
use orb_mq.Server.Sessions.Stored.{
  route_of, routes_of, stored, find_here, find_absent, find_as, stored-delete_session,
}

stored-create :
    (id owner : Bytes) (now : ℕ) (j filter : Bytes) (st : Store)
    → IsStore st
    → lookup id st.by_id ≡ none
    → stored j filter (create id owner now st) ≡ stored j filter st
unfolding stored
stored-create id owner now j filter st v absent = elim (Bool-cases (bytes_eq id j)) [
  | inl q ↦
      let same = (bytes_eq_iff id j).0 q in
      let s = new_state id owner now in
      ap (routes_of j filter) (
        find_here j st.next_state s (create id owner now st)
          (subst (λ i. lookup i (insert id st.next_state st.by_id) ≡ some st.next_state) same
            (lookup-insert_self id st.next_state st.by_id))
          (lookup-insert_self st.next_state s st.states))
      ∙ (ap (route_of j st.next_state) (lookup_nil {V = ℕ} filter)
          ∙ sym (
              ap (routes_of j filter)
                (find_absent j st (subst (λ i. lookup i st.by_id ≡ none) same absent))))
  | inr q ↦
      let apart : ¬ (id ≡ j) = λ p. ground (arith, bytes_eq_iff id j, p) in
      ap (routes_of j filter) (
        find_as j st (create id owner now st)
          (lookup-insert_other id j st.next_state st.by_id apart)
          (λ r e. lookup-insert_other st.next_state r (new_state id owner now) st.states (λ p.
            let (s, f, i, d) = v.named j r e in
            taken s (
              sym (subst (λ x. lookup x st.states ≡ none) p (v.fresh st.next_state (omega arith)))
              ∙ f))))
]
  where
    taken : (s : State) → none ≡ some s → ⊥
    taken s h = cc

pub stored-get_or_create_owned :
    (id owner : Bytes) (now : ℕ) (j filter : Bytes) (st : Store)
    → IsStore st
    → stored j filter (get_or_create_owned id owner now st).1 ≡ stored j filter st
unfolding get_or_create_owned stored
stored-get_or_create_owned id owner now j filter st v = elim (Option-cases (lookup id st.by_id)) [
  | inr (ref, e) ↦ elim (Bool-cases (not (bytes_eq (owner_of ref st) owner))) [
    | inl q ↦ rw (get_or_create_owned, e, q) refl
    | inr q ↦ rw (get_or_create_owned, e, q) refl
  ]
  | inl e ↦ elim (Bool-cases (leb st.limits.max_sessions (length st.by_id))) [
    | inl q ↦ unfold find in rw (get_or_create_owned, e, q) refl
    | inr q ↦ rw (get_or_create_owned, e, q) (stored-create id owner now j filter st v e)
  ]
]

-- The session at an address, if there is one, has this identifier.
abbrev pub IsNamed : Bytes → ℕ → Store → Type 0
IsNamed id ref st = (s : State) → lookup ref st.states ≡ some s → s.id ≡ id

pub IsStore-IsNamed :
    (id : Bytes) (ref : ℕ) (st : Store)
    → IsStore st
    → lookup id st.by_id ≡ some ref
    → IsNamed id ref st
IsStore-IsNamed id ref st v e s f =
    let (t, g, p, d) = v.named id ref e in ap (λ x. x.id) (some_inj (sym f ∙ g)) ∙ p

pub stored-expire_locked :
    (id : Bytes) (ref now : ℕ) (j filter : Bytes) (st : Store)
    → IsStore st
    → IsNamed id ref st
    → stored j filter (expire_locked ref now st).1 ≡ (
        if (expire_locked ref now st).0
        then (if bytes_eq id j then none else stored j filter st)
        else stored j filter st)
unfolding expire_locked delete_session find lookup stored
stored-expire_locked id ref now j filter st v named = elim (Option-cases (lookup ref st.states)) [
  | inl e ↦ rw (expire_locked, e) refl
  | inr (s, e) ↦ elim (Bool-cases (is_kept st.limits s now)) [
    | inl q ↦ rw (expire_locked, e, q) refl
    | inr q ↦
        rw (expire_locked, e, q)
          (subst
            (λ i.
              stored j filter (delete_session s.id st)
              ≡ (if bytes_eq i j then none else stored j filter st))
            (named s e) (stored-delete_session s.id j filter st v))
  ]
]

delete_session-IsNamed :
    (i id : Bytes) (ref : ℕ) (st : Store) → IsNamed id ref st → IsNamed id ref (delete_session i st)
unfolding delete_session
delete_session-IsNamed i id ref st n = elim (Option-cases (find i st)) [
  | inl e ↦ rw (delete_session, e) n
  | inr ((r, t), e) ↦
      rw (delete_session, e)
        (λ s f. elim (lookup-insert_inv r ref (removed t) s st.states f) [
          | inl (p, q) ↦
              sym (ap (λ x. x.id) q)
              ∙ n t (subst (λ x. lookup x st.states ≡ some t) p (find_inv i st r t e).1)
          | inr (p, q) ↦ n s q
        ])
]

expire_locked-IsNamed :
    (r now : ℕ) (id : Bytes) (ref : ℕ) (st : Store)
    → IsNamed id ref st
    → IsNamed id ref (expire_locked r now st).1
unfolding expire_locked
expire_locked-IsNamed r now id ref st n = elim (Option-cases (lookup r st.states)) [
  | inl e ↦ rw (expire_locked, e) n
  | inr (s, e) ↦ elim (Bool-cases (is_kept st.limits s now)) [
    | inl q ↦ rw (expire_locked, e, q) n
    | inr q ↦ rw (expire_locked, e, q) (delete_session-IsNamed s.id id ref st n)
  ]
]

abbrev AreNamed : Map Bytes ℕ → Store → Type 0
AreNamed [] st = Unit
AreNamed ((id, ref) ∷ m) st = IsNamed id ref st × AreNamed m st

expire_locked-AreNamed :
    (r now : ℕ) (m : Map Bytes ℕ) (st : Store)
    → AreNamed m st
    → AreNamed m (expire_locked r now st).1
expire_locked-AreNamed r now [] st n = tt
expire_locked-AreNamed r now ((id, ref) ∷ m) st n =
    (expire_locked-IsNamed r now id ref st n.0, expire_locked-AreNamed r now m st n.1)

stored-expire_loop :
    (m : Map Bytes ℕ) (now : ℕ) (j filter : Bytes) (st : Store)
    → IsStore st
    → AreNamed m st
    → stored j filter (expire_loop m now st).1
      ≡ (if contains j (expire_loop m now st).0 then none else stored j filter st)
unfolding expire_loop contains
stored-expire_loop [] now j filter st v n = refl
stored-expire_loop ((id, ref) ∷ m) now j filter st v n =
    let st' = (expire_locked ref now st).1 in
    let rest =
      stored-expire_loop m now j filter st' (expire_locked-IsStore ref now st v)
        (expire_locked-AreNamed ref now m st n.1) in
    let here = stored-expire_locked id ref now j filter st v n.0 in
    elim (Bool-cases (expire_locked ref now st).0) [
      | inl q ↦ rw q (rest ∙ ground (arith, rw q at here))
      | inr q ↦ rw q (rest ∙ ground (arith, rw q at here))
    ]

Distinct-AreNamed :
    (m : Map Bytes ℕ) (st : Store)
    → Distinct m
    → ((id : Bytes) (ref : ℕ) → lookup id m ≡ some ref → IsNamed id ref st)
    → AreNamed m st
unfolding lookup
Distinct-AreNamed [] st d n = tt
Distinct-AreNamed ((id, ref) ∷ m) st d n = (
  n id ref (ground (arith, bytes_eq_iff id id)),
  Distinct-AreNamed m st d.1 (λ i r e. n i r (elim (Bool-cases (bytes_eq id i)) [
    | inl q ↦ cc (subst (λ x. lookup x m ≡ none) ((bytes_eq_iff id i).0 q) d.0, e)
    | inr q ↦ rw q e
  ])),
)

pub stored-expire :
    (now : ℕ) (j filter : Bytes) (st : Store)
    → IsStore st
    → Distinct st.by_id
    → stored j filter (expire now st).1
      ≡ (if contains j (expire now st).0 then none else stored j filter st)
unfolding expire contains
stored-expire now j filter st v d = elim (Bool-cases (st.limits.offline_ttl == 0)) [
  | inl q ↦ rw (expire, q) refl
  | inr q ↦
      rw (expire, q)
        (stored-expire_loop st.by_id now j filter st v
          (Distinct-AreNamed st.by_id st d (λ id ref e. IsStore-IsNamed id ref st v e)))
]
