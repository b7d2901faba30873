-- ===== src/Server/Sessions/Held.antt =====
-- internal/session/store.go: the session that a connection holds, through the store's operations.
use orb_mq.Base.{
  ℕ, Bytes, bytes_eq, bytes_eq_iff, bytes_Eq, nat_eq, ==_iff, Map, lookup, insert,
  lookup-insert_self, lookup-insert_other, lookup-delete_other, Distinct, Distinct-insert,
  Distinct-delete, Bool-cases, Option-cases, true, false, not, leb, ◌==◌, [], ◌∷◌, none, some,
  some_inj, length, ◌≡◌, inl, inr, refl, arith, subst, sym, ap, ◌∙◌,
}
use orb_mq.Session.State.{State, Cell}
use orb_mq.Session.Store.{
  Store, put_cell, new_state, removed, owner_of, find, delete_session, get_or_create_owned, is_kept,
  expire_locked, expire_session, expire_loop, expire,
}
use orb_mq.Session.Store.Invariant.{IsStore}
use orb_mq.Session.Store.Lifetimes.{find_inv, expire_locked-IsStore}
use orb_mq.Server.Sessions.Stored.{by_id_injective}
use orb_mq.Server.Sessions.Expiry.{IsStore-IsNamed}

-- The store has the session at `ref` under the identifier, and it is connected.
pub record IsHeld (id : Bytes) (ref : ℕ) (st : Store) : Type 0 where
  pub found : lookup id st.by_id ≡ some ref
  pub state : State
  pub here : lookup ref st.states ≡ some state
  pub connected : state.connected ≡ true

pub delete_session-IsHeld :
    (i id : Bytes) (ref : ℕ) (st : Store)
    → IsStore st
    → ¬ (i ≡ id)
    → IsHeld id ref st
    → IsHeld id ref (delete_session i st)
unfolding delete_session
delete_session-IsHeld i id ref st v apart h = elim (Option-cases (find i st)) [
  | inl e ↦ rw (delete_session, e) h
  | inr ((r, t), e) ↦
      rw (delete_session, e)
        (record {
          found = lookup-delete_other i id st.by_id apart ∙ h.found;
          state = h.state;
          here =
              lookup-insert_other r ref (removed t) st.states (λ same.
                apart
                  (by_id_injective st i id ref v ((find_inv i st r t e).0 ∙ ap some same) h.found))
              ∙ h.here;
          connected = h.connected;
        })
]

kept_connected :
    (st : Store) (s : State) (now : ℕ) → is_kept st.limits s now ≡ false → s.connected ≡ false
unfolding is_kept
kept_connected st s now h = elim (Bool-cases s.connected) [ inl q ↦ ground arith | inr q ↦ q ]

-- Only a session without a connection expires.
pub expire_locked-IsHeld :
    (i : Bytes) (r now : ℕ) (id : Bytes) (ref : ℕ) (st : Store)
    → IsStore st
    → lookup i st.by_id ≡ some r
    → IsHeld id ref st
    → IsHeld id ref (expire_locked r now st).1
unfolding expire_locked
expire_locked-IsHeld i r now id ref st v e h = elim (Option-cases (lookup r st.states)) [
  | inl f ↦ rw (expire_locked, f) h
  | inr (s, f) ↦ elim (Bool-cases (is_kept st.limits s now)) [
    | inl q ↦ rw (expire_locked, f, q) h
    | inr q ↦
        let gone =
          delete_session-IsHeld s.id id ref st v
            (λ same.
              let own = IsStore-IsNamed i r st v e s f in
              let at : r ≡ ref =
                some_inj (sym e ∙ (ap (λ x. lookup x st.by_id) (sym own ∙ same) ∙ h.found)) in
              let two : s ≡ h.state =
                some_inj (sym f ∙ (ap (λ x. lookup x st.states) at ∙ h.here)) in
              clash (sym (kept_connected st s now q) ∙ (ap (λ x. x.connected) two ∙ h.connected)))
            h in
        rw (expire_locked, f, q)
          (record {
            found = gone.found;
            state = gone.state;
            here = gone.here;
            connected = gone.connected;
          })
  ]
]
  where
    clash : false ≡ true → ⊥
    clash p = cc

lookup-expire_locked :
    (i : Bytes) (r now : ℕ) (j : Bytes) (st : Store)
    → IsStore st
    → lookup i st.by_id ≡ some r
    → ¬ (i ≡ j)
    → lookup j (expire_locked r now st).1.by_id ≡ lookup j st.by_id
unfolding expire_locked delete_session
lookup-expire_locked i r now j st v e apart = elim (Option-cases (lookup r st.states)) [
  | inl f ↦ rw (expire_locked, f) refl
  | inr (s, f) ↦ elim (Bool-cases (is_kept st.limits s now)) [
    | inl q ↦ rw (expire_locked, f, q) refl
    | inr q ↦
        let own = IsStore-IsNamed i r st v e s f in
        elim (Option-cases (find s.id st)) [
          | inl n ↦ rw (expire_locked, f, q, delete_session, n) refl
          | inr ((t, u), n) ↦
              rw (expire_locked, f, q, delete_session, n)
                (lookup-delete_other s.id j st.by_id (λ p. apart (sym own ∙ p)))
        ]
  ]
]

-- The pairs of a map that the loop goes through are in the store.
abbrev IsPart : Map Bytes ℕ → Store → Type 0
IsPart m st = (i : Bytes) (r : ℕ) → lookup i m ≡ some r → lookup i st.by_id ≡ some r

expire_loop-IsHeld :
    (m : Map Bytes ℕ) (now : ℕ) (id : Bytes) (ref : ℕ) (st : Store)
    → IsStore st
    → Distinct m
    → IsPart m st
    → IsHeld id ref st
    → IsHeld id ref (expire_loop m now st).1
unfolding expire_loop lookup
expire_loop-IsHeld [] now id ref st v d p h = h
expire_loop-IsHeld ((i, r) ∷ m) now id ref st v d p h =
    let here = p i r (ground (arith, bytes_eq_iff i i)) in
    expire_loop-IsHeld m now id ref (expire_locked r now st).1 (expire_locked-IsStore r now st v)
      d.1
      (λ j q e.
        let apart : ¬ (i ≡ j) = λ same. cc (subst (λ x. lookup x m ≡ none) same d.0, e) in
        lookup-expire_locked i r now j st v here apart
        ∙ p j q (elim (Bool-cases (bytes_eq i j)) [
          | inl z ↦ absurd (apart ((bytes_eq_iff i j).0 z))
          | inr z ↦ rw z e
        ]))
      (expire_locked-IsHeld i r now id ref st v here h)

pub expire-IsHeld :
    (now : ℕ) (id : Bytes) (ref : ℕ) (st : Store)
    → IsStore st
    → Distinct st.by_id
    → IsHeld id ref st
    → IsHeld id ref (expire now st).1
unfolding expire
expire-IsHeld now id ref st v d h = elim (Bool-cases (st.limits.offline_ttl == 0)) [
  | inl q ↦ rw (expire, q) h
  | inr q ↦ rw (expire, q) (expire_loop-IsHeld st.by_id now id ref st v d (λ i r e. e) h)
]

pub get_or_create_owned-IsHeld :
    (i owner : Bytes) (now : ℕ) (id : Bytes) (ref : ℕ) (st : Store)
    → IsStore st
    → IsHeld id ref st
    → IsHeld id ref (get_or_create_owned i owner now st).1
unfolding get_or_create_owned
get_or_create_owned-IsHeld i owner now id ref st v h = elim (Option-cases (lookup i st.by_id)) [
  | inr (r, e) ↦ elim (Bool-cases (not (bytes_eq (owner_of r st) owner))) [
    | inl q ↦ rw (get_or_create_owned, e, q) h
    | inr q ↦ rw (get_or_create_owned, e, q) h
  ]
  | inl e ↦ elim (Bool-cases (leb st.limits.max_sessions (length st.by_id))) [
    | inl q ↦
        rw (get_or_create_owned, e, q)
          (record { found = h.found; state = h.state; here = h.here; connected = h.connected })
    | inr q ↦
        rw (get_or_create_owned, e, q)
          (record {
            found =
                lookup-insert_other i id st.next_state st.by_id
                  (λ p. taken (sym (subst (λ x. lookup x st.by_id ≡ none) p e) ∙ h.found))
                ∙ h.found;
            state = h.state;
            here =
                lookup-insert_other st.next_state ref (new_state i owner now) st.states (λ p.
                  unused (
                    sym (
                      subst (λ x. lookup x st.states ≡ none) p
                        (v.fresh st.next_state (omega arith)))
                    ∙ h.here))
                ∙ h.here;
            connected = h.connected;
          })
  ]
]
  where
    taken : none ≡ some ref → ⊥
    taken p = cc

    unused : none ≡ some h.state → ⊥
    unused p = cc

-- A method on another session, or one that leaves the connection alone.
pub put_cell-IsHeld :
    (r : ℕ) (c : Cell) (id : Bytes) (ref : ℕ) (st : Store)
    → (r ≡ ref → c.state.connected ≡ true)
    → IsHeld id ref st
    → IsHeld id ref (put_cell r c st)
put_cell-IsHeld r c id ref st f h = elim (Bool-cases (r == ref)) [
  | inl q ↦
      let same = (==_iff r ref).0 q in
      record {
        found = h.found;
        state = c.state;
        here =
            subst (λ x. lookup x (insert r c.state st.states) ≡ some c.state) same
              (lookup-insert_self r c.state st.states);
        connected = f same;
      }
  | inr q ↦ record {
    found = h.found;
    state = h.state;
    here = lookup-insert_other r ref c.state st.states (λ p. ground (arith, p)) ∙ h.here;
    connected = h.connected;
  }
]

-- No identifier stands twice in the map of sessions.
pub delete_session-Distinct :
    (id : Bytes) (st : Store) → Distinct st.by_id → Distinct (delete_session id st).by_id
unfolding delete_session
delete_session-Distinct id st d = elim (Option-cases (find id st)) [
  | inl e ↦ rw (delete_session, e) d
  | inr ((ref, s), e) ↦ rw (delete_session, e) (Distinct-delete id st.by_id d)
]

expire_locked-Distinct :
    (ref now : ℕ) (st : Store) → Distinct st.by_id → Distinct (expire_locked ref now st).1.by_id
unfolding expire_locked
expire_locked-Distinct ref now st d = elim (Option-cases (lookup ref st.states)) [
  | inl e ↦ rw (expire_locked, e) d
  | inr (s, e) ↦ elim (Bool-cases (is_kept st.limits s now)) [
    | inl q ↦ rw (expire_locked, e, q) d
    | inr q ↦ rw (expire_locked, e, q) (delete_session-Distinct s.id st d)
  ]
]

pub expire_session-Distinct :
    (id : Bytes) (now : ℕ) (st : Store)
    → Distinct st.by_id
    → Distinct (expire_session id now st).1.by_id
unfolding expire_session
expire_session-Distinct id now st d = elim (Option-cases (lookup id st.by_id)) [
  | inl e ↦ rw (expire_session, e) d
  | inr (ref, e) ↦ rw (expire_session, e) (expire_locked-Distinct ref now st d)
]

expire_loop-Distinct :
    (m : Map Bytes ℕ) (now : ℕ) (st : Store)
    → Distinct st.by_id
    → Distinct (expire_loop m now st).1.by_id
unfolding expire_loop
expire_loop-Distinct [] now st d = d
expire_loop-Distinct ((id, ref) ∷ m) now st d =
    expire_loop-Distinct m now (expire_locked ref now st).1 (expire_locked-Distinct ref now st d)

pub expire-Distinct : (now : ℕ) (st : Store) → Distinct st.by_id → Distinct (expire now st).1.by_id
unfolding expire
expire-Distinct now st d = elim (Bool-cases (st.limits.offline_ttl == 0)) [
  | inl q ↦ rw (expire, q) d
  | inr q ↦ rw (expire, q) (expire_loop-Distinct st.by_id now st d)
]

pub get_or_create_owned-Distinct :
    (id owner : Bytes) (now : ℕ) (st : Store)
    → Distinct st.by_id
    → Distinct (get_or_create_owned id owner now st).1.by_id
unfolding get_or_create_owned
get_or_create_owned-Distinct id owner now st d = elim (Option-cases (lookup id st.by_id)) [
  | inr (r, e) ↦ elim (Bool-cases (not (bytes_eq (owner_of r st) owner))) [
    | inl q ↦ rw (get_or_create_owned, e, q) d
    | inr q ↦ rw (get_or_create_owned, e, q) d
  ]
  | inl e ↦ elim (Bool-cases (leb st.limits.max_sessions (length st.by_id))) [
    | inl q ↦ rw (get_or_create_owned, e, q) d
    | inr q ↦ rw (get_or_create_owned, e, q) (Distinct-insert id st.next_state st.by_id d)
  ]
]
