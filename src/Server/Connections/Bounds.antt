-- ===== src/Server/Connections/Bounds.antt =====
-- internal/server/server.go: the counts of connections and handshakes against their limits.
use orb_mq.Base.{
  ℕ, suc, ◌+◌, ◌≤◌, Map, nat_eq, lookup, insert, delete, Distinct, Distinct-insert, Distinct-delete,
  delete_absent, length-insert, length-delete-le, Bool, Bool-cases, if_rule, Option-cases, true,
  false, leb, ◌==◌, if◌then◌else◌, [], ◌∷◌, Option, none, some, length, ◌≡◌, refl, arith, inl, inr,
  ◌∙◌, subst, ==_iff,
}
use orb_mq.Server.Connections.{
  ConnectionLimits, Snapshot, Group, no_connections, Start, start, is_handshaking, finish,
  complete_handshake,
}

-- The connections whose handshake lasts.
unfoldable pub handshaking : Map ℕ Bool → ℕ
handshaking [] = 0
handshaking ((conn, b) ∷ m) = (if b then 1 else 0) + handshaking m

abbrev weight : Option Bool → ℕ
weight none = 0
weight (some b) = if b then 1 else 0

handshaking-insert :
    (conn : ℕ) (b : Bool) (m : Map ℕ Bool)
    → handshaking (insert conn b m) + weight (lookup conn m) ≡ handshaking m + (if b then 1 else 0)
unfolding handshaking insert lookup
handshaking-insert conn b [] = omega arith
handshaking-insert conn b ((j, c) ∷ m) = elim (Bool-cases (j == conn)) [
  | inl q ↦ rw q (omega arith)
  | inr q ↦ rw q (omega (arith, handshaking-insert conn b m))
]

handshaking-delete :
    (conn : ℕ) (m : Map ℕ Bool)
    → Distinct m
    → handshaking (delete conn m) + weight (lookup conn m) ≡ handshaking m
unfolding handshaking delete lookup
handshaking-delete conn [] d = omega arith
handshaking-delete conn ((j, c) ∷ m) d = elim (Bool-cases (j == conn)) [
  | inl q ↦
      let absent : lookup conn m ≡ none =
        subst (λ i. lookup i m ≡ none) ((==_iff j conn).0 q) d.0 in
      rw (q, delete_absent conn m absent) (omega arith)
  | inr q ↦ rw q (omega (arith, handshaking-delete conn m d.1))
]

-- The count of handshakes is that of the map, and both limits are kept.
pub record IsGroup (l : ConnectionLimits) (g : Group) : Type 0 where
  pub distinct : Distinct g.connections
  pub handshakes : g.stats.handshakes ≡ handshaking g.connections
  pub connections_bound : length g.connections ≤ l.max_connections
  pub handshakes_bound : g.stats.handshakes ≤ l.max_handshakes

-- Any sequence of events: a new connection comes, a handshake is completed, a handler returns.
pub data Runs (l : ConnectionLimits) : Group → Type 0 where
  idle : Runs l no_connections
  comes :
      {g : Group} (ended : Bool) (conn : ℕ)
      → lookup conn g.connections ≡ none
      → Runs l g
      → Runs l (start ended conn l g).1
  completes : {g : Group} (conn : ℕ) → Runs l g → Runs l (complete_handshake conn g)
  returns : {g : Group} (conn : ℕ) → Runs l g → Runs l (finish conn g)

-- Counting a rejection is no matter of the invariant.
restated-IsGroup :
    (l : ConnectionLimits) (g : Group) (t : Snapshot)
    → t.handshakes ≡ g.stats.handshakes
    → IsGroup l g
    → IsGroup l (record g { stats = t })
restated-IsGroup l g t e v = record {
  distinct = v.distinct;
  handshakes = e ∙ v.handshakes;
  connections_bound = v.connections_bound;
  handshakes_bound = omega (arith, e, v.handshakes_bound);
}

start-IsGroup :
    (l : ConnectionLimits) (ended : Bool) (conn : ℕ) (g : Group)
    → lookup conn g.connections ≡ none
    → IsGroup l g
    → IsGroup l (start ended conn l g).1
unfolding start
start-IsGroup l ended conn g absent v =
    if_rule P ended _ _ (λ _. v)
      (λ _.
        if_rule P (leb l.max_connections (length g.connections)) _ _
          (λ _. restated-IsGroup l g _ refl v)
          (λ a.
            if_rule P (leb l.max_handshakes g.stats.handshakes) _ _
              (λ _. restated-IsGroup l g _ refl v)
              (λ b. record {
                distinct = Distinct-insert conn true g.connections v.distinct;
                handshakes = omega (arith, v.handshakes, added);
                connections_bound = ground (arith, more, a);
                handshakes_bound = ground (arith, b);
              })))
  where
    P : Start × Group → Type 0
    P r = IsGroup l r.1

    added : handshaking (insert conn true g.connections) ≡ handshaking g.connections + 1
    added = omega (arith, rw absent at (handshaking-insert conn true g.connections))

    more : length (insert conn true g.connections) ≡ suc (length g.connections)
    more = rw absent at (length-insert conn true g.connections)

weight-handshaking :
    (conn : ℕ) (g : Group)
    → weight (lookup conn g.connections) ≡ (if is_handshaking conn g then 1 else 0)
unfolding is_handshaking
weight-handshaking conn g = elim (Option-cases (lookup conn g.connections)) [
  | inl e ↦ rw (is_handshaking, e) refl
  | inr (b, e) ↦ rw (is_handshaking, e) refl
]

finish-IsGroup :
    (l : ConnectionLimits) (conn : ℕ) (g : Group) → IsGroup l g → IsGroup l (finish conn g)
unfolding finish
finish-IsGroup l conn g v =
    let fewer = handshaking-delete conn g.connections v.distinct in
    if_rule (λ (h : Group). IsGroup l (record h { connections = delete conn g.connections }))
      (is_handshaking conn g) _ _
      (λ q. record {
        distinct = Distinct-delete conn g.connections v.distinct;
        handshakes = omega (arith, v.handshakes, fewer, rw q at (weight-handshaking conn g));
        connections_bound = omega (arith, v.connections_bound, length-delete-le conn g.connections);
        handshakes_bound = omega (arith, v.handshakes_bound);
      })
      (λ q. record {
        distinct = Distinct-delete conn g.connections v.distinct;
        handshakes = omega (arith, v.handshakes, fewer, rw q at (weight-handshaking conn g));
        connections_bound = omega (arith, v.connections_bound, length-delete-le conn g.connections);
        handshakes_bound = v.handshakes_bound;
      })

known_length :
    (conn : ℕ) (g : Group)
    → is_handshaking conn g ≡ true
    → length (insert conn false g.connections) ≡ length g.connections
unfolding is_handshaking
known_length conn g q = elim (Option-cases (lookup conn g.connections)) [
  | inl e ↦ cc (rw (is_handshaking, e) at q)
  | inr (b, e) ↦ rw e at (length-insert conn false g.connections)
]

complete_handshake-IsGroup :
    (l : ConnectionLimits) (conn : ℕ) (g : Group)
    → IsGroup l g
    → IsGroup l (complete_handshake conn g)
unfolding complete_handshake
complete_handshake-IsGroup l conn g v =
    if_rule (IsGroup l) (is_handshaking conn g) _ _
      (λ q. record {
        distinct = Distinct-insert conn false g.connections v.distinct;
        handshakes = omega (
          arith,
          v.handshakes,
          handshaking-insert conn false g.connections,
          rw q at (weight-handshaking conn g),
        );
        connections_bound = omega (arith, v.connections_bound, known_length conn g q);
        handshakes_bound = omega (arith, v.handshakes_bound);
      })
      (λ _. v)

-- Whatever the events, there are never more connections, nor more handshakes, than the limits allow,
-- and the handshakes counted are the connections whose handshake lasts. A connection that comes is
-- a new one.
pub Runs-IsGroup : (l : ConnectionLimits) (g : Group) → Runs l g → IsGroup l g
unfolding handshaking
Runs-IsGroup l _ idle = record {
  distinct = tt;
  handshakes = refl;
  connections_bound = omega arith;
  handshakes_bound = omega arith;
}
Runs-IsGroup l _ (comes {g} ended conn absent r) =
    start-IsGroup l ended conn g absent (Runs-IsGroup l g r)
Runs-IsGroup l _ (completes {g} conn r) = complete_handshake-IsGroup l conn g (Runs-IsGroup l g r)
Runs-IsGroup l _ (returns {g} conn r) = finish-IsGroup l conn g (Runs-IsGroup l g r)
