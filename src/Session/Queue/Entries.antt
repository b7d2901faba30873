-- ===== src/Session/Queue/Entries.antt =====
-- Measures of the entry list, and what the loops of `Next` and `Ack` do to them.
use orb_mq.Base.{
  ℕ, ◌+◌, ◌≤◌, ◌<◌, Map, lookup, delete, nat_eq, Bool-cases, Distinct, ◌||◌, not, delete_absent,
  ◌==◌, ==_iff, if◌then◌else◌, List, [], ◌∷◌, none, true, ◌≡◌, refl, ◌≢◌, arith, inl, inr, some,
  length,
}
use orb_mq.Session.State.{Entry}
use orb_mq.Session.Queue.{is_queued_publish, find_entry, remove_entry}

-- The identifiers in use, each with its entry's address.
unfoldable pub assigned : List Entry → Map ℕ ℕ
assigned [] = []
assigned (e ∷ es) = if e.packet_id == 0 then assigned es else (e.packet_id, e.ref) ∷ assigned es

-- How far an entry is: 0 sent in this epoch, 1 sent in an earlier one, 2 never sent.
abbrev pub phase : ℕ → Entry → ℕ
phase epoch e = if e.packet_id == 0 then 2 else if e.last_epoch == epoch then 0 else 1

-- How many entries this epoch has sent.
unfoldable pub current : ℕ → List Entry → ℕ
current epoch [] = 0
current epoch (e ∷ es) = (if phase epoch e == 0 then 1 else 0) + current epoch es

unfoldable pub total_bytes : List Entry → ℕ
total_bytes [] = 0
total_bytes (e ∷ es) = length e.packet + total_bytes es

-- The phases do not fall along the queue: what was sent stands before what was not.
abbrev pub Ordered : ℕ → ℕ → List Entry → Type 0
Ordered epoch low [] = Unit {0}
Ordered epoch low (e ∷ es) = (low ≤ phase epoch e) × Ordered epoch (phase epoch e) es

-- An entry's epoch is not ahead, and is 0 exactly until the entry has an identifier. Its packet is a
-- PUBLISH of QoS 1 with room for the identifier at the offset.
pub record IsEntry (epoch : ℕ) (e : Entry) : Type 0 where
  pub not_ahead : e.last_epoch ≤ epoch
  pub id_range : e.packet_id < 65536
  pub unsent : (e.packet_id == 0) ≡ (e.last_epoch == 0)
  pub queued : is_queued_publish e.packet e.packet_id_offset ≡ true

-- All entries are such, and no two have one address; addresses are below `limit`.
abbrev pub Entries : ℕ → ℕ → List Entry → Type 0
Entries epoch limit [] = Unit {0}
Entries epoch limit (e ∷ es) =
    IsEntry epoch e × (e.ref < limit) × (find_entry e.ref es ≡ none) × Entries epoch limit es

module _ (epoch : ℕ) where
  Ordered-mono :
      (low low' : ℕ) (es : List Entry) → low' ≤ low → Ordered epoch low es → Ordered epoch low' es
  Ordered-mono low low' [] h o = tt
  Ordered-mono low low' (e ∷ es) h o = (omega arith, o.1)

  pub Ordered-remove_entry :
      (low ref : ℕ) (es : List Entry)
      → Ordered epoch low es
      → Ordered epoch low (remove_entry ref es)
  unfolding remove_entry
  Ordered-remove_entry low ref [] o = tt
  Ordered-remove_entry low ref (e ∷ es) o = elim (Bool-cases (e.ref == ref)) [
    | inl q ↦ rw q (Ordered-mono (phase epoch e) low es o.0 o.1)
    | inr q ↦ rw q (o.0, Ordered-remove_entry (phase epoch e) ref es o.1)
  ]

  pub current-remove_entry :
      (ref : ℕ) (es : List Entry) (m : Entry)
      → find_entry ref es ≡ some m
      → current epoch es
        ≡ (if phase epoch m == 0 then 1 else 0) + current epoch (remove_entry ref es)
  unfolding remove_entry find_entry current
  current-remove_entry ref [] m h = cc
  current-remove_entry ref (e ∷ es) m h = ground (arith, current-remove_entry ref es m)

pub length-remove_entry :
    (ref : ℕ) (es : List Entry) (m : Entry)
    → find_entry ref es ≡ some m
    → length es ≡ 1 + length (remove_entry ref es)
unfolding remove_entry find_entry
length-remove_entry ref [] m h = cc
length-remove_entry ref (e ∷ es) m h = ground (arith, length-remove_entry ref es m)

pub total_bytes-remove_entry :
    (ref : ℕ) (es : List Entry) (m : Entry)
    → find_entry ref es ≡ some m
    → total_bytes es ≡ length m.packet + total_bytes (remove_entry ref es)
unfolding remove_entry find_entry total_bytes
total_bytes-remove_entry ref [] m h = cc
total_bytes-remove_entry ref (e ∷ es) m h = ground (arith, total_bytes-remove_entry ref es m)

find_entry-remove_entry :
    (r ref : ℕ) (es : List Entry)
    → find_entry r es ≡ none
    → find_entry r (remove_entry ref es) ≡ none
unfolding remove_entry find_entry
find_entry-remove_entry r ref [] h = refl
find_entry-remove_entry r ref (e ∷ es) h = ground (arith, find_entry-remove_entry r ref es)

pub Entries-remove_entry :
    (epoch limit ref : ℕ) (es : List Entry)
    → Entries epoch limit es
    → Entries epoch limit (remove_entry ref es)
unfolding remove_entry
Entries-remove_entry epoch limit ref [] h = tt
Entries-remove_entry epoch limit ref (e ∷ es) h = elim (Bool-cases (e.ref == ref)) [
  | inl q ↦ rw q h.3
  | inr q ↦ rw q (
    h.0,
    h.1,
    find_entry-remove_entry e.ref ref es h.2,
    Entries-remove_entry epoch limit ref es h.3,
  )
]

pub find_entry-ref :
    (ref : ℕ) (es : List Entry) (m : Entry) → find_entry ref es ≡ some m → m.ref ≡ ref
unfolding find_entry
find_entry-ref ref [] m h = cc
find_entry-ref ref (e ∷ es) m h = ground (arith, find_entry-ref ref es m)

-- An identifier in flight leads to the entry that has it.
pub find_entry-assigned :
    (epoch limit id ref : ℕ) (es : List Entry)
    → Entries epoch limit es
    → lookup id (assigned es) ≡ some ref
    → (m : Entry) × (find_entry ref es ≡ some m) × (m.packet_id ≡ id) × (m.packet_id ≢ 0)
unfolding assigned find_entry lookup
find_entry-assigned epoch limit id ref [] h e = cc
find_entry-assigned epoch limit id ref (x ∷ es) h e =
    elim (Bool-cases (x.packet_id == 0 || not (x.packet_id == id))) [
      | inl q ↦
          let (m, f, p, z) = find_entry-assigned epoch limit id ref es h.3 (ground arith) in
          (m, ground (arith, (==_iff x.ref ref)), p, z)
      | inr q ↦ (x, ground arith, ground arith, ground arith)
    ]

lookup-assigned_ne_none :
    (ref : ℕ) (es : List Entry) (m : Entry)
    → find_entry ref es ≡ some m
    → m.packet_id ≢ 0
    → lookup m.packet_id (assigned es) ≢ none
unfolding assigned find_entry lookup
lookup-assigned_ne_none ref [] m e z n = cc
lookup-assigned_ne_none ref (x ∷ es) m e z n = ground (arith, lookup-assigned_ne_none ref es m)

-- Taking the acknowledged entry out takes its identifier out of the identifiers in use.
pub assigned-remove_entry :
    (epoch limit id ref : ℕ) (es : List Entry) (m : Entry)
    → Entries epoch limit es
    → Distinct (assigned es)
    → find_entry ref es ≡ some m
    → m.packet_id ≡ id
    → id ≢ 0
    → assigned (remove_entry ref es) ≡ delete id (assigned es)
unfolding assigned find_entry remove_entry delete
assigned-remove_entry epoch limit id ref [] m h d e p q = cc
assigned-remove_entry epoch limit id ref (x ∷ es) m h d e p q = elim (Bool-cases (x.ref == ref)) [
  | inl r ↦ ground (arith, delete_absent id (assigned es))
  | inr r ↦ elim (Bool-cases (x.packet_id == 0)) [
    | inl z ↦ ground (arith, assigned-remove_entry epoch limit id ref es m h.3)
    | inr z ↦
        ground (
          arith,
          assigned-remove_entry epoch limit id ref es m h.3,
          lookup-assigned_ne_none ref es m,
        )
  ]
]
