-- ===== src/Session/Queue/Send.antt =====
-- What `Next` does to the entry list, whether it sends an entry again or for the first time.
use orb_mq.Base.{
  ℕ, suc, ◌+◌, ◌<◌, lookup, insert, nat_eq, Bool-cases, Option-cases, ◌==◌, ==_iff, List, [], ◌∷◌,
  ◌++◌, none, ◌≡◌, refl, ◌≢◌, arith, inl, inr, ap, sym, ◌∙◌, some, some_inj, length, subst, All,
  insert_absent,
}
use orb_mq.Session.State.{Entry}
use orb_mq.Session.Queue.{first_unsent, find_entry, sent}
use orb_mq.Session.Queue.Entries.{assigned, phase, current, total_bytes, Ordered, IsEntry, Entries}

abbrev pub AllSent : ℕ → List Entry → Type 0
AllSent epoch = All (λ e. e.last_epoch ≡ epoch)

-- The loop of `Next` splits the queue at the first entry that this epoch has not sent.
pub first_unsent_splits :
    (epoch : ℕ) (es before : List Entry) (m : Entry) (after : List Entry)
    → first_unsent epoch es ≡ some (before, m, after)
    → (es ≡ before ++ m ∷ after) × AllSent epoch before × (m.last_epoch ≢ epoch)
unfolding first_unsent
first_unsent_splits epoch [] before m after h = cc
first_unsent_splits epoch (e ∷ es) before m after h = elim (Bool-cases (e.last_epoch == epoch)) [
  | inl q ↦ elim (Option-cases (first_unsent epoch es)) [
    | inl n ↦ cc (rw (q, n) at h)
    | inr ((b, k, a), n) ↦
        let (s, p, r) = first_unsent_splits epoch es b k a n in
        subst Splits (some_inj (rw (q, n) at h)) (ap (◌∷◌ e) s, ((==_iff _ _).0 q, p), r)
  ]
  | inr q ↦ subst Splits (some_inj (rw q at h)) (refl, tt, ground arith)
]
  where
    Splits : List Entry × Entry × List Entry → Type 0
    Splits p = (e ∷ es ≡ p.0 ++ p.1 ∷ p.2) × AllSent epoch p.0 × (p.1.last_epoch ≢ epoch)

module _ (epoch : ℕ) where
  pub assigned-append : (xs ys : List Entry) → assigned (xs ++ ys) ≡ assigned xs ++ assigned ys
  unfolding assigned
  assigned-append [] ys = refl
  assigned-append (x ∷ xs) ys = ground (arith, assigned-append xs ys)

  -- Behind an entry that was never sent there is none that was.
  pub assigned_behind : (es : List Entry) → Ordered epoch 2 es → assigned es ≡ []
  unfolding assigned
  assigned_behind [] o = refl
  assigned_behind (e ∷ es) o = ground (arith, assigned_behind es)

  current_behind :
      (low : ℕ) (es : List Entry) → 0 < low → Ordered epoch low es → current epoch es ≡ 0
  unfolding current
  current_behind low [] h o = refl
  current_behind low (e ∷ es) h o = ground (arith, current_behind (phase epoch e) es)

  Ordered-low : (low : ℕ) (es : List Entry) → Ordered epoch low es → Ordered epoch 0 es
  Ordered-low low [] o = tt
  Ordered-low low (e ∷ es) o = (omega arith, o.1)

phase_sent :
    (epoch : ℕ) (e : Entry) → 0 < epoch → e.last_epoch ≡ epoch → IsEntry epoch e → phase epoch e ≡ 0
phase_sent epoch e pos s h = ground (arith, h.unsent)

module _ (epoch limit : ℕ) (m : Entry) (after : List Entry) (new_id : ℕ) where
  abbrev pub moved : List Entry
  moved = sent m new_id epoch ∷ after

  pub length-moved : (before : List Entry) → length (before ++ moved) ≡ length (before ++ m ∷ after)
  length-moved [] = refl
  length-moved (e ∷ es) = ap suc (length-moved es)

  pub total_bytes-moved :
      (before : List Entry) → total_bytes (before ++ moved) ≡ total_bytes (before ++ m ∷ after)
  unfolding total_bytes
  total_bytes-moved [] = refl
  total_bytes-moved (e ∷ es) = ap (◌+◌ (length e.packet)) (total_bytes-moved es)

  find_entry-moved :
      (r : ℕ) (before : List Entry)
      → find_entry r (before ++ m ∷ after) ≡ none
      → find_entry r (before ++ moved) ≡ none
  unfolding find_entry
  find_entry-moved r [] h = ground arith
  find_entry-moved r (e ∷ es) h = ground (arith, find_entry-moved r es)

  pub Entries-moved :
      (before : List Entry)
      → 0 < epoch
      → new_id < 65536
      → new_id ≢ 0
      → Entries epoch limit (before ++ m ∷ after)
      → Entries epoch limit (before ++ moved)
  Entries-moved [] pos lt nz h = (
    record { not_ahead = omega arith; id_range = lt; unsent = ground arith; queued = h.0.queued },
    h.1,
    h.2,
    h.3,
  )
  Entries-moved (e ∷ es) pos lt nz h =
      (h.0, h.1, find_entry-moved e.ref es h.2, Entries-moved es pos lt nz h.3)

  phase-sent : 0 < epoch → new_id ≢ 0 → phase epoch (sent m new_id epoch) ≡ 0
  phase-sent pos nz = ground arith

  -- All that stands before is sent in this epoch, so it has phase 0.
  pub Ordered-moved :
      (before : List Entry)
      → 0 < epoch
      → new_id ≢ 0
      → AllSent epoch before
      → Entries epoch limit (before ++ m ∷ after)
      → Ordered epoch 0 (before ++ m ∷ after)
      → Ordered epoch 0 (before ++ moved)
  Ordered-moved [] pos nz s h o =
      (omega arith, rw (phase-sent pos nz) (Ordered-low epoch (phase epoch m) after o.1))
  Ordered-moved (e ∷ es) pos nz s h o =
      let p = phase_sent epoch e pos s.0 h.0 in
      (
        omega arith,
        rw p (
            Ordered-moved es pos nz s.1 h.3 (subst (λ k. Ordered epoch k (es ++ m ∷ after)) p o.1)),
      )

  pub current-moved :
      (before : List Entry)
      → new_id ≢ 0
      → m.last_epoch ≢ epoch
      → current epoch (before ++ moved) ≡ current epoch (before ++ m ∷ after) + 1
  unfolding current
  current-moved [] nz ne = ground arith
  current-moved (e ∷ es) nz ne = omega (arith, current-moved es nz ne)

  -- Sent again, an entry keeps its identifier.
  pub assigned-resent :
      (before : List Entry)
      → new_id ≡ m.packet_id
      → assigned (before ++ moved) ≡ assigned (before ++ m ∷ after)
  unfolding assigned
  assigned-resent [] e = ground arith
  assigned-resent (x ∷ before) e = ground (arith, assigned-resent before e)

  unsent_phase : m.packet_id ≡ 0 → phase epoch m ≡ 2
  unsent_phase z = ground arith

  -- For the first time sent, it has none yet, and neither has what stands behind it.
  pub assigned_first :
      (before : List Entry)
      → m.packet_id ≡ 0
      → Ordered epoch 0 (before ++ m ∷ after)
      → assigned (before ++ m ∷ after) ≡ assigned before
  unfolding assigned
  assigned_first [] z o = ground (
    arith,
    assigned_behind epoch after,
    z,
    subst (λ k. Ordered epoch k after) (unsent_phase z) o.1,
  )
  assigned_first (e ∷ es) z o =
      ground (arith, assigned_first es z (Ordered-low epoch (phase epoch e) _ o.1))

  pub length-assigned_first :
      (before : List Entry)
      → 0 < epoch
      → m.packet_id ≡ 0
      → AllSent epoch before
      → Entries epoch limit (before ++ m ∷ after)
      → Ordered epoch 0 (before ++ m ∷ after)
      → length (assigned (before ++ m ∷ after)) ≡ current epoch (before ++ m ∷ after)
  unfolding assigned current
  length-assigned_first [] pos z s h o =
      let o' = subst (λ k. Ordered epoch k after) (unsent_phase z) o.1 in
      ground
        (arith, assigned_behind epoch after o', z, current_behind epoch 2 after (omega arith) o')
  length-assigned_first (e ∷ es) pos z s h o = ground (
    arith,
    length-assigned_first es pos z s.1 h.3 (Ordered-low epoch (phase epoch e) _ o.1),
    phase_sent epoch e pos s.0 h.0,
  )

  assigned_new : new_id ≢ 0 → assigned after ≡ [] → assigned moved ≡ (new_id, m.ref) ∷ []
  unfolding assigned
  assigned_new nz e = ground arith

  Ordered-behind :
      (before : List Entry)
      → m.packet_id ≡ 0
      → Ordered epoch 0 (before ++ m ∷ after)
      → Ordered epoch 2 after
  Ordered-behind [] z o = subst (λ k. Ordered epoch k after) (unsent_phase z) o.1
  Ordered-behind (e ∷ es) z o = Ordered-behind es z (Ordered-low epoch (phase epoch e) _ o.1)

  -- The first time, the new identifier joins those in use.
  pub assigned-sent :
      (before : List Entry)
      → m.packet_id ≡ 0
      → new_id ≢ 0
      → Ordered epoch 0 (before ++ m ∷ after)
      → lookup new_id (assigned (before ++ m ∷ after)) ≡ none
      → assigned (before ++ moved) ≡ insert new_id m.ref (assigned (before ++ m ∷ after))
  assigned-sent before z nz o h =
      let old = assigned_first before z o in
      assigned-append epoch before moved
      ∙ (ap (◌++◌ (assigned before))
            (assigned_new nz (assigned_behind epoch after (Ordered-behind before z o)))
          ∙ sym (
              ap (insert new_id m.ref) old
              ∙ insert_absent new_id m.ref (assigned before)
                  (subst (λ a. lookup new_id a ≡ none) old h)))

pub Entries-middle :
    (epoch limit : ℕ) (before : List Entry) (m : Entry) (after : List Entry)
    → Entries epoch limit (before ++ m ∷ after)
    → IsEntry epoch m
Entries-middle epoch limit [] m after h = h.0
Entries-middle epoch limit (e ∷ es) m after h = Entries-middle epoch limit es m after h.3
