-- ===== src/Session/Queue/Ids.antt =====
-- internal/session/queue.go: the search of `Next` for an identifier that is not in flight.
use orb_mq.Base.{
  ℕ, zero, suc, ◌+◌, ◌-◌, ◌<◌, Map, lookup, delete, lookup-delete, nat_eq, Option-cases, none, ◌≡◌,
  ◌≢◌, refl, arith, inl, inr, some, ltb, if◌then◌else◌, some_inj, subst, [], ◌∷◌, length,
  length-delete-le,
}
use orb_mq.Session.Queue.{free_id, next_id, id_fuel}

pub next_id_range : (n : ℕ) → (next_id n < 65536) × (next_id n ≢ 0)
unfolding next_id
next_id_range n = (ground arith, ground arith)

-- What the search finds is an identifier that is not in flight.
pub free_id_sound :
    (fuel : ℕ) (inflight : Map ℕ ℕ) (n k : ℕ)
    → free_id fuel inflight n ≡ some k
    → (lookup k inflight ≡ none) × (k < 65536) × (k ≢ 0)
unfolding free_id
free_id_sound zero inflight n k h = cc
free_id_sound (suc fuel) inflight n k h = elim (Option-cases (lookup (next_id n) inflight)) [
  | inl e ↦
      subst (λ j. (lookup j inflight ≡ none) × (j < 65536) × (j ≢ 0))
        (some_inj (rw (e, free_id) at h)) (e, (next_id_range n).0, (next_id_range n).1)
  | inr (r, e) ↦ free_id_sound fuel inflight (next_id n) k (ground arith)
]

-- How many steps of `next_id` lead from `n` to `j`.
abbrev steps : ℕ → ℕ → ℕ
steps n j = if ltb n j then j - n else (65535 + j) - n

next_id-steps :
    (n j : ℕ)
    → n < 65536
    → j < 65536
    → j ≢ 0
    → 1 < steps n j
    → (next_id n ≢ j) × (steps n j ≡ steps (next_id n) j + 1)
unfolding next_id
next_id-steps n j hn hj nz far = (ground arith, ground arith)

-- A search that stops before it is back at `j` does not see whether `j` is in flight.
free_id-delete :
    (fuel : ℕ) (inflight : Map ℕ ℕ) (n j : ℕ)
    → n < 65536
    → j < 65536
    → j ≢ 0
    → fuel < steps n j
    → free_id fuel (delete j inflight) n ≡ free_id fuel inflight n
unfolding free_id
free_id-delete zero inflight n j hn hj nz far = refl
free_id-delete (suc fuel) inflight n j hn hj nz far =
    let (ne, less) = next_id-steps n j hn hj nz (omega arith) in
    let again =
      free_id-delete fuel inflight (next_id n) j (next_id_range n).0 hj nz (omega (arith, less)) in
    ground (arith, ne, again, lookup-delete j (next_id n) inflight)

length-delete-lt : (k r : ℕ) (m : Map ℕ ℕ) → lookup k m ≡ some r → length (delete k m) < length m
unfolding lookup delete
length-delete-lt k r [] h = cc
length-delete-lt k r ((j, w) ∷ m) h = ground (arith, length-delete-le k m, length-delete-lt k r m)

-- More rounds than there are identifiers in flight are enough.
free_id_found :
    (fuel : ℕ) (inflight : Map ℕ ℕ) (n : ℕ)
    → n < 65536
    → fuel < 65536
    → length inflight < fuel
    → free_id fuel inflight n ≢ none
unfolding free_id
free_id_found zero inflight n hn hf h = omega arith
free_id_found (suc fuel) inflight n hn hf h = elim (Option-cases (lookup (next_id n) inflight)) [
  | inl e ↦ ground arith
  | inr (r, e) ↦
      let k = next_id n in
      let (lt, nz) = next_id_range n in
      let same = free_id-delete fuel inflight k k lt lt nz (ground arith) in
      let found =
        free_id_found fuel (delete k inflight) k lt (omega arith)
          (omega (arith, length-delete-lt k r inflight e)) in
      ground (arith, same, found)
]

free_id_more :
    (fuel : ℕ) (inflight : Map ℕ ℕ) (n k : ℕ)
    → free_id fuel inflight n ≡ some k
    → free_id (suc fuel) inflight n ≡ some k
unfolding free_id
free_id_more zero inflight n k h = cc
free_id_more (suc fuel) inflight n k h = ground (arith, free_id_more fuel inflight (next_id n) k)

-- While fewer than all 65,535 identifiers are in flight, the search finds one that is not in
-- flight.
pub free_id_total :
    (inflight : Map ℕ ℕ) (n : ℕ)
    → n < 65536
    → length inflight < 65535
    → (k : ℕ) × (free_id id_fuel inflight n ≡ some k)
      × (lookup k inflight ≡ none)
      × (k < 65536)
      × (k ≢ 0)
free_id_total inflight n hn h = elim (Option-cases (free_id 65535 inflight n)) [
  | inl e ↦ absurd (free_id_found 65535 inflight n hn (omega arith) h e)
  | inr (k, e) ↦
      let f = free_id_more 65535 inflight n k e in
      let (a, b, c) = free_id_sound id_fuel inflight n k f in (k, f, a, b, c)
]
