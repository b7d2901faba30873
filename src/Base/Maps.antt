-- ===== src/Base/Maps.antt =====
-- Go maps as association lists. A key that is assigned keeps its place; a new one goes to the end.

use mathlib.Core.Path.{◌≡◌, refl, subst, ap, sym, ◌∙◌}
use mathlib.Core.Logic.{inl, inr, ◌⊎◌}
use mathlib.Core.Bool.{false}
use orb_mq.Base.Lists.{All, length}
use Prim.Native.Nat.{◌≤◌}
use mathlib.Core.Option.{Option, none, some}
use mathlib.Core.List.{List, [], ◌∷◌, ◌++◌}
use native.Mathlib.Omega.{arith}
use orb_mq.Base.Tests.{if◌then◌else◌, Eq, Bool-cases, Option-cases, some_inj}
use Prim.Native.Nat.{suc}

abbrev pub Map {ℓ κ} : Type ℓ → Type κ → Type (ℓ ⊔ κ)
Map K V = List (K × V)

module _ {ℓ κ} {K : Type ℓ} {V : Type κ} ⦃e : Eq K⦄ where
  -- `m[k]`; `none` where the key is absent.
  unfoldable pub lookup : K → Map K V → Option V
  lookup k [] = none
  lookup k ((j, v) ∷ m) = if e.beq j k then some v else lookup k m

  -- `m[k] = v`
  unfoldable pub insert : K → V → Map K V → Map K V
  insert k v [] = (k, v) ∷ []
  insert k v ((j, w) ∷ m) = if e.beq j k then (k, v) ∷ m else (j, w) ∷ insert k v m

  -- `delete(m, k)`
  unfoldable pub delete : K → Map K V → Map K V
  delete k [] = []
  delete k ((j, w) ∷ m) = if e.beq j k then delete k m else (j, w) ∷ delete k m

  pub lookup-insert :
      (k j : K) (v : V) (m : Map K V)
      → lookup j (insert k v m) ≡ (if e.beq k j then some v else lookup j m)
  unfolding lookup insert
  lookup-insert k j v [] = refl
  lookup-insert k j v ((i, w) ∷ m) =
      ground (arith, e.beq_iff k j, e.beq_iff i k, e.beq_iff i j, lookup-insert k j v m)

  pub lookup-delete :
      (k j : K) (m : Map K V) → lookup j (delete k m) ≡ (if e.beq k j then none else lookup j m)
  unfolding lookup delete
  lookup-delete k j [] = ground arith
  lookup-delete k j ((i, w) ∷ m) =
      ground (arith, e.beq_iff k j, e.beq_iff i k, e.beq_iff i j, lookup-delete k j m)

  -- No key stands twice.
  abbrev pub Distinct : Map K V → Type (ℓ ⊔ κ)
  Distinct [] = Unit
  Distinct ((k, v) ∷ m) = (lookup k m ≡ none) × Distinct m

pub lookup_nil {ℓ κ} : {K : Type ℓ} {V : Type κ} ⦃e : Eq K⦄ (k : K) → lookup {V = V} k [] ≡ none
unfolding lookup
lookup_nil k = refl

module _ {ℓ κ} {K : Type ℓ} {V : Type κ} ⦃e : Eq K⦄ where
  pub Distinct-insert : (k : K) (v : V) (m : Map K V) → Distinct m → Distinct (insert k v m)
  unfolding insert
  Distinct-insert k v [] d = (lookup_nil {V = V} k, tt)
  Distinct-insert k v ((j, w) ∷ m) d = elim (Bool-cases (e.beq j k)) [
    | inl q ↦ rw q (subst (λ i. lookup i m ≡ none) ((e.beq_iff j k).0 q) d.0, d.1)
    | inr q ↦ rw q (absent q d.0, Distinct-insert k v m d.1)
  ]
    where
      absent : e.beq j k ≡ false → lookup j m ≡ none → lookup j (insert k v m) ≡ none
      absent q h = ground (arith, lookup-insert k j v m, e.beq_iff j k, e.beq_iff k j)

  pub Distinct-delete : (k : K) (m : Map K V) → Distinct m → Distinct (delete k m)
  unfolding delete
  Distinct-delete k [] d = tt
  Distinct-delete k ((j, w) ∷ m) d = elim (Bool-cases (e.beq j k)) [
    | inl q ↦ rw q (Distinct-delete k m d.1)
    | inr q ↦ rw q (absent d.0, Distinct-delete k m d.1)
  ]
    where
      absent : lookup j m ≡ none → lookup j (delete k m) ≡ none
      absent h = ground (arith, lookup-delete k j m)

  pub All-insert {μ} :
      (P : K × V → Type μ) (k : K) (v : V) (m : Map K V) → P (k, v) → All P m → All P (insert k v m)
  unfolding insert
  All-insert P k v [] p h = (p, tt)
  All-insert P k v ((j, w) ∷ m) p h = elim (Bool-cases (e.beq j k)) [
    | inl q ↦ rw q (p, h.1)
    | inr q ↦ rw q (h.0, All-insert P k v m p h.1)
  ]

  pub All-delete {μ} : (P : K × V → Type μ) (k : K) (m : Map K V) → All P m → All P (delete k m)
  unfolding delete
  All-delete P k [] h = tt
  All-delete P k ((j, w) ∷ m) h = elim (Bool-cases (e.beq j k)) [
    | inl q ↦ rw q (All-delete P k m h.1)
    | inr q ↦ rw q (h.0, All-delete P k m h.1)
  ]

  pub delete_absent : (k : K) (m : Map K V) → lookup k m ≡ none → delete k m ≡ m
  unfolding lookup delete
  delete_absent k [] h = refl
  delete_absent k ((j, w) ∷ m) h = ground (arith, delete_absent k m)

  pub insert_absent :
      (k : K) (v : V) (m : Map K V) → lookup k m ≡ none → insert k v m ≡ m ++ (k, v) ∷ []
  unfolding lookup insert
  insert_absent k v [] h = refl
  insert_absent k v ((j, w) ∷ m) h = ground (arith, insert_absent k v m)

  pub length-delete-le : (k : K) (m : Map K V) → length (delete k m) ≤ length m
  unfolding delete
  length-delete-le k [] = omega arith
  length-delete-le k ((j, w) ∷ m) = ground (arith, length-delete-le k m)

  pub length-delete :
      (k : K) (v : V) (m : Map K V)
      → Distinct m
      → lookup k m ≡ some v
      → length m ≡ suc (length (delete k m))
  unfolding delete lookup
  length-delete k v [] d h = cc
  length-delete k v ((j, w) ∷ m) d h = elim (Bool-cases (e.beq j k)) [
    | inl q ↦
        rw (q, delete_absent k m (subst (λ i. lookup i m ≡ none) ((e.beq_iff j k).0 q) d.0)) refl
    | inr q ↦ rw q (ap suc (length-delete k v m d.1 (rw q at h)))
  ]

  pub length-insert :
      (k : K) (v : V) (m : Map K V)
      → length (insert k v m) ≡ elim (lookup k m) [ none ↦ suc (length m) | some w ↦ length m ]
  unfolding insert lookup
  length-insert k v [] = refl
  length-insert k v ((j, w) ∷ m) = elim (Bool-cases (e.beq j k)) [
    | inl q ↦ rw q refl
    | inr q ↦ elim (Option-cases (lookup k m)) [
      | inl n ↦ rw (q, n) (ap suc (length-insert k v m ∙ rw n refl))
      | inr (u, n) ↦ rw (q, n) (ap suc (length-insert k v m ∙ rw n refl))
    ]
  ]

  pub lookup-insert_self : (k : K) (v : V) (m : Map K V) → lookup k (insert k v m) ≡ some v
  lookup-insert_self k v m = ground (arith, lookup-insert k k v m, e.beq_iff k k)

  pub lookup-insert_other :
      (k j : K) (v : V) (m : Map K V) → ¬ (k ≡ j) → lookup j (insert k v m) ≡ lookup j m
  lookup-insert_other k j v m h = ground (arith, lookup-insert k j v m, e.beq_iff k j)

  -- What an assignment leaves at a key: the new value at its own, the old one elsewhere.
  pub lookup-insert_inv :
      (k j : K) (v w : V) (m : Map K V)
      → lookup j (insert k v m) ≡ some w
      → ((k ≡ j) × (v ≡ w)) ⊎ ((¬ (k ≡ j)) × (lookup j m ≡ some w))
  lookup-insert_inv k j v w m h = elim (Bool-cases (e.beq k j)) [
    | inl q ↦ inl ((e.beq_iff k j).0 q, some_inj (rw q at (sym (lookup-insert k j v m) ∙ h)))
    | inr q ↦ inr (λ p. ground (arith, e.beq_iff k j, p), rw q at (sym (lookup-insert k j v m) ∙ h))
  ]

  pub lookup-delete_other : (k j : K) (m : Map K V) → ¬ (k ≡ j) → lookup j (delete k m) ≡ lookup j m
  lookup-delete_other k j m h = ground (arith, lookup-delete k j m, e.beq_iff k j)

  pub lookup-delete_inv :
      (k j : K) (w : V) (m : Map K V)
      → lookup j (delete k m) ≡ some w
      → (¬ (k ≡ j)) × (lookup j m ≡ some w)
  lookup-delete_inv k j w m h = elim (Bool-cases (e.beq k j)) [
    | inl q ↦ cc (rw q at (sym (lookup-delete k j m) ∙ h))
    | inr q ↦ (λ p. ground (arith, e.beq_iff k j, p), rw q at (sym (lookup-delete k j m) ∙ h))
  ]
