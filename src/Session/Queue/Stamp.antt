-- ===== src/Session/Queue/Stamp.antt =====
-- internal/session/queue.go: the bytes of the copy that `Next` sends.
use orb_mq.Base.{
  ℕ, zero, suc, ◌+◌, ◌*◌, ◌/◌, ◌%◌, ◌≤◌, ◌<◌, Bytes, Bool, Bool-cases, true, false, ◌==◌,
  if◌then◌else◌, [], ◌∷◌, Option, none, some, length, length-set, set, bit_or, bit_and, ◌≡◌, ◌≢◌,
  inl, inr, refl, arith, sym, ap, ◌∙◌, subst,
}
use orb_mq.Session.Queue.{is_queued_publish, stamp}

-- The byte at a place; `none` behind the end.
abbrev pub byte_at : ℕ → Bytes → Option ℕ
byte_at i [] = none
byte_at zero (a ∷ s) = some a
byte_at (suc i) (a ∷ s) = byte_at i s

-- The first byte of a PUBLISH of QoS 1: its type 3, the DUP flag in bit 3, QoS 1, and the retain flag.
abbrev pub first_byte : Bool → ℕ → ℕ
first_byte dup retain = 3 * 16 + (if dup then 1 else 0) * 8 + 1 * 2 + retain

-- The bytes of a copy with a DUP flag and an identifier: the identifier stands at the offset, its
-- high byte first; the first byte has the flag, whatever the message had there; no other byte differs.
pub record IsCopy (packet : Bytes) (offset : ℕ) (dup : Bool) (id : ℕ) (copy : Bytes) : Type 0 where
  pub size : length copy ≡ length packet
  pub old_first : ℕ
  pub first_was : byte_at 0 packet ≡ some old_first
  pub first : byte_at 0 copy ≡ some (first_byte dup (old_first % 2))
  pub high : byte_at offset copy ≡ some (id / 256)
  pub low : byte_at (offset + 1) copy ≡ some (id % 256)
  pub others : (i : ℕ) → i ≢ 0 → i ≢ offset → i ≢ offset + 1 → byte_at i copy ≡ byte_at i packet

byte_at-set_self : (s : Bytes) (i v : ℕ) → i < length s → byte_at i (set s i v) ≡ some v
byte_at-set_self [] i v h = absurd (omega arith)
byte_at-set_self (a ∷ s) zero v h = refl
byte_at-set_self (a ∷ s) (suc i) v h = byte_at-set_self s i v (omega arith)

byte_at-set_other : (s : Bytes) (i j v : ℕ) → i ≢ j → byte_at j (set s i v) ≡ byte_at j s
byte_at-set_other [] i j v h = refl
byte_at-set_other (a ∷ s) zero zero v h = absurd (h refl)
byte_at-set_other (a ∷ s) zero (suc j) v h = refl
byte_at-set_other (a ∷ s) (suc i) zero v h = refl
byte_at-set_other (a ∷ s) (suc i) (suc j) v h = byte_at-set_other s i j v (λ e. h (ap suc e))

-- A first byte of type 3 and QoS 1 is one of four.
four : (P : ℕ → Type 0) (a : ℕ) → a / 16 ≡ 3 → a / 2 % 4 ≡ 1 → P 50 → P 51 → P 58 → P 59 → P a
four P a t q p50 p51 p58 p59 = elim (Bool-cases (a == 50)) [
  | inl e ↦ subst P (ground arith) p50
  | inr e ↦ elim (Bool-cases (a == 51)) [
    | inl f ↦ subst P (ground arith) p51
    | inr f ↦ elim (Bool-cases (a == 58)) [
      | inl g ↦ subst P (ground arith) p58
      | inr g ↦ subst P (ground arith) p59
    ]
  ]
]

first_bits :
    (dup : Bool) (a : ℕ)
    → a / 16 ≡ 3
    → a / 2 % 4 ≡ 1
    → (if dup then bit_or a 8 else bit_and a 247) ≡ first_byte dup (a % 2)
first_bits true a t q = four (λ a. bit_or a 8 ≡ first_byte true (a % 2)) a t q refl refl refl refl
first_bits false a t q =
    four (λ a. bit_and a 247 ≡ first_byte false (a % 2)) a t q refl refl refl refl

-- The copy of a message that the queue takes.
pub stamp-IsCopy :
    (packet : Bytes) (offset : ℕ) (dup : Bool) (id : ℕ)
    → is_queued_publish packet offset ≡ true
    → IsCopy packet offset dup id (stamp packet dup offset id)
unfolding stamp is_queued_publish
stamp-IsCopy [] offset dup id q = cc q
stamp-IsCopy (a ∷ []) offset dup id q = cc q
stamp-IsCopy (a ∷ b ∷ rest) offset dup id q =
    let old = if dup then bit_or a 8 else bit_and a 247 in
    let s : Bytes = old ∷ b ∷ rest in
    let t = set s offset (id / 256) in
    let lo : 2 ≤ offset = ground arith in
    let hi : offset ≤ length rest = ground arith in
    let same = length-set s offset (id / 256) in
    record {
      size = length-set t (offset + 1) (id % 256) ∙ same;
      old_first = a;
      first_was = refl;
      first =
          byte_at-set_other t (offset + 1) 0 (id % 256) (λ e. omega (arith, e))
          ∙ (byte_at-set_other s offset 0 (id / 256) (λ e. omega (arith, e, lo))
              ∙ ap some (first_bits dup a (ground arith) (ground arith)));
      high =
          byte_at-set_other t (offset + 1) offset (id % 256) (λ e. omega (arith, e))
          ∙ byte_at-set_self s offset (id / 256) (omega (arith, hi));
      low = byte_at-set_self t (offset + 1) (id % 256) (omega (arith, hi, same));
      others = λ i z n k.
          byte_at-set_other t (offset + 1) i (id % 256) (λ e. k (sym e))
          ∙ (byte_at-set_other s offset i (id / 256) (λ e. n (sym e)) ∙ behind i z);
    }
  where
    behind :
        (i : ℕ)
        → i ≢ 0
        → byte_at i ((if dup then bit_or a 8 else bit_and a 247) ∷ b ∷ rest)
          ≡ byte_at i (a ∷ b ∷ rest)
    behind zero z = absurd (z refl)
    behind (suc i) z = refl
