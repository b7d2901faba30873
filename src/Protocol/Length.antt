-- ===== src/Protocol/Length.antt =====
-- internal/protocol: encodeRemainingLength and decodeRemainingLength, one against the other.
use orb_mq.Base.{
  ℕ, zero, suc, ◌+◌, ◌-◌, ◌*◌, ◌/◌, ◌%◌, ◌≤◌, ◌<◌, Bytes, Bool, Bool-cases, true, false, ◌&&◌, ltb,
  leb, ◌==◌, [], ◌∷◌, ◌++◌, length, bit_or, ◌≡◌, refl, arith, inl, inr, sym, ap, ◌∙◌,
}
use Prim.Native.Nat.{min}
use orb_mq.Protocol.Reader.{ok, unlimited, read_full, read_byte, ◌>>=◌}
use orb_mq.Protocol.Wire.{max_remaining_length}
use orb_mq.Protocol.Decoder.{length_loop, decode_remaining_length}
use orb_mq.Protocol.Encoder.{length_bytes, encode_remaining_length}

-- A table of the numbers below a bound, for equations that hold by evaluation.
agree : (ℕ → ℕ) → (ℕ → ℕ) → ℕ → Bool
agree f g zero = true
agree f g (suc n) = f n == g n && agree f g n

agree_below : (f g : ℕ → ℕ) (n : ℕ) → agree f g n ≡ true → (i : ℕ) → i < n → f i ≡ g i
unfolding agree
agree_below f g zero e i h = absurd (omega arith)
agree_below f g (suc n) e i h = ground (arith, agree_below f g n (ground arith) i)

continue_bit : (b : ℕ) → b < 128 → bit_or b 0x80 ≡ b + 128
unfolding agree
continue_bit = agree_below (λ b. bit_or b 0x80) (λ b. b + 128) 128 refl

read_full_one : (b : ℕ) (s : Bytes) → read_full 1 (unlimited (b ∷ s)) ≡ ok (b ∷ [], unlimited s)
unfolding read_full
read_full_one b s =
    let enough : leb 1 (min (length (b ∷ s)) (length (b ∷ s))) ≡ true = ground arith in
    let gone : length (b ∷ s) - 1 ≡ length s = omega arith in rw (enough, gone) refl

read_byte-unlimited : (b : ℕ) (s : Bytes) → read_byte (unlimited (b ∷ s)) ≡ ok (b, unlimited s)
unfolding read_byte
read_byte-unlimited b s = rw (read_byte, ◌>>=◌, read_full_one b s) refl

last_digit :
    (rounds i multiplier value digit : ℕ) (s : Bytes)
    → digit < 128
    → length_loop (suc rounds) i multiplier value (unlimited (digit ∷ s))
      ≡ ok ((value + digit * multiplier, i + 1), unlimited s)
unfolding length_loop
last_digit rounds i multiplier value digit s h =
    let stop : (digit / 128 % 2 == 0) ≡ true = ground arith in
    let low : digit % 128 ≡ digit = omega arith in
    rw (length_loop, ◌>>=◌, read_byte-unlimited digit s, stop, low) refl

more_digit :
    (rounds i multiplier value digit : ℕ) (s : Bytes)
    → digit < 128
    → length_loop (suc rounds) i multiplier value (unlimited ((digit + 128) ∷ s))
      ≡ length_loop rounds (i + 1) (multiplier * 128) (value + digit * multiplier) (unlimited s)
unfolding length_loop
more_digit rounds i multiplier value digit s h =
    let go : ((digit + 128) / 128 % 2 == 0) ≡ false = ground arith in
    let low : (digit + 128) % 128 ≡ digit = omega arith in
    rw (length_loop, ◌>>=◌, read_byte-unlimited (digit + 128) s, go, low) refl

digits : (n multiplier : ℕ) → n % 128 * multiplier + n / 128 * (multiplier * 128) ≡ n * multiplier
digits n multiplier =
    let split : n ≡ n % 128 + n / 128 * 128 = omega arith in
    sym (ap (λ k. k * multiplier) split ∙ omega arith)

pub last_group : (rounds n : ℕ) → n < 128 → length_bytes (suc rounds) n ≡ n ∷ []
unfolding length_bytes
last_group rounds n h =
    let last : ltb 0 (n / 128) ≡ false = ground arith in
    let low : n % 128 ≡ n = omega arith in rw (last, low) refl

pub more_groups :
    (rounds n : ℕ)
    → 128 ≤ n
    → length_bytes (suc rounds) n ≡ (n % 128 + 128) ∷ length_bytes rounds (n / 128)
unfolding length_bytes
more_groups rounds n h =
    let more : ltb 0 (n / 128) ≡ true = ground arith in
    rw (more, continue_bit (n % 128) (omega arith)) refl

-- The numbers of `rounds + 1` groups lie below this one.
abbrev pub capacity : ℕ → ℕ
capacity zero = 128
capacity (suc rounds) = capacity rounds * 128

-- As many rounds as the encoder has are enough for the decoder.
length_loop-length_bytes :
    (rounds i multiplier value n : ℕ) (s : Bytes)
    → n < capacity rounds
    → length_loop (suc rounds) i multiplier value (unlimited (length_bytes (suc rounds) n ++ s))
      ≡ ok ((value + n * multiplier, i + length (length_bytes (suc rounds) n)), unlimited s)
length_loop-length_bytes zero i multiplier value n s h =
    rw (last_group 0 n (omega arith)) (last_digit zero i multiplier value n s (omega arith))
length_loop-length_bytes (suc rounds) i multiplier value n s h = elim (Bool-cases (ltb n 128)) [
  | inl z ↦
      rw (last_group (suc rounds) n (ground arith))
        (last_digit (suc rounds) i multiplier value n s (ground arith))
  | inr z ↦
      let below : n / 128 < capacity rounds = omega arith in
      let sum : value + n % 128 * multiplier + n / 128 * (multiplier * 128)
          ≡ value + n * multiplier =
        omega (arith, digits n multiplier) in
      let size = length (length_bytes (suc rounds) (n / 128)) in
      let count : i + 1 + size ≡ i + suc size = omega arith in
      rw (more_groups (suc rounds) n (ground arith)) (
        more_digit (suc rounds) i multiplier value (n % 128)
          (length_bytes (suc rounds) (n / 128) ++ s) (omega arith)
        ∙ (length_loop-length_bytes rounds (i + 1) (multiplier * 128) (value + n % 128 * multiplier)
              (n / 128) s below
            ∙ rw (sum, count) refl))
]

-- For each length that the encoder accepts, the decoder reads the bytes that the encoder writes as
-- that length, says how many they were, and leaves what follows them.
pub decode-encode_remaining_length :
    (n : ℕ) (s : Bytes)
    → n ≤ max_remaining_length
    → (bs : Bytes) × (encode_remaining_length n ≡ ok bs)
      × (decode_remaining_length (unlimited (bs ++ s)) ≡ ok ((n, length bs), unlimited s))
unfolding encode_remaining_length decode_remaining_length
decode-encode_remaining_length n s h =
    let fits : ltb max_remaining_length n ≡ false = ground arith in
    let one : 0 + n * 1 ≡ n = omega arith in
    let count : 0 + length (length_bytes 4 n) ≡ length (length_bytes 4 n) = omega arith in
    (
      length_bytes 4 n,
      rw fits refl,
      length_loop-length_bytes 3 0 1 0 n s (omega arith) ∙ rw (one, count) refl,
    )
