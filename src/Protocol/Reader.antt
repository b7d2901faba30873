-- ===== src/Protocol/Reader.antt =====
-- What the decoder uses of Go's readers (`io.ReadFull`, `binary.Read`, `io.LimitedReader`), over the
-- bytes that the connection will still deliver.
use orb_mq.Base.{
  ℕ, ◌+◌, ◌-◌, ◌*◌, Bytes, Bool, true, false, leb, ◌==◌, if◌then◌else◌, [], ◌∷◌, length, take, drop,
}
use Prim.Native.Nat.{min}

-- What the decoder and the encoder answer where they fail: the errors of the package, and one
-- constructor for each message that they make in place.
pub data Error : Type 0 where
  eof unexpected_eof invalid_string invalid_topic_name invalid_topic_filter : Error
  invalid_packet_id invalid_qos invalid_dup invalid_max_size packet_too_large : Error
  invalid_flags invalid_packet unsupported_packet : Error
  reserved_flag will_flags password_flag invalid_protocol_name unsupported_level : Error
  missing_client_id extra_bytes no_topics invalid_length : Error
  -- No Go error: a loop of the model ran out of fuel.
  out_of_fuel : Error

pub data Result {ℓ} (A : Type ℓ) : Type ℓ where
  ok : A → Result A
  err : Error → Result A

-- `io.LimitedReader`: the bytes to come, and `N`, how many of them may be read.
pub record Reader : Type 0 where
  pub input : Bytes
  pub left : ℕ

-- A reader with no limit of its own.
abbrev pub unlimited : Bytes → Reader
unlimited input = record { input = input; left = length input }

abbrev pub M {ℓ} : Type ℓ → Type ℓ
M A = Reader → Result (A × Reader)

abbrev pub pure {ℓ} : {A : Type ℓ} → A → M A
pure a r = ok (a, r)

abbrev pub fail {ℓ} : {A : Type ℓ} → Error → M A
fail e r = err e

infixl 5 ◌>>=◌ ◌>>◌
abbrev pub ◌>>=◌ {ℓ κ} : {A : Type ℓ} {B : Type κ} → M A → (A → M B) → M B
◌>>=◌ m f r = elim (m r) [ ok (a, r') ↦ f a r' | err e ↦ err e ]

abbrev pub ◌>>◌ {ℓ} : {B : Type ℓ} → M (Unit {0}) → M B → M B
m >> k = m >>= λ _. k

-- `if !b { return err }`
abbrev pub guard : Bool → Error → M (Unit {0})
guard true e r = ok (tt, r)
guard false e r = err e

-- `io.ReadFull` of `n` bytes: EOF if there is none, ErrUnexpectedEOF if there are too few.
unfoldable pub read_full : ℕ → M Bytes
read_full n r =
    let available = min r.left (length r.input) in
    if leb n available
    then ok (take n r.input, record { input = drop n r.input; left = r.left - n })
    else err (if available == 0 then eof else unexpected_eof)

abbrev pub be16 : Bytes → ℕ
be16 [] = 0
be16 (hi ∷ []) = hi
be16 (hi ∷ lo ∷ rest) = hi * 256 + lo

-- `binary.Read` of a big-endian uint16.
unfoldable pub read_uint16 : M ℕ
unfolding read_full
read_uint16 = do b ← read_full 2; pure (be16 b)

abbrev pub head_or_zero : Bytes → ℕ
head_or_zero [] = 0
head_or_zero (b ∷ rest) = b

-- One byte, by `ReadFull` into an array of one.
unfoldable pub read_byte : M ℕ
unfolding read_full
read_byte = do b ← read_full 1; pure (head_or_zero b)
