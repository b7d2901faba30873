-- ===== src/Auth/Password.antt =====
-- internal/auth/password.go. The packages `crypto/pbkdf2` and `encoding/base64` are parameters.
use orb_mq.Base.{
  ℕ, Bytes, bytes_eq, codes, Bool, false, ◌&&◌, ◌==◌, if◌then◌else◌, List, [], ◌∷◌, ◌++◌, Option,
  none, some, length, ◌≡◌,
}
use orb_mq.Protocol.Wire.{contains_byte}

-- `pbkdf2.Key` with SHA-256, 600,000 rounds and 32 bytes, on a password and a salt; `none` is an
-- error. `base64.StdEncoding`, whose decoder is strict.
pub record Crypto : Type 0 where
  pub derive_key : Bytes → Bytes → Option Bytes
  pub encode_base64 : Bytes → Bytes
  pub decode_base64 : Bytes → Option Bytes

-- What the documentation of the two packages says of them.
pub record IsCrypto (k : Crypto) : Type 0 where
  pub decode-encode : (b : Bytes) → k.decode_base64 (k.encode_base64 b) ≡ some b
  pub alphabet : (b : Bytes) → contains_byte b'$' (k.encode_base64 b) ≡ false
  pub key_length : (p s key : Bytes) → k.derive_key p s ≡ some key → length key ≡ 32

pub record PasswordHash : Type 0 where
  pub salt : Bytes
  pub key : Bytes

-- `strings.Split` at one byte.
unfoldable pub split_at_byte : ℕ → Bytes → List Bytes
split_at_byte c [] = [] ∷ []
split_at_byte c (x ∷ s) =
    let rest = split_at_byte c s in
    if x == c then [] ∷ rest else elim rest [ [] ↦ (x ∷ []) ∷ [] | l ∷ ls ↦ (x ∷ l) ∷ ls ]

abbrev pub scheme : Bytes
scheme = codes "pbkdf2-sha256"

abbrev pub rounds : Bytes
rounds = codes "600000"

module _ (k : Crypto) where
  -- `HashPassword`, with the salt that `rand.Read` gave.
  unfoldable pub hash_password : Bytes → Bytes → Option Bytes
  hash_password password salt = elim (k.derive_key password salt) [
    | none ↦ none
    | some key ↦ some (
        scheme
        ++ (b'$' ∷ (rounds ++ (b'$' ∷ (k.encode_base64 salt ++ (b'$' ∷ k.encode_base64 key))))))
  ]

  -- The salt and the key of the last two parts.
  unfoldable pub decode_parts : Bytes → Bytes → Option PasswordHash
  decode_parts salt_text key_text = elim (k.decode_base64 salt_text) [
    | none ↦ none
    | some salt ↦ elim (k.decode_base64 key_text) [
      | none ↦ none
      | some key ↦
          if length salt == 16 && length key == 32
          then some (record { salt = salt; key = key })
          else none
    ]
  ]

  abbrev pub parse_parts : List Bytes → Option PasswordHash
  parse_parts (a ∷ b ∷ c ∷ d ∷ []) =
      if bytes_eq a scheme && bytes_eq b rounds then decode_parts c d else none
  parse_parts _ = none

  -- `parsePasswordHash`; `none` is its error.
  unfoldable pub parse_password_hash : Bytes → Option PasswordHash
  unfolding split_at_byte
  parse_password_hash encoded = parse_parts (split_at_byte b'$' encoded)

  -- `passwordHash.verify`: whether there is no error. The comparison takes the same time for all
  -- keys of one length, which a value does not show.
  unfoldable pub verify : PasswordHash → Bytes → Bool
  verify h password = elim (k.derive_key password h.salt) [
    | none ↦ false
    | some key ↦ bytes_eq key h.key
  ]

  -- `VerifyPassword`: `none` where the hash does not parse.
  unfoldable pub verify_password : Bytes → Bytes → Option Bool
  verify_password encoded password = elim (parse_password_hash encoded) [
    | none ↦ none
    | some h ↦ some (verify h password)
  ]
