-- ===== src/Protocol/Wire.antt =====
-- internal/protocol/wire.go: strings, topic names and topic filters. `utf8.ValidString` is that of
-- Go's library, written out from the table of well-formed sequences.
use orb_mq.Base.{
  ℕ, zero, suc, ◌+◌, Bytes, bytes_eq, Bool, true, false, not, ◌&&◌, ◌||◌, ltb, leb, ◌==◌,
  if◌then◌else◌, [], ◌∷◌, Option, none, some, length,
}
use orb_mq.Protocol.Reader.{
  M, Result, ok, err, invalid_string, invalid_topic_name, invalid_topic_filter, ◌>>=◌, ◌>>◌, pure,
  guard, read_full, read_uint16,
}

abbrev pub max_remaining_length : ℕ
max_remaining_length = 268435455

abbrev pub max_packet_size : ℕ
max_packet_size = max_remaining_length + 5

abbrev between : ℕ → ℕ → ℕ → Bool
between lo hi c = leb lo c && leb c hi

-- How many bytes follow a first byte, and the range of the next one.
abbrev utf8_first : ℕ → Option (ℕ × ℕ × ℕ)
utf8_first c =
    if ltb c 0x80
    then some (0, 0, 0)
    else if between 0xc2 0xdf c
    then some (1, 0x80, 0xbf)
    else if c == 0xe0
    then some (2, 0xa0, 0xbf)
    else if c == 0xed
    then some (2, 0x80, 0x9f)
    else if between 0xe1 0xef c
    then some (2, 0x80, 0xbf)
    else if c == 0xf0
    then some (3, 0x90, 0xbf)
    else if between 0xf1 0xf3 c
    then some (3, 0x80, 0xbf)
    else if c == 0xf4
    then some (3, 0x80, 0x8f)
    else none

-- `more` bytes are to follow, the first of them between `lo` and `hi`.
utf8_loop : ℕ → ℕ → ℕ → Bytes → Bool
utf8_loop zero lo hi [] = true
utf8_loop (suc more) lo hi [] = false
utf8_loop zero lo hi (c ∷ s) = elim (utf8_first c) [
  | none ↦ false
  | some (more, lo', hi') ↦ utf8_loop more lo' hi' s
]
utf8_loop (suc more) lo hi (c ∷ s) = elim (between lo hi c) [
  | true ↦ utf8_loop more 0x80 0xbf s
  | false ↦ false
]

unfoldable pub valid_utf8 : Bytes → Bool
unfolding utf8_loop
valid_utf8 s = utf8_loop 0 0 0 s

unfoldable pub contains_byte : ℕ → Bytes → Bool
contains_byte c [] = false
contains_byte c (x ∷ s) = x == c || contains_byte c s

-- `validateUTF8String`
unfoldable pub valid_string : Bytes → Bool
valid_string s = leb (length s) 65535 && valid_utf8 s && not (contains_byte 0 s)

-- `validateTopicName`
unfoldable pub check_topic_name : Bytes → Result (Unit {0})
check_topic_name s =
    if not (valid_string s)
    then err invalid_string
    else if bytes_eq s [] || contains_byte b'+' s || contains_byte b'#' s
    then err invalid_topic_name
    else ok tt

abbrev starts_level : Option ℕ → Bool
starts_level none = true
starts_level (some c) = c == b'/'

abbrev ends_level : Bytes → Bool
ends_level [] = true
ends_level (c ∷ s) = c == b'/'

abbrev is_empty : Bytes → Bool
is_empty [] = true
is_empty (c ∷ s) = false

-- The loop of `ValidateTopicFilter`, with the byte before.
unfoldable pub filter_loop : Option ℕ → Bytes → Bool
filter_loop before [] = true
filter_loop before (c ∷ s) =
    (if c == b'+'
      then starts_level before && ends_level s
      else if c == b'#'
      then starts_level before && is_empty s
      else true)
    && filter_loop (some c) s

-- `ValidateTopicFilter`
unfoldable pub check_topic_filter : Bytes → Result (Unit {0})
check_topic_filter s =
    if not (valid_string s)
    then err invalid_string
    else if bytes_eq s [] || not (filter_loop none s)
    then err invalid_topic_filter
    else ok tt

-- `if err := ...; err != nil { return err }`
abbrev pub lift : Result (Unit {0}) → M (Unit {0})
lift (ok u) r = ok (u, r)
lift (err e) r = err e

unfoldable pub read_binary_data : M Bytes
read_binary_data = do n ← read_uint16; read_full n

unfoldable pub read_utf8_string : M Bytes
read_utf8_string = do
  n ← read_uint16
  s ← read_full n
  guard (valid_string s) invalid_string
  pure s
