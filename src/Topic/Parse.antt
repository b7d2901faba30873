-- ===== src/Topic/Parse.antt =====
-- internal/topic/parse.go: splitting at `/`, MatchFilter and CoversFilter.
pub mod Split
pub mod Covers
use orb_mq.Base.{
  ℕ, suc, Bytes, bytes_eq, Bool, true, false, ◌==◌, ◌&&◌, ◌||◌, not, if◌then◌else◌, List, [], ◌∷◌,
  ◌++◌, Option, none, some, length,
}

abbrev pub slash : ℕ
slash = b'/'

abbrev pub plus : ℕ
plus = b'+'

abbrev pub hash : ℕ
hash = b'#'

abbrev pub dollar : ℕ
dollar = b'$'

-- The loop of `splitFilter` and `splitTopic`: `seg` is `s[start:i]`, and the last argument `s[i:]`.
split_loop : List Bytes → Bytes → Bytes → List Bytes
split_loop res seg [] = res ++ seg ∷ []
split_loop res seg (c ∷ s) = elim (c == slash) [
  | true ↦ split_loop (res ++ seg ∷ []) [] s
  | false ↦ split_loop res (seg ++ c ∷ []) s
]

unfoldable pub split_filter : Bytes → List Bytes
unfolding split_loop
split_filter s = split_loop [] [] s

unfoldable pub split_topic : Bytes → List Bytes
unfolding split_loop
split_topic s = split_loop [] [] s

-- The loop of `MatchFilter` over the levels of the filter and of the topic, walked together.
unfoldable pub match_levels : List Bytes → List Bytes → Bool
match_levels [] [] = true
match_levels [] (t ∷ ts) = false
match_levels (f ∷ fs) [] = bytes_eq f (hash ∷ [])
match_levels (f ∷ fs) (t ∷ ts) =
    if bytes_eq f (hash ∷ [])
    then true
    else if bytes_eq f (plus ∷ [])
    then match_levels fs ts
    else if bytes_eq f t
    then match_levels fs ts
    else false

-- `len(s) > 0 && s[0] == c`
unfoldable pub starts_with : ℕ → Bytes → Bool
starts_with c [] = false
starts_with c (x ∷ s) = x == c

unfoldable pub match_filter : Bytes → Bytes → Bool
unfolding starts_with
match_filter filter topic =
    if starts_with dollar topic && (starts_with plus filter || starts_with hash filter)
    then false
    else match_levels (split_filter filter) (split_topic topic)

-- The loop of `CoversFilter`, and the test of the lengths behind it.
unfoldable pub covers_levels : List Bytes → List Bytes → Bool
covers_levels [] [] = true
covers_levels [] (r ∷ rs) = false
covers_levels (a ∷ as') [] = bytes_eq a (hash ∷ [])
covers_levels (a ∷ as') (r ∷ rs) =
    if bytes_eq a (hash ∷ [])
    then true
    else if bytes_eq r (hash ∷ []) || (not (bytes_eq a (plus ∷ [])) && not (bytes_eq a r))
    then false
    else covers_levels as' rs

-- The two rewritings of `requested`.
unfoldable pub widen_requested : Bytes → Bytes
widen_requested requested =
    let r = if bytes_eq requested (hash ∷ []) then plus ∷ slash ∷ hash ∷ [] else requested in
    if bytes_eq r (slash ∷ hash ∷ []) then slash ∷ plus ∷ slash ∷ hash ∷ [] else r

-- `allowed[0]` is read only if `requested` begins with `$`; `none` is the panic on an empty `allowed`.
unfoldable pub covers_filter : Bytes → Bytes → Option Bool
unfolding starts_with
covers_filter [] requested =
    if starts_with dollar requested
    then none
    else some (covers_levels (split_filter []) (split_filter (widen_requested requested)))
covers_filter (c ∷ allowed) requested =
    if starts_with dollar requested && (c == plus || c == hash)
    then some false
    else some
        (covers_levels (split_filter (c ∷ allowed)) (split_filter (widen_requested requested)))
