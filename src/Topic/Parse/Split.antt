-- ===== src/Topic/Parse/Split.antt =====
-- What `splitFilter` and `splitTopic` return.
use orb_mq.Base.{
  ℕ, Bytes, ◌==◌, if◌then◌else◌, List, [], ◌∷◌, ◌++◌, arith, ◌≡◌, refl, append_assoc, append-nil,
  ◌∙◌, ap, ◌≢◌, inl, inr, Bool-cases, All, ◌+◌, length,
}
use orb_mq.Topic.Parse.{slash, split_loop, split_filter, split_topic}

-- The levels of a text, with no accumulator.
unfoldable pub push_byte : ℕ → List Bytes → List Bytes
push_byte c [] = (c ∷ []) ∷ []
push_byte c (l ∷ ls) = (c ∷ l) ∷ ls

unfoldable pub levels : Bytes → List Bytes
levels [] = [] ∷ []
levels (c ∷ s) = if c == slash then [] ∷ levels s else push_byte c (levels s)

-- `seg` put in front of the first level.
prefix_first : Bytes → List Bytes → List Bytes
prefix_first seg [] = seg ∷ []
prefix_first seg (l ∷ ls) = (seg ++ l) ∷ ls

prefix_first-push_byte :
    (seg : Bytes) (c : ℕ) (ls : List Bytes)
    → prefix_first (seg ++ c ∷ []) ls ≡ prefix_first seg (push_byte c ls)
unfolding prefix_first push_byte
prefix_first-push_byte seg c [] = refl
prefix_first-push_byte seg c (l ∷ ls) = rw append_assoc

prefix_first-push_byte_nil :
    (c : ℕ) (ls : List Bytes) → prefix_first [] (push_byte c ls) ≡ push_byte c ls
unfolding prefix_first push_byte
prefix_first-push_byte_nil c [] = refl
prefix_first-push_byte_nil c (l ∷ ls) = refl

prefix_first-nil : (s : Bytes) → prefix_first [] (levels s) ≡ levels s
unfolding levels prefix_first
prefix_first-nil [] = refl
prefix_first-nil (c ∷ s) = ground (arith, prefix_first-push_byte_nil c (levels s))

prefix_first_cut : (seg : Bytes) (ls : List Bytes) → prefix_first seg ([] ∷ ls) ≡ seg ∷ ls
unfolding prefix_first
prefix_first_cut seg ls = rw append-nil

split_loop-levels :
    (res : List Bytes) (seg s : Bytes) → split_loop res seg s ≡ res ++ prefix_first seg (levels s)
unfolding split_loop levels
split_loop-levels res seg [] = unfold prefix_first in rw append-nil
split_loop-levels res seg (c ∷ s) = elim (Bool-cases (c == slash)) [
  | inl e ↦
      rw (e, split_loop)
        (split_loop-levels (res ++ seg ∷ []) [] s
          ∙ rw (prefix_first-nil s, prefix_first_cut seg (levels s))
              (append_assoc res (seg ∷ []) (levels s)))
  | inr e ↦
      rw (e, split_loop)
        (split_loop-levels res (seg ++ c ∷ []) s
          ∙ ap (◌++◌ res) (prefix_first-push_byte seg c (levels s)))
]

pub split_filter-levels : (s : Bytes) → split_filter s ≡ levels s
unfolding split_filter
split_filter-levels s = split_loop-levels [] [] s ∙ prefix_first-nil s

pub split_topic-levels : (s : Bytes) → split_topic s ≡ levels s
unfolding split_topic
split_topic-levels s = split_loop-levels [] [] s ∙ prefix_first-nil s

-- `strings.Join` with "/".
unfoldable pub join_levels : List Bytes → Bytes
join_levels [] = []
join_levels (l ∷ []) = l
join_levels (l ∷ m ∷ ls) = l ++ (slash ∷ join_levels (m ∷ ls))

abbrev pub SlashFree : Bytes → Type 0
SlashFree = All (λ c. c ≢ slash)

unfoldable pub count_slashes : Bytes → ℕ
count_slashes [] = 0
count_slashes (c ∷ s) = (if c == slash then 1 else 0) + count_slashes s

pub levels-cons : (s : Bytes) → (l : Bytes) × (ls : List Bytes) × (levels s ≡ l ∷ ls)
unfolding levels push_byte
levels-cons [] = ([], [], refl)
levels-cons (c ∷ s) = elim (Bool-cases (c == slash)) [
  | inl e ↦ ([], levels s, rw e)
  | inr e ↦ let (l, ls, h) = levels-cons s in (c ∷ l, ls, rw (e, h))
]

join_levels-push_byte :
    (c : ℕ) (l : Bytes) (ls : List Bytes) → join_levels ((c ∷ l) ∷ ls) ≡ c ∷ join_levels (l ∷ ls)
unfolding join_levels
join_levels-push_byte c l [] = refl
join_levels-push_byte c l (m ∷ ls) = refl

pub join_levels-levels : (s : Bytes) → join_levels (levels s) ≡ s
unfolding levels join_levels push_byte
join_levels-levels [] = refl
join_levels-levels (c ∷ s) =
    ground (arith, levels-cons s, join_levels-levels s, join_levels-push_byte c)

levels-SlashFree : (s : Bytes) → All SlashFree (levels s)
unfolding levels push_byte
levels-SlashFree [] = (tt, tt)
levels-SlashFree (c ∷ s) = ground (arith, levels-cons s, levels-SlashFree s)

length-levels : (s : Bytes) → length (levels s) ≡ count_slashes s + 1
unfolding levels push_byte count_slashes
length-levels [] = omega arith
length-levels (c ∷ s) = ground (arith, levels-cons s, length-levels s)

levels-SlashFree_append :
    (l : Bytes) (s : Bytes) → SlashFree l → levels (l ++ slash ∷ s) ≡ l ∷ levels s
unfolding levels push_byte
levels-SlashFree_append [] s h = refl
levels-SlashFree_append (c ∷ l) s h = ground (arith, levels-SlashFree_append l s h.1)

levels-SlashFree_self : (l : Bytes) → SlashFree l → levels l ≡ l ∷ []
unfolding levels push_byte
levels-SlashFree_self [] h = refl
levels-SlashFree_self (c ∷ l) h = ground (arith, levels-SlashFree_self l h.1)

levels-join_levels :
    (l : Bytes) (ls : List Bytes) → All SlashFree (l ∷ ls) → levels (join_levels (l ∷ ls)) ≡ l ∷ ls
unfolding join_levels
levels-join_levels l [] h = levels-SlashFree_self l h.0
levels-join_levels l (m ∷ ls) h =
    levels-SlashFree_append l (join_levels (m ∷ ls)) h.0 ∙ ap (◌∷◌ l) (levels-join_levels m ls h.1)

-- Splitting keeps every byte: the levels hold no `/`, there is one more of them than there are
-- `/` in the text, and joined by `/` they are the text.
pub split_filter_partition :
    (s : Bytes)
    → (join_levels (split_filter s) ≡ s)
      × All SlashFree (split_filter s)
      × (length (split_filter s) ≡ count_slashes s + 1)
split_filter_partition s =
    rw (split_filter-levels s) (join_levels-levels s, levels-SlashFree s, length-levels s)

-- Any non-empty list of levels with no `/` in them is what splitting their join by `/` returns.
pub split_filter-join_levels :
    (l : Bytes) (ls : List Bytes)
    → All SlashFree (l ∷ ls)
    → split_filter (join_levels (l ∷ ls)) ≡ l ∷ ls
split_filter-join_levels l ls h =
    split_filter-levels (join_levels (l ∷ ls)) ∙ levels-join_levels l ls h
