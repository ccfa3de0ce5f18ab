-- ===== src/Core/Dedup/Queue.antt =====
-- The queue of crates/iron-core/src/dedup.rs as a map from keys to sequence numbers, and what the
-- search for an evictable key and the removal of an entry do to it.
use iron_consensus.Prelude.{
  ℕ, suc, ◌<◌, ◌≡◌, refl, ap, List, [], ◌∷◌, ◌++◌, Option, none, some, arith, if◌then◌else◌, length,
  All, Bool-cases, Option-cases, inl, inr,
}
use iron_consensus.Order.{is_eq, is_eq_iff, nat_ord}
use iron_consensus.Core.Dedup.Types.{DedupKey, Entry, key_ord}
use iron_consensus.Core.Dedup.{evictable, find_evictable, remove_queued}

-- The sequence number of a key.
unfoldable pub queued : DedupKey → List (ℕ × DedupKey) → Option ℕ
queued key [] = none
queued key ((s, k) ∷ order) = if is_eq key k then some s else queued key order

-- No key is queued twice.
abbrev pub NoDup : List (ℕ × DedupKey) → Type 0
NoDup [] = Unit
NoDup ((s, k) ∷ order) = (queued k order ≡ none) × NoDup order

-- Sequence numbers increase along the queue.
abbrev pub Increasing : List (ℕ × DedupKey) → Type 0
Increasing [] = Unit
Increasing ((s, k) ∷ order) = All (λ x. s < x.0) order × Increasing order

-- What it means to find a key: it may be evicted, none before it may, and the queue loses it.
pub record Found (excluded : Option DedupKey) (entries : List (DedupKey × Entry))
    (order : List (ℕ × DedupKey)) (key : DedupKey) (outcome : List ℕ) (rest : List (ℕ × DedupKey))
    : Type 0 where
  pub sequence : ℕ
  pub before : List (ℕ × DedupKey)
  pub after : List (ℕ × DedupKey)
  pub split : order ≡ before ++ ((sequence, key) ∷ after)
  pub left : rest ≡ before ++ after
  pub chosen : evictable excluded entries key ≡ some outcome
  pub skipped : All (λ x. evictable excluded entries x.1 ≡ none) before

pub find_evictable-Found :
    (excluded : Option DedupKey) (entries : List (DedupKey × Entry)) (order : List (ℕ × DedupKey))
    {key : DedupKey} {outcome : List ℕ} {rest : List (ℕ × DedupKey)}
    → find_evictable excluded entries order ≡ some (key, outcome, rest)
    → Found excluded entries order key outcome rest
unfolding find_evictable
find_evictable-Found x m [] e = absurd (grind (arith, e))
find_evictable-Found x m ((s, k) ∷ order) {key} {outcome} {rest} e =
    elim (Option-cases (evictable x m k)) [
      | inr (found, c) ↦ record {
        sequence = s;
        before = [];
        after = order;
        split = ground arith;
        left = ground arith;
        chosen = ground arith;
        skipped = tt;
      }
      | inl c ↦ elim (Option-cases (find_evictable x m order)) [
        | inl f ↦ absurd (ground arith)
        | inr ((key', outcome', rest'), f) ↦
            let ih = find_evictable-Found x m order f in
            record {
              sequence = ih.sequence;
              before = (s, k) ∷ ih.before;
              after = ih.after;
              split = ground arith;
              left = ground arith;
              chosen = ground arith;
              skipped = (c, ih.skipped);
            }
      ]
    ]

pub find_evictable-none :
    (excluded : Option DedupKey) (entries : List (DedupKey × Entry)) (order : List (ℕ × DedupKey))
    (j : DedupKey) (sequence : ℕ)
    → find_evictable excluded entries order ≡ none
    → queued j order ≡ some sequence
    → evictable excluded entries j ≡ none
unfolding find_evictable queued
find_evictable-none x m [] j t e q = absurd (grind (arith, q))
find_evictable-none x m ((s, k) ∷ order) j t e q = elim (Option-cases (evictable x m k)) [
  | inr (outcome, c) ↦ absurd (ground arith)
  | inl c ↦ elim (Option-cases (find_evictable x m order)) [
    | inr ((key', outcome', rest'), f) ↦ absurd (ground arith)
    | inl f ↦ elim (Bool-cases (is_eq j k)) [
      | inl same ↦ ground (arith, is_eq_iff j k)
      | inr other ↦ find_evictable-none x m order j t f (ground arith)
    ]
  ]
]

-- Taking one element out of a queue.
module _ (before after : List (ℕ × DedupKey)) (s : ℕ) (k : DedupKey) where
  abbrev pub without : List (ℕ × DedupKey)
  without = before ++ after

  abbrev pub whole : List (ℕ × DedupKey)
  whole = before ++ ((s, k) ∷ after)

pub queued-whole :
    (before after : List (ℕ × DedupKey)) (s : ℕ) (k : DedupKey)
    → NoDup (whole before after s k)
    → queued k (whole before after s k) ≡ some s
unfolding queued
queued-whole [] after s k d = ground (arith, is_eq_iff k k)
queued-whole ((t, j) ∷ before) after s k d =
    ground (arith, queued-whole before after s k d.1, is_eq_iff k j)

pub queued-without :
    (before after : List (ℕ × DedupKey)) (s : ℕ) (k j : DedupKey)
    → NoDup (whole before after s k)
    → queued j (without before after s k)
      ≡ (if is_eq j k then none else queued j (whole before after s k))
unfolding queued
queued-without [] after s k j d = ground (arith, is_eq_iff j k)
queued-without ((t, i) ∷ before) after s k j d = ground (
  arith,
  queued-without before after s k j d.1,
  queued-whole before after s k d.1,
  is_eq_iff j i,
  is_eq_iff j k,
)

pub NoDup-without :
    (before after : List (ℕ × DedupKey)) (s : ℕ) (k : DedupKey)
    → NoDup (whole before after s k)
    → NoDup (without before after s k)
NoDup-without [] after s k d = d.1
NoDup-without ((t, i) ∷ before) after s k d =
    (ground (arith, queued-without before after s k i d.1), NoDup-without before after s k d.1)

pub All-without :
    (P : ℕ × DedupKey → Type 0) (before after : List (ℕ × DedupKey)) (s : ℕ) (k : DedupKey)
    → All P (whole before after s k)
    → All P (without before after s k)
All-without P [] after s k h = h.1
All-without P (x ∷ before) after s k h = (h.0, All-without P before after s k h.1)

pub Increasing-without :
    (before after : List (ℕ × DedupKey)) (s : ℕ) (k : DedupKey)
    → Increasing (whole before after s k)
    → Increasing (without before after s k)
Increasing-without [] after s k h = h.1
Increasing-without ((t, i) ∷ before) after s k h =
    (All-without (λ x. t < x.0) before after s k h.0, Increasing-without before after s k h.1)

pub length-without :
    (before after : List (ℕ × DedupKey)) (s : ℕ) (k : DedupKey)
    → suc (length (without before after s k)) ≡ length (whole before after s k)
length-without [] after s k = refl
length-without (x ∷ before) after s k = ap suc (length-without before after s k)

-- Appending one.
pub queued-snoc :
    (order : List (ℕ × DedupKey)) (s : ℕ) (k j : DedupKey)
    → queued k order ≡ none
    → queued j (order ++ ((s, k) ∷ [])) ≡ (if is_eq j k then some s else queued j order)
unfolding queued
queued-snoc [] s k j h = ground arith
queued-snoc ((t, i) ∷ order) s k j h =
    ground (arith, queued-snoc order s k j, is_eq_iff j i, is_eq_iff j k, is_eq_iff k i)

pub NoDup-snoc :
    (order : List (ℕ × DedupKey)) (s : ℕ) (k : DedupKey)
    → queued k order ≡ none
    → NoDup order
    → NoDup (order ++ ((s, k) ∷ []))
unfolding queued
NoDup-snoc [] s k h d = (refl, tt)
NoDup-snoc ((t, i) ∷ order) s k h d = (
  ground (arith, queued-snoc order s k i, is_eq_iff k i, is_eq_iff i k),
  NoDup-snoc order s k (ground arith) d.1,
)

pub All-snoc :
    (P : ℕ × DedupKey → Type 0) (order : List (ℕ × DedupKey)) (s : ℕ) (k : DedupKey)
    → All P order
    → P (s, k)
    → All P (order ++ ((s, k) ∷ []))
All-snoc P [] s k h p = (p, tt)
All-snoc P (x ∷ order) s k h p = (h.0, All-snoc P order s k h.1 p)

pub Increasing-snoc :
    (order : List (ℕ × DedupKey)) (s : ℕ) (k : DedupKey)
    → Increasing order
    → All (λ x. x.0 < s) order
    → Increasing (order ++ ((s, k) ∷ []))
Increasing-snoc [] s k h a = (tt, tt)
Increasing-snoc ((t, i) ∷ order) s k h a =
    (All-snoc (λ x. t < x.0) order s k h.0 a.0, Increasing-snoc order s k h.1 a.1)

-- Removing a queued entry by its number and key takes it out.
pub remove_queued-without :
    (order : List (ℕ × DedupKey)) (s : ℕ) (k : DedupKey)
    → queued k order ≡ some s
    → (before : List (ℕ × DedupKey)) × (after : List (ℕ × DedupKey)) × (order
        ≡ whole before after s k)
      × (remove_queued s k order ≡ without before after s k)
unfolding queued remove_queued
remove_queued-without [] s k h = absurd (grind (arith, h))
remove_queued-without ((t, i) ∷ order) s k h = elim (Bool-cases (is_eq k i)) [
  | inl same ↦
      ([], order, ground (arith, is_eq_iff k i), ground (arith, is_eq_iff k i, is_eq_iff i k))
  | inr other ↦
      let (before, after, split, left) = remove_queued-without order s k (ground arith) in
      ((t, i) ∷ before, after, ap (◌∷◌ (t, i)) split, ground (arith, is_eq_iff k i, is_eq_iff i k))
]
