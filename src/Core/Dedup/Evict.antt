-- ===== src/Core/Dedup/Evict.antt =====
-- Eviction from the table of crates/iron-core/src/dedup.rs, one entry and until there is room.
use iron_consensus.Prelude.{
  ℕ, suc, ◌-◌, ◌≡◌, refl, sym, ap, subst, ◌∙◌, true, false, List, Option, none, some, arith, length,
  All, Option-cases, inl, inr, ◌⊎◌,
}
use iron_consensus.Order.{is_eq_iff, nat_ord}
use iron_consensus.BTreeMap
use iron_consensus.BTreeMap.Laws.{get-remove}
use iron_consensus.Core.Dedup.Types.{DedupKey, Entry, EntryState, DedupTable, key_ord}
use iron_consensus.Core.Dedup.{
  evictable, find_evictable, evict_oldest_completed, completed_outcome, is_excluded,
}
use iron_consensus.Core.Dedup.Bytes.{weight}
use iron_consensus.Core.Dedup.Queue.{
  find_evictable-Found, find_evictable-none, whole, without, length-without,
}
use iron_consensus.Core.Dedup.Valid.{IsValid, dropped-IsValid}

-- The table without its oldest completed entry that may go.
pub record Evicts (excluded : Option DedupKey) (t t' : DedupTable) : Type 0 where
  pub key : DedupKey
  pub entry : Entry
  pub outcome : List ℕ
  pub sequence : ℕ
  pub before : List (ℕ × DedupKey)
  pub after : List (ℕ × DedupKey)
  pub split : t.insertion_order ≡ whole before after sequence key
  pub found : BTreeMap.get key t.entries ≡ some entry
  pub state : entry.state ≡ EntryState.completed outcome
  pub allowed : is_excluded excluded key ≡ false
  pub skipped : All (λ x. evictable excluded t.entries x.1 ≡ none) before
  pub left : t' ≡ record t {
    entries = BTreeMap.remove key t.entries;
    insertion_order = without before after sequence key;
    retained_outcome_bytes = t.retained_outcome_bytes - weight entry.state;
  }

evictable-entry :
    (excluded : Option DedupKey) (entries : List (DedupKey × Entry)) (key : DedupKey)
    (outcome : List ℕ)
    → evictable excluded entries key ≡ some outcome
    → (e : Entry) × (BTreeMap.get key entries ≡ some e)
      × (e.state ≡ EntryState.completed outcome)
      × (is_excluded excluded key ≡ false)
unfolding evictable completed_outcome
evictable-entry x m key outcome h = elim (Option-cases (BTreeMap.get key m)) [
  | inl e ↦ absurd (ground arith)
  | inr (f, e) ↦ (f, e, ground arith, ground arith)
]

pub evict-cases :
    (excluded : Option DedupKey) (t : DedupTable)
    → IsValid t
    → ((evict_oldest_completed excluded t ≡ (t, false))
        × ((j : DedupKey) (e : Entry)
            → BTreeMap.get j t.entries ≡ some e
            → evictable excluded t.entries j ≡ none))
      ⊎ ((t' : DedupTable) × (evict_oldest_completed excluded t ≡ (t', true))
          × Evicts excluded t t')
unfolding evict_oldest_completed
evict-cases x t v = elim (Option-cases (find_evictable x t.entries t.insertion_order)) [
  | inl e ↦ inl (
    rw (evict_oldest_completed, e) refl,
    λ j f g.
        find_evictable-none x t.entries t.insertion_order j f.insertion_sequence e
          (ground (arith, v.linked j)),
  )
  | inr ((key, outcome, rest), e) ↦
      let found = find_evictable-Found x t.entries t.insertion_order e in
      let (entry, get, state, allowed) = evictable-entry x t.entries key outcome found.chosen in
      inr (
        record t {
          entries = BTreeMap.remove key t.entries;
          insertion_order = rest;
          retained_outcome_bytes = t.retained_outcome_bytes - length outcome;
        },
        rw (evict_oldest_completed, e) refl,
        record {
          key = key;
          entry = entry;
          outcome = outcome;
          sequence = found.sequence;
          before = found.before;
          after = found.after;
          split = found.split;
          found = get;
          state = state;
          allowed = allowed;
          skipped = found.skipped;
          left = ground (arith, found.left);
        },
      )
]

-- What evictions may do to a table.
pub record Shrinks (excluded : Option DedupKey) (t t' : DedupTable) : Type 0 where
  pub valid : IsValid t'
  pub same_config : t'.config ≡ t.config
  pub same_last : t'.last_insertion_sequence ≡ t.last_insertion_sequence
  pub keeps :
      (j : DedupKey) (e : Entry)
      → BTreeMap.get j t.entries ≡ some e
      → (e.state ≡ EntryState.in_flight) ⊎ (is_excluded excluded j ≡ true)
      → BTreeMap.get j t'.entries ≡ some e
  pub only : (j : DedupKey) → BTreeMap.get j t.entries ≡ none → BTreeMap.get j t'.entries ≡ none

pub Shrinks-refl : (x : Option DedupKey) (t : DedupTable) → IsValid t → Shrinks x t t
Shrinks-refl x t v = record {
  valid = v;
  same_config = refl;
  same_last = refl;
  keeps = λ j e g h. g;
  only = λ j g. g;
}

pub Shrinks-trans :
    (x : Option DedupKey) (t u w : DedupTable) → Shrinks x t u → Shrinks x u w → Shrinks x t w
Shrinks-trans x t u w a b = record {
  valid = b.valid;
  same_config = b.same_config ∙ a.same_config;
  same_last = b.same_last ∙ a.same_last;
  keeps = λ j e g h. b.keeps j e (a.keeps j e g h) h;
  only = λ j g. b.only j (a.only j g);
}

pub Evicts-Shrinks :
    (x : Option DedupKey) (t t' : DedupTable) → IsValid t → Evicts x t t' → Shrinks x t t'
unfolding is_excluded
Evicts-Shrinks x t t' v d = record {
  valid =
      subst IsValid (sym d.left)
        (dropped-IsValid t v d.before d.after d.sequence d.key d.entry d.split d.found);
  same_config = ap (λ u. u.config) d.left;
  same_last = ap (λ u. u.last_insertion_sequence) d.left;
  keeps = λ j e g h. ground (
    arith,
    ap (λ u. BTreeMap.get j u.entries) d.left,
    get-remove j d.key t.entries v.sorted,
    is_eq_iff j d.key,
    d.found,
    d.state,
    d.allowed,
  );
  only = λ j g.
      ground
        (arith, ap (λ u. BTreeMap.get j u.entries) d.left, get-remove j d.key t.entries v.sorted);
}

pub Evicts-length :
    (x : Option DedupKey) (t t' : DedupTable)
    → Evicts x t t'
    → suc (length t'.insertion_order) ≡ length t.insertion_order
Evicts-length x t t' d = omega (
  arith,
  ap (λ u. length u.insertion_order) d.left,
  ap length d.split,
  length-without d.before d.after d.sequence d.key,
)
