-- ===== src/MultiPaxos/Newest.antt =====
-- The accepted values after a promise in crates/iron-multipaxos/src/lib.rs: no newer one is replaced
-- by an older one.
use iron_consensus.Prelude.{
  ℕ, ◌≡◌, refl, ◌∙◌, true, false, List, [], ◌∷◌, Option, none, some, arith, Bool-cases,
  Option-cases, inl, inr, ◌⊎◌, All,
}
use mathlib.Core.List.{Memᴰ}
use iron_consensus.Order.{is_eq, is_lt, is_eq_iff, nat_ord}
use iron_consensus.Core.Id.{NodeId, node_ord}
use iron_consensus.BTreeMap
use iron_consensus.BTreeMap.Laws.{get-insert}
use iron_consensus.MultiPaxos.Types.{Ballot, Value, Message, Node, ballot_ord}
use iron_consensus.MultiPaxos.{keep_newest, replaces, merge_accepted, promise, receive}

-- The map has a value of the slot, of the ballot or a greater one.
abbrev pub Holds : List (ℕ × (Ballot × Value)) → ℕ → Ballot → Type 0
Holds m slot b =
    (c : Ballot) × ((v : Value) × ((BTreeMap.get slot m ≡ some (c, v)) × (is_lt c b ≡ false)))

above_not_lt : (d b c : Ballot) → is_lt d b ≡ true → is_lt d c ≡ false → is_lt b c ≡ false
above_not_lt d b c l h = ground (arith, ballot_ord.cmp_trans d b c)

inserted-Holds :
    (b : Ballot) (v : Value) (m : List (ℕ × (Ballot × Value)))
    → Holds (BTreeMap.insert v.slot (b, v) m) v.slot b
inserted-Holds b v m = (
  b,
  (
    v,
    (
      ground (arith, get-insert v.slot v.slot (b, v) m, is_eq_iff v.slot v.slot),
      ground (arith, ballot_ord.cmp_iff b b),
    ),
  ),
)

-- Another entry, or one that the new ballot is not below, counts for what it did.
inserted-keeps_Holds :
    (b : Ballot) (v : Value) (m : List (ℕ × (Ballot × Value))) (slot : ℕ) (c : Ballot)
    → (BTreeMap.get v.slot m ≡ none)
      ⊎ ((d : Ballot) × ((w : Value) × ((BTreeMap.get v.slot m ≡ some (d, w))
              × (is_lt d b ≡ true))))
    → Holds m slot c
    → Holds (BTreeMap.insert v.slot (b, v) m) slot c
inserted-keeps_Holds b v m slot c replaced (d, (w, (e, g))) =
    elim (Bool-cases (is_eq slot v.slot)) [
      | inr other ↦ (d, (w, (ground (arith, get-insert slot v.slot (b, v) m), g)))
      | inl same ↦ (
        b,
        (
          v,
          (
            ground (arith, get-insert slot v.slot (b, v) m),
            elim replaced [
              | inl nothing ↦ absurd (ground (arith, is_eq_iff slot v.slot))
              | inr (d', (w', (e', below))) ↦
                  ground (arith, is_eq_iff slot v.slot, above_not_lt d b c, above_not_lt d' b c)
            ],
          ),
        ),
      )
    ]

keep_newest-Holds :
    (b : Ballot) (v : Value) (m : List (ℕ × (Ballot × Value))) → Holds (keep_newest b v m) v.slot b
unfolding keep_newest replaces
keep_newest-Holds b v m = elim (Option-cases (BTreeMap.get v.slot m)) [
  | inl e ↦ rw e (inserted-Holds b v m)
  | inr ((c, w), e) ↦ elim (Bool-cases (is_lt c b)) [
    | inl older ↦ rw (e, older) (inserted-Holds b v m)
    | inr newer ↦ rw (e, newer) (c, (w, (e, newer)))
  ]
]

keep_newest-keeps_Holds :
    (b : Ballot) (v : Value) (m : List (ℕ × (Ballot × Value))) (slot : ℕ) (c : Ballot)
    → Holds m slot c
    → Holds (keep_newest b v m) slot c
unfolding keep_newest replaces
keep_newest-keeps_Holds b v m slot c h = elim (Option-cases (BTreeMap.get v.slot m)) [
  | inl e ↦ rw e (inserted-keeps_Holds b v m slot c (inl e) h)
  | inr ((d, w), e) ↦ elim (Bool-cases (is_lt d b)) [
    | inl older ↦ rw (e, older) (inserted-keeps_Holds b v m slot c (inr (d, (w, (e, older)))) h)
    | inr newer ↦ rw (e, newer) h
  ]
]

merge_accepted-keeps_Holds :
    (reports : List (Ballot × Value)) (m : List (ℕ × (Ballot × Value))) (slot : ℕ) (c : Ballot)
    → Holds m slot c
    → Holds (merge_accepted reports m) slot c
unfolding merge_accepted
merge_accepted-keeps_Holds [] m slot c h = h
merge_accepted-keeps_Holds ((b, v) ∷ rest) m slot c h =
    merge_accepted-keeps_Holds rest (keep_newest b v m) slot c
      (keep_newest-keeps_Holds b v m slot c h)

merge_accepted-Holds :
    (reports : List (Ballot × Value)) (m : List (ℕ × (Ballot × Value)))
    → All (λ r. Holds (merge_accepted reports m) r.1.slot r.0) reports
unfolding merge_accepted
merge_accepted-Holds [] m = tt
merge_accepted-Holds ((b, v) ∷ rest) m = (
  merge_accepted-keeps_Holds rest (keep_newest b v m) v.slot b (keep_newest-Holds b v m),
  merge_accepted-Holds rest (keep_newest b v m),
)

-- Of two entries of a slot, the second is there if the first is, of no smaller ballot.
abbrev pub IsNewer : Option (Ballot × Value) → Option (Ballot × Value) → Type 0
IsNewer none later = Unit
IsNewer (some (b, v)) none = ⊥
IsNewer (some (b, v)) (some (c, w)) = is_lt c b ≡ false

Holds-IsNewer :
    (m : List (ℕ × (Ballot × Value))) (slot : ℕ) (before : Option (Ballot × Value))
    → ((c : Ballot) (v : Value) → before ≡ some (c, v) → Holds m slot c)
    → IsNewer before (BTreeMap.get slot m)
Holds-IsNewer m slot none h = tt
Holds-IsNewer m slot (some (b, v)) h = let (c, (w, (e, newer))) = h b v refl in rw e newer

-- A slot's later entry is the one before the reports, or one of the reports of that slot.
abbrev pub Comes :
    List (Ballot × Value) → ℕ → Option (Ballot × Value) → Option (Ballot × Value) → Type 0
Comes reports slot before later =
    (later ≡ before)
    ⊎ ((r : Ballot × Value) × Memᴰ r reports × (r.1.slot ≡ slot) × (later ≡ some r))

keep_newest-cases :
    (b : Ballot) (v : Value) (m : List (ℕ × (Ballot × Value))) (slot : ℕ)
    → (BTreeMap.get slot (keep_newest b v m) ≡ BTreeMap.get slot m)
      ⊎ ((v.slot ≡ slot) × (BTreeMap.get slot (keep_newest b v m) ≡ some (b, v)))
unfolding keep_newest
keep_newest-cases b v m slot = elim (Bool-cases (replaces b (BTreeMap.get v.slot m))) [
  | inr kept ↦ inl (ground arith)
  | inl replaced ↦ elim (Bool-cases (is_eq slot v.slot)) [
    | inr other ↦ inl (ground (arith, get-insert slot v.slot (b, v) m))
    | inl same ↦
        inr (ground (arith, is_eq_iff slot v.slot), ground (arith, get-insert slot v.slot (b, v) m))
  ]
]

merge_accepted-Comes :
    (reports : List (Ballot × Value)) (m : List (ℕ × (Ballot × Value))) (slot : ℕ)
    → Comes reports slot (BTreeMap.get slot m) (BTreeMap.get slot (merge_accepted reports m))
unfolding merge_accepted
merge_accepted-Comes [] m slot = inl refl
merge_accepted-Comes ((b, v) ∷ rest) m slot =
    elim (merge_accepted-Comes rest (keep_newest b v m) slot) [
      | inr (r, there, same, e) ↦ inr (r, Memᴰ.tail there, same, e)
      | inl e ↦ elim (keep_newest-cases b v m slot) [
        | inl kept ↦ inl (e ∙ kept)
        | inr (same, taken) ↦ inr ((b, v), Memᴰ.head refl, same, e ∙ taken)
      ]
    ]

-- After a promise of the node's own ballot, the node has for every reported value one of that slot
-- whose ballot is not smaller; and for any slot, what it had accepted there is still there, or one of
-- the reports of that slot stands there, and never with a smaller ballot.
pub promise-Holds :
    (s : Node) (from : NodeId) (reports : List (Ballot × Value)) (slot : ℕ)
    → let s' = (receive s from (Message.promise s.ballot reports)).0 in
      All (λ r. Holds s'.accepted r.1.slot r.0) reports
      × IsNewer (BTreeMap.get slot s.accepted) (BTreeMap.get slot s'.accepted)
      × Comes reports slot (BTreeMap.get slot s.accepted) (BTreeMap.get slot s'.accepted)
unfolding receive promise
promise-Holds s from reports slot = rw own (
  merge_accepted-Holds reports s.accepted,
  Holds-IsNewer (merge_accepted reports s.accepted) slot (BTreeMap.get slot s.accepted)
      (λ c v e. merge_accepted-keeps_Holds reports s.accepted slot c (c, (v, (e, not_below c)))),
  merge_accepted-Comes reports s.accepted slot,
)
  where
    own : is_eq s.ballot s.ballot ≡ true
    own = ground (arith, ballot_ord.cmp_iff s.ballot s.ballot)

    not_below : (c : Ballot) → is_lt c c ≡ false
    not_below c = ground (arith, ballot_ord.cmp_iff c c)
