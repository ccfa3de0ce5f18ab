-- ===== src/Raft/Matching.antt =====
-- When two logs of crates/iron-raft/src/lib.rs match, and what the merge of a matching log gives.
use iron_consensus.Prelude.{
  ℕ, zero, suc, ◌≤◌, ◌<◌, ◌≡◌, refl, sym, ap, ◌∙◌, List, [], ◌∷◌, ◌++◌, some, arith, Bool-cases,
  ◌⊎◌, inl, inr, ◌==◌, length, take, get_elem?,
}
use iron_consensus.Raft.Types.{LogEntry}
use iron_consensus.Raft.{append_loop}
use iron_consensus.Raft.Log.{merge, append_loop-merge}

-- At a common index with a common term the logs agree up to that index.
abbrev pub Match : List LogEntry → List LogEntry → Type 0
Match xs ys =
    (i : ℕ) (x y : LogEntry)
    → get_elem? xs i ≡ some x
    → get_elem? ys i ≡ some y
    → x.term ≡ y.term
    → take (suc i) xs ≡ take (suc i) ys

pub Match-sym : (xs ys : List LogEntry) → Match xs ys → Match ys xs
Match-sym xs ys h i y x hy hx e = sym (h i x y hx hy (sym e))

abbrev head_of : LogEntry → List LogEntry → LogEntry
head_of d [] = d
head_of d (x ∷ xs) = x

abbrev tail_of : List LogEntry → List LogEntry
tail_of [] = []
tail_of (x ∷ xs) = xs

Match-head :
    (x y : LogEntry) (xs ys : List LogEntry) → Match (x ∷ xs) (y ∷ ys) → x.term ≡ y.term → x ≡ y
Match-head x y xs ys h e = ap (head_of x) (h 0 x y refl refl e)

Match-tail : (x y : LogEntry) (xs ys : List LogEntry) → Match (x ∷ xs) (y ∷ ys) → Match xs ys
Match-tail x y xs ys h i a b ha hb e = ap tail_of (h (suc i) a b ha hb e)

-- Merging a matching log keeps the log or takes the other.
pub merge-cases : (xs es : List LogEntry) → Match xs es → (merge xs es ≡ xs) ⊎ (merge xs es ≡ es)
unfolding merge
merge-cases xs [] h = inl refl
merge-cases [] (e ∷ es) h = inr refl
merge-cases (x ∷ xs) (e ∷ es) h = elim (Bool-cases (x.term == e.term)) [
  | inr conflict ↦ inr (rw conflict refl)
  | inl same ↦ elim (merge-cases xs es (Match-tail x e xs es h)) [
    | inl kept ↦ inl (rw same (ap (◌∷◌ x) kept))
    | inr taken ↦
        inr (rw same (ap (◌∷◌ x) taken ∙ ap (λ z. z ∷ es) (Match-head x e xs es h (ground arith))))
  ]
]

pub append_loop-cases :
    (xs es : List LogEntry) → Match xs es → (append_loop xs 0 es ≡ xs) ⊎ (append_loop xs 0 es ≡ es)
append_loop-cases xs es h = elim (merge-cases xs es h) [
  | inl kept ↦ inl (append_loop-merge xs es 0 (omega arith) ∙ kept)
  | inr taken ↦ inr (append_loop-merge xs es 0 (omega arith) ∙ taken)
]

-- Entries of a log with one more at its end.
pub get_elem?-snoc :
    (xs : List LogEntry) (z : LogEntry) (i : ℕ) (x : LogEntry)
    → get_elem? (xs ++ (z ∷ [])) i ≡ some x
    → (get_elem? xs i ≡ some x) ⊎ ((i ≡ length xs) × (x ≡ z))
get_elem?-snoc [] z zero x h = inr (refl, ground (arith, h))
get_elem?-snoc [] z (suc i) x h = ground (arith, h)
get_elem?-snoc (y ∷ xs) z zero x h = inl h
get_elem?-snoc (y ∷ xs) z (suc i) x h = elim (get_elem?-snoc xs z i x h) [
  | inl old ↦ inl old
  | inr (last, same) ↦ inr (ap suc last, same)
]

pub get_elem?-length :
    (xs : List LogEntry) (i : ℕ) (x : LogEntry) → get_elem? xs i ≡ some x → i < length xs
get_elem?-length [] i x h = ground (arith, h)
get_elem?-length (y ∷ xs) zero x h = omega arith
get_elem?-length (y ∷ xs) (suc i) x h = omega (arith, get_elem?-length xs i x h)

pub take-snoc :
    (xs : List LogEntry) (z : LogEntry) (n : ℕ)
    → n ≤ length xs
    → take n (xs ++ (z ∷ [])) ≡ take n xs
take-snoc xs z zero h = refl
take-snoc [] z (suc n) h = absurd (omega arith)
take-snoc (x ∷ xs) z (suc n) h = ap (◌∷◌ x) (take-snoc xs z n (omega arith))
