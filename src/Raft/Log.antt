-- ===== src/Raft/Log.antt =====
-- `append` of crates/iron-raft/src/lib.rs: the loop that reconciles the log with the leader's
-- entries, against a plain merge, and the effect of one message.
use iron_consensus.Prelude.{
  ℕ, zero, suc, ◌≤◌, ◌≡◌, refl, ap, ◌∙◌, subst, true, false, List, [], ◌∷◌, ◌++◌, map, some, arith,
  Bool-cases, inl, inr, if◌then◌else◌, ◌==◌, length, length-append, take, drop, get_elem?,
}
use mathlib.Core.List.{append-nil, append_assoc}
use iron_consensus.Raft.Types.{LogEntry}
use iron_consensus.Raft.{has_term, place, append_loop}

-- The log from `prev` on, reconciled with the leader's entries: kept while the terms agree,
-- replaced from the first conflict on, extended past its end.
unfoldable pub merge : List LogEntry → List LogEntry → List LogEntry
merge log [] = log
merge [] (e ∷ es) = e ∷ es
merge (x ∷ xs) (e ∷ es) = if x.term == e.term then x ∷ merge xs es else e ∷ es

get_elem?-append :
    (pre : List LogEntry) (x : LogEntry) (xs : List LogEntry)
    → get_elem? (pre ++ (x ∷ xs)) (length pre) ≡ some x
get_elem?-append [] x xs = refl
get_elem?-append (p ∷ pre) x xs = get_elem?-append pre x xs

take-append : (pre ys : List LogEntry) → take (length pre) (pre ++ ys) ≡ pre
take-append [] ys = refl
take-append (p ∷ pre) ys = ap (◌∷◌ p) (take-append pre ys)

place-end : (pre : List LogEntry) (e : LogEntry) → place pre (length pre) e ≡ pre ++ (e ∷ [])
unfolding place
place-end pre e = ground arith

place-conflict :
    (pre : List LogEntry) (x : LogEntry) (xs : List LogEntry) (e : LogEntry)
    → (x.term == e.term) ≡ false
    → place (pre ++ (x ∷ xs)) (length pre) e ≡ pre ++ (e ∷ [])
unfolding place has_term
place-conflict pre x xs e h =
    ground (arith, length-append pre (x ∷ xs), get_elem?-append pre x xs, take-append pre (x ∷ xs))

place-keep :
    (pre : List LogEntry) (x : LogEntry) (xs : List LogEntry) (e : LogEntry)
    → (x.term == e.term) ≡ true
    → place (pre ++ (x ∷ xs)) (length pre) e ≡ pre ++ (x ∷ xs)
unfolding place has_term
place-keep pre x xs e h = ground (arith, length-append pre (x ∷ xs), get_elem?-append pre x xs)

length-snoc : (pre : List LogEntry) (y : LogEntry) → length (pre ++ (y ∷ [])) ≡ suc (length pre)
length-snoc pre y = omega (arith, length-append pre (y ∷ []))

-- From the loop behind one more entry to the loop one round earlier.
shift_round :
    (pre suf es r : List LogEntry) (y : LogEntry)
    → append_loop ((pre ++ (y ∷ [])) ++ suf) (length (pre ++ (y ∷ []))) es ≡ (pre ++ (y ∷ [])) ++ r
    → append_loop (pre ++ (y ∷ suf)) (suc (length pre)) es ≡ pre ++ (y ∷ r)
shift_round pre suf es r y h = simp (append_assoc, length-snoc) at h

merge-nil : (es : List LogEntry) → merge [] es ≡ es
unfolding merge
merge-nil [] = refl
merge-nil (e ∷ es) = refl

-- The loop, entered behind `pre`, merges the rest of the log with the entries.
append_loop-append :
    (pre suf es : List LogEntry) → append_loop (pre ++ suf) (length pre) es ≡ pre ++ merge suf es
unfolding append_loop merge
append_loop-append pre suf [] = refl
append_loop-append pre [] (e ∷ es) =
    let rest = shift_round pre [] es (merge [] es) e (append_loop-append (pre ++ (e ∷ [])) [] es) in
    rw (append-nil, place-end) (rest ∙ rw (merge-nil es))
append_loop-append pre (x ∷ xs) (e ∷ es) = elim (Bool-cases (x.term == e.term)) [
  | inl same ↦
      rw (place-keep pre x xs e same, same)
        (shift_round pre xs es (merge xs es) x (append_loop-append (pre ++ (x ∷ [])) xs es))
  | inr conflict ↦
      let rest =
        shift_round pre [] es (merge [] es) e (append_loop-append (pre ++ (e ∷ [])) [] es) in
      rw (place-conflict pre x xs e conflict, conflict) (rest ∙ rw (merge-nil es))
]

take-length-le : (n : ℕ) (xs : List LogEntry) → n ≤ length xs → length (take n xs) ≡ n
take-length-le zero xs h = refl
take-length-le (suc n) [] h = absurd (omega arith)
take-length-le (suc n) (x ∷ xs) h = ap suc (take-length-le n xs (omega arith))

take-append-drop : (n : ℕ) (xs : List LogEntry) → take n xs ++ drop n xs ≡ xs
take-append-drop zero xs = refl
take-append-drop (suc n) [] = refl
take-append-drop (suc n) (x ∷ xs) = ap (◌∷◌ x) (take-append-drop n xs)

-- The loop entered within the log keeps the log before `prev` and merges what is behind it.
pub append_loop-merge :
    (log es : List LogEntry) (prev : ℕ)
    → prev ≤ length log
    → append_loop log prev es ≡ take prev log ++ merge (drop prev log) es
append_loop-merge log es prev h =
    subst (λ n. append_loop log n es ≡ take prev log ++ merge (drop prev log) es)
      (take-length-le prev log h)
      (subst
        (λ l. append_loop l (length (take prev log)) es ≡ take prev log ++ merge (drop prev log) es)
        (take-append-drop prev log) (append_loop-append (take prev log) (drop prev log) es))

-- Merging twice is merging once.
pub merge_idem : (log es : List LogEntry) → merge (merge log es) es ≡ merge log es
unfolding merge
merge_idem log [] = refl
merge_idem [] (e ∷ es) = ground (arith, merge_idem [] es, merge-nil es)
merge_idem (x ∷ xs) (e ∷ es) = ground (arith, merge_idem xs es, merge_idem [] es, merge-nil es)

-- After a merge the terms at the entries' positions are the entries' terms.
abbrev pub terms : List LogEntry → List ℕ
terms = map (λ e. e.term)

pub merge-terms : (log es : List LogEntry) → take (length es) (terms (merge log es)) ≡ terms es
unfolding merge
merge-terms log [] = refl
merge-terms [] (e ∷ es) = ground (arith, merge-terms [] es, merge-nil es)
merge-terms (x ∷ xs) (e ∷ es) = ground (arith, merge-terms xs es, merge-terms [] es, merge-nil es)
