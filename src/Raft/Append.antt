-- ===== src/Raft/Append.antt =====
-- The follower's side of log replication in crates/iron-raft/src/lib.rs: the outcome of one
-- `AppendEntries`, and of its redelivery.
use iron_consensus.Prelude.{
  ℕ, zero, suc, ◌-◌, ◌≤◌, ◌<◌, min, ◌≡◌, refl, ap, ◌⊎◌, true, false, List, [], ◌∷◌, ◌++◌, ok, arith,
  Bool-cases, inl, inr, length, take, drop, get_elem?,
}
use iron_consensus.Core.Id.{NodeId}
use iron_consensus.Raft.Types.{LogEntry, RaftNode, Message}
use iron_consensus.Raft.{
  Output, has_term, append_loop, matches_prev, append, observe_term, become_follower,
}
use iron_consensus.Raft.Log.{merge, merge_idem, append_loop-merge}

take-take-append :
    (n : ℕ) (xs ys : List LogEntry) → n ≤ length xs → take n (take n xs ++ ys) ≡ take n xs
take-take-append zero xs ys h = refl
take-take-append (suc n) [] ys h = absurd (omega arith)
take-take-append (suc n) (x ∷ xs) ys h = ap (◌∷◌ x) (take-take-append n xs ys (omega arith))

drop-take-append : (n : ℕ) (xs ys : List LogEntry) → n ≤ length xs → drop n (take n xs ++ ys) ≡ ys
drop-take-append zero xs ys h = refl
drop-take-append (suc n) [] ys h = absurd (omega arith)
drop-take-append (suc n) (x ∷ xs) ys h = drop-take-append n xs ys (omega arith)

length-take-append : (n : ℕ) (xs ys : List LogEntry) → n ≤ length xs → n ≤ length (take n xs ++ ys)
length-take-append zero xs ys h = omega arith
length-take-append (suc n) [] ys h = absurd (omega arith)
length-take-append (suc n) (x ∷ xs) ys h = omega (arith, length-take-append n xs ys)

get_elem?-take-append :
    (n i : ℕ) (xs ys : List LogEntry)
    → n ≤ length xs
    → i < n
    → get_elem? (take n xs ++ ys) i ≡ get_elem? xs i
get_elem?-take-append zero i xs ys h lt = absurd (omega arith)
get_elem?-take-append (suc n) i [] ys h lt = absurd (omega arith)
get_elem?-take-append (suc n) zero (x ∷ xs) ys h lt = refl
get_elem?-take-append (suc n) (suc i) (x ∷ xs) ys h lt =
    get_elem?-take-append n i xs ys (omega arith) (omega arith)

module _ (log es : List LogEntry) (prev : ℕ) (h : prev ≤ length log) where
  append_loop_idem : append_loop (append_loop log prev es) prev es ≡ append_loop log prev es
  append_loop_idem =
      rw
        (
          append_loop-merge log es prev h,
          append_loop-merge (take prev log ++ merge (drop prev log) es) es prev
              (length-take-append prev log _ h),
          take-take-append prev log (merge (drop prev log) es) h,
          drop-take-append prev log (merge (drop prev log) es) h,
        )
        (rw (merge_idem (drop prev log) es))

  append_loop-prefix : (i : ℕ) → i < prev → get_elem? (append_loop log prev es) i ≡ get_elem? log i
  append_loop-prefix i lt =
      rw (append_loop-merge log es prev h) (get_elem?-take-append prev i log _ h lt)

  append_loop-length : prev ≤ length (append_loop log prev es)
  append_loop-length = rw (append_loop-merge log es prev h) (length-take-append prev log _ h)

-- The consistency check: `prev` lies within the log, and the entry before it has the given term.
pub matches_prev-bound :
    (log : List LogEntry) (prev prev_term : ℕ)
    → matches_prev log prev prev_term ≡ true
    → prev ≤ length log
unfolding matches_prev
matches_prev-bound log prev prev_term h = ground arith

matches_prev-append_loop :
    (log es : List LogEntry) (prev prev_term : ℕ)
    → matches_prev log prev prev_term ≡ true
    → matches_prev (append_loop log prev es) prev prev_term ≡ true
unfolding matches_prev has_term
matches_prev-append_loop log es prev prev_term h = ground (
  arith,
  append_loop-length log es prev,
  append_loop-prefix log es prev (ground arith) (prev - 1),
)

module _ (s : RaftNode) (term : ℕ) (leader : NodeId) (prev prev_term : ℕ) (es : List LogEntry)
    (leader_commit : ℕ) where
  abbrev after : Output
  after = append s term leader prev prev_term es leader_commit

  -- A message of a current or later term that passes the consistency check: the log up to `prev`
  -- stays, the rest is merged with the entries, the commit index is the leader's as far as the log
  -- goes, and the reply carries the new log's length.
  pub append_accepted :
      s.current_term ≤ term
      → matches_prev s.log prev prev_term ≡ true
      → (after.0.log ≡ take prev s.log ++ merge (drop prev s.log) es)
        × (after.0.commit_index ≡ min leader_commit (length after.0.log))
        × (after.0.current_term ≡ term)
        × (after.1
            ≡ ok (
                record {
                  to = leader;
                  message = Message.append_response term s.id true (length after.0.log);
                }
                ∷ []))
  unfolding append observe_term become_follower
  append_accepted newer fits =
      ground (arith, append_loop-merge s.log es prev (matches_prev-bound s.log prev prev_term fits))

  -- A stale message, or one that fails the check, changes neither the log nor the commit index,
  -- and is refused in the reply.
  pub append_rejected :
      (term < s.current_term) ⊎ (matches_prev s.log prev prev_term ≡ false)
      → (after.0.log ≡ s.log)
        × (after.0.commit_index ≡ s.commit_index)
        × (after.1
            ≡ ok (
                record {
                  to = leader;
                  message = Message.append_response after.0.current_term s.id false 0;
                }
                ∷ []))
  unfolding append observe_term become_follower
  append_rejected bad = ground arith

  -- At-least-once delivery: the same message delivered again changes nothing more and gets the
  -- same reply.
  pub append_idem : append after.0 term leader prev prev_term es leader_commit ≡ after
  unfolding append observe_term become_follower
  append_idem = elim (Bool-cases (matches_prev s.log prev prev_term)) [
    | inl fits ↦ ground (
      arith,
      append_loop_idem s.log es prev (matches_prev-bound s.log prev prev_term fits),
      matches_prev-append_loop s.log es prev prev_term fits,
    )
    | inr misfit ↦ ground arith
  ]
