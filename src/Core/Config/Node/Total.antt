-- ===== src/Core/Config/Node/Total.antt =====
-- The validation of node settings in crates/iron-core/src/config.rs ends: no `expect` fails.
use iron_consensus.Prelude.{
  ℕ, ◌≡◌, ◌≢◌, refl, sym, subst, inl, inr, ◌⊎◌, List, [], ◌∷◌, Option, none, some, Result, ok, err,
  arith,
}
use iron_consensus.Core.Id.{NodeId}
use iron_consensus.Core.Dedup.Types.{DedupConfig}
use iron_consensus.Core.Config.{ValidationError, try_from}
use iron_consensus.Core.Config.Node.Types.{
  Url, RawNodeConfig, WalConfig, TransportConfig, NodeConfig, FieldPath, Problem,
}
use iron_consensus.Core.Config.Node.Members.{gather-IsDistinct, local_is_there}
use iron_consensus.Core.Config.Node.Accepted.{
  IsAccepted, compare_message-empty, compare_outcome-empty, node_try_from-IsAccepted,
}
use iron_consensus.Core.Config.Node.Ends.{
  Ends, There, settle-Ends, keep_or_note-There, wal_try_from-Ends, prefixed-There,
  dedup_prefixed-There, Ends-result, dedup-Ends, transport_try_from-Ends,
}
use iron_consensus.Core.Config.Node.{
  prefixed, dedup_prefixed, wal_try_from, transport_try_from, compare_message, compare_outcome,
  node_built, node_checked, node_try_from, Gathered, check_local,
}

module _ {S : Type 0} (parse_address : List ℕ → Option S) (parse_url : List ℕ → Option Url) where
  node_built-There :
      (cluster : Option (List ℕ)) (node : Option NodeId) (members : List (NodeId × Url))
      (w : Option WalConfig) (t : Option (TransportConfig S)) (d : Option DedupConfig)
      → There cluster
      → There node
      → There w
      → There t
      → There d
      → There (node_built parse_address parse_url cluster node members w t d)
  unfolding node_built
  node_built-There (some a) (some b) ms (some w) (some t) (some d) ha hb hw ht hd = (_, refl)
  node_built-There none b ms w t d (x, h) hb hw ht hd = ground arith
  node_built-There (some a) none ms w t d ha (x, h) hw ht hd = ground arith
  node_built-There (some a) (some b) ms none t d ha hb (x, h) ht hd = ground arith
  node_built-There (some a) (some b) ms (some w) none d ha hb hw (x, h) hd = ground arith
  node_built-There (some a) (some b) ms (some w) (some t) none ha hb hw ht (x, h) = ground arith

  message_nothing :
      (w : Option WalConfig) (t : Option (TransportConfig S)) (es : List Problem)
      → compare_message parse_address parse_url w t es ≡ []
      → es ≡ []
  unfolding compare_message
  message_nothing none t es h = h
  message_nothing (some w) none es h = h
  message_nothing (some w) (some t) es h =
      (compare_message-empty parse_address parse_url w t es h).0

  outcome_nothing :
      (d : Option DedupConfig) (t : Option (TransportConfig S)) (es : List Problem)
      → compare_outcome parse_address parse_url d t es ≡ []
      → es ≡ []
  unfolding compare_outcome
  outcome_nothing none t es h = h
  outcome_nothing (some d) none es h = h
  outcome_nothing (some d) (some t) es h =
      (compare_outcome-empty parse_address parse_url d t es h).0

  local_nothing :
      (node : Option NodeId) (g : Gathered parse_address parse_url)
      → check_local parse_address parse_url node g ≡ []
      → g.errors ≡ []
  unfolding check_local
  local_nothing none g h = h
  local_nothing (some n) g h = (local_is_there parse_address parse_url (some n) n g refl h).0

  -- The three nested conversions and the comparisons behind them.
  nested-There :
      (w : Result (List Problem) WalConfig) (t : Result (List Problem) (TransportConfig S))
      (d : Result (List ValidationError) DedupConfig) (es : List Problem)
      → w ≢ err []
      → t ≢ err []
      → d ≢ err []
      → (let wal = prefixed FieldPath.in_wal w es in
          let transport = prefixed FieldPath.in_transport t wal.1 in
          let dedup = dedup_prefixed d transport.1 in
          compare_outcome parse_address parse_url dedup.0 transport.0
            (compare_message parse_address parse_url wal.0 transport.0 dedup.1)
          ≡ [])
      → (There (prefixed FieldPath.in_wal w es).0
          × There (prefixed FieldPath.in_transport t (prefixed FieldPath.in_wal w es).1).0
          × There
              (dedup_prefixed d
                (prefixed FieldPath.in_transport t (prefixed FieldPath.in_wal w es).1).1).0)
        × (es ≡ [])
  nested-There w t d es hw ht hd empty =
      let wal_kept = prefixed FieldPath.in_wal w es in
      let transport_kept = prefixed FieldPath.in_transport t wal_kept.1 in
      let dedup_kept = dedup_prefixed d transport_kept.1 in
      let quiet = outcome_nothing dedup_kept.0 transport_kept.0 _ empty in
      let errors1 = message_nothing wal_kept.0 transport_kept.0 _ quiet in
      let (dedup, errors2) = dedup_prefixed-There d transport_kept.1 hd errors1 in
      let (transport, errors3) = prefixed-There FieldPath.in_transport t wal_kept.1 ht errors2 in
      let (wal, errors4) = prefixed-There FieldPath.in_wal w es hw errors3 in
      ((wal, transport, dedup), errors4)

  module _ (parse_uuid : List ℕ → Option (List ℕ)) where
    node_checked-Ends :
        (raw : RawNodeConfig) (w : Result (List Problem) WalConfig)
        (t : Result (List Problem) (TransportConfig S))
        (d : Result (List ValidationError) DedupConfig)
        → w ≢ err []
        → t ≢ err []
        → d ≢ err []
        → Ends (node_checked parse_address parse_url parse_uuid raw w t d)
    unfolding node_checked
    node_checked-Ends raw w t d hw ht hd = settle-Ends _ _ (λ empty.
        let ((wal, transport, dedup), errors4) = nested-There w t d _ hw ht hd empty in
        let (errors5, different) =
          gather-IsDistinct parse_address parse_url 0 raw.members _ (local_nothing _ _ errors4) in
        let (node, errors6) = keep_or_note-There _ _ _ errors5 in
        let (cluster, errors7) = keep_or_note-There _ _ _ errors6 in
        node_built-There _ _ _ _ _ _ cluster node wal transport dedup)

    node_try_from_passes :
        (raw : RawNodeConfig) (w : Result (List Problem) WalConfig)
        (t : Result (List Problem) (TransportConfig S))
        (d : Result (List ValidationError) DedupConfig)
        → wal_try_from raw.wal ≡ some w
        → transport_try_from parse_address parse_url raw.transport ≡ some t
        → try_from raw.dedup ≡ some d
        → node_try_from parse_address parse_url parse_uuid raw
          ≡ node_checked parse_address parse_url parse_uuid raw w t d
    unfolding node_try_from
    node_try_from_passes raw w t d ew et ed = ground arith

    node_try_from-Ends :
        (raw : RawNodeConfig) → Ends (node_try_from parse_address parse_url parse_uuid raw)
    node_try_from-Ends raw =
        let (w, (hw, ew)) = Ends-result _ (wal_try_from-Ends raw.wal) in
        let (t, (ht, et)) =
          Ends-result _ (transport_try_from-Ends parse_address parse_url raw.transport) in
        let (d, (hd, ed)) = Ends-result _ (dedup-Ends raw.dedup) in
        subst Ends (sym (node_try_from_passes raw w t d ew et ed))
          (node_checked-Ends raw w t d hw ht hd)

    -- Whatever the parsers of UUIDs, addresses and URLs return, the validation of a node's settings
    -- ends, without a failing `expect`: with at least one error, or with settings that name a valid
    -- node that is a member, give different members different endpoints, and leave room for every
    -- message, with its frame, in a record and for every outcome in a message.
    pub node_try_from_cases :
        (raw : RawNodeConfig)
        → ((c : NodeConfig S) × (node_try_from parse_address parse_url parse_uuid raw ≡ some (ok c))
            × IsAccepted parse_address parse_url c)
          ⊎ ((e : Problem) × (es : List Problem) × (node_try_from parse_address parse_url parse_uuid
                  raw
                ≡ some (err (e ∷ es))))
    node_try_from_cases raw = elim (node_try_from-Ends raw) [
      | inl (c, h) ↦ inl (c, h, node_try_from-IsAccepted parse_address parse_url parse_uuid raw c h)
      | inr refused ↦ inr refused
    ]
