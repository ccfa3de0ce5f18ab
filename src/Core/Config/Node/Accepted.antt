-- ===== src/Core/Config/Node/Accepted.antt =====
-- What the node settings that crates/iron-core/src/config.rs accepts satisfy.
use iron_consensus.Prelude.{
  ℕ, ◌+◌, ◌≤◌, ◌≡◌, ◌≢◌, refl, sym, ap₂, subst, ◌∙◌, inl, inr, List, [], ◌∷◌, Option, none, some,
  Result, ok, err, arith, Option-cases,
}
use iron_consensus.Order.{nat_ord, list_ord}
use iron_consensus.BTreeMap.{get}
use iron_consensus.Core.Id.{NodeId, parse_node_id}
use iron_consensus.Core.Id.Text.{IsNodeId, parse_node_id_iff}
use iron_consensus.Core.Id.Names.{parse_node_id-same}
use iron_consensus.Core.Limits.{wal_frame_overhead_bytes}
use iron_consensus.Core.Dedup.Types.{DedupConfig}
use iron_consensus.Core.Config.{ValidationError, try_from}
use iron_consensus.Core.Config.Node.Types.{
  Url, RawNodeConfig, WalConfig, TransportConfig, NodeConfig, FieldPath, Issue, Problem,
}
use iron_consensus.Core.Config.Node.Members.{
  snoc_nonempty, append_empty, keep_or_note-empty, get_nothing, gather-IsDistinct, local_is_there,
}
use iron_consensus.Core.Config.Node.{
  problem, settle, prefixed, dedup_prefixed, wal_try_from, compare_message, compare_outcome,
  node_built, node_checked, node_try_from, transport_try_from,
}

prefixed-empty {ℓ} :
    {A : Type ℓ} (within : FieldPath → FieldPath) (r : Result (List Problem) A) (es : List Problem)
    → (prefixed within r es).1 ≡ []
    → es ≡ []
unfolding prefixed
prefixed-empty within (ok v) es h = h
prefixed-empty within (err nested) es h = append_empty es _ h

dedup_prefixed-empty :
    (r : Result (List ValidationError) DedupConfig) (es : List Problem)
    → (dedup_prefixed r es).1 ≡ []
    → es ≡ []
unfolding dedup_prefixed
dedup_prefixed-empty (ok v) es h = h
dedup_prefixed-empty (err nested) es h = append_empty es _ h

settle-ok {ℓ} :
    {A : Type ℓ} (es : List Problem) (value : Option A) (c : A)
    → settle es value ≡ some (ok c)
    → (es ≡ []) × (value ≡ some c)
unfolding settle
settle-ok [] (some v) c h = (refl, ground arith)
settle-ok [] none c h = ground arith
settle-ok (e ∷ es) v c h = ground arith

node_named : (text node : List ℕ) → parse_node_id text ≡ ok node → IsNodeId node
node_named text node h =
    let same = parse_node_id-same text node h in
    (parse_node_id_iff node).0 (subst (λ x. parse_node_id x ≡ ok node) same h)

no_result :
    {S : Type 0} (c : NodeConfig S) (r : Option (Result (List Problem) (NodeConfig S)))
    → r ≡ none
    → r ≢ some (ok c)
no_result c r e h = ground arith

module _ {S : Type 0} (parse_address : List ℕ → Option S) (parse_url : List ℕ → Option Url) where
  pub compare_message-empty :
      (w : WalConfig) (t : TransportConfig S) (es : List Problem)
      → compare_message parse_address parse_url (some w) (some t) es ≡ []
      → (es ≡ []) × (t.max_message_bytes + wal_frame_overhead_bytes ≤ w.max_record_bytes)
  unfolding compare_message
  compare_message-empty w t es h = ground (
    arith,
    snoc_nonempty es (
        problem (FieldPath.in_transport FieldPath.max_message_bytes)
          Issue.exceeds_wal_record_limit),
  )

  pub compare_outcome-empty :
      (d : DedupConfig) (t : TransportConfig S) (es : List Problem)
      → compare_outcome parse_address parse_url (some d) (some t) es ≡ []
      → (es ≡ []) × (d.max_outcome_bytes ≤ t.max_message_bytes)
  unfolding compare_outcome
  compare_outcome-empty d t es h = ground (
    arith,
    snoc_nonempty es (problem FieldPath.dedup_max_outcome_bytes Issue.exceeds_message_limit),
  )

  -- The same where the values are there by an equation.
  message_fits_in :
      (wal : Option WalConfig) (transport : Option (TransportConfig S)) (w : WalConfig)
      (t : TransportConfig S) (es : List Problem)
      → wal ≡ some w
      → transport ≡ some t
      → compare_message parse_address parse_url wal transport es ≡ []
      → (es ≡ []) × (t.max_message_bytes + wal_frame_overhead_bytes ≤ w.max_record_bytes)
  message_fits_in wal transport w t es here there h =
      compare_message-empty w t es
        (ap₂ (λ x y. compare_message parse_address parse_url x y es) (sym here) (sym there) ∙ h)

  outcome_fits_in :
      (dedup : Option DedupConfig) (transport : Option (TransportConfig S)) (d : DedupConfig)
      (t : TransportConfig S) (es : List Problem)
      → dedup ≡ some d
      → transport ≡ some t
      → compare_outcome parse_address parse_url dedup transport es ≡ []
      → (es ≡ []) × (d.max_outcome_bytes ≤ t.max_message_bytes)
  outcome_fits_in dedup transport d t es here there h =
      compare_outcome-empty d t es
        (ap₂ (λ x y. compare_outcome parse_address parse_url x y es) (sym here) (sym there) ∙ h)

  node_built-some :
      (cluster : Option (List ℕ)) (node : Option NodeId) (members : List (NodeId × Url))
      (w : Option WalConfig) (t : Option (TransportConfig S)) (d : Option DedupConfig)
      (c : NodeConfig S)
      → node_built parse_address parse_url cluster node members w t d ≡ some c
      → (node ≡ some c.node_id)
        × ((members ≡ c.members)
            × ((w ≡ some c.wal) × ((t ≡ some c.transport) × (d ≡ some c.dedup))))
  unfolding node_built
  node_built-some (some a) (some b) ms (some w) (some t) (some d) c h =
      (ground arith, (ground arith, (ground arith, (ground arith, ground arith))))
  node_built-some none b ms w t d c h = ground arith
  node_built-some (some a) none ms w t d c h = ground arith
  node_built-some (some a) (some b) ms none t d c h = ground arith
  node_built-some (some a) (some b) ms (some w) none d c h = ground arith
  node_built-some (some a) (some b) ms (some w) (some t) none c h = ground arith

  -- Settings under which a node can work: the members have different endpoints and the node is one
  -- of them, every message fits into a record with its frame, and every outcome into a message.
  pub record IsAccepted (c : NodeConfig S) : Type 0 where
    pub named : IsNodeId c.node_id
    pub local_member : (url : Url) × (get c.node_id c.members ≡ some url)
    pub distinct :
        (n n' : NodeId) (u u' : Url)
        → get n c.members ≡ some u
        → get n' c.members ≡ some u'
        → u.text ≡ u'.text
        → n ≡ n'
    pub message_fits :
        c.transport.max_message_bytes + wal_frame_overhead_bytes ≤ c.wal.max_record_bytes
    pub outcome_fits : c.dedup.max_outcome_bytes ≤ c.transport.max_message_bytes

  module _ (parse_uuid : List ℕ → Option (List ℕ)) where
    node_checked-IsAccepted :
        (raw : RawNodeConfig) (w : Result (List Problem) WalConfig)
        (t : Result (List Problem) (TransportConfig S))
        (d : Result (List ValidationError) DedupConfig) (c : NodeConfig S)
        → node_checked parse_address parse_url parse_uuid raw w t d ≡ some (ok c)
        → IsAccepted c
    unfolding node_checked
    node_checked-IsAccepted raw w t d c h =
        let (empty, built) = settle-ok _ _ c h in
        let (node, (members, (wal, (transport, dedup)))) = node_built-some _ _ _ _ _ _ c built in
        let (errors1, outcome) = outcome_fits_in _ _ c.dedup c.transport _ dedup transport empty in
        let (errors2, message) = message_fits_in _ _ c.wal c.transport _ wal transport errors1 in
        let locally =
          prefixed-empty FieldPath.in_wal w _
            (prefixed-empty FieldPath.in_transport t _ (dedup_prefixed-empty d _ errors2)) in
        let (errors3, mine) = local_is_there parse_address parse_url _ c.node_id _ node locally in
        let (errors4, different) =
          gather-IsDistinct parse_address parse_url 0 raw.members _ errors3 in
        let (errors5, parsed) = keep_or_note-empty (parse_node_id raw.node_id) _ _ errors4 in
        let kept = different (record {
          recorded = λ n u g. absurd (get_nothing n u g);
          distinct = λ n n' u u' g. absurd (get_nothing n u g);
        }) in
        record {
          named = node_named raw.node_id c.node_id (parsed c.node_id node);
          local_member = subst (λ m. (url : Url) × (get c.node_id m ≡ some url)) members mine;
          distinct =
              subst
                (λ m.
                  (n n' : NodeId) (u u' : Url)
                  → get n m ≡ some u
                  → get n' m ≡ some u'
                  → u.text ≡ u'.text
                  → n ≡ n')
                members kept.distinct;
          message_fits = message;
          outcome_fits = outcome;
        }

    -- Whatever the parsers of UUIDs, addresses and URLs return, settings of a node that pass the
    -- validation name a valid node that is a member, give different members different endpoints,
    -- and leave room for every message, with its frame, in a record and for every outcome in a
    -- message.
    pub node_try_from-IsAccepted :
        (raw : RawNodeConfig) (c : NodeConfig S)
        → node_try_from parse_address parse_url parse_uuid raw ≡ some (ok c)
        → IsAccepted c
    unfolding node_try_from
    node_try_from-IsAccepted raw c h = elim (Option-cases (wal_try_from raw.wal)) [
      | inl e ↦ absurd (no_result c _ (ground arith) h)
      | inr (w, e) ↦
          elim (Option-cases (transport_try_from parse_address parse_url raw.transport)) [
            | inl e' ↦ absurd (no_result c _ (ground arith) h)
            | inr (t, e') ↦ elim (Option-cases (try_from raw.dedup)) [
              | inl e'' ↦ absurd (no_result c _ (ground arith) h)
              | inr (d, e'') ↦ node_checked-IsAccepted raw w t d c (ground arith)
            ]
          ]
    ]
