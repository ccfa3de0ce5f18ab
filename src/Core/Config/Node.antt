-- ===== src/Core/Config/Node.antt =====
-- crates/iron-core/src/config.rs: the validation of the settings of a node. The parsers of UUIDs,
-- socket addresses and URLs are parameters; errors stand in the order in which they are found.
pub mod Types
pub mod Members
pub mod Accepted
pub mod Ends
pub mod Total
mod Tests
use iron_consensus.Prelude.{
  ℕ, ◌+◌, Bool, true, false, ◌&&◌, ◌||◌, not, List, [], ◌∷◌, ◌++◌, map, Option, none, some, Result,
  ok, err, if◌then◌else◌, ltb, ◌==◌, length, checked_add, u32_mod,
}
use iron_consensus.Order.{is_eq, nat_ord, list_ord}
use iron_consensus.BTreeMap.{get, insert}
use iron_consensus.Core.Id.{NodeId, TextError, parse_node_id}
use iron_consensus.Core.Limits.{
  RangeError, new_bounded, max_record_bytes, max_message_bytes, timeout_millis,
  max_unsynced_records, wal_frame_overhead_bytes,
}
use iron_consensus.Core.Dedup.Types.{DedupConfig}
use iron_consensus.Core.Envelope.Types.{zero_bytes}
use iron_consensus.Core.Config.{ValidationError, try_from}
use iron_consensus.Wal.Types.{SyncPolicy}
use Types.{
  Url, EndpointError, RawSyncPolicy, RawWalConfig, RawTransportConfig, RawNodeConfig, WalConfig,
  TransportConfig, NodeConfig, FieldPath, Issue, Problem,
}

abbrev pub problem : FieldPath → Issue → Problem
problem path issue = record { path = path; issue = issue }

-- `match … { Ok(value) => Some(value), Err(_) => { errors.push(…); None } }`
unfoldable pub keep_or_note {ℓ κ} :
    {E : Type ℓ} {A : Type κ} → Result E A → (E → Problem) → List Problem → Option A × List Problem
keep_or_note (ok value) note errors = (some value, errors)
keep_or_note (err e) note errors = (none, errors ++ (note e ∷ []))

-- `ValidationErrors::from_vec`, and the values behind it; `none` is a panic of `expect`.
unfoldable pub settle {ℓ} :
    {A : Type ℓ} → List Problem → Option A → Option (Result (List Problem) A)
settle (e ∷ errors) value = some (err (e ∷ errors))
settle [] (some value) = some (ok value)
settle [] none = none

-- `PeerEndpoint::parse`, once the URL is parsed.
unfoldable pub endpoint_of : Url → Result EndpointError Url
endpoint_of url =
    if not (
      is_eq url.scheme (b'h' ∷ b't' ∷ b't' ∷ b'p' ∷ [])
      || is_eq url.scheme (b'h' ∷ b't' ∷ b't' ∷ b'p' ∷ b's' ∷ []))
    then err EndpointError.invalid_scheme
    else if not url.has_host || url.cannot_be_a_base
    then err EndpointError.missing_host
    else if not (length url.username == 0) || url.has_password
    then err EndpointError.credentials_not_allowed
    else if url.has_query
    then err EndpointError.query_not_allowed
    else if url.has_fragment
    then err EndpointError.fragment_not_allowed
    else ok url

-- `SyncPolicy::batch` and the match around it.
unfoldable pub sync_policy_of : RawSyncPolicy → Result RangeError SyncPolicy
sync_policy_of RawSyncPolicy.always = ok SyncPolicy.always
sync_policy_of RawSyncPolicy.manual = ok SyncPolicy.manual
sync_policy_of (RawSyncPolicy.batch n) = elim (new_bounded max_unsynced_records n) [
  | ok size ↦ ok (SyncPolicy.batch size)
  | err e ↦ err e
]

unfoldable pub wal_built : RawWalConfig → Option ℕ → Option SyncPolicy → Option WalConfig
wal_built raw none policy = none
wal_built raw (some size) none = none
wal_built raw (some size) (some policy) = some (record {
  directory = raw.directory;
  max_record_bytes = size;
  sync_policy = policy;
  tail_repair = raw.tail_repair;
})

-- `WalConfig::try_from`
unfoldable pub wal_try_from : RawWalConfig → Option (Result (List Problem) WalConfig)
unfolding keep_or_note settle sync_policy_of wal_built
wal_try_from raw =
    let named =
      if length raw.directory == 0 then problem FieldPath.directory Issue.empty ∷ [] else [] in
    let size =
      keep_or_note (new_bounded max_record_bytes raw.max_record_bytes)
        (λ e. problem FieldPath.max_record_bytes Issue.out_of_range) named in
    let policy =
      keep_or_note (sync_policy_of raw.sync_policy)
        (λ e. problem FieldPath.max_unsynced_records Issue.zero) size.1 in
    settle policy.1 (wal_built raw size.0 policy.0)

-- `extend_prefixed`
unfoldable pub prefixed {ℓ} :
    {A : Type ℓ}
    → (FieldPath → FieldPath)
    → Result (List Problem) A
    → List Problem
    → Option A × List Problem
prefixed within (ok value) errors = (some value, errors)
prefixed within (err nested) errors =
    (none, errors ++ map (λ p. problem (within p.path) p.issue) nested)

-- The same of the deduplication settings.
unfoldable pub dedup_prefixed :
    Result (List ValidationError) DedupConfig → List Problem → Option DedupConfig × List Problem
dedup_prefixed (ok value) errors = (some value, errors)
dedup_prefixed (err nested) errors =
    (none, errors ++ map (λ p. problem (FieldPath.in_dedup p.field) (Issue.dedup p.code)) nested)

module _ {S : Type 0} (parse_address : List ℕ → Option S) (parse_url : List ℕ → Option Url) where
  -- `parse::<SocketAddr>()`
  unfoldable pub address_of : List ℕ → Result (Unit {0}) S
  address_of text = elim (parse_address text) [ none ↦ err tt | some address ↦ ok address ]

  -- `PeerEndpoint::parse`
  unfoldable pub parse_endpoint : List ℕ → Result EndpointError Url
  unfolding endpoint_of
  parse_endpoint text = elim (parse_url text) [
    | none ↦ err EndpointError.invalid_url
    | some url ↦ endpoint_of url
  ]

  unfoldable pub transport_built :
      Option S → Option Url → Option ℕ → Option ℕ → Option ℕ → Option (TransportConfig S)
  transport_built (some address) (some url) (some request) (some connect) (some size) =
      some (record {
        listen_address = address;
        advertised_url = url;
        request_timeout = request;
        connect_timeout = connect;
        max_message_bytes = size;
      })
  transport_built _ _ _ _ _ = none

  -- `TransportConfig::try_from`; the two `validate_timeout` are in line.
  unfoldable pub transport_try_from :
      RawTransportConfig → Option (Result (List Problem) (TransportConfig S))
  unfolding address_of parse_endpoint transport_built
  transport_try_from raw =
      let address =
        keep_or_note (address_of raw.listen_address)
          (λ e. problem FieldPath.listen_address Issue.invalid_socket_address) [] in
      let url =
        keep_or_note (parse_endpoint raw.advertised_url)
          (λ e. problem FieldPath.advertised_url (Issue.endpoint e)) address.1 in
      let request =
        keep_or_note (new_bounded timeout_millis raw.request_timeout_ms)
          (λ e. problem FieldPath.request_timeout_ms Issue.out_of_range) url.1 in
      let connect =
        keep_or_note (new_bounded timeout_millis raw.connect_timeout_ms)
          (λ e. problem FieldPath.connect_timeout_ms Issue.out_of_range) request.1 in
      let size =
        keep_or_note (new_bounded max_message_bytes raw.max_message_bytes)
          (λ e. problem FieldPath.max_message_bytes Issue.out_of_range) connect.1 in
      settle size.1 (transport_built address.0 url.0 request.0 connect.0 size.0)

  -- What the loop of `validate_members` keeps.
  pub record Gathered : Type 0 where
    pub members : List (NodeId × Url)
    pub endpoints : List (List ℕ × ℕ)
    pub errors : List Problem

  -- A member's endpoint: the value, and what the loop keeps then.
  unfoldable pub add_endpoint : ℕ → Result EndpointError Url → Gathered → Option Url × Gathered
  add_endpoint index (err e) g = (
    none,
    record g {
      errors = g.errors ++ (problem (FieldPath.member_endpoint index) (Issue.endpoint e) ∷ []);
    },
  )
  add_endpoint index (ok url) g = (
    some url,
    record g {
      endpoints = insert url.text index g.endpoints;
      errors = elim (get url.text g.endpoints) [
        | none ↦ g.errors
        | some earlier ↦
            g.errors ++ (problem (FieldPath.member_endpoint index) Issue.duplicate_endpoint ∷ [])
      ];
    },
  )

  unfoldable pub add_member : Option NodeId → Option Url × Gathered → Gathered
  add_member none (url, g) = g
  add_member (some node) (none, g) = g
  add_member (some node) (some url, g) = record g { members = insert node url g.members }

  -- The loop, from an index on.
  unfoldable pub gather : ℕ → List (List ℕ × List ℕ) → Gathered → Gathered
  unfolding keep_or_note parse_endpoint add_endpoint add_member
  gather index [] g = g
  gather index ((raw_node, raw_endpoint) ∷ raw_members) g =
      let node =
        keep_or_note (parse_node_id raw_node)
          (λ e. problem (FieldPath.member_node_id index) Issue.invalid_node_id) g.errors in
      gather (index + 1) raw_members (
        add_member node.0
          (add_endpoint index (parse_endpoint raw_endpoint) (record g { errors = node.1 })))

  -- The end of `validate_members`.
  unfoldable pub check_local : Option NodeId → Gathered → List Problem
  check_local none g = g.errors
  check_local (some node) g = elim (get node g.members) [
    | some url ↦ g.errors
    | none ↦ g.errors ++ (problem FieldPath.members Issue.missing_local_node ∷ [])
  ]

  -- The message with its frame against the record limit.
  unfoldable pub compare_message :
      Option WalConfig → Option (TransportConfig S) → List Problem → List Problem
  compare_message (some wal) (some transport) errors =
      if elim (checked_add u32_mod transport.max_message_bytes wal_frame_overhead_bytes) [
        | none ↦ true
        | some framed ↦ ltb wal.max_record_bytes framed
      ]
      then errors
        ++ (problem (FieldPath.in_transport FieldPath.max_message_bytes)
              Issue.exceeds_wal_record_limit
            ∷ [])
      else errors
  compare_message _ _ errors = errors

  -- The outcome limit against the message limit.
  unfoldable pub compare_outcome :
      Option DedupConfig → Option (TransportConfig S) → List Problem → List Problem
  compare_outcome (some dedup) (some transport) errors =
      if ltb transport.max_message_bytes dedup.max_outcome_bytes
      then errors ++ (problem FieldPath.dedup_max_outcome_bytes Issue.exceeds_message_limit ∷ [])
      else errors
  compare_outcome _ _ errors = errors

  unfoldable pub node_built :
      Option (List ℕ)
      → Option NodeId
      → List (NodeId × Url)
      → Option WalConfig
      → Option (TransportConfig S)
      → Option DedupConfig
      → Option (NodeConfig S)
  node_built (some cluster) (some node) members (some wal) (some transport) (some dedup) =
      some (record {
        cluster_id = cluster;
        node_id = node;
        members = members;
        wal = wal;
        transport = transport;
        dedup = dedup;
      })
  node_built _ _ _ _ _ _ = none

  -- A `uuid::Uuid::parse_str`, which gives the 16 bytes.
  module _ (parse_uuid : List ℕ → Option (List ℕ)) where
    -- `ClusterId::parse`, its error by code.
    unfoldable pub parse_cluster : List ℕ → Result Issue (List ℕ)
    parse_cluster text = elim (parse_uuid text) [
      | none ↦ err Issue.invalid_uuid
      | some bytes ↦ if is_eq bytes zero_bytes then err Issue.zero else ok bytes
    ]

    -- `NodeConfig::try_from` behind the three nested conversions.
    unfoldable pub node_checked :
        RawNodeConfig
        → Result (List Problem) WalConfig
        → Result (List Problem) (TransportConfig S)
        → Result (List ValidationError) DedupConfig
        → Option (Result (List Problem) (NodeConfig S))
    unfolding keep_or_note settle prefixed dedup_prefixed gather check_local compare_message
        compare_outcome node_built parse_cluster
    node_checked raw wal_result transport_result dedup_result =
        let cluster =
          keep_or_note (parse_cluster raw.cluster_id) (λ e. problem FieldPath.cluster_id e) [] in
        let node =
          keep_or_note (parse_node_id raw.node_id)
            (λ e. problem FieldPath.node_id Issue.invalid_node_id) cluster.1 in
        let g = gather 0 raw.members (record { members = []; endpoints = []; errors = node.1 }) in
        let wal = prefixed FieldPath.in_wal wal_result (check_local node.0 g) in
        let transport = prefixed FieldPath.in_transport transport_result wal.1 in
        let dedup = dedup_prefixed dedup_result transport.1 in
        settle (compare_outcome dedup.0 transport.0 (compare_message wal.0 transport.0 dedup.1))
          (node_built cluster.0 node.0 g.members wal.0 transport.0 dedup.0)

    -- `NodeConfig::try_from`
    unfoldable pub node_try_from : RawNodeConfig → Option (Result (List Problem) (NodeConfig S))
    unfolding wal_try_from transport_try_from try_from node_checked
    node_try_from raw = elim (wal_try_from raw.wal) [
      | none ↦ none
      | some wal ↦ elim (transport_try_from raw.transport) [
        | none ↦ none
        | some transport ↦ elim (try_from raw.dedup) [
          | none ↦ none
          | some dedup ↦ node_checked raw wal transport dedup
        ]
      ]
    ]
