-- ===== src/Core/Config/Node/Types.antt =====
-- The data of the node settings in crates/iron-core/src/config.rs. A text and a path are bytes; a
-- `Url` of the url crate is what its accessors return, and a socket address is any type.
use iron_consensus.Prelude.{ℕ, Bool, List}
use iron_consensus.Core.Id.{NodeId}
use iron_consensus.Core.Dedup.Types.{DedupConfig}
use iron_consensus.Core.Config.{RawDedupConfig}
use iron_consensus.Core.Config
use iron_consensus.Wal.Types.{SyncPolicy, TailRepair}

pub record Url : Type 0 where
  pub scheme : List ℕ
  pub has_host : Bool
  pub cannot_be_a_base : Bool
  pub username : List ℕ
  pub has_password : Bool
  pub has_query : Bool
  pub has_fragment : Bool
  pub text : List ℕ

-- The errors of `CoreError` about endpoints.
pub data EndpointError : Type 0 where
  invalid_url invalid_scheme missing_host credentials_not_allowed : EndpointError
  query_not_allowed fragment_not_allowed : EndpointError

pub data RawSyncPolicy : Type 0 where
  always manual : RawSyncPolicy
  batch : ℕ → RawSyncPolicy

pub record RawWalConfig : Type 0 where
  pub directory : List ℕ
  pub max_record_bytes : ℕ
  pub sync_policy : RawSyncPolicy
  pub tail_repair : TailRepair

pub record RawTransportConfig : Type 0 where
  pub listen_address : List ℕ
  pub advertised_url : List ℕ
  pub request_timeout_ms : ℕ
  pub connect_timeout_ms : ℕ
  pub max_message_bytes : ℕ

pub record RawNodeConfig : Type 0 where
  pub cluster_id : List ℕ
  pub node_id : List ℕ
  pub members : List (List ℕ × List ℕ)
  pub wal : RawWalConfig
  pub transport : RawTransportConfig
  pub dedup : RawDedupConfig

pub record WalConfig : Type 0 where
  pub directory : List ℕ
  pub max_record_bytes : ℕ
  pub sync_policy : SyncPolicy
  pub tail_repair : TailRepair

pub record TransportConfig (S : Type 0) : Type 0 where
  pub listen_address : S
  pub advertised_url : Url
  pub request_timeout : ℕ
  pub connect_timeout : ℕ
  pub max_message_bytes : ℕ

pub record NodeConfig (S : Type 0) : Type 0 where
  pub cluster_id : List ℕ
  pub node_id : NodeId
  pub members : List (NodeId × Url)
  pub wal : WalConfig
  pub transport : TransportConfig S
  pub dedup : DedupConfig

-- The field paths of the errors; a member's has its index.
pub data FieldPath : Type 0 where
  cluster_id node_id members directory max_record_bytes max_unsynced_records : FieldPath
  listen_address advertised_url request_timeout_ms connect_timeout_ms max_message_bytes : FieldPath
  dedup_max_outcome_bytes : FieldPath
  member_node_id member_endpoint : ℕ → FieldPath
  in_wal in_transport : FieldPath → FieldPath
  in_dedup : Config.Field → FieldPath

-- Their codes.
pub data Issue : Type 0 where
  invalid_uuid zero invalid_node_id empty out_of_range invalid_socket_address : Issue
  duplicate_endpoint missing_local_node exceeds_wal_record_limit exceeds_message_limit : Issue
  endpoint : EndpointError → Issue
  dedup : Config.Code → Issue

pub record Problem : Type 0 where
  pub path : FieldPath
  pub issue : Issue
