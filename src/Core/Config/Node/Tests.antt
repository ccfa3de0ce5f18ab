-- ===== src/Core/Config/Node/Tests.antt =====
-- The validation of node settings at concrete inputs, and its theorem there.
use iron_consensus.Prelude.{
  ℕ, ◌*◌, ◌≡◌, ◌⊎◌, refl, true, false, List, [], ◌∷◌, Option, some, ok, err,
}
use iron_consensus.BTreeMap.{get, insert}
use iron_consensus.Order.{cmp_list, list_ord}
use iron_consensus.Core.Id.{
  parse_node_id, validate_node_id, all_by, is_node_byte, is_lower_alphanumeric, byte_at,
}
use iron_consensus.Core.Limits.{new_bounded, mebibyte}
use iron_consensus.Core.Config.{
  default_dedup, try_from, assembled, keep_or_push, compare_totals, built, concluded,
}
use iron_consensus.Core.Config.Dedup.{validated}
use iron_consensus.Wal.Types.{TailRepair, SyncPolicy}
use iron_consensus.Core.Config.Node.Types.{
  Url, RawSyncPolicy, RawNodeConfig, NodeConfig, FieldPath, Issue, Problem,
}
use iron_consensus.Core.Config.Node.{
  problem, keep_or_note, settle, endpoint_of, sync_policy_of, wal_built, wal_try_from, prefixed,
  dedup_prefixed, address_of, parse_endpoint, transport_built, transport_try_from, add_endpoint,
  add_member, gather, check_local, compare_message, compare_outcome, node_built, parse_cluster,
  node_checked, node_try_from,
}
use iron_consensus.Core.Config.Node.Accepted.{IsAccepted}
use iron_consensus.Core.Config.Node.Total.{node_try_from_cases}

program : Unit {0}
unfolding get insert cmp_list list_ord parse_node_id validate_node_id all_by is_node_byte
    is_lower_alphanumeric byte_at new_bounded try_from assembled keep_or_push compare_totals built
    concluded keep_or_note settle endpoint_of sync_policy_of wal_built wal_try_from prefixed
    dedup_prefixed address_of parse_endpoint transport_built transport_try_from add_endpoint
    add_member gather check_local compare_message compare_outcome node_built parse_cluster
    node_checked node_try_from
program = tt

-- Parsers that take every text; the scheme is http.
abbrev url : List ℕ → Url
url text = record {
  scheme = b'h' ∷ b't' ∷ b't' ∷ b'p' ∷ [];
  has_host = true;
  cannot_be_a_base = false;
  username = [];
  has_password = false;
  has_query = false;
  has_fragment = false;
  text = text;
}

abbrev any_text : List ℕ → Option (List ℕ)
any_text text = some text

abbrev any_url : List ℕ → Option Url
any_url text = some (url text)

abbrev a : List ℕ
a = b'a' ∷ []

abbrev b : List ℕ
b = b'b' ∷ []

abbrev raw : RawNodeConfig
raw = record {
  cluster_id = 1 ∷ [];
  node_id = a;
  members = (a, 1 ∷ []) ∷ (b, 2 ∷ []) ∷ [];
  wal = record {
    directory = b'w' ∷ [];
    max_record_bytes = 2 * mebibyte;
    sync_policy = RawSyncPolicy.batch 8;
    tail_repair = TailRepair.truncate;
  };
  transport = record {
    listen_address = 1 ∷ [];
    advertised_url = 1 ∷ [];
    request_timeout_ms = 500;
    connect_timeout_ms = 200;
    max_message_bytes = mebibyte;
  };
  dedup = default_dedup;
}

abbrev accepted : NodeConfig (List ℕ)
accepted = record {
  cluster_id = 1 ∷ [];
  node_id = a;
  members = (a, url (1 ∷ [])) ∷ (b, url (2 ∷ [])) ∷ [];
  wal = record {
    directory = b'w' ∷ [];
    max_record_bytes = 2 * mebibyte;
    sync_policy = SyncPolicy.batch 8;
    tail_repair = TailRepair.truncate;
  };
  transport = record {
    listen_address = 1 ∷ [];
    advertised_url = url (1 ∷ []);
    request_timeout = 500;
    connect_timeout = 200;
    max_message_bytes = mebibyte;
  };
  dedup = validated default_dedup;
}

raw_accepted : node_try_from any_text any_url any_text raw ≡ some (ok accepted)
unfolding program
raw_accepted = refl

-- Two members at one endpoint, and a message limit that leaves no room for the frame.
refused_test :
    node_try_from any_text any_url any_text (record raw {
      members = (a, 1 ∷ []) ∷ (b, 1 ∷ []) ∷ [];
      wal = record raw.wal { max_record_bytes = mebibyte };
    })
    ≡ some (
        err (
          problem (FieldPath.member_endpoint 1) Issue.duplicate_endpoint
          ∷ problem
              (FieldPath.in_transport FieldPath.max_message_bytes)
              Issue.exceeds_wal_record_limit
          ∷ []))
unfolding program
refused_test = refl

node_try_from_cases_example :
    ((c : NodeConfig (List ℕ)) × (node_try_from any_text any_url any_text raw ≡ some (ok c))
      × IsAccepted any_text any_url c)
    ⊎ ((e : Problem) × (es : List Problem) × (node_try_from any_text any_url any_text raw
          ≡ some (err (e ∷ es))))
node_try_from_cases_example = node_try_from_cases any_text any_url any_text raw
