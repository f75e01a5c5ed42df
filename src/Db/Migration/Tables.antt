-- ===== src/Db/Migration/Tables.antt =====
-- The tables that aae/db/migrations/versions/0001_initial.py creates, call by call.
use self_spawn_agents.Prelude.{List, [], ◌∷◌, codes}
use self_spawn_agents.Db.{
  TableDef, varchar, numeric, timestamp, integer, boolean, json, binary, long_text, float_number,
  required, optional, primary, indexed, unique_one, references,
}

abbrev pub create_preregistrations : TableDef
create_preregistrations = (
  codes "preregistrations",
  primary (codes "id") (varchar 36)
      ∷ required (codes "created_at") timestamp
      ∷ required (codes "vertical_title") (varchar 200)
      ∷ required (codes "primary_metric") (varchar 64)
      ∷ required (codes "primary_threshold") (numeric 12 4)
      ∷ required (codes "measurement_window_days") integer
      ∷ required (codes "locked") boolean
      ∷ required (codes "lock_hash") (varchar 64)
      ∷ required (codes "payload_json") json
      ∷ [],
)

abbrev pub create_vertical_proposals : TableDef
create_vertical_proposals = (
  codes "vertical_proposals",
  primary (codes "id") (varchar 36)
      ∷ required (codes "created_at") timestamp
      ∷ required (codes "title") (varchar 120)
      ∷ required (codes "revenue_channel") (varchar 32)
      ∷ indexed (required (codes "status") (varchar 32))
      ∷ references (codes "preregistrations") (required (codes "preregistration_id") (varchar 36))
      ∷ optional (codes "ethics_verdict_id") (varchar 36)
      ∷ required (codes "payload_json") json
      ∷ [],
)

abbrev pub create_ethics_verdicts : TableDef
create_ethics_verdicts = (
  codes "ethics_verdicts",
  primary (codes "id") (varchar 36)
      ∷ required (codes "request_id") (varchar 36)
      ∷ required (codes "subject_type") (varchar 32)
      ∷ required (codes "subject_id") (varchar 36)
      ∷ required (codes "decision") (varchar 16)
      ∷ required (codes "rationale") long_text
      ∷ required (codes "ruleset_hash") (varchar 64)
      ∷ required (codes "model_used") (varchar 64)
      ∷ required (codes "decided_at") timestamp
      ∷ [],
)

abbrev pub create_cashflow_ledger : TableDef
create_cashflow_ledger = (
  codes "cashflow_ledger",
  primary (codes "id") (varchar 36)
      ∷ indexed (required (codes "ts") timestamp)
      ∷ required (codes "pot") (varchar 16)
      ∷ required (codes "delta") (numeric 12 4)
      ∷ required (codes "source") (varchar 64)
      ∷ optional (codes "ref_id") (varchar 128)
      ∷ optional (codes "note") (varchar 512)
      ∷ optional (codes "written_by") (varchar 32)
      ∷ [],
)

abbrev pub create_agent_memory : TableDef
create_agent_memory = (
  codes "agent_memory",
  primary (codes "id") (varchar 36)
      ∷ required (codes "agent_tier") (varchar 32)
      ∷ indexed (required (codes "key") (varchar 256))
      ∷ required (codes "content") long_text
      ∷ optional (codes "embedding") binary
      ∷ required (codes "created_at") timestamp
      ∷ [],
)

abbrev pub create_build_requests : TableDef
create_build_requests = (
  codes "build_requests",
  primary (codes "id") (varchar 36)
      ∷ required (codes "created_at") timestamp
      ∷ required (codes "requested_by") (varchar 32)
      ∷ required (codes "tool_name") (varchar 64)
      ∷ required (codes "risk_tier") (varchar 16)
      ∷ required (codes "network_required") boolean
      ∷ required (codes "payload_json") json
      ∷ [],
)

abbrev pub create_tool_artifacts : TableDef
create_tool_artifacts = (
  codes "tool_artifacts",
  primary (codes "id") (varchar 36)
      ∷ references (codes "build_requests") (required (codes "build_request_id") (varchar 36))
      ∷ unique_one (required (codes "sha256") (varchar 64))
      ∷ required (codes "code_path") (varchar 256)
      ∷ required (codes "test_path") (varchar 256)
      ∷ required (codes "coverage_pct") float_number
      ∷ required (codes "signed_at") timestamp
      ∷ optional (codes "ethics_verdict_id") (varchar 36)
      ∷ optional (codes "status") (varchar 16)
      ∷ [],
)

abbrev pub create_child_runs : TableDef
create_child_runs = (
  codes "child_runs",
  primary (codes "id") (varchar 36)
      ∷ references (codes "vertical_proposals") (required (codes "vertical_id") (varchar 36))
      ∷ references (codes "preregistrations") (required (codes "preregistration_id") (varchar 36))
      ∷ required (codes "spawned_at") timestamp
      ∷ indexed (required (codes "status") (varchar 16))
      ∷ required (codes "monthly_budget_usd") (numeric 12 4)
      ∷ optional (codes "spent_mtd_usd") (numeric 12 4)
      ∷ optional (codes "revenue_mtd_usd") (numeric 12 4)
      ∷ required (codes "last_heartbeat") timestamp
      ∷ optional (codes "last_error") long_text
      ∷ [],
)

abbrev pub create_tool_invocations : TableDef
create_tool_invocations = (
  codes "tool_invocations",
  primary (codes "id") (varchar 36)
      ∷ indexed (required (codes "tool_sha") (varchar 64))
      ∷ required (codes "invoked_at") timestamp
      ∷ required (codes "duration_ms") integer
      ∷ optional (codes "bytes_in") integer
      ∷ optional (codes "bytes_out") integer
      ∷ optional (codes "cost_usd") (numeric 12 6)
      ∷ required (codes "outcome") (varchar 16)
      ∷ [],
)

abbrev pub create_channel_health : TableDef
create_channel_health = (
  codes "channel_health",
  primary (codes "id") (varchar 36)
      ∷ indexed (required (codes "channel") (varchar 32))
      ∷ required (codes "checked_at") timestamp
      ∷ required (codes "latency_ms") integer
      ∷ required (codes "ok") boolean
      ∷ optional (codes "detail") long_text
      ∷ [],
)

abbrev pub create_security_events : TableDef
create_security_events = (
  codes "security_events",
  primary (codes "id") (varchar 36)
      ∷ required (codes "ts") timestamp
      ∷ required (codes "rule") (varchar 128)
      ∷ required (codes "detail") long_text
      ∷ optional (codes "resolved_at") timestamp
      ∷ [],
)

abbrev pub create_frozen_hashes : TableDef
create_frozen_hashes = (
  codes "frozen_hashes",
  primary (codes "path") (varchar 256)
      ∷ required (codes "sha256") (varchar 64)
      ∷ required (codes "updated_at") timestamp
      ∷ [],
)

abbrev pub create_weekly_digests : TableDef
create_weekly_digests = (
  codes "weekly_digests",
  primary (codes "id") (varchar 36)
      ∷ required (codes "week_start") timestamp
      ∷ required (codes "week_end") timestamp
      ∷ required (codes "payload_json") json
      ∷ optional (codes "sent_at") timestamp
      ∷ optional (codes "operator_reply") long_text
      ∷ [],
)

abbrev pub create_operator_messages : TableDef
create_operator_messages = (
  codes "operator_messages",
  primary (codes "id") (varchar 36)
      ∷ required (codes "ts") timestamp
      ∷ required (codes "verb") (varchar 32)
      ∷ optional (codes "arg") (varchar 128)
      ∷ required (codes "raw_sha256") (varchar 64)
      ∷ required (codes "raw_subject") (varchar 256)
      ∷ required (codes "accepted") boolean
      ∷ [],
)

-- In the order of the calls.
abbrev pub created : List TableDef
created =
    create_preregistrations ∷ create_vertical_proposals ∷ create_ethics_verdicts
    ∷ create_cashflow_ledger ∷ create_agent_memory ∷ create_build_requests ∷ create_tool_artifacts
    ∷ create_child_runs ∷ create_tool_invocations ∷ create_channel_health ∷ create_security_events
    ∷ create_frozen_hashes ∷ create_weekly_digests ∷ create_operator_messages ∷ []
