-- ===== src/Db/Models.antt =====
-- aae/db/models.py: the columns of each class, in order. Where `nullable` is not said, the
-- annotation says it: `str | None` may be null, `str` may not.
use self_spawn_agents.Prelude.{List, [], ◌∷◌, codes}
use self_spawn_agents.Db.{
  TableDef, varchar, numeric, timestamp, integer, boolean, json, binary, long_text, float_number,
  required, optional, primary, indexed, unique_one, references,
}

abbrev pub agent_memory : TableDef
agent_memory = (
  codes "agent_memory",
  primary (codes "id") (varchar 36)
      ∷ required (codes "agent_tier") (varchar 32)
      ∷ indexed (required (codes "key") (varchar 256))
      ∷ required (codes "content") long_text
      ∷ optional (codes "embedding") binary
      ∷ required (codes "created_at") timestamp
      ∷ [],
)

abbrev pub cashflow_ledger : TableDef
cashflow_ledger = (
  codes "cashflow_ledger",
  primary (codes "id") (varchar 36)
      ∷ indexed (required (codes "ts") timestamp)
      ∷ required (codes "pot") (varchar 16)
      ∷ required (codes "delta") (numeric 12 4)
      ∷ required (codes "source") (varchar 64)
      ∷ optional (codes "ref_id") (varchar 128)
      ∷ required (codes "note") (varchar 512)
      ∷ required (codes "written_by") (varchar 32)
      ∷ [],
)

abbrev pub vertical_proposal_row : TableDef
vertical_proposal_row = (
  codes "vertical_proposals",
  primary (codes "id") (varchar 36)
      ∷ required (codes "created_at") timestamp
      ∷ required (codes "title") (varchar 120)
      ∷ required (codes "revenue_channel") (varchar 32)
      ∷ indexed (required (codes "status") (varchar 32))
      ∷ references (codes "preregistrations") (required (codes "preregistration_id") (varchar 36))
      ∷ references (codes "ethics_verdicts") (optional (codes "ethics_verdict_id") (varchar 36))
      ∷ required (codes "payload_json") json
      ∷ [],
)

abbrev pub pre_registration_row : TableDef
pre_registration_row = (
  codes "preregistrations",
  primary (codes "id") (varchar 36)
      ∷ required (codes "created_at") timestamp
      ∷ required (codes "vertical_title") (varchar 200)
      ∷ required (codes "primary_metric") (varchar 64)
      ∷ required (codes "primary_threshold") (numeric 12 4)
      ∷ required (codes "measurement_window_days") integer
      ∷ required (codes "locked") boolean
      ∷ required (codes "lock_hash") (varchar 64)
      ∷ required (codes "payload_json") json
      ∷ [],
)

abbrev pub build_request_row : TableDef
build_request_row = (
  codes "build_requests",
  primary (codes "id") (varchar 36)
      ∷ required (codes "created_at") timestamp
      ∷ required (codes "requested_by") (varchar 32)
      ∷ required (codes "tool_name") (varchar 64)
      ∷ required (codes "risk_tier") (varchar 16)
      ∷ required (codes "network_required") boolean
      ∷ required (codes "payload_json") json
      ∷ [],
)

abbrev pub tool_artifact_row : TableDef
tool_artifact_row = (
  codes "tool_artifacts",
  primary (codes "id") (varchar 36)
      ∷ references (codes "build_requests") (required (codes "build_request_id") (varchar 36))
      ∷ unique_one (required (codes "sha256") (varchar 64))
      ∷ required (codes "code_path") (varchar 256)
      ∷ required (codes "test_path") (varchar 256)
      ∷ required (codes "coverage_pct") float_number
      ∷ required (codes "signed_at") timestamp
      ∷ references (codes "ethics_verdicts") (optional (codes "ethics_verdict_id") (varchar 36))
      ∷ required (codes "status") (varchar 16)
      ∷ [],
)

abbrev pub ethics_verdict_row : TableDef
ethics_verdict_row = (
  codes "ethics_verdicts",
  primary (codes "id") (varchar 36)
      ∷ required (codes "request_id") (varchar 36)
      ∷ required (codes "subject_type") (varchar 32)
      ∷ required (codes "subject_id") (varchar 36)
      ∷ required (codes "decision") (varchar 16)
      ∷ required (codes "rationale") long_text
      ∷ required (codes "ruleset_hash") (varchar 64)
      ∷ required (codes "model_used") (varchar 64)
      ∷ required (codes "decided_at") timestamp
      ∷ [],
)

abbrev pub child_run_row : TableDef
child_run_row = (
  codes "child_runs",
  primary (codes "id") (varchar 36)
      ∷ references (codes "vertical_proposals") (required (codes "vertical_id") (varchar 36))
      ∷ references (codes "preregistrations") (required (codes "preregistration_id") (varchar 36))
      ∷ required (codes "spawned_at") timestamp
      ∷ indexed (required (codes "status") (varchar 16))
      ∷ required (codes "monthly_budget_usd") (numeric 12 4)
      ∷ required (codes "spent_mtd_usd") (numeric 12 4)
      ∷ required (codes "revenue_mtd_usd") (numeric 12 4)
      ∷ required (codes "last_heartbeat") timestamp
      ∷ optional (codes "last_error") long_text
      ∷ [],
)

abbrev pub tool_invocation : TableDef
tool_invocation = (
  codes "tool_invocations",
  primary (codes "id") (varchar 36)
      ∷ indexed (required (codes "tool_sha") (varchar 64))
      ∷ required (codes "invoked_at") timestamp
      ∷ required (codes "duration_ms") integer
      ∷ required (codes "bytes_in") integer
      ∷ required (codes "bytes_out") integer
      ∷ required (codes "cost_usd") (numeric 12 6)
      ∷ required (codes "outcome") (varchar 16)
      ∷ [],
)

abbrev pub channel_health : TableDef
channel_health = (
  codes "channel_health",
  primary (codes "id") (varchar 36)
      ∷ indexed (required (codes "channel") (varchar 32))
      ∷ required (codes "checked_at") timestamp
      ∷ required (codes "latency_ms") integer
      ∷ required (codes "ok") boolean
      ∷ optional (codes "detail") long_text
      ∷ [],
)

abbrev pub security_event_row : TableDef
security_event_row = (
  codes "security_events",
  primary (codes "id") (varchar 36)
      ∷ required (codes "ts") timestamp
      ∷ required (codes "rule") (varchar 128)
      ∷ required (codes "detail") long_text
      ∷ optional (codes "resolved_at") timestamp
      ∷ [],
)

abbrev pub frozen_hash_row : TableDef
frozen_hash_row = (
  codes "frozen_hashes",
  primary (codes "path") (varchar 256)
      ∷ required (codes "sha256") (varchar 64)
      ∷ required (codes "updated_at") timestamp
      ∷ [],
)

abbrev pub weekly_digest_row : TableDef
weekly_digest_row = (
  codes "weekly_digests",
  primary (codes "id") (varchar 36)
      ∷ required (codes "week_start") timestamp
      ∷ required (codes "week_end") timestamp
      ∷ required (codes "payload_json") json
      ∷ optional (codes "sent_at") timestamp
      ∷ optional (codes "operator_reply") long_text
      ∷ [],
)

abbrev pub operator_message_row : TableDef
operator_message_row = (
  codes "operator_messages",
  primary (codes "id") (varchar 36)
      ∷ required (codes "ts") timestamp
      ∷ required (codes "verb") (varchar 32)
      ∷ optional (codes "arg") (varchar 128)
      ∷ required (codes "raw_sha256") (varchar 64)
      ∷ required (codes "raw_subject") (varchar 256)
      ∷ required (codes "accepted") boolean
      ∷ [],
)

-- `Base.metadata.tables`
abbrev pub all_models : List TableDef
all_models =
    agent_memory ∷ cashflow_ledger ∷ vertical_proposal_row ∷ pre_registration_row
    ∷ build_request_row ∷ tool_artifact_row ∷ ethics_verdict_row ∷ child_run_row ∷ tool_invocation
    ∷ channel_health ∷ security_event_row ∷ frozen_hash_row ∷ weekly_digest_row
    ∷ operator_message_row ∷ []
