-- ===== src/Schemas/Ethics.antt =====
-- aae/schemas/ethics.py, with the key of the auditor's cache.
use self_spawn_agents.Prelude.{◌≡◌, ◌↔◌, Bool, true, false, ◌&&◌, ◌==◌, ==_iff, Text, arith}
use self_spawn_agents.Prelude.Dict.{Eq}
use self_spawn_agents.Schemas.Common.{Uuid, Time, ModelId}

pub data SubjectType : Type 0 where
  vertical_proposal tool_artifact : SubjectType

pub record EthicsReviewRequest : Type 0 where
  pub id : Uuid
  pub subject_type : SubjectType
  pub subject_id : Uuid
  pub payload_json : Text
  pub created_at : Time

pub data EthicsDecision : Type 0 where
  approve reject escalate : EthicsDecision

pub record EthicsVerdict : Type 0 where
  pub id : Uuid
  pub request_id : Uuid
  pub decision : EthicsDecision
  pub rationale : Text
  pub ruleset_hash : Text
  pub model_used : ModelId
  pub decided_at : Time

-- The key of the cache. A UUID's text stands for the UUID.
abbrev pub CacheKey : Type 0
CacheKey = SubjectType × Uuid

abbrev same_type : SubjectType → SubjectType → Bool
same_type vertical_proposal vertical_proposal = true
same_type tool_artifact tool_artifact = true
same_type _ _ = false

abbrev same_key : CacheKey → CacheKey → Bool
same_key (s, i) (t, j) = same_type s t && (i == j)

same_type_iff : (s t : SubjectType) → (same_type s t ≡ true) ↔ (s ≡ t)
same_type_iff vertical_proposal vertical_proposal = ground arith
same_type_iff vertical_proposal tool_artifact = ground arith
same_type_iff tool_artifact vertical_proposal = ground arith
same_type_iff tool_artifact tool_artifact = ground arith

pub same_key_iff : (k l : CacheKey) → (same_key k l ≡ true) ↔ (k ≡ l)
same_key_iff (s, i) (t, j) = ground (arith, same_type_iff s t, ==_iff i j)

instance abbrev pub cache_key_eq : Eq CacheKey
cache_key_eq = record { beq = same_key; beq_iff = same_key_iff }
