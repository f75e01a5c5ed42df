-- ===== src/Schemas/Common.antt =====
-- The shared primitives of aae/schemas/common.py, and what the schemas rely on of pydantic.
use self_spawn_agents.Prelude.{ℕ, ◌*◌, ◌%◌, ◌^◌, ◌≤◌, ◌<◌, ◌≡◌, ◌↔◌, Bool, true, Text, length}
use self_spawn_agents.Prelude.Int.{magnitude}
use self_spawn_agents.Prelude.Decimal.{Money}

-- The four agents.
pub data AgentTier : Type 0 where
  mother code_builder ethics_auditor child : AgentTier

pub data ModelId : Type 0 where
  opus_47 sonnet_46 haiku_45 gemini_flash_lite_25 : ModelId

pub data TaskKind : Type 0 where
  propose_vertical debug_child bulk_classify generic : TaskKind

-- A `datetime`, in microseconds since an epoch before every time that the program sees.
abbrev pub Time : Type 0
Time = ℕ

-- A UUID, as its 128-bit number.
abbrev pub Uuid : Type 0
Uuid = ℕ

-- The process's sources of randomness and time: the result of the n-th draw.
pub record World : Type 0 where
  pub uuid4 : ℕ → Uuid
  pub utc_now : ℕ → Time

-- The checks of pydantic's `Field` that the schemas ask for, with their documented meaning at the
-- scale of the ledger: twelve digits of which at most four stand behind the point, and a bound on
-- the length of a text.
pub record Pydantic : Type 0 where
  pub decimal_12_4 : Money → Bool
  pub decimal_12_4_iff :
      (a : Money)
      → (decimal_12_4 a ≡ true) ↔ ((magnitude a % 100 ≡ 0) × (magnitude a < 100 * 10 ^ 12))
  pub max_length : ℕ → Text → Bool
  pub max_length_iff : (n : ℕ) (s : Text) → (max_length n s ≡ true) ↔ (length s ≤ n)
