-- ===== src/Core/Operator/Commands.antt =====
-- The operator's commands, and how an operator who follows the list of allowed verbs of
-- aae/core/operator_parser.py spells them.
pub mod Lexing
pub mod Numerals
pub mod RoundTrip
use self_spawn_agents.Prelude.{
  ℕ, ◌+◌, ◌/◌, ◌%◌, ◌*◌, Bool, true, false, none, some, List, [], ◌∷◌, ◌++◌, Text, codes, take, ltb,
  if◌then◌else◌,
}
use self_spawn_agents.Prelude.Digits.{digits}
use self_spawn_agents.Prelude.Int.{pos}
use self_spawn_agents.Schemas.Common.{Uuid}
use self_spawn_agents.Core.Operator.{
  OperatorMessage, approve, reject, continue, pause, kill_child, kill_all, resume,
  emergency_transfer,
}

pub data Command : Type 0 where
  approve_proposal reject_proposal kill_one resume_event : Uuid → Command
  continue_all pause_all kill_everyone : Command
  -- the amount in cents
  transfer_cents : ℕ → Command

-- A hexadecimal digit in lower case.
abbrev pub hex_digit : ℕ → ℕ
hex_digit d = if ltb d 10 then 48 + d else 87 + d

-- The digits and dashes of a pattern that is read from behind, before a text.
abbrev pub hex_before : List Bool → ℕ → Text → Text
hex_before [] n rest = rest
hex_before (true ∷ ps) n rest = hex_before ps (n / 16) (hex_digit (n % 16) ∷ rest)
hex_before (false ∷ ps) n rest = hex_before ps n (45 ∷ rest)

abbrev digits_4 : List Bool → List Bool
digits_4 rest = true ∷ true ∷ true ∷ true ∷ rest

-- Twelve digits, three groups of four, and eight, with dashes between them.
abbrev pub uuid_from_behind : List Bool
uuid_from_behind = digits_4 (
    digits_4 (
      digits_4
        (false ∷ digits_4 (false ∷ digits_4 (false ∷ digits_4 (false ∷ digits_4 (digits_4 [])))))))

-- `str` of a `UUID`
unfoldable pub print_uuid : Uuid → Text
print_uuid n = hex_before uuid_from_behind n []

-- Dollars and two digits of cents.
unfoldable pub print_cents : ℕ → Text
print_cents c = digits (c / 100) ++ 46 ∷ (48 + c / 10 % 10) ∷ (48 + c % 10) ∷ []

-- The words of the subject.
unfoldable pub spell : Command → List Text
spell (approve_proposal n) = codes "APPROVE" ∷ print_uuid n ∷ []
spell (reject_proposal n) = codes "REJECT" ∷ print_uuid n ∷ []
spell (kill_one n) = codes "KILL" ∷ print_uuid n ∷ []
spell (resume_event n) = codes "RESUME" ∷ print_uuid n ∷ []
spell continue_all = codes "CONTINUE" ∷ []
spell pause_all = codes "PAUSE" ∷ []
spell kill_everyone = codes "KILL" ∷ codes "ALL" ∷ []
spell (transfer_cents c) =
    codes "EMERGENCY_TRANSFER" ∷ print_cents c ∷ codes "reserve->operating" ∷ []

-- Words with a blank between any two.
abbrev pub joined : List Text → Text
joined [] = []
joined (w ∷ []) = w
joined (w ∷ v ∷ ws) = w ++ 32 ∷ joined (v ∷ ws)

-- What the parser should make of a command that comes with a body and a hash.
unfoldable pub meant : Command → Text → Text → OperatorMessage
meant c body sha = record {
  action = (elim c [
    | approve_proposal n ↦ approve
    | reject_proposal n ↦ reject
    | kill_one n ↦ kill_child
    | resume_event n ↦ resume
    | continue_all ↦ continue
    | pause_all ↦ pause
    | kill_everyone ↦ kill_all
    | transfer_cents n ↦ emergency_transfer
  ]);
  subject_id = (elim c [
    | approve_proposal n ↦ some n
    | reject_proposal n ↦ some n
    | kill_one n ↦ some n
    | resume_event n ↦ some n
    | _ ↦ none
  ]);
  amount_usd = (elim c [ transfer_cents n ↦ some (pos (n * 10000)) | _ ↦ none ]);
  body_excerpt = (elim c [
    | reject_proposal n ↦ take 500 body
    | transfer_cents n ↦ take 500 body
    | _ ↦ []
  ]);
  raw_sha256 = sha;
}
