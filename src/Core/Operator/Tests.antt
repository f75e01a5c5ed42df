-- ===== src/Core/Operator/Tests.antt =====
-- The parser at concrete subjects.
use self_spawn_agents.Prelude.{◌≡◌, ◌↔◌, refl, none, some, [], ◌∷◌, ◌++◌, Text, codes, take}
use self_spawn_agents.Prelude.Unicode.{split, strip}
use self_spawn_agents.Prelude.Int.{pos}
use self_spawn_agents.Schemas.Samples.{ascii}
use self_spawn_agents.Core.Operator.{
  parse, parse_parts, is_uuid, uuid_value, is_amount, amount_value, emergency_transfer, approve,
  kill_all, OperatorMessage, message, message_of, reject_for,
}
use self_spawn_agents.Prelude.Digits.{digits}
use self_spawn_agents.Core.Operator.Commands.{
  transfer_cents, kill_one, spell, joined, meant, print_cents, print_uuid,
}
use self_spawn_agents.Core.Operator.Commands.RoundTrip.{parse_spelled}
use self_spawn_agents.Core.Operator.Verbs.{Spelled}
use self_spawn_agents.Core.Operator.Accepts.{excerpt_of, parse_iff}

abbrev digest : Text → Text
digest s = take 4 s

parse_transfer :
    parse ascii digest (codes " emergency_transfer  12.5 Reserve->Operating ") (codes "help")
    ≡ message_of ascii (codes "emer") emergency_transfer none (some (pos 12500000)) (codes "help")
unfolding parse parse_parts is_amount amount_value
parse_transfer = refl

parse_approve :
    parse ascii digest (codes "Approve 00000000-0000-0000-0000-0000000000fF") []
    ≡ message_of ascii (codes "Appr") approve (some 255) none []
unfolding parse parse_parts is_uuid uuid_value
parse_approve = refl

-- A signature after the direction is a fourth part, and is refused.
parse_signed_transfer :
    parse ascii digest (codes "EMERGENCY_TRANSFER 12.50 reserve->operating 1234abcd") []
    ≡ reject_for ascii (codes "EMER") (codes "EMERGENCY_TRANSFER <amount> reserve->operating")
unfolding parse parse_parts
parse_signed_transfer = refl

abbrev kill_message_read : OperatorMessage
kill_message_read = record {
  action = kill_all;
  subject_id = none;
  amount_usd = none;
  body_excerpt = [];
  raw_sha256 = codes "kill";
}

parse_iff_example : (parse ascii digest (codes "kill ALL") [] ≡ message kill_message_read) ↔ (
    Spelled ascii (split ascii (strip ascii (codes "kill ALL"))) kill_message_read
    × ([] ≡ excerpt_of kill_all [])
    × (kill_message_read.raw_sha256 ≡ digest (strip ascii (codes "kill ALL" ++ 10 ∷ []))))
parse_iff_example = parse_iff ascii digest (codes "kill ALL") [] kill_message_read

parse_spelled_example :
    parse ascii digest (joined (spell (transfer_cents 1250))) (codes "help")
    ≡ message (
        meant
          (transfer_cents 1250)
          (codes "help")
          (digest (strip ascii (joined (spell (transfer_cents 1250)) ++ 10 ∷ codes "help"))))
parse_spelled_example = parse_spelled ascii digest (transfer_cents 1250) (codes "help") tt

transfer_is_spelled :
    joined (spell (transfer_cents 1250)) ≡ codes "EMERGENCY_TRANSFER 12.50 reserve->operating"
unfolding spell print_cents digits
transfer_is_spelled = refl

kill_is_spelled : joined (spell (kill_one 0xff)) ≡ codes "KILL 00000000-0000-0000-0000-0000000000ff"
unfolding spell print_uuid
kill_is_spelled = refl
