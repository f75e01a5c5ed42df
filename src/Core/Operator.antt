-- ===== src/Core/Operator.antt =====
-- aae/core/operator_parser.py: the operator's messages. SHA-256 is a function.
pub mod Verbs
pub mod Accepts
pub mod Commands
mod Tests
use self_spawn_agents.Prelude.{
  ℕ, ◌+◌, ◌-◌, ◌*◌, ◌/◌, Bool, true, false, ◌&&◌, ◌||◌, Option, none, some, List, [], ◌∷◌, ◌++◌,
  Text, codes, text_eqb, if◌then◌else◌, is_some, take, ◌==◌,
}
use self_spawn_agents.Prelude.Unicode.{
  Unicode, in_range, ascii_lower, ascii_digit, upper, lower, strip, split, is_empty,
}
use self_spawn_agents.Prelude.Decimal.{Money}
use self_spawn_agents.Prelude.Int.{pos}
use self_spawn_agents.Schemas.Common.{Uuid}

-- The literals of `Action`.
pub data OperatorAction : Type 0 where
  approve reject continue pause kill_child kill_all resume emergency_transfer : OperatorAction

pub record OperatorMessage : Type 0 where
  pub action : OperatorAction
  pub subject_id : Option Uuid
  pub amount_usd : Option Money
  pub body_excerpt : Text
  pub raw_sha256 : Text

pub record FormLetter : Type 0 where
  pub reason : Text
  pub allowed_verbs : List Text
  pub raw_sha256 : Text

pub data ParseResult : Type 0 where
  message : OperatorMessage → ParseResult
  form_letter : FormLetter → ParseResult

abbrev pub allowed_verbs : List Text
allowed_verbs =
    codes "APPROVE <proposal_id>"
    ∷ codes "REJECT <proposal_id>"
    ∷ codes "CONTINUE"
    ∷ codes "PAUSE"
    ∷ codes "KILL <child_id>"
    ∷ codes "KILL ALL"
    ∷ codes "RESUME <event_id>"
    ∷ codes "EMERGENCY_TRANSFER <amount_usd> reserve->operating"
    ∷ []

-- The value of a hexadecimal digit, in either case.
abbrev pub hex_value : ℕ → Option ℕ
hex_value c = if in_range 97 102 (ascii_lower c) then some (ascii_lower c - 87) else ascii_digit c

-- A pattern's `$`: the end, or a last line feed.
abbrev pub at_end : Text → Bool
at_end [] = true
at_end (c ∷ s) = (c == 10) && is_empty s

-- `UUID_RE` after its anchor, as its pieces: `true` for a digit, `false` for a dash.
abbrev pub match_pieces : List Bool → Text → Bool
match_pieces [] s = at_end s
match_pieces (hex ∷ ps) [] = false
match_pieces (true ∷ ps) (c ∷ s) = is_some (hex_value c) && match_pieces ps s
match_pieces (false ∷ ps) (c ∷ s) = (c == 45) && match_pieces ps s

abbrev digits_4 : List Bool → List Bool
digits_4 rest = true ∷ true ∷ true ∷ true ∷ rest

abbrev pub uuid_re : List Bool
uuid_re = digits_4 (
    digits_4 (
      false
      ∷ digits_4 (false ∷ digits_4 (false ∷ digits_4 (false ∷ digits_4 (digits_4 (digits_4 [])))))))

unfoldable pub is_uuid : Text → Bool
is_uuid s = match_pieces uuid_re s

abbrev pub digit_or : ℕ → Option ℕ → ℕ
digit_or n none = n
digit_or n (some d) = 16 * n + d

abbrev pub uuid_from : ℕ → Text → Uuid
uuid_from n [] = n
uuid_from n (c ∷ s) = uuid_from (digit_or n (hex_value c)) s

-- `UUID(text)` for a text that `UUID_RE` matches: the digits, without the dashes.
unfoldable pub uuid_value : Text → Uuid
uuid_value = uuid_from 0

module _ (u : Unicode) where
  -- `AMOUNT_RE` from behind the point: one or two digits.
  abbrev pub match_cents : Text → Bool
  match_cents [] = false
  match_cents (c ∷ []) = is_some (u.digit_value c)
  match_cents (c ∷ d ∷ s) =
      is_some (u.digit_value c) && ((is_some (u.digit_value d) && at_end s) || at_end (d ∷ s))

  -- After at least one digit: more digits, the point, or the end.
  abbrev pub match_dollars : Text → Bool
  match_dollars [] = true
  match_dollars (c ∷ s) =
      let rest = match_dollars s in
      if is_some (u.digit_value c) then rest else ((c == 46) && match_cents s) || at_end (c ∷ s)

  unfoldable pub is_amount : Text → Bool
  is_amount [] = false
  is_amount (c ∷ s) = is_some (u.digit_value c) && match_dollars s

  abbrev pub digit_value_or : Option ℕ → ℕ
  digit_value_or none = 0
  digit_value_or (some d) = d

  -- `Decimal(text)` in micro-dollars for a text that `AMOUNT_RE` matches: `scale` is the worth of
  -- the next digit behind the point.
  abbrev pub cents_from : ℕ → ℕ → Text → ℕ
  cents_from scale n [] = n
  cents_from scale n (c ∷ s) =
      cents_from (scale / 10) (n + scale * digit_value_or (u.digit_value c)) s

  abbrev pub dollars_from : ℕ → Text → ℕ
  dollars_from n [] = n * 1000000
  dollars_from n (c ∷ s) =
      if c == 46
      then cents_from 100000 (n * 1000000) s
      else dollars_from (10 * n + digit_value_or (u.digit_value c)) s

  unfoldable pub amount_value : Text → Money
  amount_value s = pos (dollars_from 0 s)

  module _ (sha : Text) where
    abbrev pub reject_for : Text → ParseResult
    reject_for reason =
        form_letter (record { reason = reason; allowed_verbs = allowed_verbs; raw_sha256 = sha })

    abbrev pub message_of : OperatorAction → Option Uuid → Option Money → Text → ParseResult
    message_of action subject_id amount_usd body_excerpt = message (record {
      action = action;
      subject_id = subject_id;
      amount_usd = amount_usd;
      body_excerpt = body_excerpt;
      raw_sha256 = sha;
    })

    -- `APPROVE`, `REJECT` and `RESUME`: one UUID.
    abbrev pub with_uuid : OperatorAction → Text → Text → List Text → ParseResult
    with_uuid action excerpt reason (s ∷ []) =
        if is_uuid s
        then message_of action (some (uuid_value s)) none excerpt
        else reject_for reason
    with_uuid action excerpt reason _ = reject_for reason

    -- `CONTINUE` and `PAUSE`: no argument.
    abbrev pub alone : OperatorAction → Text → List Text → ParseResult
    alone action reason [] = message_of action none none []
    alone action reason (s ∷ args) = reject_for reason

    abbrev pub kill_message : List Text → ParseResult
    kill_message (s ∷ []) =
        if text_eqb (upper u s) (codes "ALL")
        then message_of kill_all none none []
        else if is_uuid s
        then message_of kill_child (some (uuid_value s)) none []
        else reject_for (codes "KILL must be 'KILL ALL' or 'KILL <child_uuid>'")
    kill_message _ = reject_for (codes "KILL must be 'KILL ALL' or 'KILL <child_uuid>'")

    abbrev pub transfer_message : Text → List Text → ParseResult
    transfer_message body (amount ∷ direction ∷ []) =
        if text_eqb (lower u direction) (codes "reserve->operating")
        then (if is_amount amount
            then message_of emergency_transfer none (some (amount_value amount)) (take 500 body)
            else reject_for (codes "EMERGENCY_TRANSFER amount must be USD decimal"))
        else reject_for (codes "EMERGENCY_TRANSFER direction must be reserve->operating")
    transfer_message body _ = reject_for (codes "EMERGENCY_TRANSFER <amount> reserve->operating")

    -- From the split subject on: the chain of verbs.
    unfoldable pub parse_parts : Text → List Text → ParseResult
    parse_parts body [] = reject_for (codes "empty_subject")
    parse_parts body (first ∷ args) =
        let verb = upper u first in
        if text_eqb verb (codes "APPROVE")
        then with_uuid approve [] (codes "APPROVE requires exactly one proposal UUID") args
        else if text_eqb verb (codes "REJECT")
        then with_uuid reject (take 500 body) (codes "REJECT requires exactly one proposal UUID")
            args
        else if text_eqb verb (codes "CONTINUE")
        then alone continue (codes "CONTINUE takes no arguments") args
        else if text_eqb verb (codes "PAUSE")
        then alone pause (codes "PAUSE takes no arguments") args
        else if text_eqb verb (codes "KILL")
        then kill_message args
        else if text_eqb verb (codes "RESUME")
        then with_uuid resume [] (codes "RESUME requires exactly one event UUID") args
        else if text_eqb verb (codes "EMERGENCY_TRANSFER")
        then transfer_message body args
        else reject_for (codes "unknown_verb:" ++ verb)

  -- `parse`. A subject of white space has no parts.
  unfoldable pub parse : (Text → Text) → Text → Text → ParseResult
  parse sha256 subject body =
      let raw_sha = sha256 (strip u (subject ++ 10 ∷ body)) in
      let s = strip u subject in
      if is_empty s
      then reject_for raw_sha (codes "empty_subject")
      else parse_parts raw_sha body (split u s)
