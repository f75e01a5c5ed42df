-- ===== src/Ops/Digest.antt =====
-- aae/schemas/digest.py and aae/ops/weekly_digest.py. How Python prints a date and a decimal number
-- are functions.
use self_spawn_agents.Prelude.{
  ℕ, ◌+◌, ◌-◌, ◌*◌, ◌==◌, Bool, not, Option, none, some, List, [], ◌∷◌, ◌++◌, map, true, false,
  Text, codes, join_lines,
}
use self_spawn_agents.Prelude.Decimal.{Money}
use self_spawn_agents.Prelude.Digits.{digits}
use self_spawn_agents.Schemas.Common.{Uuid, Time}
use self_spawn_agents.Schemas.Ledger.{PotBalances}
use self_spawn_agents.Ops.Freeze.{Root, verify_exit_code}
use self_spawn_agents.Ops.Simulation.{one_day}

pub record WeeklyDigest : Type 0 where
  pub id : Uuid
  pub week_start : Time
  pub week_end : Time
  pub pot_balances : PotBalances
  pub revenue_usd : Money
  pub cost_usd : Money
  pub active_children : ℕ
  pub proposals_awaiting_approval : ℕ
  pub ethics_escalations : ℕ
  pub frozen_hash_drift : Bool
  pub notes : List Text
  pub human_reply_deadline : Time

-- `clock`, where it is given, and `notes or []`.
abbrev now_of : Option Time → Time → Time
now_of none system_time = system_time
now_of (some t) system_time = t

abbrev notes_or : Option (List Text) → List Text
notes_or none = []
notes_or (some ns) = ns

-- `id` and `system_time` are what the draw of a UUID and the system clock give.
unfoldable pub build_weekly_digest :
    (Text → Text)
    → Root
    → Uuid
    → Time
    → PotBalances
    → Money
    → Money
    → ℕ
    → ℕ
    → ℕ
    → Option Time
    → Option (List Text)
    → WeeklyDigest
build_weekly_digest sha256 root id system_time pots revenue cost active awaiting escalations clock
      notes =
    let now = now_of clock system_time in
    record {
      id = id;
      week_start = now - 7 * one_day;
      week_end = now;
      pot_balances = pots;
      revenue_usd = revenue;
      cost_usd = cost;
      active_children = active;
      proposals_awaiting_approval = awaiting;
      ethics_escalations = escalations;
      frozen_hash_drift = not (verify_exit_code sha256 root == 0);
      notes = notes_or notes;
      human_reply_deadline = now + 14 * one_day;
    }

-- `str` of a `bool`
abbrev bool_text : Bool → Text
bool_text true = codes "True"
bool_text false = codes "False"

-- `str` of the date of a time, and of a decimal number.
pub record Printing : Type 0 where
  pub date_text : Time → Text
  pub decimal_text : Money → Text

-- `if d.notes: lines.extend(["", "Notes:"]); lines.extend(f"- {n}" for n in d.notes)`
abbrev note_lines : List Text → List Text
note_lines [] = []
note_lines (n ∷ ns) = [] ∷ codes "Notes:" ∷ map (λ t. codes "- " ++ t) (n ∷ ns)

unfoldable pub digest_lines : Printing → WeeklyDigest → List Text
digest_lines pr d =
    codes "Weekly AAE digest"
    ∷ (codes "Week: " ++ (pr.date_text d.week_start ++ (codes " → " ++ pr.date_text d.week_end)))
    ∷ []
    ∷ (codes "Operating: $" ++ pr.decimal_text d.pot_balances.operating)
    ∷ (codes "Reserve:   $" ++ pr.decimal_text d.pot_balances.reserve)
    ∷ (codes "Growth:    $" ++ pr.decimal_text d.pot_balances.growth)
    ∷ []
    ∷ (codes "Revenue (7d): $" ++ pr.decimal_text d.revenue_usd)
    ∷ (codes "Cost (7d):    $" ++ pr.decimal_text d.cost_usd)
    ∷ (codes "Active children: " ++ digits d.active_children)
    ∷ (codes "Proposals awaiting approval: " ++ digits d.proposals_awaiting_approval)
    ∷ (codes "Ethics escalations: " ++ digits d.ethics_escalations)
    ∷ (codes "Frozen-hash drift: " ++ bool_text d.frozen_hash_drift)
    ∷ []
    ∷ (codes "Reply CONTINUE / PAUSE / KILL [ALL|<child_id>] by "
        ++ (pr.date_text d.human_reply_deadline ++ codes " or the system auto-PAUSEs."))
    ∷ note_lines d.notes

unfoldable pub render_digest_email : Printing → WeeklyDigest → Text
unfolding digest_lines
render_digest_email pr d = join_lines (digest_lines pr d)
