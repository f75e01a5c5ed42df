-- ===== src/Scripts/Bootstrap.antt =====
-- scripts/day0_bootstrap.py: the operator's commands. The process that `migrate` starts and the
-- session that `seed-operating` opens are parameters; what is printed on success is left out.
use self_spawn_agents.Prelude.{
  ℕ, Bool, true, false, List, [], ◌∷◌, ◌++◌, map, Text, codes, ok, err, Action, Result, some, none,
  ◌==◌, if◌then◌else◌, called_process_error,
}
use self_spawn_agents.Prelude.Decimal.{Money, usd}
use self_spawn_agents.Schemas.Common.{mother, World, Pydantic, Uuid, Time}
use self_spawn_agents.Schemas.Ledger.{operating, manual_topup, CashflowEntry, PotBalances}
use self_spawn_agents.Cashflow.Ledger.{Session, default_options, cashflow_service, credit}
use self_spawn_agents.Db.Session.{SessionMethods, with_session}
use self_spawn_agents.Ops.Digest.{WeeklyDigest, Printing, build_weekly_digest, render_digest_email}
use self_spawn_agents.Ops.Freeze.{Root, freeze, verify_exit_code}

unfoldable pub seed_frozen_hashes : (Text → Text) → Action Root (Unit {0})
seed_frozen_hashes = freeze

unfoldable pub verify_frozen : (Text → Text) → Root → ℕ
verify_frozen = verify_exit_code

-- `amount_usd` is the value of `Decimal(str(amount))`.
unfoldable pub seed_operating : Pydantic → World → Money → Action Session CashflowEntry
seed_operating py w amount_usd s = elim (cashflow_service mother) [
  | ok tier ↦ credit py w tier operating amount_usd manual_topup default_options s
  | err x ↦ (err x, s)
]

-- The command: the session's work is committed at the end of the block.
unfoldable pub seed_operating_command :
    {C : Type 0}
    → SessionMethods C
    → (Action Session CashflowEntry → Action C CashflowEntry)
    → Pydantic
    → World
    → Money
    → Action C CashflowEntry
seed_operating_command methods in_session py w amount_usd =
    with_session methods (in_session (seed_operating py w amount_usd))

-- `subprocess.run([...], check=True)`, on the exit code of the process.
unfoldable pub migrate : (List Text → ℕ) → Result (Unit {0})
migrate run_process =
    if run_process (codes "alembic" ∷ codes "upgrade" ∷ codes "head" ∷ []) == 0
    then ok tt
    else err called_process_error

abbrev pub channel_names : List Text
channel_names =
    codes "polar"
    ∷ codes "lemonsqueezy"
    ∷ codes "stripe_connect"
    ∷ codes "cloudflare"
    ∷ codes "porkbun"
    ∷ codes "vercel"
    ∷ codes "netlify"
    ∷ []

-- The lines that are printed; live, none.
unfoldable pub ping_channels : Bool → List Text
ping_channels false = map (λ n. codes "[dry-run] would ping " ++ n) channel_names
ping_channels true = []

-- `d` of `send_test_digest`: `as_of`, `id` and `now` are what the clock and the draw of a UUID give.
unfoldable pub test_digest : (Text → Text) → Root → Time → Uuid → Time → WeeklyDigest
test_digest sha256 root as_of id now =
    let pots : PotBalances = record {
      operating = usd 200;
      reserve = usd 0;
      growth = usd 0;
      as_of = as_of;
    } in
    build_weekly_digest sha256 root id now pots (usd 0) (usd 0) 0 0 0 none
      (some (codes "Bootstrap complete. Awaiting first proposal." ∷ []))

unfoldable pub send_test_digest : Printing → (Text → Text) → Root → Time → Uuid → Time → Text
unfolding test_digest
send_test_digest pr sha256 root as_of id now =
    render_digest_email pr (test_digest sha256 root as_of id now)
