-- ===== src/Scripts/Tests.antt =====
-- The commands on small inputs.
use self_spawn_agents.Prelude.{
  ◌≡◌, refl, false, Option, none, some, List, [], ◌∷◌, Text, codes, text_eqb, text_eq, ◌==◌, length,
  ok, Action, if◌then◌else◌,
}
use mathlib.Core.List.{append_cancel_left}
use self_spawn_agents.Prelude.Int.{pos}
use self_spawn_agents.Schemas.Samples.{toy_hmac, checker, world}
use self_spawn_agents.Cashflow.Ledger.{PrintedDecimal}
use self_spawn_agents.Scripts.EmergencyTransfer.{exited, sign, verify, verdict, verify-sign}
use self_spawn_agents.Scripts.LintChannels.{import_names, import_from, Walk, SourceFile, main}
use self_spawn_agents.Prelude.Decimal.{usd}
use self_spawn_agents.Schemas.Ledger.{CashflowEntry, CashflowLedger}
use self_spawn_agents.Core.Trust.{require_mother_for_ledger}
use self_spawn_agents.Cashflow.Ledger.{Session, cashflow_service, credit, record_entry}
use self_spawn_agents.Db.Session.{SessionMethods, with_session}
use self_spawn_agents.Db.Session.Scope.{IsTransactional}
use self_spawn_agents.Scripts.Bootstrap.{ping_channels, seed_operating, seed_operating_command}
use self_spawn_agents.Scripts.Seeding.{Seeds, seed_operating_command-Seeds}

-- A reader that prints the exponent of an amount in the way that `str` does.
abbrev exponent_form : PrintedDecimal
exponent_form = record { usd_value = pos 100000000; str = codes "1E+2" }

abbrev read_decimal : Text → Option PrintedDecimal
read_decimal s = some exponent_form

-- The amount 1e2 prints as 1E+2, so its signature is not the one that is checked.
verify-sign_example :
    (signature : Text) × (sign toy_hmac read_decimal
        (some (codes "key"))
        (codes "2026-01-01")
        (codes "1e2")
        (some (codes "2026-01-02"))
      ≡ exited signature 0)
    × (verify toy_hmac read_decimal
          (some (codes "key"))
          (codes "1e2")
          (codes "2026-01-02")
          signature
        ≡ verdict toy_hmac read_decimal (text_eqb (codes "1E+2") (codes "1e2")))
verify-sign_example =
    verify-sign toy_hmac read_decimal (codes "key") (codes "2026-01-01") (codes "1e2")
      (codes "2026-01-02") exponent_form refl refl refl refl refl
      (append_cancel_left (codes "key") _ _)

-- A text that starts with the letter i imports httpx.
abbrev walk : Walk
walk [] = none
walk (c ∷ s) = some (
    (
      if c == 105
          then import_names (codes "httpx.client" ∷ [])
          else import_from (some (codes "httpxy")),
      1,
      c ∷ s,
    )
    ∷ [])

abbrev sources : List SourceFile
sources =
    (codes "aae" ∷ codes "channels" ∷ codes "base.py" ∷ [], codes "i")
    ∷ (codes "aae" ∷ codes "core" ∷ codes "x.py" ∷ [], codes "i")
    ∷ []

lint_finds_httpx : main walk (some sources) ≡ 1
unfolding main
lint_finds_httpx = refl

seven_pings : length (ping_channels false) ≡ 7
unfolding ping_channels
seven_pings = refl

-- A session with the rows that are committed.
abbrev Connection : Type 0
Connection = Session × List CashflowLedger

abbrev committed : Connection → List CashflowLedger
committed c = c.1

abbrev session : Connection → Session
session c = c.0

abbrev methods : SessionMethods Connection
methods = record {
  commit = λ c. (ok tt, (c.0, c.0.rows));
  rollback = λ c. (ok tt, (record c.0 { rows = c.1 }, c.1));
  close = λ c. (ok tt, c);
}

methods-IsTransactional : IsTransactional committed (λ c. (session c).rows) methods
methods-IsTransactional = record {
  commits = λ c h. refl;
  commit_fails = λ c x h. cc;
  rollback_writes_nothing = λ c. refl;
  close_returns = λ c. refl;
  close_writes_nothing = λ c. refl;
}

abbrev in_session : Action Session CashflowEntry → Action Connection CashflowEntry
in_session m c = let (r, s) = m c.0 in (r, (s, c.1))

abbrev fresh : Connection
fresh = (record { rows = []; draws = 0 }, [])

seed_operating_command-Seeds_example :
    Seeds checker world committed
      (usd 200)
      fresh
      (seed_operating_command methods in_session checker world (usd 200) fresh)
seed_operating_command-Seeds_example =
    seed_operating_command-Seeds checker world committed session methods methods-IsTransactional
      in_session (usd 200) fresh (λ m. (refl, refl, refl)) refl

seeded_rows :
    length (committed (seed_operating_command methods in_session checker world (usd 200) fresh).1)
    ≡ 1
unfolding seed_operating_command seed_operating cashflow_service require_mother_for_ledger credit
    record_entry with_session
seeded_rows = refl
