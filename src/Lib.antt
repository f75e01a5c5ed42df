-- ===== src/Lib.antt =====
-- A verification library for the Autonomous Agent Ecosystem (the Python package aae). The program
-- runs four kinds of agents, of which only the Mother writes money movements. Its core is a set of
-- rules that code enforces: three pots of money with hard floors, a budgeted client of the language
-- models, a registry of child agents with a kill switch, a registry of signed tools, an ethics
-- auditor, and a parser of the messages of the human operator.
--
-- Which file models what:
--   Prelude    numbers, text, dictionaries, exceptions; Prelude/Unicode has the methods of str
--   Schemas    aae/schemas/common.py, cashflow.py, child.py, vertical.py, build.py and ethics.py
--   Cashflow   aae/cashflow: Ledger is ledger.py (CashflowService.record is record_entry,
--              _assert_debit_allowed is assert_debit_allowed,
--              emergency_transfer_reserve_to_operating is emergency_transfer), Floors is
--              hard_floors.py and pots.py, Split is split_inflow, Reconcile is reconcile.py
--   Core       aae/core: Trust is trust_boundary.py, Mother is mother_agent.py, Router is
--              model_router.py, Llm is llm_client.py, Supervisor is child_supervisor.py, Operator
--              is operator_parser.py, ChildAgent is child_agent.py, State is state.py
--   Ethics     aae/ethics/auditor.py; Ruleset is ruleset_hash.py
--   Config     aae/config/settings.py
--   Tools      aae/tools/registry.py and runtime.py
--   Codebuilder  aae/codebuilder (agent.py, validator.py, signer.py, sandbox.py; Docker is the
--              command line of sandbox.py)
--   Ops        aae/ops: Freeze is freeze_experiment.py, Simulation is simulation_mode.py, Digest is
--              weekly_digest.py
--   Db         aae/db: Models is models.py, Migration is migrations/versions/0001_initial.py
--              (its tables in Migration/Tables), Session is session.py
--   Channels   aae/channels: Channels.antt is base.py, Health is health.py, Stripe is
--              stripe_connect.py, Payments is polar.py and lemonsqueezy.py, Hosting is vercel.py and
--              netlify.py, Domains is cloudflare.py and porkbun.py (a method that two clients have
--              carries the name of its client: polar_create_product)
--   Preregistration  aae/preregistration and aae/schemas/preregistration.py: Canonical is
--              canonical.py, Register is register.py and analyze.py
--   Gmail      aae/gmail and aae/server/routes/webhooks.py
--   Server     aae/server/app.py and aae/server/routes/health.py
--   Scripts    scripts: EmergencyTransfer is emergency_transfer.py, LintChannels is
--              lint_channels.py, Bootstrap is day0_bootstrap.py
-- The other modules below these hold the proofs, named for what they show, and the tests. Three hold
-- descriptions that are not in the program: Cashflow/Pots is a machine of three balances that the
-- cashflow service refines, Core/Supervisor/History the effect of a run of operations on a child, and
-- Core/Operator/Commands the way an operator spells a command.
--
-- How the parts interact: the LLM client asks the router for a model and a price, tests its pot
-- against the floor of the cashflow service and debits that service after the call; the cashflow
-- service asks the trust boundary who may write; a tool of high risk needs the id of a verdict of
-- the auditor. The model of the LLM client uses the model of the cashflow service as it stands.
--
-- A client of a channel writes its requests to a log, which the answers may depend on. The database
-- is its tables with their columns, keys and triggers; a row is its values in the order of the columns.
--
-- State is passed explicitly. A method that changes its object and may raise takes the state and
-- gives back a result beside the new state, so what was written before a raise stays written. A
-- database session is the list of the rows of the cashflow ledger. Concurrency is an explicit order
-- of steps: the order of the tasks of the kill switch is an argument, and the reviews of the
-- auditor are turns, one before the lock and one under it.
--
-- Money is a whole number of micro-dollars, so amounts of the program with more than six decimals
-- are outside the model. Times are microseconds, UUIDs are numbers, texts are lists of code points.
-- Exceptions are constructors without their messages. Every function recurs on its data, so there
-- is no fuel.
--
-- Parameters, since their code is not in the repository: the field checks of pydantic, the provider
-- of the language models, HMAC and SHA-256, json.loads, httpx, the file system and the loading of modules,
-- Jinja, the matches of regular expressions, the process of the sandbox,
-- the host of a URL, the tables of Unicode (with their meaning on ASCII), and the draws of UUIDs and
-- of the clock.
--
-- What SQLAlchemy makes of a DSN and the methods of its sessions are parameters too, as are
-- pydantic-settings, base64, isoformat, the printing of dates and decimal numbers, and the processes
-- that the scripts start.
--
-- Not modelled: aae/db/migrations/env.py, which only calls Alembic; the messages of exceptions; the
-- limits of a column that a flush would meet; the row-level security and the triggers of Postgres
-- beyond their creation; a write of a file or a start of docker that fails; the lines that the
-- scripts print on success; and the process of the sandbox, of which the command line is modelled.
pub mod Prelude
pub mod Schemas
pub mod Core
pub mod Cashflow
pub mod Ethics
pub mod Tools
pub mod Codebuilder
pub mod Ops
pub mod Config
pub mod Db
pub mod Channels
pub mod Preregistration
pub mod Gmail
pub mod Scripts
pub mod Server
