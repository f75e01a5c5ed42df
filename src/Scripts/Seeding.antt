-- ===== src/Scripts/Seeding.antt =====
-- What `seed-operating` of scripts/day0_bootstrap.py leaves in the database.
use self_spawn_agents.Prelude.{◌≡◌, List, [], ◌∷◌, ◌++◌, arith, Result, ok, err, Action}
use self_spawn_agents.Prelude.Decimal.{Money}
use self_spawn_agents.Schemas.Common.{mother, World, Pydantic}
use self_spawn_agents.Schemas.Ledger.{operating, manual_topup, CashflowEntry, CashflowLedger}
use self_spawn_agents.Core.Trust.{require_mother_for_ledger}
use self_spawn_agents.Cashflow.Ledger.{Session, default_options, cashflow_service, credit}
use self_spawn_agents.Cashflow.Writes.{Records, credit-Records}
use self_spawn_agents.Db.Session.{SessionMethods}
use self_spawn_agents.Db.Session.Scope.{IsTransactional, AllOrNothing, session_scope-AllOrNothing}
use self_spawn_agents.Scripts.Bootstrap.{seed_operating, seed_operating_command}

module _ (py : Pydantic) (w : World) where
  -- A row more, of the Mother's, that raises the operating pot by the amount; or no change.
  abbrev pub Seeds :
      {C : Type 0} → (C → List CashflowLedger) → Money → C → Result CashflowEntry × C → Type 0
  Seeds committed a c (ok e, c') =
      (committed c' ≡ committed c ++ (record { entry = e; written_by = mother }) ∷ [])
      × (e.pot ≡ operating)
      × (e.delta ≡ a)
  Seeds committed a c (err x, c') = committed c' ≡ committed c

  module _ {C : Type 0} (committed : C → List CashflowLedger) (session : C → Session)
      (methods : SessionMethods C) (t : IsTransactional committed (λ c. (session c).rows) methods)
      (in_session : Action Session CashflowEntry → Action C CashflowEntry) (a : Money) (c : C) where
    seeded :
        (r : Result CashflowEntry × Session) (q p : Result CashflowEntry × C)
        → Records py w mother operating a manual_topup default_options (session c) r
        → q.0 ≡ r.0
        → session q.1 ≡ r.1
        → (session c).rows ≡ committed c
        → AllOrNothing committed (λ d. (session d).rows) c q p
        → Seeds committed a c p
    seeded r q (err x, c') k e f start h = h
    seeded (err y, s) q (ok en, c') k e f start (same, stored) = cc
    seeded (ok e', s) q (ok en, c') k e f start (same, stored) = (
      ground (arith, same, stored, k.appended, start, e, f),
      ground (arith, same, k.pot_is, e),
      ground (arith, same, k.delta_is, e),
    )

    -- With a session whose commit, rollback and close do what SQLAlchemy documents, and which
    -- starts from what is committed: the command that seeds the operating pot leaves one row more
    -- in the database, written by the Mother, which credits the operating pot with exactly the
    -- amount, or raises and leaves the database as it was.
    pub seed_operating_command-Seeds :
        ((m : Action Session CashflowEntry)
          → (in_session m c).0 ≡ (m (session c)).0
            × (session (in_session m c).1 ≡ (m (session c)).1)
            × (committed (in_session m c).1 ≡ committed c))
        → (session c).rows ≡ committed c
        → Seeds committed a c (seed_operating_command methods in_session py w a c)
    unfolding seed_operating_command seed_operating credit cashflow_service
        require_mother_for_ledger
    seed_operating_command-Seeds works start =
        let body = in_session (seed_operating py w a) in
        let (answer, left, uncommitted) = works (seed_operating py w a) in
        seeded (seed_operating py w a (session c)) (body c) _
          (credit-Records py w mother operating a manual_topup default_options (session c)) answer
          left start
          (session_scope-AllOrNothing committed (λ d. (session d).rows) methods t body c
            uncommitted).1
