-- ===== src/Cashflow/Authorship.antt =====
-- The ledger is append-only, and only a service of the Mother writes it.
use self_spawn_agents.Prelude.{
  ◌≡◌, sym, subst, List, [], ◌∷◌, ◌++◌, Result, ok, err, Text, All, All-append, arith,
}
use mathlib.Core.List.{append-nil, append_assoc}
use self_spawn_agents.Prelude.Decimal.{Money}
use self_spawn_agents.Prelude.Keeps.{Keeps}
use self_spawn_agents.Schemas.Common.{AgentTier, mother, World, Pydantic}
use self_spawn_agents.Schemas.Ledger.{Pot, CashflowSource, CashflowEntry, CashflowLedger}
use self_spawn_agents.Core.Trust.{require_mother_for_ledger}
use self_spawn_agents.Cashflow.Ledger.{Session, EntryOptions, record_entry, cashflow_service}
use self_spawn_agents.Cashflow.Requests.{Request, run_requests}
use self_spawn_agents.Cashflow.Requests.Preserve.{run_requests-keeps}
use self_spawn_agents.Cashflow.Writes.{Records, record_entry-Records}

-- What a service is constructed for: no tier but the Mother's passes.
pub service_is_mother : (tier t : AgentTier) → cashflow_service tier ≡ ok t → t ≡ mother
unfolding cashflow_service require_mother_for_ledger
service_is_mother tier t h = ground arith

-- The old rows, then rows of the Mother's.
pub record IsExtension (old new : List CashflowLedger) : Type 0 where
  pub added : List CashflowLedger
  pub appended : new ≡ old ++ added
  pub by_mother : All (λ r. r.written_by ≡ mother) added

module _ (py : Pydantic) (w : World) (t : AgentTier) (old : List CashflowLedger)
    (m : t ≡ mother) where
  extended :
      (pot : Pot) (d : Money) (src : CashflowSource) (kw : EntryOptions) (s : Session)
      (r : Result CashflowEntry × Session)
      → Records py w t pot d src kw s r
      → IsExtension old s.rows
      → IsExtension old r.1.rows
  extended pot d src kw s (err x, s') k h =
      subst (λ (x : Session). IsExtension old x.rows) (sym k) h
  extended pot d src kw s (ok e, s') k h = record {
    added = h.added ++ (record { entry = e; written_by = t }) ∷ [];
    appended = rw (k.appended, h.appended) (append_assoc old h.added _);
    by_mother = All-append _ h.added _ h.by_mother (m, tt);
  }

  record-extends :
      (pot : Pot) (d : Money) (src : CashflowSource) (kw : EntryOptions)
      → Keeps (λ s. IsExtension old s.rows) (record_entry py w t pot d src kw)
  record-extends pot d src kw = record {
    after = λ s h.
        extended pot d src kw s (record_entry py w t pot d src kw s)
          (record_entry-Records py w t pot d src kw s) h;
  }

-- Whatever requests a constructed service answers, no row of the ledger is changed or removed, and
-- each row that is added is written by the Mother.
pub ledger_extends_by_mother :
    (py : Pydantic) (w : World) (tier t : AgentTier) (hmac_sha256 : Text → Text → Text)
    (rs : List Request) (s : Session)
    → cashflow_service tier ≡ ok t
    → IsExtension s.rows (run_requests py w t hmac_sha256 rs s).rows
ledger_extends_by_mother py w tier t hmac_sha256 rs s made =
    run_requests-keeps py w t hmac_sha256 (λ s'. IsExtension s.rows s'.rows)
      (record-extends py w t s.rows (service_is_mother tier t made)) rs s
      (record { added = []; appended = sym (append-nil s.rows); by_mother = tt })
