-- ===== src/Cashflow/Requests/Preserve.antt =====
-- What every single write keeps, every request and every sequence of requests keeps.
use self_spawn_agents.Prelude.{Option, List, [], ◌∷◌, Text, Bool-cases, inl, inr}
use self_spawn_agents.Prelude.Decimal.{Money}
use self_spawn_agents.Prelude.Keeps.{Keeps, keeps_rules}
use self_spawn_agents.Prelude.Int.{pos, neg, ltb_ℤ, leb_ℤ}
use self_spawn_agents.Schemas.Common.{AgentTier, World, Pydantic}
use self_spawn_agents.Schemas.Ledger.{Pot, CashflowSource, CashflowEntry}
use self_spawn_agents.Cashflow.Split.{InflowSplit}
use self_spawn_agents.Cashflow.Ledger.{
  Session, EntryOptions, PrintedDecimal, record_entry, debit, credit, credit_share, record_split,
  split_and_record_inflow, emergency_transfer,
}
use self_spawn_agents.Cashflow.Requests.{
  Request, record_request, debit_request, credit_request, inflow_request, emergency_request,
  apply_request, run_requests,
}

module _ (py : Pydantic) (w : World) (tier : AgentTier) where
  module _ (P : Session → Type 0) where
    -- What every write keeps, an inflow and an emergency transfer keep.
    pub credit_share-Keeps :
        (pot : Pot) (a : Money) (src : CashflowSource) (kw : EntryOptions) (e : CashflowEntry)
        → Keeps P (credit py w tier pot a src kw)
        → Keeps P (credit_share py w tier pot a src kw e)
    unfolding credit_share
    credit_share-Keeps pot a src kw e k = record {
      after = λ s h. elim (Bool-cases (ltb_ℤ (pos 0) a)) [
        | inl some_share ↦ rw some_share (k.after s h)
        | inr no_share ↦ rw no_share h
      ];
    }

    pub record_split-Keeps :
        ((pot : Pot) (a : Money) (src : CashflowSource) (kw : EntryOptions)
          → Keeps P (credit py w tier pot a src kw))
        → (s : InflowSplit) (src : CashflowSource) (kw : EntryOptions)
        → Keeps P (record_split py w tier s src kw)
    unfolding record_split
    record_split-Keeps k s src kw = search (keeps_rules, k, credit_share-Keeps)

    pub inflow-Keeps :
        ((pot : Pot) (a : Money) (src : CashflowSource) (kw : EntryOptions)
          → Keeps P (credit py w tier pot a src kw))
        → (a : Money) (src : CashflowSource) (ref : Option Text) (limit : Option Money)
          (trailing : Money)
        → Keeps P (split_and_record_inflow py w tier a src ref limit trailing)
    unfolding split_and_record_inflow
    inflow-Keeps k a src ref limit trailing = record {
      after = λ s. (record_split-Keeps k _ src _).after s;
    }

    pub emergency-Keeps :
        ((pot : Pot) (d : Money) (src : CashflowSource) (kw : EntryOptions)
          → Keeps P (record_entry py w tier pot d src kw))
        → (hmac_sha256 : Text → Text → Text) (a : PrintedDecimal) (date sig secret : Text)
        → Keeps P (emergency_transfer py w tier hmac_sha256 a date sig secret)
    unfolding emergency_transfer
    emergency-Keeps k hmac_sha256 a date sig secret = search (keeps_rules, k) depth 9

  -- The rest of a request keeps what single writes keep.
  module _ (hmac_sha256 : Text → Text → Text) (P : Session → Type 0)
      (record_keeps : (pot : Pot) (d : Money) (src : CashflowSource) (kw : EntryOptions)
        → Keeps P (record_entry py w tier pot d src kw)) where
    debit-Keeps :
        (pot : Pot) (a : Money) (src : CashflowSource) (kw : EntryOptions)
        → Keeps P (debit py w tier pot a src kw)
    unfolding debit
    debit-Keeps pot a src kw = record {
      after = λ s h. elim (Bool-cases (leb_ℤ a (pos 0))) [
        | inl bad ↦ rw bad h
        | inr good ↦ rw good ((record_keeps pot (neg a) src kw).after s h)
      ];
    }

    credit-Keeps :
        (pot : Pot) (a : Money) (src : CashflowSource) (kw : EntryOptions)
        → Keeps P (credit py w tier pot a src kw)
    unfolding credit
    credit-Keeps pot a src kw = record {
      after = λ s h. elim (Bool-cases (leb_ℤ a (pos 0))) [
        | inl bad ↦ rw bad h
        | inr good ↦ rw good ((record_keeps pot a src kw).after s h)
      ];
    }

    pub apply_request-keeps :
        (r : Request) (s : Session) → P s → P (apply_request py w tier hmac_sha256 r s)
    unfolding apply_request
    apply_request-keeps (record_request pot d src kw) s h = (record_keeps pot d src kw).after s h
    apply_request-keeps (debit_request pot a src kw) s h = (debit-Keeps pot a src kw).after s h
    apply_request-keeps (credit_request pot a src kw) s h = (credit-Keeps pot a src kw).after s h
    apply_request-keeps (inflow_request a src ref limit trailing) s h =
        (inflow-Keeps P credit-Keeps a src ref limit trailing).after s h
    apply_request-keeps (emergency_request a date sig secret) s h =
        (emergency-Keeps P record_keeps hmac_sha256 a date sig secret).after s h

    pub run_requests-keeps :
        (rs : List Request) (s : Session) → P s → P (run_requests py w tier hmac_sha256 rs s)
    unfolding run_requests
    run_requests-keeps [] s h = h
    run_requests-keeps (r ∷ rs) s h =
        run_requests-keeps rs (apply_request py w tier hmac_sha256 r s) (apply_request-keeps r s h)
