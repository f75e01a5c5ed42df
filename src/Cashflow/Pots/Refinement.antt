-- ===== src/Cashflow/Pots/Refinement.antt =====
-- `CashflowService` of aae/cashflow/ledger.py answers and moves its balances as the machine of
-- three balances does.
use self_spawn_agents.Prelude.{
  ◌≡◌, refl, ◌∙◌, Bool, false, not, List, [], ◌∷◌, Result, ok, err, Text, arith, Bool-cases, inl,
  inr, ◌==◌, if◌then◌else◌, trust_violation, Action, value_error, bad_hmac, trust_violation, Action,
  value_error, bad_hmac, validation_error, ◌>>=◌, ◌>>◌, pure, require, map, of_result, ap,
}
use self_spawn_agents.Prelude.Decimal.{Money}
use self_spawn_agents.Prelude.Int.{pos, neg, magnitude, eqb_ℤ, leb_ℤ, neg_parts}
use self_spawn_agents.Prelude.Refines.{
  observe, Refines, Refines-bind, seen, Refines-pure, Refines-require, Refines-of_result,
}
use self_spawn_agents.Schemas.Common.{AgentTier, World, Pydantic}
use self_spawn_agents.Schemas.Ledger.{
  Pot, operating, reserve, growth, CashflowSource, CashflowEntry, entry_fits,
  emergency_transfer_reserve_to_operating,
}
use self_spawn_agents.Cashflow.Floors.{PotSnapshot, reserve_inviolate}
use self_spawn_agents.Cashflow.Balances.{sum_rows-append}
use self_spawn_agents.Cashflow.Split.{InflowSplit}
use self_spawn_agents.Cashflow.Ledger.{
  Session, EntryOptions, PrintedDecimal, add_delta, add_row, new_entry, balance, snapshot,
  debit_rule, assert_debit_allowed, store_entry, record_entry, debit, credit, credit_share,
  record_split, split_and_record_inflow, emergency_transfer, verify_emergency_hmac,
  transfer_options,
}
use self_spawn_agents.Cashflow.Requests.{
  Request, record_request, debit_request, credit_request, inflow_request, emergency_request,
  answer_request, apply_request, run_requests, answers, one, two, three,
}
use self_spawn_agents.Cashflow.Pots.{
  storable, refusal, covered, post, pay_in, pay_out, pay_share, pay_split, transfer, request_pots,
  run_pots, Posting, posting,
}

entry_fits-storable :
    (py : Pydantic) (d : Money) (note : Text) → entry_fits py d note ≡ storable d note
entry_fits-storable py d note = ground (arith, py.decimal_12_4_iff d, py.max_length_iff 512 note)

debit_rule-covered :
    (pot : Pot) (left : Money) (src : CashflowSource)
    → debit_rule pot left src ≡ (if covered pot left src then ok tt else err (refusal pot))
unfolding debit_rule
debit_rule-covered operating left src = ground arith
debit_rule-covered reserve left src = refl
debit_rule-covered growth left src = ground arith

-- What the machine of three balances knows of an entry.
abbrev pub posting_of : CashflowEntry → Posting
posting_of e = record {
  pot = e.pot;
  delta = e.delta;
  source = e.source;
  ref_id = e.ref_id;
  note = e.note;
}

module _ (py : Pydantic) (w : World) (tier : AgentTier) where
  add_row-snapshot :
      (e : CashflowEntry) (s : Session)
      → snapshot w (add_row py w tier e s) ≡ add_delta (snapshot w s) e.pot e.delta
  unfolding snapshot balance
  add_row-snapshot e s = rw sum_rows-append (ground arith)

  module _ (pot : Pot) (d : Money) (src : CashflowSource) (kw : EntryOptions) (s : Session) where
    store_entry_shows :
        (checked : Result (Unit {0}))
        → observe (snapshot w) posting_of (store_entry py w tier checked pot d src kw s)
          ≡ elim checked [
            | ok _ ↦
                if storable d kw.note
                then (ok (posting pot d src kw), add_delta (snapshot w s) pot d)
                else (err validation_error, snapshot w s)
            | err x ↦ (err x, snapshot w s)
          ]
    unfolding store_entry
    store_entry_shows (err x) = refl
    store_entry_shows (ok _) =
        rw (← entry_fits-storable py d kw.note)
          (ground (arith, add_row-snapshot (new_entry py w tier pot d src kw s) s))

    record_entry_shows :
        observe (snapshot w) posting_of (record_entry py w tier pot d src kw s)
        ≡ post pot d src kw (snapshot w s)
    unfolding record_entry assert_debit_allowed post
    record_entry_shows = elim (Bool-cases (magnitude d == 0)) [
      | inl z ↦ ground (arith, z)
      | inr n ↦
          let other : eqb_ℤ d (pos 0) ≡ false = ground arith in
          rw (other, n) (store_entry_shows _ ∙ rw debit_rule-covered (ground arith))
    ]

  module _ (pot : Pot) (d : Money) (src : CashflowSource) (kw : EntryOptions) where
    record_entry-Refines :
        Refines (snapshot w) posting_of (record_entry py w tier pot d src kw) (post pot d src kw)
    record_entry-Refines = record { shows = record_entry_shows pot d src kw }

    credit-Refines :
        Refines (snapshot w) posting_of (credit py w tier pot d src kw) (pay_in pot d src kw)
    unfolding credit pay_in
    credit-Refines = record { shows = λ s. ground (arith, record_entry_shows pot d src kw s) }

    debit-Refines :
        Refines (snapshot w) posting_of (debit py w tier pot d src kw) (pay_out pot d src kw)
    unfolding debit pay_out
    debit-Refines = record { shows = λ s. ground (arith, record_entry_shows pot (neg d) src kw s) }

    credit_share-Refines :
        (e : CashflowEntry)
        → Refines
            (snapshot w)
            posting_of
            (credit_share py w tier pot d src kw e)
            (pay_share pot d src kw (posting_of e))
    unfolding credit_share pay_share credit
    credit_share-Refines e = record {
      shows = λ s. ground (arith, record_entry_shows pot d src kw s);
    }

  -- A transfer as its two postings.
  abbrev in_steps : Result Bool → Money → EntryOptions → Action PotSnapshot (Posting × Posting)
  in_steps verified a kw = do
    require reserve_inviolate trust_violation
    signed ← of_result verified
    require signed bad_hmac
    require (not (leb_ℤ a (pos 0))) value_error
    out ← post reserve (neg a) emergency_transfer_reserve_to_operating kw
    inn ← post operating a emergency_transfer_reserve_to_operating kw
    pure (out, inn)

  -- The two postings are one step of the balances.
  in_steps-transfer :
      (verified : Result Bool) (a : Money) (kw : EntryOptions) (p : PotSnapshot)
      → in_steps verified a kw p ≡ transfer verified a kw p
  unfolding ◌>>=◌ post transfer
  in_steps-transfer (err x) a kw p = refl
  in_steps-transfer (ok signed) a kw p = ground (arith, neg_parts a)

  record_split-Refines :
      (p : InflowSplit) (src : CashflowSource) (kw : EntryOptions)
      → Refines
          (snapshot w)
          (λ t. (posting_of t.0, posting_of t.1, posting_of t.2))
          (record_split py w tier p src kw)
          (pay_split p src kw)
  unfolding record_split pay_split
  record_split-Refines p src kw =
      Refines-bind _ posting_of _ _ _ _ _ (credit-Refines operating p.operating src kw) λ first.
        Refines-bind _ posting_of _ _ _ _ _ (credit_share-Refines reserve p.reserve src kw first)
          λ second.
            Refines-bind _ posting_of _ _ _ _ _ (credit_share-Refines growth p.growth src kw first)
              λ third. Refines-pure _ _ (first, second, third)

  -- The returned entries, as a list, are those of the abstract action.
  listed :
      {A B : Type 0} (read : A → B) (list : A → List CashflowEntry) (list' : B → List Posting)
      (q : Result A × Session) (aq : Result B × PotSnapshot)
      → ((a : A) → map posting_of (list a) ≡ list' (read a))
      → observe (snapshot w) read q ≡ aq
      → observe (snapshot w) (map posting_of) (observe (λ t. t) list q) ≡ observe (λ p. p) list' aq
  listed read list list' (ok a, s) aq h shows =
      ap (λ ps. (ok ps, snapshot w s)) (h a) ∙ ap (observe (λ p. p) list') shows
  listed read list list' (err x, s) aq h shows = ap (observe (λ p. p) list') shows

  module _ (hmac_sha256 : Text → Text → Text) where
    emergency_transfer_shows :
        (a : PrintedDecimal) (date sig secret : Text) (s : Session)
        → observe
            (snapshot w)
            (λ t. (posting_of t.0, posting_of t.1))
            (emergency_transfer py w tier hmac_sha256 a date sig secret s)
          ≡ transfer
              (verify_emergency_hmac hmac_sha256 secret a date sig)
              a.usd_value
              (transfer_options date)
              (snapshot w s)
    unfolding emergency_transfer
    emergency_transfer_shows a date sig secret s =
        let verified = verify_emergency_hmac hmac_sha256 secret a date sig in
        let kw = transfer_options date in
        let refines : Refines (snapshot w) (λ t. (posting_of t.0, posting_of t.1))
            (emergency_transfer py w tier hmac_sha256 a date sig secret)
            (in_steps verified a.usd_value kw) =
          Refines-bind _ (λ u. u) _ _ _ _ _ (Refines-require _ _ _)
            λ _.
              Refines-bind _ (λ b. b) _ _ _ _ _ (Refines-of_result _ verified)
                λ signed.
                  Refines-bind _ (λ u. u) _ _ _ _ _ (Refines-require _ _ _)
                    λ _.
                      Refines-bind _ (λ u. u) _ _ _ _ _ (Refines-require _ _ _)
                        λ _.
                          Refines-bind _ posting_of _ _ _ _ _ (record_entry-Refines reserve _ _ kw)
                            λ out.
                              Refines-bind _ posting_of _ _ _ _ _
                                (record_entry-Refines operating _ _ kw)
                                λ inn. Refines-pure _ _ (out, inn) in
        refines.shows s ∙ in_steps-transfer verified a.usd_value kw (snapshot w s)

    answer_request_shows :
        (r : Request) (s : Session)
        → observe (snapshot w) (map posting_of) (answer_request py w tier hmac_sha256 r s)
          ≡ request_pots hmac_sha256 r (snapshot w s)
    unfolding answer_request request_pots split_and_record_inflow
    answer_request_shows (record_request pot d src kw) s =
        listed posting_of one one _ _ (λ e. refl) (record_entry_shows pot d src kw s)
    answer_request_shows (debit_request pot a src kw) s =
        listed posting_of one one _ _ (λ e. refl) ((debit-Refines pot a src kw).shows s)
    answer_request_shows (credit_request pot a src kw) s =
        listed posting_of one one _ _ (λ e. refl) ((credit-Refines pot a src kw).shows s)
    answer_request_shows (inflow_request a src ref limit trailing) s =
        listed _ three three _ _ (λ t. refl) ((record_split-Refines _ src _).shows s)
    answer_request_shows (emergency_request a date sig secret) s =
        listed _ two two _ _ (λ t. refl) (emergency_transfer_shows a date sig secret s)

    -- For any sequence of requests to the cashflow service: the entries that each request returns,
    -- in their order and each without its id and time, or the exception that it raises, and the
    -- balances in the end, are what a machine of three balances gives, which has no ledger, ids or
    -- times, posts to one pot at a time, and makes an emergency transfer in a single step.
    pub run_requests_refines :
        (rs : List Request) (s : Session)
        → (
          map (seen (map posting_of)) (answers py w tier hmac_sha256 rs s),
          snapshot w (run_requests py w tier hmac_sha256 rs s),
        )
          ≡ run_pots hmac_sha256 rs (snapshot w s)
    unfolding answers run_requests run_pots apply_request
    run_requests_refines [] s = refl
    run_requests_refines (r ∷ rs) s = cc (
      answer_request_shows r s,
      run_requests_refines rs (apply_request py w tier hmac_sha256 r s),
    )
