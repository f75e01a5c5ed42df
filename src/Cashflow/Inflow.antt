-- ===== src/Cashflow/Inflow.antt =====
-- `record_split`, the credits of an inflow: what an inflow adds to the three pots together.
pub mod Totals
use self_spawn_agents.Prelude.{
  ◌≡◌, ◌<◌, ◌*◌, ◌^◌, refl, sym, subst, Option, Result, ok, err, Text, arith, Bool-cases, inl, inr,
  false, ◌>>=◌, resume, pure, Action, if◌then◌else◌,
}
use self_spawn_agents.Prelude.Decimal.{Money, IsLedgerUnit}
use self_spawn_agents.Prelude.Int.{pos, ◌+ℤ◌, ◌<ℤ◌, magnitude, ltb_ℤ, leb_ℤ, ltb_ℤ-true, int_laws}
use self_spawn_agents.Schemas.Common.{AgentTier, World, Pydantic}
use self_spawn_agents.Schemas.Ledger.{
  Pot, operating, reserve, growth, CashflowSource, CashflowEntry,
}
use self_spawn_agents.Cashflow.Floors.{PotSnapshot}
use self_spawn_agents.Cashflow.Balances.{total, total-add_delta}
use self_spawn_agents.Cashflow.Split.{InflowSplit}
use self_spawn_agents.Cashflow.Ledger.{
  Session, EntryOptions, default_options, snapshot, new_entry, credit, credit_share, record_split,
}
use self_spawn_agents.Cashflow.Writes.{Records, credit-Records, record_entry_accepts_iff}

-- An amount that a ledger column holds.
pub record Fits (a : Money) : Type 0 where
  pub unit : IsLedgerUnit a
  pub small : magnitude a < 100 * 10 ^ 12

-- What a share adds to its pot: nothing unless it is positive.
abbrev pub paid : Money → Money
paid a = if ltb_ℤ (pos 0) a then a else pos 0

module _ (w : World) where
  -- The call returned, and the pots together hold `a` more.
  abbrev pub Pays : {A : Type 0} → Money → Session → Result A × Session → Type 0
  Pays a s (ok _, s') = total (snapshot w s') ≡ total (snapshot w s) +ℤ a
  Pays a s (err x, s') = ⊥

  pure-Pays : {A : Type 0} (x : A) (s : Session) → Pays (pos 0) s (pure x s)
  unfolding pure
  pure-Pays x s = omega int_laws

  module _ {A B : Type 0} where
    resume-Pays :
        (r : Result A) (f : A → Action Session B) (a b : Money) (s s1 : Session)
        → Pays a s (r, s1)
        → ((x : A) → Pays b s1 (f x s1))
        → (q : Result B × Session) → resume r f s1 ≡ q
        → Pays (a +ℤ b) s q
    resume-Pays (ok x) f a b s s1 h k (ok y, s2) e =
        let k' : Pays b s1 (ok y, s2) = subst (λ z. Pays b s1 z) e (k x) in
        rw (k', h) (omega int_laws)
    resume-Pays (ok x) f a b s s1 h k (err y, s2) e = subst (λ z. Pays b s1 z) e (k x)
    resume-Pays (err y) f a b s s1 h k q e = absurd h

    bind-Pays :
        (m : Action Session A) (f : A → Action Session B) (a b : Money) (s : Session)
        → Pays a s (m s)
        → ((x : A) (s1 : Session) → Pays b s1 (f x s1))
        → Pays (a +ℤ b) s ((m >>= f) s)
    unfolding ◌>>=◌
    bind-Pays m f a b s h k = resume-Pays (m s).0 f a b s (m s).1 h (λ x. k x (m s).1) _ refl

module _ (py : Pydantic) (w : World) (tier : AgentTier) where
  module _ (src : CashflowSource) (ref : Option Text) where
    abbrev kw : EntryOptions
    kw = record default_options { ref_id = ref }

    credit_accepted :
        (pot : Pot) (a : Money) (s : Session)
        → pos 0 <ℤ a
        → Fits a
        → (credit py w tier pot a src kw s).0 ≡ ok (new_entry py w tier pot a src kw s)
    unfolding credit
    credit_accepted pot a s p f =
        let some_money : leb_ℤ a (pos 0) ≡ false = ground arith in
        rw some_money (
          (record_entry_accepts_iff py w tier pot a src kw s).1 (
            (λ e. ground (arith, e)),
            inl (omega arith),
            omega (arith, f.unit.up, f.unit.down),
            f.small,
            omega arith,
          ))

    credit-Pays :
        (pot : Pot) (a : Money) (s : Session) (r : Result CashflowEntry × Session)
        → Records py w tier pot a src kw s r
        → r.0 ≡ ok (new_entry py w tier pot a src kw s)
        → Pays w a s r
    credit-Pays pot a s (ok e, s') k h =
        subst (λ (x : PotSnapshot). total x ≡ total (snapshot w s) +ℤ a) (sym k.balances)
          (total-add_delta (snapshot w s) pot a)
    credit-Pays pot a s (err x, s') k h = cc

    share-Pays :
        (pot : Pot) (a : Money) (s : Session) (e : CashflowEntry)
        → (pos 0 <ℤ a → Fits a)
        → Pays w (paid a) s (credit_share py w tier pot a src kw e s)
    unfolding credit_share
    share-Pays pot a s e f = elim (Bool-cases (ltb_ℤ (pos 0) a)) [
      | inl some_share ↦
          let p = ltb_ℤ-true (pos 0) a some_share in
          rw some_share (
            credit-Pays pot a s (credit py w tier pot a src kw s)
              (credit-Records py w tier pot a src kw s) (credit_accepted pot a s p (f p)))
      | inr no_share ↦ rw no_share (omega int_laws)
    ]

    -- The three credits of a split pay in its positive parts, and none of them raises.
    pub record_split-Pays :
        (p : InflowSplit) (s : Session)
        → pos 0 <ℤ p.operating
        → Fits p.operating
        → (pos 0 <ℤ p.reserve → Fits p.reserve)
        → (pos 0 <ℤ p.growth → Fits p.growth)
        → Pays w
            (p.operating +ℤ (paid p.reserve +ℤ (paid p.growth +ℤ pos 0)))
            s
            (record_split py w tier p src kw s)
    unfolding record_split
    record_split-Pays p s pos_op fo fr fg =
        bind-Pays w _ _ p.operating _ s
          (credit-Pays operating p.operating s _
            (credit-Records py w tier operating p.operating src kw s)
            (credit_accepted operating p.operating s pos_op fo))
          λ op_entry s1.
            bind-Pays w _ _ (paid p.reserve) _ s1 (share-Pays reserve p.reserve s1 op_entry fr)
              λ res_entry s2.
                bind-Pays w _ _ (paid p.growth) _ s2 (share-Pays growth p.growth s2 op_entry fg)
                  λ gr_entry s3. pure-Pays w _ s3
