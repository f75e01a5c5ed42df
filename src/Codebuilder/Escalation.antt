-- ===== src/Codebuilder/Escalation.antt =====
-- What becomes of an escalation.
use self_spawn_agents.Prelude.{
  ◌≡◌, ==_iff, refl, subst, ap, ◌∙◌, true, false, none, ok, err, tool_policy_error,
}
use self_spawn_agents.Schemas.Common.{Uuid, Time}
use self_spawn_agents.Schemas.Build.{RiskTier, low, medium, high, BuildRequest, ToolArtifact}
use self_spawn_agents.Codebuilder.{
  Toolchain, artifact, Files, is_high, is_flagged, escalated, policy_escalate, compute_artifact_sha,
  build,
}
use self_spawn_agents.Codebuilder.Signing.{Signed, build-Signed}
use self_spawn_agents.Tools.{ToolRegistry, register, new_tool, lacks_verdict}

high_of : (r : RiskTier) → is_high r ≡ true → r ≡ high
high_of high h = refl
high_of low h = cc
high_of medium h = cc

not_lacking : (r : RiskTier) → is_high r ≡ false → lacks_verdict r none ≡ false
not_lacking low h = refl
not_lacking medium h = refl
not_lacking high h = cc

module _ (tc : Toolchain) (id : Uuid) (now : Time) (req : BuildRequest) (fs : Files) where
  escalates :
      is_flagged tc.js req (tc.render req).0 ≡ true
      → is_high req.risk_tier ≡ false
      → policy_escalate tc.js req (tc.render req).0 ≡ escalated req
  unfolding policy_escalate
  escalates flagged small = rw (flagged, small) refl

  registers :
      (a : ToolArtifact) (later : Time) (s : ToolRegistry)
      → is_high req.risk_tier ≡ false
      → a.build_request_id ≡ req.id
      → a.ethics_verdict_id ≡ none
      → (register a req later s).0 ≡ ok (new_tool a req later)
  unfolding register
  registers a later s small same none_given =
      rw (same, (==_iff req.id req.id).1 refl, none_given, not_lacking req.risk_tier small) refl

  refuses :
      (a : ToolArtifact) (later : Time) (s : ToolRegistry)
      → a.build_request_id ≡ req.id
      → a.ethics_verdict_id ≡ none
      → (register a (escalated req) later s).0 ≡ err tool_policy_error
  unfolding register
  refuses a later s same none_given = rw (same, (==_iff req.id req.id).1 refl, none_given) refl

  -- For a request below high risk that the policy flags, an artifact that the builder makes is
  -- signed over the request escalated to high risk, and yet it is registered, at the risk that the
  -- request states and without a verdict, against the request that the caller holds; against the
  -- escalated request it is refused.
  pub escalation_is_lost :
      (a : ToolArtifact) (later : Time) (s : ToolRegistry)
      → is_flagged tc.js req (tc.render req).0 ≡ true
      → is_high req.risk_tier ≡ false
      → (build tc id now req fs).0 ≡ ok (artifact a)
      → (a.sha256 ≡ compute_artifact_sha tc (tc.render req).0 (tc.render req).1 (escalated req))
        × ((register a req later s).0 ≡ ok (new_tool a req later))
        × ((register a (escalated req) later s).0 ≡ err tool_policy_error)
  escalation_is_lost a later s flagged small built =
      let (passing, full, coverage, same_id, sha, unjudged, code, test, written) =
        subst (λ out. Signed tc id now req fs out (build tc id now req fs).1) built
          (build-Signed tc id now req fs) in
      (
        sha
            ∙ ap (compute_artifact_sha tc (tc.render req).0 (tc.render req).1)
                (escalates flagged small),
        registers a later s small same_id unjudged,
        refuses a later s same_id unjudged,
      )
