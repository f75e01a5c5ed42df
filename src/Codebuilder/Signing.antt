-- ===== src/Codebuilder/Signing.antt =====
-- When the builder signs, and what it signs.
use self_spawn_agents.Prelude.{
  ℕ, ◌≡◌, ==_iff, refl, Bool, leb, Result, ok, err, validation_error, true, false, none, some, [],
  ◌∷◌, ◌++◌, Text, codes, text_eqb, text_eq, arith,
}
use self_spawn_agents.Prelude.Int.{pos, eqb_ℤ}
use self_spawn_agents.Prelude.Dict.{lookup, beq_refl}
use self_spawn_agents.Schemas.Common.{Uuid, Time}
use self_spawn_agents.Schemas.Build.{BuildRequest, full_coverage}
use self_spawn_agents.Codebuilder.{
  Toolchain, SandboxResult, BuildOutcome, artifact, failure, Files, validate, policy_escalate,
  is_timeout, run_sandbox, after_run, sign_valid, build, compute_artifact_sha, tool_path, test_path,
  write_artifact_files, artifact_or_raise, signed_artifact,
}

same_head : (s a b : Text) → text_eqb (s ++ a) (s ++ b) ≡ text_eqb a b
same_head [] a b = refl
same_head (c ∷ s) a b = ground (arith, same_head s a b, ==_iff c c)

clash : {b : Bool} → b ≡ true → b ≡ false → ⊥
clash h k = cc

escalate_keeps_id :
    (tc : Toolchain) (req : BuildRequest) (src : Text) → (policy_escalate tc.js req src).id ≡ req.id
unfolding policy_escalate
escalate_keeps_id tc req src = ground arith

module _ (tc : Toolchain) (id : Uuid) (now : Time) (req : BuildRequest) (fs : Files) where
  abbrev pub tool_py : Text
  tool_py = (tc.render req).0

  abbrev pub test_py : Text
  test_py = (tc.render req).1

  -- The request as the policy leaves it.
  abbrev pub checked : BuildRequest
  checked = policy_escalate tc.js req tool_py

  abbrev pub run : SandboxResult
  run = run_sandbox tc id now checked tool_py test_py

  -- The sandbox did not time out, its exit code is 0, and the validator accepts its output.
  abbrev pub Passing : Type 0
  Passing =
      (is_timeout tc id now run.reason ≡ false)
      × (eqb_ℤ run.exit_code (pos 0) ≡ true)
      × ((validate tc.re run.stdout 0).valid ≡ true)

  abbrev sha : Text
  sha = compute_artifact_sha tc tool_py test_py checked

  abbrev pub coverage : ℕ
  coverage = (validate tc.re run.stdout 0).coverage_pct

  -- The two files are written under the hash over both files and the checked request.
  abbrev pub BothWritten : Files → Type 0
  BothWritten fs' =
      (lookup (tool_path sha) fs' ≡ some tool_py) × (lookup (test_path sha) fs' ≡ some test_py)

  -- An artifact comes of a passing run of at most full coverage, is signed over both files and the
  -- checked request, and its two paths hold the files; a failure comes of a run that does not
  -- pass, and writes nothing; a raise comes of a passing run of more coverage than the schema
  -- bears, with both files written.
  abbrev pub Signed : Result BuildOutcome → Files → Type 0
  Signed (ok (artifact a)) fs' =
      Passing
      × (leb coverage full_coverage ≡ true)
      × (a.coverage_pct ≡ coverage)
      × (a.build_request_id ≡ req.id)
      × (a.sha256 ≡ compute_artifact_sha tc tool_py test_py checked)
      × (a.ethics_verdict_id ≡ none)
      × (a.code_path ≡ tool_path a.sha256)
      × (a.test_path ≡ test_path a.sha256)
      × BothWritten fs'
  Signed (ok (failure f)) fs' = (¬ Passing) × (fs' ≡ fs) × (f.build_request_id ≡ req.id)
  Signed (err x) fs' =
      Passing × (leb coverage full_coverage ≡ false) × (x ≡ validation_error) × BothWritten fs'

  code_written : lookup (tool_path sha) (write_artifact_files sha tool_py test_py fs) ≡ some tool_py
  code_written =
      rw (same_head sha (codes "/test_tool.py") (codes "/tool.py"), beq_refl (tool_path sha)) refl

  test_written : lookup (test_path sha) (write_artifact_files sha tool_py test_py fs) ≡ some test_py
  test_written = rw (beq_refl (test_path sha)) refl

  after_run-Signed :
      (late clean : Bool)
      → is_timeout tc id now run.reason ≡ late
      → eqb_ℤ run.exit_code (pos 0) ≡ clean
      → let (out, fs') = after_run tc id now checked tool_py test_py late clean run fs in
        Signed out fs'
  after_run-Signed true clean l c = (λ p. clash l p.0, refl, escalate_keeps_id tc req tool_py)
  after_run-Signed false false l c = (λ p. clash p.1 c, refl, escalate_keeps_id tc req tool_py)
  after_run-Signed false true l c = validated (validate tc.re run.stdout 0).valid refl
    where
      validated :
          (b : Bool)
          → (validate tc.re run.stdout 0).valid ≡ b
          → let (out, fs') =
              sign_valid tc id now checked tool_py test_py b (validate tc.re run.stdout 0) fs in
            Signed out fs'
      validated false e = (λ p. clash p.2 e, refl, escalate_keeps_id tc req tool_py)
      validated true e = built (leb coverage full_coverage) refl
        where
          built :
              (b : Bool)
              → leb coverage full_coverage ≡ b
              → Signed
                  (artifact_or_raise tc id now b (
                    signed_artifact tc id now checked sha
                      (validate tc.re run.stdout 0).passed_tests
                      coverage))
                  (write_artifact_files sha tool_py test_py fs)
          built true k = (
            (l, c, e),
            k,
            refl,
            escalate_keeps_id tc req tool_py,
            refl,
            refl,
            refl,
            refl,
            (code_written, test_written),
          )
          built false k = ((l, c, e), k, refl, (code_written, test_written))

  -- A run passes if it did not time out, ended with exit code 0 and was accepted by the validator.
  -- A build returns an artifact only after a passing run whose coverage is at most 100; the
  -- artifact carries that coverage, the id of the request and the hash over both files and the
  -- checked request, and no ethics verdict, and its two paths hold the files. It returns a
  -- failure, with the id of the request, only after a run that does not pass, and then writes
  -- nothing. It raises only the ValidationError after a passing run with a coverage above 100, and
  -- then both files are written already.
  pub build-Signed : let (out, fs') = build tc id now req fs in Signed out fs'
  unfolding build
  build-Signed =
      after_run-Signed (is_timeout tc id now run.reason) (eqb_ℤ run.exit_code (pos 0)) refl refl
