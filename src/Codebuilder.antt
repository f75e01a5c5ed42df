-- ===== src/Codebuilder.antt =====
-- aae/codebuilder: the code builder. Jinja's rendering, SHA-256, the canonical dump of a request,
-- the matches of the validator's regular expressions and the sandbox's process are functions.
pub mod Escalation
pub mod Signing
pub mod Docker
mod Tests
use self_spawn_agents.Prelude.{
  ℕ, suc, ◌+◌, Bool, true, false, ◌&&◌, ◌||◌, ◌==◌, not, Option, none, some, List, [], ◌∷◌, ◌++◌,
  Result, ok, err, Action, validation_error, if◌then◌else◌, Text, codes, text_eqb, any, leb, ltb,
  length, text_eq, is_some,
}
use self_spawn_agents.Prelude.Int.{ℤ, pos, eqb_ℤ}
use self_spawn_agents.Prelude.Dict.{Dict, lookup, contains}
use self_spawn_agents.Schemas.Common.{Uuid, Time}
use self_spawn_agents.Schemas.Build.{
  RiskTier, low, medium, high, BuildRequest, ToolArtifact, full_coverage,
}
use self_spawn_agents.Prelude.Json.{
  Json, null, boolean, number, string, array, object, JsonList, empty, item, fields_of, JsonLibrary,
}

pub data SandboxReason : Type 0 where
  fine timeout oom network_blocked error : SandboxReason

pub record SandboxResult : Type 0 where
  pub exit_code : ℤ
  pub stdout : Text
  pub stderr : Text
  pub reason : SandboxReason

-- How `subprocess.run` ends.
pub data ProcessEnd : Type 0 where
  completed : ℤ → Text → Text → ProcessEnd
  timed_out : Text → ProcessEnd

-- `proc.returncode in (124, 137)`
abbrev pub reason_of : ℤ → SandboxReason
reason_of code =
    if eqb_ℤ code (pos 124) || eqb_ℤ code (pos 137)
    then timeout
    else if eqb_ℤ code (pos 0)
    then fine
    else error

-- `DockerSandboxRunner.run` from the end of the process on.
unfoldable pub sandbox_result : ProcessEnd → SandboxResult
sandbox_result (completed code out errors) = record {
  exit_code = code;
  stdout = out;
  stderr = errors;
  reason = reason_of code;
}
sandbox_result (timed_out out) = record {
  exit_code = pos 124;
  stdout = out;
  stderr = codes "host-level timeout";
  reason = timeout;
}

-- What the patterns of the validator find in a text: the ids of the lines that passed, the two
-- counts, and the coverage as a multiple of 2 ^ -1074.
pub record Patterns : Type 0 where
  pub passed_re : Text → List Text
  pub summary_ok_re : Text → Option ℕ
  pub summary_fail_re : Text → Option ℕ
  pub coverage_re : Text → Option ℕ
  -- `f"test_{i+1}"`
  pub test_name : ℕ → Text

pub record ValidationResult : Type 0 where
  pub valid : Bool
  pub passed_tests : List Text
  pub failed_tests : ℕ
  pub coverage_pct : ℕ

abbrev pub count_or : ℕ → Option ℕ → ℕ
count_or n none = n
count_or n (some m) = m

-- `range(passed_ct)` as names.
abbrev names_from : Patterns → ℕ → ℕ → List Text
names_from re i Prim.Native.Nat.zero = []
names_from re i (suc n) = re.test_name (i + 1) ∷ names_from re (i + 1) n

abbrev ids_or : Patterns → ℕ → List Text → List Text
ids_or re n [] = names_from re 0 n
ids_or re n (i ∷ is) = i ∷ is

unfoldable pub validate : Patterns → Text → ℕ → ValidationResult
validate re stdout min_coverage =
    let passed_ids = re.passed_re stdout in
    let passed_ct = count_or (length passed_ids) (re.summary_ok_re stdout) in
    let fail_ct = count_or 0 (re.summary_fail_re stdout) in
    let cov = count_or 0 (re.coverage_re stdout) in
    record {
      valid = (fail_ct == 0) && ltb 0 passed_ct && leb min_coverage cov;
      passed_tests = ids_or re passed_ct passed_ids;
      failed_tests = fail_ct;
      coverage_pct = cov;
    }

-- `t.startswith(s)` and `s in t`
abbrev pub starts_with : Text → Text → Bool
starts_with [] t = true
starts_with (c ∷ s) [] = false
starts_with (c ∷ s) (d ∷ t) = (c == d) && starts_with s t

abbrev pub is_part : Text → Text → Bool
is_part s [] = starts_with s []
is_part s (c ∷ t) = starts_with s (c ∷ t) || is_part s t

abbrev pub forbidden_imports : List Text
forbidden_imports =
    codes "subprocess" ∷ codes "os.system" ∷ codes "socket" ∷ codes "ctypes" ∷ codes "pickle" ∷ []

abbrev pub pii_fields : List Text
pii_fields = codes "email" ∷ codes "ssn" ∷ codes "passport" ∷ codes "dob" ∷ codes "address" ∷ []

unfoldable pub has_forbidden_import : Text → Bool
has_forbidden_import src =
    any (λ m. is_part (codes "import " ++ m) src || is_part (codes "from " ++ m) src)
      forbidden_imports

abbrev is_item : Text → JsonList → Bool
is_item p empty = false
is_item p (item (string s) xs) = text_eqb s p || is_item p xs
is_item p (item _ xs) = is_item p xs

-- `p in props`; where it raises, the exception is dropped and nothing is flagged.
abbrev pub is_property : Json → Text → Bool
is_property (object fs) p = contains p (fields_of fs)
is_property (array xs) p = is_item p xs
is_property (string s) p = is_part p s
is_property _ p = false

abbrev properties_flag : Option Json → Bool
properties_flag none = false
properties_flag (some props) = any (is_property props) pii_fields

abbrev schema_flag : Option Json → Bool
schema_flag (some (object fs)) = properties_flag (lookup (codes "properties") (fields_of fs))
schema_flag _ = false

unfoldable pub has_pii_field : JsonLibrary → Text → Bool
has_pii_field js schema_json = schema_flag (js.loads schema_json)

abbrev no_domains : List Text → Bool
no_domains [] = true
no_domains (d ∷ ds) = false

-- `reasons` is not empty.
unfoldable pub is_flagged : JsonLibrary → BuildRequest → Text → Bool
is_flagged js req src =
    has_forbidden_import src
    || has_pii_field js req.input_schema_json
    || (req.network_required && no_domains req.allowed_domains)

abbrev pub escalated : BuildRequest → BuildRequest
escalated req = record req { risk_tier = high }

abbrev pub is_high : RiskTier → Bool
is_high high = true
is_high _ = false

unfoldable pub policy_escalate : JsonLibrary → BuildRequest → Text → BuildRequest
policy_escalate js req src =
    if is_flagged js req src && not (is_high req.risk_tier) then escalated req else req

-- The libraries that the builder calls.
pub record Toolchain : Type 0 where
  pub js : JsonLibrary
  pub re : Patterns
  -- the two templates
  pub render : BuildRequest → Text × Text
  -- `canonical_dumps(build_request.model_dump(mode="json"))`
  pub dump : BuildRequest → Text
  pub sha256 : Text → Text
  -- the sandbox on the two files, with the limit of seconds
  pub sandbox : Text → Text → ℕ → ProcessEnd

unfoldable pub compute_artifact_sha : Toolchain → Text → Text → BuildRequest → Text
compute_artifact_sha tc tool_py test_py req = tc.sha256 (tool_py ++ test_py ++ tc.dump req)

pub data FailureReason : Type 0 where
  tests_failed sandbox_timeout policy_violation schema_invalid : FailureReason
  coverage_below_threshold lint_failed : FailureReason

-- `attempts` is 1 in every failure; the detail is left out.
pub record BuildFailure : Type 0 where
  pub build_request_id : Uuid
  pub reason : FailureReason

pub data BuildOutcome : Type 0 where
  artifact : ToolArtifact → BuildOutcome
  failure : BuildFailure → BuildOutcome

-- The files under the target root, the last write first: path, content.
abbrev pub Files : Type 0
Files = List (Text × Text)

abbrev pub failed : BuildRequest → FailureReason → BuildOutcome
failed req reason = failure (record { build_request_id = req.id; reason = reason })

abbrev pub tool_path : Text → Text
tool_path sha = sha ++ codes "/tool.py"

abbrev pub test_path : Text → Text
test_path sha = sha ++ codes "/test_tool.py"

abbrev pub write_artifact_files : Text → Text → Text → Files → Files
write_artifact_files sha tool_py test_py fs =
    (test_path sha, test_py) ∷ (tool_path sha, tool_py) ∷ fs

module _ (tc : Toolchain) (id : Uuid) (now : Time) where
  abbrev pub signed_artifact : BuildRequest → Text → List Text → ℕ → ToolArtifact
  signed_artifact req sha passed coverage = record {
    id = id;
    build_request_id = req.id;
    sha256 = sha;
    code_path = tool_path sha;
    test_path = test_path sha;
    passed_tests = passed;
    coverage_pct = coverage;
    signed_at = now;
    ethics_verdict_id = none;
  }

  -- The failure of a run that is no timeout and whose tests are not valid.
  abbrev pub invalid_reason : ℕ → FailureReason
  invalid_reason failed_tests =
      if ltb 0 failed_tests then tests_failed else coverage_below_threshold

  -- `ToolArtifact(...)`, whose schema bounds the coverage.
  abbrev pub artifact_or_raise : Bool → ToolArtifact → Result BuildOutcome
  artifact_or_raise true a = ok (artifact a)
  artifact_or_raise false a = err validation_error

  -- From the validation on. The files are written before the artifact is built.
  abbrev pub sign_valid :
      BuildRequest → Text → Text → Bool → ValidationResult → Action Files BuildOutcome
  sign_valid req tool_py test_py false v fs = (ok (failed req (invalid_reason v.failed_tests)), fs)
  sign_valid req tool_py test_py true v fs =
      let sha = compute_artifact_sha tc tool_py test_py req in
      (
        artifact_or_raise (leb v.coverage_pct full_coverage)
            (signed_artifact req sha v.passed_tests v.coverage_pct),
        write_artifact_files sha tool_py test_py fs,
      )

  abbrev pub is_timeout : SandboxReason → Bool
  is_timeout timeout = true
  is_timeout _ = false

  -- From the sandbox's result on: whether it is a timeout, whether the exit code is 0.
  abbrev pub after_run :
      BuildRequest → Text → Text → Bool → Bool → SandboxResult → Action Files BuildOutcome
  after_run req tool_py test_py true clean r fs = (ok (failed req sandbox_timeout), fs)
  after_run req tool_py test_py false false r fs = (ok (failed req tests_failed), fs)
  after_run req tool_py test_py false true r fs =
      let v = validate tc.re r.stdout 0 in sign_valid req tool_py test_py v.valid v fs

  abbrev pub run_sandbox : BuildRequest → Text → Text → SandboxResult
  run_sandbox req tool_py test_py = sandbox_result (tc.sandbox tool_py test_py req.max_wall_seconds)

  unfoldable pub build : BuildRequest → Action Files BuildOutcome
  build req fs =
      let (tool_py, test_py) = tc.render req in
      let checked = policy_escalate tc.js req tool_py in
      let r = run_sandbox checked tool_py test_py in
      after_run checked tool_py test_py (is_timeout r.reason) (eqb_ℤ r.exit_code (pos 0)) r fs
