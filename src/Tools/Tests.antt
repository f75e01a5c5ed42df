-- ===== src/Tools/Tests.antt =====
-- The registry and the guard at concrete inputs.
use self_spawn_agents.Prelude.{
  ℕ, ◌≡◌, refl, true, some, none, List, [], ◌∷◌, ok, err, Text, codes, text_eq, tool_policy_error,
}
use self_spawn_agents.Prelude.Dict.{lookup}
use self_spawn_agents.Schemas.Common.{mother}
use self_spawn_agents.Schemas.Build.{BuildRequest, ToolArtifact, high, low, RiskTier}
use self_spawn_agents.Tools.{
  RegisteredTool, ToolRegistry, registered, Platform, invoke, register, retire, get,
}
use self_spawn_agents.Tools.Standing.{
  Request, registering, retiring, apply_request, run_requests, no_tools, Vetted, IsRetired,
  retired_is_not_invoked, invoked_is_Vetted,
}

abbrev request : RiskTier → BuildRequest
request risk = record {
  id = 5;
  requested_by = mother;
  purpose = codes "fetch prices";
  tool_name = codes "fetch";
  input_schema_json = [];
  output_schema_json = [];
  network_required = true;
  allowed_domains = codes "example.com" ∷ [];
  risk_tier = risk;
  max_wall_seconds = 300;
  created_at = 1;
}

abbrev artifact : Text → ToolArtifact
artifact sha = record {
  id = 6;
  build_request_id = 5;
  sha256 = sha;
  code_path = codes "tool.py";
  test_path = codes "test_tool.py";
  passed_tests = [];
  coverage_pct = 0;
  signed_at = 2;
  ethics_verdict_id = none;
}

abbrev platform : Platform ℕ ℕ
platform = record { exists = λ p. true; load_module = λ sha p. ok (some (λ n. ok n)) }

abbrev requests : List Request
requests = registering (artifact (codes "ab")) (request low) 9 ∷ []

abbrev after_retirement : ToolRegistry
after_retirement = run_requests (retiring (codes "ab") 10 ∷ []) (run_requests requests no_tools)

gone : IsRetired (codes "ab") after_retirement
unfolding run_requests apply_request register retire get
gone = (_, refl, refl)

retired_is_not_invoked_example :
    invoke platform 3
      (codes "ab")
      (run_requests (registering (artifact (codes "cd")) (request low) 11 ∷ []) after_retirement)
    ≡ err tool_policy_error
retired_is_not_invoked_example =
    retired_is_not_invoked platform 3 (codes "ab")
      (registering (artifact (codes "cd")) (request low) 11 ∷ []) after_retirement (refl, tt) gone

-- Registering the same artifact again revives the tool.
revived : invoke platform 3 (codes "ab") (run_requests requests after_retirement) ≡ ok 3
unfolding invoke get run_requests apply_request register retire
revived = refl

runs : invoke platform 3 (codes "ab") (run_requests requests no_tools) ≡ ok 3
unfolding invoke get run_requests apply_request register
runs = refl

invoked_is_Vetted_example :
    (t : RegisteredTool) × (lookup (codes "ab") (run_requests requests no_tools).by_sha ≡ some t)
    × (t.status ≡ registered)
    × Vetted (codes "ab") t
invoked_is_Vetted_example = invoked_is_Vetted platform 3 (codes "ab") requests 3 runs

unvetted : (register (artifact (codes "ab")) (request high) 9 no_tools).0 ≡ err tool_policy_error
unfolding register
unvetted = refl
