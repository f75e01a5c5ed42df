-- ===== src/Codebuilder/Tests.antt =====
-- The builder at a concrete request.
use self_spawn_agents.Prelude.{
  ◌≡◌, refl, true, false, some, none, [], ◌∷◌, ok, err, codes, take, tool_policy_error,
}
use self_spawn_agents.Prelude.Int.{pos}
use self_spawn_agents.Schemas.Common.{mother}
use self_spawn_agents.Schemas.Build.{BuildRequest, ToolArtifact, low}
use self_spawn_agents.Prelude.Json.{JsonLibrary}
use self_spawn_agents.Codebuilder.{
  Toolchain, Patterns, completed, artifact, build, policy_escalate, validate, sandbox_result,
  is_flagged, escalated, has_forbidden_import, compute_artifact_sha, signed_artifact,
}
use self_spawn_agents.Codebuilder.Signing.{Signed, build-Signed}
use self_spawn_agents.Codebuilder.Escalation.{escalation_is_lost}
use self_spawn_agents.Tools.{register, new_tool}
use self_spawn_agents.Tools.Standing.{no_tools}

abbrev request : BuildRequest
request = record {
  id = 5;
  requested_by = mother;
  purpose = codes "fetch prices";
  tool_name = codes "fetch";
  input_schema_json = [];
  output_schema_json = [];
  network_required = false;
  allowed_domains = [];
  risk_tier = low;
  max_wall_seconds = 300;
  created_at = 1;
}

abbrev patterns : Patterns
patterns = record {
  passed_re = λ s. [];
  summary_ok_re = λ s. some 1;
  summary_fail_re = λ s. none;
  coverage_re = λ s. none;
  test_name = λ i. codes "test_1";
}

abbrev libraries : JsonLibrary
libraries = record { loads = λ s. none; str = λ v. [] }

-- A template that opens a socket, and a sandbox in which its test passes.
abbrev toolchain : Toolchain
toolchain = record {
  js = libraries;
  re = patterns;
  render = λ req. (codes "import socket", codes "assert 1");
  dump = λ req. codes "{}";
  sha256 = λ s. take 8 s;
  sandbox = λ tool test limit. completed (pos 0) (codes "1 passed") [];
}

build-Signed_example :
    let (out, fs') = build toolchain 1 2 request [] in Signed toolchain 1 2 request [] out fs'
build-Signed_example = build-Signed toolchain 1 2 request []

abbrev built_artifact : ToolArtifact
built_artifact =
    signed_artifact toolchain 1 2 (escalated request) (codes "import s") (codes "test_1" ∷ []) 0

built : (build toolchain 1 2 request []).0 ≡ ok (artifact built_artifact)
unfolding build policy_escalate is_flagged has_forbidden_import sandbox_result validate
    compute_artifact_sha
built = refl

flagged : is_flagged libraries request (codes "import socket") ≡ true
unfolding is_flagged has_forbidden_import
flagged = refl

escalation_is_lost_example :
    (built_artifact.sha256
      ≡ compute_artifact_sha toolchain
          (codes "import socket")
          (codes "assert 1")
          (escalated request))
    × ((register built_artifact request 3 no_tools).0 ≡ ok (new_tool built_artifact request 3))
    × ((register built_artifact (escalated request) 3 no_tools).0 ≡ err tool_policy_error)
escalation_is_lost_example =
    escalation_is_lost toolchain 1 2 request [] built_artifact 3 no_tools flagged refl built
