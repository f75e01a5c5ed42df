-- ===== src/Tools.antt =====
-- aae/tools/registry.py and aae/tools/runtime.py: the registry of tools by their hash, and the call
-- of a registered tool. The file system, the loaded module and the host of a URL are functions; a
-- `datetime.now` is an argument.
pub mod Standing
pub mod Domains
mod Tests
use self_spawn_agents.Prelude.{
  ℕ, Bool, true, false, ◌&&◌, ◌||◌, ◌==◌, not, Option, none, some, List, [], ◌∷◌, ◌++◌, Result, ok,
  err, Action, if◌then◌else◌, Text, text_eqb, any, tool_policy_error, domain_not_allowed, text_eq,
}
use self_spawn_agents.Prelude.Dict.{Dict, lookup, insert}
use self_spawn_agents.Schemas.Common.{Uuid, Time}
use self_spawn_agents.Schemas.Build.{RiskTier, low, medium, high, BuildRequest, ToolArtifact}

pub data ToolStatus : Type 0 where
  registered retired : ToolStatus

pub record RegisteredTool : Type 0 where
  pub sha256 : Text
  pub name : Text
  pub risk_tier : RiskTier
  pub code_path : Text
  pub test_path : Text
  pub build_request_id : Uuid
  pub ethics_verdict_id : Option Uuid
  pub allowed_domains : List Text
  pub registered_at : Time
  pub status : ToolStatus
  pub retired_at : Option Time

pub record ToolRegistry : Type 0 where
  pub by_sha : Dict Text RegisteredTool

-- `risk_tier == "high" and ethics_verdict_id is None`
abbrev pub lacks_verdict : RiskTier → Option Uuid → Bool
lacks_verdict high none = true
lacks_verdict _ _ = false

abbrev pub new_tool : ToolArtifact → BuildRequest → Time → RegisteredTool
new_tool artifact req now = record {
  sha256 = artifact.sha256;
  name = req.tool_name;
  risk_tier = req.risk_tier;
  code_path = artifact.code_path;
  test_path = artifact.test_path;
  build_request_id = req.id;
  ethics_verdict_id = artifact.ethics_verdict_id;
  allowed_domains = req.allowed_domains;
  registered_at = now;
  status = registered;
  retired_at = none;
}

-- The two tests of a registration, by what they say, and what follows.
abbrev pub admit :
    Bool → Bool → ToolArtifact → BuildRequest → Time → Action ToolRegistry RegisteredTool
admit true lacks artifact req now s = (err tool_policy_error, s)
admit false true artifact req now s = (err tool_policy_error, s)
admit false false artifact req now s = (
  ok (new_tool artifact req now),
  record { by_sha = insert artifact.sha256 (new_tool artifact req now) s.by_sha },
)

unfoldable pub register : ToolArtifact → BuildRequest → Time → Action ToolRegistry RegisteredTool
register artifact req now =
    admit (not (artifact.build_request_id == req.id))
      (lacks_verdict req.risk_tier artifact.ethics_verdict_id) artifact req now

abbrev pub found_tool : Option RegisteredTool → Result RegisteredTool
found_tool none = err tool_policy_error
found_tool (some t) = ok t

unfoldable pub get : Text → ToolRegistry → Result RegisteredTool
get sha s = found_tool (lookup sha s.by_sha)

abbrev pub retired_tool : RegisteredTool → Time → RegisteredTool
retired_tool t now = record t { status = retired; retired_at = some now }

abbrev pub retire_found : Text → Time → Result RegisteredTool → Action ToolRegistry RegisteredTool
retire_found sha now (err x) s = (err x, s)
retire_found sha now (ok t) s =
    (ok (retired_tool t now), record { by_sha = insert sha (retired_tool t now) s.by_sha })

unfoldable pub retire : Text → Time → Action ToolRegistry RegisteredTool
retire sha now s = retire_found sha now (get sha s) s

-- `t.endswith(s)`
abbrev pub ends_with : Text → Text → Bool
ends_with s [] = text_eqb [] s
ends_with s (c ∷ t) = text_eqb (c ∷ t) s || ends_with s t

abbrev pub in_domain : Text → Text → Bool
in_domain host d = text_eqb host d || ends_with (46 ∷ d) host

-- `enforce_domain` from the host on, the empty text if the URL has none.
unfoldable pub enforce_host : Text → List Text → Result (Unit {0})
enforce_host host allowed =
    if not (text_eqb host []) && not (any (in_domain host) allowed)
    then err domain_not_allowed
    else ok tt

abbrev pub host_or : Option Text → Text
host_or none = []
host_or (some h) = h

-- `hostname` is `urlparse(url).hostname`.
unfoldable pub enforce_domain : (Text → Option Text) → Text → List Text → Result (Unit {0})
enforce_domain hostname url allowed = enforce_host (host_or (hostname url)) allowed

-- What the runtime finds outside the program, for payloads and outputs of any type.
pub record Platform {ℓ} (P O : Type ℓ) : Type ℓ where
  pub exists : Text → Bool
  -- the loaded module's `run`, if it has one, or what loading raises
  pub load_module : Text → Text → Result (Option (P → Result O))

module _ {ℓ} {P O : Type ℓ} (os : Platform P O) (payload : P) where
  abbrev pub run_module : Result (Option (P → Result O)) → Result O
  run_module (err x) = err x
  run_module (ok none) = err tool_policy_error
  run_module (ok (some run)) = run payload

  abbrev pub unless_retired : ToolStatus → RegisteredTool → Result O
  unless_retired retired t = err tool_policy_error
  unless_retired registered t =
      if os.exists t.code_path
      then run_module (os.load_module t.sha256 t.code_path)
      else err tool_policy_error

  abbrev pub invoke_found : Result RegisteredTool → Result O
  invoke_found (err x) = err x
  invoke_found (ok t) = unless_retired t.status t

  -- `invoke`, without the time that it measures.
  unfoldable pub invoke : Text → ToolRegistry → Result O
  invoke sha s = invoke_found (get sha s)
