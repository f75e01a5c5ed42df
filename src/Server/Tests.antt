-- ===== src/Server/Tests.antt =====
-- The readiness route at a concrete root.
use self_spawn_agents.Prelude.{◌≡◌, [], refl, some, none, Text, codes, text_eq, map, take, ok}
use self_spawn_agents.Prelude.Dict.{lookup}
use self_spawn_agents.Ops.Freeze.{
  Root, frozen_paths, freeze, verify, read_lock, compute_hashes, hashes_of,
}
use self_spawn_agents.Prelude.Json.{Json, JsonLibrary, object, field, no_fields, string}
use self_spawn_agents.Schemas.Samples.{checker, world}
use self_spawn_agents.Schemas.Ethics.{EthicsReviewRequest, vertical_proposal}
use self_spawn_agents.Ethics.{Auditor, EthicsService}
use self_spawn_agents.Ethics.Ruleset.{default_prompt_path, review_from_files}
use self_spawn_agents.Server.{readyz, ready_with}
use self_spawn_agents.Server.Readiness.{Bears, review_from_files-Bears}

abbrev digest : Text → Text
digest s = take 2 s

abbrev frozen : Root
frozen =
    (freeze digest (record { files = map (λ p. (p, codes "x = 1")) frozen_paths; lock = none })).1

frozen_is_clean : verify digest frozen ≡ ok []
unfolding freeze verify compute_hashes hashes_of read_lock
frozen_is_clean = refl

abbrev no_text : Json → Text
no_text v = []

-- A library that reads every text as an approval.
abbrev library : JsonLibrary
library = record {
  loads = λ raw. some (
      object (
        field (codes "decision") (string (codes "approve"))
          (field (codes "rationale") (string raw) no_fields)));
  str = no_text;
}

abbrev auditor : Auditor
auditor model system user = ok system

abbrev request : EthicsReviewRequest
request = record {
  id = 1;
  subject_type = vertical_proposal;
  subject_id = 2;
  payload_json = codes "{}";
  created_at = 0;
}

abbrev service : EthicsService
service = record { cache = []; asked = []; draws = 0 }

review_from_files-Bears_example :
    (h : Text) × (lookup default_prompt_path (read_lock digest frozen) ≡ some h)
    × (readyz digest frozen.files ≡ ready_with (ok h))
    × Bears h (
        review_from_files checker world library auditor digest digest none frozen.files request
          service)
review_from_files-Bears_example =
    review_from_files-Bears checker world library auditor digest digest frozen request service
      frozen_is_clean refl
