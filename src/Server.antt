-- ===== src/Server.antt =====
-- aae/server/app.py and aae/server/routes/health.py: the routes that say how the server is. An
-- answer is the dictionary that FastAPI sends as JSON; `isoformat` is a function.
pub mod Readiness
mod Tests
use self_spawn_agents.Prelude.{none, List, [], ◌∷◌, Text, codes, Result, ok, err}
use self_spawn_agents.Prelude.Dict.{Dict}
use self_spawn_agents.Schemas.Common.{Time}
use self_spawn_agents.Ethics.Ruleset.{frozen_prompt_hash}

unfoldable pub healthz : (Time → Text) → Time → Dict Text Text
healthz isoformat clock = (codes "status", codes "ok") ∷ (codes "time", isoformat clock) ∷ []

abbrev pub ready_with : Result Text → Result (Dict Text Text)
ready_with (err x) = err x
ready_with (ok h) = ok ((codes "status", codes "ready") ∷ (codes "ethics_prompt_sha256", h) ∷ [])

unfoldable pub readyz : (Text → Text) → Dict Text Text → Result (Dict Text Text)
readyz sha256 files = ready_with (frozen_prompt_hash sha256 none files)

-- The routers of `create_app`, in their order.
pub data Router : Type 0 where
  health_router webhooks_router : Router

abbrev pub create_app : List Router
create_app = health_router ∷ webhooks_router ∷ []
