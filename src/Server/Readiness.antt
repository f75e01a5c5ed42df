-- ===== src/Server/Readiness.antt =====
-- The readiness route beside the integrity check and the auditor.
use self_spawn_agents.Prelude.{
  ◌≡◌, [], refl, some, Text, text_eq, ok, err, none, Result, Bool-cases, inl, inr,
}
use self_spawn_agents.Prelude.Dict.{lookup}
use self_spawn_agents.Prelude.Json.{JsonLibrary}
use self_spawn_agents.Schemas.Common.{World, Pydantic}
use self_spawn_agents.Schemas.Ethics.{
  EthicsReviewRequest, EthicsVerdict, EthicsDecision, cache_key_eq,
}
use self_spawn_agents.Ethics.{
  Auditor, EthicsService, cache_key, rejected, review_locked, store_verdict,
}
use self_spawn_agents.Ops.Freeze.{Root, read_lock, verify}
use self_spawn_agents.Ops.Freeze.Integrity.{verify_iff}
use self_spawn_agents.Ethics.Ruleset.{
  default_prompt_path, frozen_prompt_hash, review_from_files, review_from_files-review_locked,
}
use self_spawn_agents.Server.{readyz, ready_with}

-- A verdict that is returned bears the hash.
abbrev pub Bears : Text → Result EthicsVerdict × EthicsService → Type 0
Bears h (ok v, s) = v.ruleset_hash ≡ h
Bears h (err x, s) = Unit

module _ (py : Pydantic) (w : World) (js : JsonLibrary) (llm : Auditor) where
  store_verdict-Bears :
      (prompt h : Text) (req : EthicsReviewRequest) (r : Result (EthicsDecision × Text))
      (s : EthicsService)
      → Bears h (store_verdict py w js llm prompt h req r s)
  unfolding store_verdict
  store_verdict-Bears prompt h req (err x) s = tt
  store_verdict-Bears prompt h req (ok (d, rationale)) s =
      elim (Bool-cases (py.max_length 4000 rationale)) [
        | inl short ↦ rw short refl
        | inr long ↦ rw long tt
      ]

  -- While the integrity check finds no drift, a verdict that the auditor returns to a subject
  -- without a cached rejection bears the hash that the lock holds for the frozen prompt, and the
  -- readiness route answers with that hash.
  pub review_from_files-Bears :
      (decode sha256 : Text → Text) (root : Root) (req : EthicsReviewRequest) (s : EthicsService)
      → verify sha256 root ≡ ok []
      → rejected (lookup (cache_key req) s.cache) ≡ none
      → (h : Text) × (lookup default_prompt_path (read_lock sha256 root) ≡ some h)
        × (readyz sha256 root.files ≡ ready_with (ok h))
        × Bears h (review_from_files py w js llm decode sha256 none root.files req s)
  unfolding readyz frozen_prompt_hash review_locked
  review_from_files-Bears decode sha256 root req s clean fresh =
      let ((content, found, locked), others) = (verify_iff sha256 root).0 clean in
      (
        sha256 content,
        locked,
        rw found refl,
        rw
            (
              review_from_files-review_locked py w js llm decode sha256 none root.files content req
                  s found,
              fresh,
            )
            (store_verdict-Bears (decode content) (sha256 content) req _ _),
      )
