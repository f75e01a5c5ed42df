-- ===== src/Ethics/Tests.antt =====
-- The auditor at a concrete subject.
use self_spawn_agents.Prelude.{ℕ, ◌≡◌, refl, some, [], ◌∷◌, ok, Text, codes, arith}
use self_spawn_agents.Schemas.Ethics.{
  EthicsReviewRequest, EthicsVerdict, vertical_proposal, cache_key_eq,
}
use self_spawn_agents.Schemas.Samples.{checker, world}
use self_spawn_agents.Prelude.Json.{Json, JsonLibrary, object, field, no_fields, string}
use self_spawn_agents.Ethics.{
  Auditor, EthicsService, cache_key, review_locked, review, first_look, in_lock, turns,
  parse_verdict_json, padded, store_verdict,
}
use self_spawn_agents.Ethics.Final.{RejectedBy, rejection_is_final}
use self_spawn_agents.Ethics.Sound.{CacheIsSound, Reviewed, review_locked-Reviewed}

abbrev no_text : Json → Text
no_text v = []

-- A library that reads every text as one answer.
abbrev library : JsonLibrary
library = record {
  loads = λ raw. some (
      object
        (field (codes "decision") (string raw) (field (codes "rationale") (string []) no_fields)));
  str = no_text;
}

abbrev auditor : Auditor
auditor model system user = ok (codes "reject")

abbrev request : ℕ → EthicsReviewRequest
request n = record {
  id = n;
  subject_type = vertical_proposal;
  subject_id = n;
  payload_json = codes "{}";
  created_at = 0;
}

abbrev new_service : EthicsService
new_service = record { cache = []; asked = []; draws = 0 }

abbrev after_reject : EthicsService
after_reject = (review_locked checker world library auditor [] [] (request 4) new_service).1

rejection : (v : EthicsVerdict) × RejectedBy (cache_key (request 4)) v after_reject
unfolding review_locked store_verdict parse_verdict_json padded
rejection = (_, (refl, refl))

rejection_is_final_example :
    let s' =
      turns checker world library auditor [] []
        (in_lock (request 5) ∷ first_look (request 4) ∷ in_lock (request 4) ∷ [])
        after_reject in
    review checker world library auditor [] [] (request 4) s' ≡ (ok rejection.0, s')
rejection_is_final_example =
    rejection_is_final checker world library auditor [] []
      (in_lock (request 5) ∷ first_look (request 4) ∷ in_lock (request 4) ∷ []) after_reject
      (request 4) rejection.0 rejection.1

none_cached : CacheIsSound checker world library auditor [] [] new_service
none_cached k v found = ground (arith, found)

review_locked-Reviewed_example :
    Reviewed checker world library auditor [] []
      (review_locked checker world library auditor [] [] (request 4) new_service)
review_locked-Reviewed_example =
    review_locked-Reviewed checker world library auditor [] [] (request 4) new_service none_cached
