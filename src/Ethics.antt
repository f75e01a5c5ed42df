-- ===== src/Ethics.antt =====
-- aae/ethics/auditor.py: the auditor's service, with its cache. The provider and `json.loads` are
-- functions; the frozen prompt and its hash (aae/ethics/ruleset_hash.py) are arguments, what the
-- file holds while the service runs.
pub mod Final
pub mod Sound
pub mod Ruleset
mod Tests
use self_spawn_agents.Prelude.{
  ℕ, zero, suc, ◌-◌, Bool, true, false, ◌&&◌, ◌||◌, not, Option, none, some, List, [], ◌∷◌, ◌++◌,
  Result, ok, err, Action, Exception, if◌then◌else◌, Text, codes, text_eqb, length, ltb, map,
  value_error, validation_error, type_error, attribute_error, ◌+◌, all, any,
}
use self_spawn_agents.Prelude.Dict.{Dict, lookup, insert, elem, keys}
use self_spawn_agents.Prelude.Json.{
  Json, null, boolean, number, string, array, object, JsonFields, fields_of, JsonLibrary,
}
use self_spawn_agents.Prelude.{text_eq}
use self_spawn_agents.Schemas.Common.{Uuid, Time, ModelId, opus_47, World, Pydantic}
use self_spawn_agents.Schemas.Ethics.{
  SubjectType, EthicsReviewRequest, EthicsDecision, EthicsVerdict, CacheKey, cache_key_eq, approve,
  reject, escalate,
}

-- `model`, `system`, `user`
abbrev pub Auditor : Type 0
Auditor = ModelId → Text → Text → Result Text

pub record EthicsService : Type 0 where
  pub cache : Dict CacheKey EthicsVerdict
  -- the payloads that the provider was asked about
  pub asked : List Text
  -- the draws of the clock and of the UUIDs
  pub draws : ℕ

-- `set(data.keys()) == {"decision", "rationale"}`
abbrev pub has_both_keys : Dict Text Json → Bool
has_both_keys d =
    all (λ k. text_eqb k (codes "decision") || text_eqb k (codes "rationale")) (keys d)
    && elem (codes "decision") (keys d)
    && elem (codes "rationale") (keys d)

-- A value looked up in the set of the decisions: one that cannot be hashed raises.
abbrev pub decision_of : Option Json → Result EthicsDecision
decision_of (some (string s)) =
    if text_eqb s (codes "approve")
    then ok approve
    else if text_eqb s (codes "reject")
    then ok reject
    else if text_eqb s (codes "escalate")
    then ok escalate
    else err value_error
decision_of (some (array xs)) = err type_error
decision_of (some (object fs)) = err type_error
decision_of _ = err value_error

abbrev pub blanks : ℕ → Text
blanks zero = []
blanks (suc n) = 32 ∷ blanks n

-- `rationale + " " * (50 - len(rationale))`, if it is shorter than 50.
unfoldable pub padded : Text → Text
padded s = if ltb (length s) 50 then s ++ blanks (50 - length s) else s

abbrev pub text_of : JsonLibrary → Option Json → Text
text_of js none = []
text_of js (some v) = js.str v

abbrev pub with_rationale : Text → Result EthicsDecision → Result (EthicsDecision × Text)
with_rationale s (err x) = err x
with_rationale s (ok d) = ok (d, padded s)

abbrev pub verdict_fields : JsonLibrary → Option Json → Result (EthicsDecision × Text)
verdict_fields js none = err value_error
verdict_fields js (some (object fs)) =
    let data_ = fields_of fs in
    if has_both_keys data_
    then with_rationale (text_of js (lookup (codes "rationale") data_))
        (decision_of (lookup (codes "decision") data_))
    else err value_error
verdict_fields js (some _) = err attribute_error

-- `_parse_verdict_json`
unfoldable pub parse_verdict_json : JsonLibrary → Text → Result (EthicsDecision × Text)
parse_verdict_json js raw = verdict_fields js (js.loads raw)

abbrev pub cache_key : EthicsReviewRequest → CacheKey
cache_key req = (req.subject_type, req.subject_id)

-- The cached verdict, if it is a rejection.
abbrev pub rejected : Option EthicsVerdict → Option EthicsVerdict
rejected none = none
rejected (some v) = if_reject v.decision
  where
    if_reject : EthicsDecision → Option EthicsVerdict
    if_reject reject = some v
    if_reject approve = none
    if_reject escalate = none

module _ (py : Pydantic) (w : World) (js : JsonLibrary) (llm : Auditor)
    (prompt ruleset_hash : Text) where
  abbrev pub new_verdict : EthicsReviewRequest → EthicsDecision → Text → ℕ → EthicsVerdict
  new_verdict req d rationale n = record {
    id = w.uuid4 n;
    request_id = req.id;
    decision = d;
    rationale = rationale;
    ruleset_hash = ruleset_hash;
    model_used = opus_47;
    decided_at = w.utc_now n;
  }

  -- From the parsed answer on: the verdict's own checks, then the cache.
  unfoldable pub store_verdict :
      EthicsReviewRequest → Result (EthicsDecision × Text) → Action EthicsService EthicsVerdict
  store_verdict req (err x) s = (err x, s)
  store_verdict req (ok (d, rationale)) s =
      let v = new_verdict req d rationale s.draws in
      if py.max_length 4000 rationale
      then (
        ok v,
        record { cache = insert (cache_key req) v s.cache; asked = s.asked; draws = suc s.draws },
      )
      else (err validation_error, record s { draws = suc s.draws })

  abbrev pub parsed : Result Text → Result (EthicsDecision × Text)
  parsed (err x) = err x
  parsed (ok raw) = parse_verdict_json js raw

  -- The question put to the provider, and what follows from its answer.
  abbrev pub ask : EthicsReviewRequest → Action EthicsService EthicsVerdict
  ask req s =
      store_verdict req (parsed (llm opus_47 prompt req.payload_json))
        (record s { asked = s.asked ++ req.payload_json ∷ [] })

  abbrev pub answer_or_ask :
      Option EthicsVerdict → EthicsReviewRequest → Action EthicsService EthicsVerdict
  answer_or_ask (some v) req s = (ok v, s)
  answer_or_ask none req s = ask req s

  -- What runs under the lock: no other review's section comes between.
  unfoldable pub review_locked : EthicsReviewRequest → Action EthicsService EthicsVerdict
  review_locked req s = answer_or_ask (rejected (lookup (cache_key req) s.cache)) req s

  -- What a review does in its turn: first the test without the lock, then, once it has the lock,
  -- the section.
  pub data Turn : Type 0 where
    first_look in_lock : EthicsReviewRequest → Turn

  unfoldable pub turn : Turn → EthicsService → Option (Result EthicsVerdict) × EthicsService
  turn (first_look req) s = (looked (rejected (lookup (cache_key req) s.cache)), s)
    where
      looked : Option EthicsVerdict → Option (Result EthicsVerdict)
      looked none = none
      looked (some v) = some (ok v)
  turn (in_lock req) s = let (r, s') = review_locked req s in (some r, s')

  -- The turns of any number of reviews, in the order in which they come.
  unfoldable pub turns : List Turn → EthicsService → EthicsService
  turns [] s = s
  turns (t ∷ ts) s = turns ts (turn t s).1

  -- `review` of a task that is not interrupted.
  unfoldable pub review : EthicsReviewRequest → Action EthicsService EthicsVerdict
  review req s = from_look (rejected (lookup (cache_key req) s.cache))
    where
      from_look : Option EthicsVerdict → Result EthicsVerdict × EthicsService
      from_look (some v) = (ok v, s)
      from_look none = review_locked req s
