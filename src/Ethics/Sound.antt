-- ===== src/Ethics/Sound.antt =====
-- What every verdict of the service satisfies.
use self_spawn_agents.Prelude.{
  ℕ, ◌⊎◌, suc, ◌-◌, ◌≤◌, ◌≡◌, refl, sym, subst, ap, ◌∙◌, Bool, true, false, Option, none, some,
  Result, ok, err, if◌then◌else◌, Text, arith, Bool-cases, inl, inr, length, length-append, ltb,
  ltb→lt, zero,
}
use self_spawn_agents.Prelude.Dict.{lookup, insert, lookup-insert}
use mathlib.Core.Option.{some-injective}
use self_spawn_agents.Prelude.{text_eq}
use self_spawn_agents.Schemas.Common.{World, Pydantic, opus_47}
use self_spawn_agents.Schemas.Ethics.{
  EthicsReviewRequest, EthicsDecision, EthicsVerdict, CacheKey, cache_key_eq, reject, approve,
  escalate,
}
use self_spawn_agents.Prelude.Json.{
  JsonLibrary, Json, fields_of, object, null, boolean, number, string, array,
}
use self_spawn_agents.Ethics.{
  Auditor, EthicsService, cache_key, rejected, store_verdict, new_verdict, ask, answer_or_ask,
  review_locked, parsed, parse_verdict_json, verdict_fields, with_rationale, padded, blanks,
  has_both_keys,
}

length-blanks : (n : ℕ) → length (blanks n) ≡ n
length-blanks zero = refl
length-blanks (suc n) = ap suc (length-blanks n)

padded-length : (s : Text) → 50 ≤ length (padded s)
unfolding padded
padded-length s = elim (Bool-cases (ltb (length s) 50)) [
  | inl short ↦
      let less = ltb→lt (length s) 50 short in
      rw short (
        omega
          (arith, less, length-append s (blanks (50 - length s)), length-blanks (50 - length s)))
  | inr long ↦ rw long (ground (arith, long))
]

-- A parsed rationale has at least 50 characters.
abbrev LongEnough : Result (EthicsDecision × Text) → Type 0
LongEnough (err x) = Unit
LongEnough (ok (d, s)) = 50 ≤ length s

with_rationale-LongEnough : (s : Text) (r : Result EthicsDecision) → LongEnough (with_rationale s r)
with_rationale-LongEnough s (err x) = tt
with_rationale-LongEnough s (ok d) = padded-length s

parse-LongEnough : (js : JsonLibrary) (raw : Text) → LongEnough (parse_verdict_json js raw)
unfolding parse_verdict_json
parse-LongEnough js raw = of_value (js.loads raw)
  where
    of_value : (o : Option Json) → LongEnough (verdict_fields js o)
    of_value none = tt
    of_value (some null) = tt
    of_value (some (boolean b)) = tt
    of_value (some (number n)) = tt
    of_value (some (string s)) = tt
    of_value (some (array xs)) = tt
    of_value (some (object fs)) = elim (Bool-cases (has_both_keys (fields_of fs))) [
      | inl both ↦ rw both (with_rationale-LongEnough _ _)
      | inr some_other ↦ rw some_other tt
    ]

decision_cases : (d : EthicsDecision) → (d ≡ reject) ⊎ ((d ≡ approve) ⊎ (d ≡ escalate))
decision_cases reject = inl refl
decision_cases approve = inr (inl refl)
decision_cases escalate = inr (inr refl)

module _ (py : Pydantic) (w : World) (js : JsonLibrary) (llm : Auditor)
    (prompt ruleset_hash : Text) where
  -- A verdict of Opus under the frozen rules, with a rationale of 50 to 4000 characters.
  abbrev pub IsSound : EthicsVerdict → Type 0
  IsSound v =
      (v.model_used ≡ opus_47)
      × (v.ruleset_hash ≡ ruleset_hash)
      × (50 ≤ length v.rationale)
      × (length v.rationale ≤ 4000)

  abbrev pub CacheIsSound : EthicsService → Type 0
  CacheIsSound s = (k : CacheKey) (v : EthicsVerdict) → lookup k s.cache ≡ some v → IsSound v

  abbrev pub AnswerIsSound : Result EthicsVerdict → Type 0
  AnswerIsSound (err x) = Unit
  AnswerIsSound (ok v) = IsSound v

  abbrev pub Reviewed : Result EthicsVerdict × EthicsService → Type 0
  Reviewed (r, s) = AnswerIsSound r × CacheIsSound s

  either :
      (b : Bool) (o : Option EthicsVerdict) (v x : EthicsVerdict)
      → IsSound v
      → (if b then some v else o) ≡ some x
      → (o ≡ some x → IsSound x)
      → IsSound x
  either true o v x good e h = subst IsSound (some-injective v x e) good
  either false o v x good e h = h e

  store_verdict-Reviewed :
      (req : EthicsReviewRequest) (r : Result (EthicsDecision × Text)) (s : EthicsService)
      → LongEnough r
      → CacheIsSound s
      → Reviewed (store_verdict py w js llm prompt ruleset_hash req r s)
  unfolding store_verdict
  store_verdict-Reviewed req (err x) s long h = (tt, h)
  store_verdict-Reviewed req (ok (d, rationale)) s long h =
      elim (Bool-cases (py.max_length 4000 rationale)) [
        | inl fits ↦ rw fits (sound fits, stored (sound fits))
        | inr too_long ↦ rw too_long (tt, h)
      ]
    where
      v : EthicsVerdict
      v = new_verdict py w js llm prompt ruleset_hash req d rationale s.draws

      sound : py.max_length 4000 rationale ≡ true → IsSound v
      sound fits = (refl, refl, long, (py.max_length_iff 4000 rationale).0 fits)

      stored :
          IsSound v
          → (k : CacheKey) (x : EthicsVerdict)
          → lookup k (insert (cache_key req) v s.cache) ≡ some x
          → IsSound x
      stored good k x found =
          either (cache_key_eq.beq (cache_key req) k) (lookup k s.cache) v x good
            (sym (lookup-insert (cache_key req) k v s.cache) ∙ found) (h k x)

  ask-Reviewed :
      (req : EthicsReviewRequest) (s : EthicsService)
      → CacheIsSound s
      → Reviewed (ask py w js llm prompt ruleset_hash req s)
  ask-Reviewed req s h =
      store_verdict-Reviewed req _ _ (answered (llm opus_47 prompt req.payload_json)) h
    where
      answered : (r : Result Text) → LongEnough (parsed py w js llm prompt ruleset_hash r)
      answered (err x) = tt
      answered (ok raw) = parse-LongEnough js raw

  looked_up-Reviewed :
      (o : Option EthicsVerdict) (req : EthicsReviewRequest) (s : EthicsService)
      → ((x : EthicsVerdict) → o ≡ some x → IsSound x)
      → CacheIsSound s
      → Reviewed (answer_or_ask py w js llm prompt ruleset_hash (rejected o) req s)
  looked_up-Reviewed none req s k h = ask-Reviewed req s h
  looked_up-Reviewed (some x) req s k h = elim (decision_cases x.decision) [
    | inl e ↦ rw e (k x refl, h)
    | inr (inl e) ↦ rw e (ask-Reviewed req s h)
    | inr (inr e) ↦ rw e (ask-Reviewed req s h)
  ]

  -- While the cached verdicts are sound, so is a verdict that a review under the lock returns, and
  -- the cached ones stay sound, whatever the provider answers: the model is Opus, the hash is that
  -- of the frozen rules, and the rationale has 50 to 4000 characters.
  pub review_locked-Reviewed :
      (req : EthicsReviewRequest) (s : EthicsService)
      → CacheIsSound s
      → Reviewed (review_locked py w js llm prompt ruleset_hash req s)
  unfolding review_locked
  review_locked-Reviewed req s h =
      looked_up-Reviewed (lookup (cache_key req) s.cache) req s (h (cache_key req)) h
