-- ===== src/Ethics/Final.antt =====
-- A rejection is final, whatever the order of the reviews.
use self_spawn_agents.Prelude.{
  ◌≡◌, refl, sym, subst, ◌∙◌, false, Option, none, some, List, [], ◌∷◌, Result, ok, err, Text,
  Bool-cases, inl, inr,
}
use self_spawn_agents.Prelude.Dict.{lookup, lookup-insert}
use self_spawn_agents.Schemas.Common.{World, Pydantic}
use self_spawn_agents.Schemas.Ethics.{
  EthicsReviewRequest, EthicsDecision, EthicsVerdict, CacheKey, cache_key_eq, same_key_iff, reject,
}
use self_spawn_agents.Prelude.Json.{JsonLibrary}
use self_spawn_agents.Ethics.{
  Auditor, EthicsService, cache_key, rejected, store_verdict, answer_or_ask, review_locked, Turn,
  first_look, in_lock, turn, turns, review,
}

-- The cache holds this verdict for this key, and it is a rejection.
abbrev pub RejectedBy : CacheKey → EthicsVerdict → EthicsService → Type 0
RejectedBy k v s = (lookup k s.cache ≡ some v) × (v.decision ≡ reject)

found_rejected :
    (k : CacheKey) (v : EthicsVerdict) (s : EthicsService)
    → RejectedBy k v s
    → rejected (lookup k s.cache) ≡ some v
found_rejected k v s (found, final) = rw (found, final) refl

module _ (py : Pydantic) (w : World) (js : JsonLibrary) (llm : Auditor)
    (prompt ruleset_hash : Text) where
  lookup-store_verdict :
      (req : EthicsReviewRequest) (r : Result (EthicsDecision × Text)) (s : EthicsService)
      (k : CacheKey)
      → cache_key_eq.beq (cache_key req) k ≡ false
      → lookup k (store_verdict py w js llm prompt ruleset_hash req r s).1.cache ≡ lookup k s.cache
  unfolding store_verdict
  lookup-store_verdict req (err x) s k other = refl
  lookup-store_verdict req (ok (d, rationale)) s k other =
      elim (Bool-cases (py.max_length 4000 rationale)) [
        | inl fits ↦ rw fits (lookup-insert (cache_key req) k _ s.cache ∙ rw other refl)
        | inr too_long ↦ rw too_long refl
      ]

  review_locked-keeps :
      (req : EthicsReviewRequest) (s : EthicsService) (k : CacheKey) (v : EthicsVerdict)
      → RejectedBy k v s
      → RejectedBy k v (review_locked py w js llm prompt ruleset_hash req s).1
  unfolding review_locked
  review_locked-keeps req s k v h = elim (Bool-cases (cache_key_eq.beq (cache_key req) k)) [
    | inl same ↦
        rw
          (found_rejected (cache_key req) v s
            (subst (λ l. RejectedBy l v s) (sym ((same_key_iff (cache_key req) k).0 same)) h))
          h
    | inr other ↦ kept other (rejected (lookup (cache_key req) s.cache))
  ]
    where
      kept :
          (other : cache_key_eq.beq (cache_key req) k ≡ false) (o : Option EthicsVerdict)
          → RejectedBy k v (answer_or_ask py w js llm prompt ruleset_hash o req s).1
      kept other (some x) = h
      kept other none = (lookup-store_verdict req _ _ k other ∙ h.0, h.1)

  turns-keeps :
      (ts : List (Turn py w js llm prompt ruleset_hash)) (s : EthicsService) (k : CacheKey)
      (v : EthicsVerdict)
      → RejectedBy k v s
      → RejectedBy k v (turns py w js llm prompt ruleset_hash ts s)
  unfolding turns turn
  turns-keeps [] s k v h = h
  turns-keeps (first_look req ∷ ts) s k v h = turns-keeps ts s k v h
  turns-keeps (in_lock req ∷ ts) s k v h = turns-keeps ts _ k v (review_locked-keeps req s k v h)

  -- Once the cache holds a rejection of a subject, then after any turns of any reviews, in any
  -- order, a review of that subject returns that very verdict, without a question to the provider
  -- or any change of the service.
  pub rejection_is_final :
      (ts : List (Turn py w js llm prompt ruleset_hash)) (s : EthicsService)
      (req : EthicsReviewRequest) (v : EthicsVerdict)
      → RejectedBy (cache_key req) v s
      → let s' = turns py w js llm prompt ruleset_hash ts s in
        review py w js llm prompt ruleset_hash req s' ≡ (ok v, s')
  unfolding review
  rejection_is_final ts s req v h =
      rw
        (found_rejected (cache_key req) v (turns py w js llm prompt ruleset_hash ts s)
          (turns-keeps ts s (cache_key req) v h))
        refl
