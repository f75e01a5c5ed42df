-- ===== src/Core/Operator/Verbs.antt =====
-- Which messages the parser lets through.
use self_spawn_agents.Prelude.{
  ◌≡◌, refl, Bool, true, false, none, some, List, [], ◌∷◌, ◌++◌, Text, codes, text_eqb,
  text_eqb_iff, if◌then◌else◌,
}
use self_spawn_agents.Prelude.Unicode.{Unicode, upper, lower, strip, split, is_empty}
use self_spawn_agents.Core.Operator.{
  OperatorAction, approve, reject, continue, pause, kill_child, kill_all, resume,
  emergency_transfer, OperatorMessage, ParseResult, message, form_letter, is_uuid, uuid_value,
  is_amount, amount_value, with_uuid, alone, kill_message, transfer_message, parse_parts, parse,
}

-- The verb of an action, which the first word of the subject has to spell in any case.
abbrev pub verb_of : OperatorAction → Text
verb_of approve = codes "APPROVE"
verb_of reject = codes "REJECT"
verb_of continue = codes "CONTINUE"
verb_of pause = codes "PAUSE"
verb_of kill_child = codes "KILL"
verb_of kill_all = codes "KILL"
verb_of resume = codes "RESUME"
verb_of emergency_transfer = codes "EMERGENCY_TRANSFER"

module _ (u : Unicode) where
  -- One argument, a UUID, which is the message's subject.
  abbrev pub NamesUuid : OperatorMessage → List Text → Type 0
  NamesUuid m args =
      (s : Text) × (args ≡ s ∷ [])
      × (is_uuid s ≡ true)
      × (m.subject_id ≡ some (uuid_value s))
      × (m.amount_usd ≡ none)

  abbrev pub NamesNothing : OperatorMessage → Type 0
  NamesNothing m = (m.subject_id ≡ none) × (m.amount_usd ≡ none)

  -- The arguments that an action takes, and what the message holds of them.
  abbrev pub Arguments : OperatorAction → OperatorMessage → List Text → Type 0
  Arguments approve m args = NamesUuid m args
  Arguments reject m args = NamesUuid m args
  Arguments resume m args = NamesUuid m args
  Arguments kill_child m args = NamesUuid m args
  Arguments continue m args = (args ≡ []) × NamesNothing m
  Arguments pause m args = (args ≡ []) × NamesNothing m
  Arguments kill_all m args =
      ((s : Text) × (args ≡ s ∷ []) × (upper u s ≡ codes "ALL")) × NamesNothing m
  Arguments emergency_transfer m args =
      (s : Text) × (direction : Text) × (args ≡ s ∷ direction ∷ [])
      × (is_amount u s ≡ true)
      × (lower u direction ≡ codes "reserve->operating")
      × (m.subject_id ≡ none)
      × (m.amount_usd ≡ some (amount_value u s))

  -- A message spells the verb of its action and has that action's arguments.
  abbrev pub Spelled : List Text → OperatorMessage → Type 0
  Spelled [] m = ⊥
  Spelled (first ∷ args) m = (upper u first ≡ verb_of m.action) × Arguments m.action m args

  abbrev pub Legal : List Text → ParseResult → Type 0
  Legal parts (form_letter l) = Unit
  Legal parts (message m) = Spelled parts m

  guarded :
      (b : Bool) (parts : List Text) (x y : ParseResult)
      → (b ≡ true → Legal parts x)
      → Legal parts y
      → Legal parts (if b then x else y)
  guarded true parts x y h k = h refl
  guarded false parts x y h k = k

  module _ (sha body first : Text) where
    with_uuid-Legal :
        (action : OperatorAction) (excerpt reason : Text) (args : List Text)
        → ((m : OperatorMessage) → NamesUuid m args → Arguments action m args)
        → upper u first ≡ verb_of action
        → Legal (first ∷ args) (with_uuid u sha action excerpt reason args)
    with_uuid-Legal action excerpt reason [] h v = tt
    with_uuid-Legal action excerpt reason (s ∷ t ∷ args) h v = tt
    with_uuid-Legal action excerpt reason (s ∷ []) h v =
        guarded (is_uuid s) (first ∷ s ∷ []) _ _
          (λ matched. (v, h _ (s, refl, matched, refl, refl))) tt

    kill_message-Legal :
        (args : List Text)
        → upper u first ≡ codes "KILL"
        → Legal (first ∷ args) (kill_message u sha args)
    kill_message-Legal [] v = tt
    kill_message-Legal (s ∷ t ∷ args) v = tt
    kill_message-Legal (s ∷ []) v =
        guarded (text_eqb (upper u s) (codes "ALL")) (first ∷ s ∷ []) _ _
          (λ all. (v, ((s, refl, (text_eqb_iff _ _).0 all), (refl, refl))))
          (guarded (is_uuid s) (first ∷ s ∷ []) _ _ (λ matched. (v, (s, refl, matched, refl, refl)))
            tt)

    transfer_message-Legal :
        (args : List Text)
        → upper u first ≡ codes "EMERGENCY_TRANSFER"
        → Legal (first ∷ args) (transfer_message u sha body args)
    transfer_message-Legal [] v = tt
    transfer_message-Legal (s ∷ []) v = tt
    transfer_message-Legal (s ∷ d ∷ e ∷ args) v = tt
    transfer_message-Legal (s ∷ d ∷ []) v =
        guarded (text_eqb (lower u d) (codes "reserve->operating")) (first ∷ s ∷ d ∷ []) _ _
          (λ way.
            guarded (is_amount u s) (first ∷ s ∷ d ∷ []) _ _
              (λ matched. (v, (s, d, refl, matched, (text_eqb_iff _ _).0 way, refl, refl))) tt)
          tt

    alone-Legal :
        (action : OperatorAction) (reason : Text) (args : List Text)
        → ((m : OperatorMessage) → (args ≡ []) × NamesNothing m → Arguments action m args)
        → upper u first ≡ verb_of action
        → Legal (first ∷ args) (alone u sha action reason args)
    alone-Legal action reason (s ∷ args) h v = tt
    alone-Legal action reason [] h v = (v, h _ (refl, (refl, refl)))

    abbrev spells : {v : Text} → text_eqb (upper u first) v ≡ true → upper u first ≡ v
    spells {v} h = (text_eqb_iff (upper u first) v).0 h

    parse_parts-Legal :
        (args : List Text) → Legal (first ∷ args) (parse_parts u sha body (first ∷ args))
    unfolding parse_parts
    parse_parts-Legal args =
        guarded _ (first ∷ args) _ _ (λ h. with_uuid-Legal approve _ _ args (λ m k. k) (spells h))
          (guarded _ (first ∷ args) _ _ (λ h. with_uuid-Legal reject _ _ args (λ m k. k) (spells h))
            (guarded _ (first ∷ args) _ _ (λ h. alone-Legal continue _ args (λ m k. k) (spells h))
              (guarded _ (first ∷ args) _ _ (λ h. alone-Legal pause _ args (λ m k. k) (spells h))
                (guarded _ (first ∷ args) _ _ (λ h. kill_message-Legal args (spells h))
                  (guarded _ (first ∷ args) _ _
                    (λ h. with_uuid-Legal resume _ _ args (λ m k. k) (spells h))
                    (guarded _ (first ∷ args) _ _ (λ h. transfer_message-Legal args (spells h))
                      tt))))))

  -- A message that the parser lets through has a subject whose first word spells, in any case, the
  -- verb of its action and whose other words are exactly the arguments of that action: a UUID,
  -- nothing, the word ALL, or an amount and the direction reserve->operating. The message holds
  -- the values of these arguments and no others.
  pub parse-Legal :
      (sha256 : Text → Text) (subject body : Text)
      → Legal (split u (strip u subject)) (parse u sha256 subject body)
  unfolding parse
  parse-Legal sha256 subject body =
      guarded (is_empty (strip u subject)) (split u (strip u subject)) _ _ (λ h. tt)
        (from_parts (split u (strip u subject)))
    where
      from_parts :
          (parts : List Text)
          → Legal parts (parse_parts u (sha256 (strip u (subject ++ 10 ∷ body))) body parts)
      from_parts [] = unfold parse_parts in tt
      from_parts (first ∷ args) =
          parse_parts-Legal (sha256 (strip u (subject ++ 10 ∷ body))) body first args
