-- ===== src/Core/Operator/Accepts.antt =====
-- Which messages the parser lets through, and as what: the other direction.
use Prim.Native.String.{String}
use self_spawn_agents.Prelude.{
  ◌≡◌, ◌<◌, ◌↔◌, refl, sym, Bool, true, false, ◌&&◌, Option, List, [], ◌∷◌, ◌++◌, Text, codes,
  text_eqb, take, subst, if◌then◌else◌, is_some, arith, ℕ,
}
use self_spawn_agents.Prelude.Decimal.{Money}
use self_spawn_agents.Prelude.Unicode.{Unicode, ascii_upper, upper, lower, strip, split, is_empty}
use self_spawn_agents.Schemas.Common.{Uuid}
use self_spawn_agents.Core.Operator.{
  OperatorAction, OperatorMessage, ParseResult, alone, approve, continue, emergency_transfer,
  form_letter, hex_value, is_amount, is_uuid, kill_all, kill_child, kill_message, message, parse,
  parse_parts, pause, reject, reject_for, resume, transfer_message, with_uuid,
}
use self_spawn_agents.Core.Operator.Verbs.{verb_of, Arguments, Spelled, Legal, parse-Legal}

-- The excerpt of the body that an action keeps.
abbrev pub excerpt_of : OperatorAction → Text → Text
excerpt_of reject body = take 500 body
excerpt_of emergency_transfer body = take 500 body
excerpt_of _ body = []

hex_is_ascii : (c : ℕ) → is_some (hex_value c) ≡ true → c < 128
hex_is_ascii c h = ground arith

four :
    (p q r t x : Bool)
    → (p && (q && (r && (t && x)))) ≡ true
    → (p ≡ true) × (q ≡ true) × (r ≡ true) × (t ≡ true)
four p q r t x h = (ground arith, ground arith, ground arith, ground arith)

too_long : (a b c d : ℕ) (s : Text) → text_eqb (a ∷ b ∷ c ∷ d ∷ s) (codes "ALL") ≡ false
too_long a b c d s = ground arith

module _ (u : Unicode) where
  uuid_is_not_all : (s : Text) → is_uuid s ≡ true → text_eqb (upper u s) (codes "ALL") ≡ false
  unfolding is_uuid
  uuid_is_not_all [] h = cc
  uuid_is_not_all (a ∷ []) h = ground (arith, h)
  uuid_is_not_all (a ∷ b ∷ []) h = ground (arith, h)
  uuid_is_not_all (a ∷ b ∷ c ∷ []) h = ground (arith, h)
  uuid_is_not_all (a ∷ b ∷ c ∷ d ∷ s) h =
      let (ha, hb, hc, hd) = four _ _ _ _ _ h in
      rw
        (
          u.to_upper-ascii a (hex_is_ascii a ha),
          u.to_upper-ascii b (hex_is_ascii b hb),
          u.to_upper-ascii c (hex_is_ascii c hc),
          u.to_upper-ascii d (hex_is_ascii d hd),
        )
        (too_long (ascii_upper a) (ascii_upper b) (ascii_upper c) (ascii_upper d) (upper u s))

  message_from : OperatorAction → Option Uuid → Option Money → Text → Text → OperatorMessage
  message_from a id amount body sha = record {
    action = a;
    subject_id = id;
    amount_usd = amount;
    body_excerpt = excerpt_of a body;
    raw_sha256 = sha;
  }

  module _ (sha body first : Text) where
    accepted :
        (a : OperatorAction) (id : Option Uuid) (amount : Option Money) (args : List Text)
        → upper u first ≡ verb_of a
        → Arguments u a (message_from a id amount body sha) args
        → parse_parts u sha body (first ∷ args) ≡ message (message_from a id amount body sha)
    unfolding parse_parts message_from
    accepted approve id amount args v (s, e, matched, same, nothing) =
        rw (v, e, matched, same, nothing) refl
    accepted reject id amount args v (s, e, matched, same, nothing) =
        rw (v, e, matched, same, nothing) refl
    accepted resume id amount args v (s, e, matched, same, nothing) =
        rw (v, e, matched, same, nothing) refl
    accepted kill_child id amount args v (s, e, matched, same, nothing) =
        rw (v, e, uuid_is_not_all s matched, matched, same, nothing) refl
    accepted continue id amount args v (e, (same, nothing)) = rw (v, e, same, nothing) refl
    accepted pause id amount args v (e, (same, nothing)) = rw (v, e, same, nothing) refl
    accepted kill_all id amount args v ((s, e, all), (same, nothing)) =
        rw (v, e, all, same, nothing) refl
    accepted emergency_transfer id amount args v (s, d, e, matched, way, same, value) =
        rw (v, e, way, matched, same, value) refl

  -- What a message keeps of the body and of the hash.
  Kept : Text → Text → ParseResult → Type 0
  Kept body sha (form_letter l) = Unit
  Kept body sha (message m) = (m.body_excerpt ≡ excerpt_of m.action body) × (m.raw_sha256 ≡ sha)

  module _ (sha body : Text) where
    either :
        (b : Bool) (x y : ParseResult)
        → Kept body sha x
        → Kept body sha y
        → Kept body sha (if b then x else y)
    either true x y h k = h
    either false x y h k = k

    refused : (reason : Text) → Kept body sha (reject_for u sha reason)
    unfolding Kept
    refused reason = tt

    with_uuid-Kept :
        (a : OperatorAction) (excerpt reason : Text) (args : List Text)
        → excerpt ≡ excerpt_of a body
        → Kept body sha (with_uuid u sha a excerpt reason args)
    unfolding Kept
    with_uuid-Kept a excerpt reason [] e = tt
    with_uuid-Kept a excerpt reason (s ∷ t ∷ args) e = tt
    with_uuid-Kept a excerpt reason (s ∷ []) e = either (is_uuid s) _ _ (e, refl) tt

    alone-Kept :
        (a : OperatorAction) (reason : Text) (args : List Text)
        → [] ≡ excerpt_of a body
        → Kept body sha (alone u sha a reason args)
    unfolding Kept
    alone-Kept a reason [] e = (e, refl)
    alone-Kept a reason (s ∷ args) e = tt

    kill_message-Kept : (args : List Text) → Kept body sha (kill_message u sha args)
    unfolding Kept
    kill_message-Kept [] = tt
    kill_message-Kept (s ∷ t ∷ args) = tt
    kill_message-Kept (s ∷ []) =
        either (text_eqb (upper u s) (codes "ALL")) _ _ (refl, refl)
          (either (is_uuid s) _ _ (refl, refl) tt)

    transfer_message-Kept : (args : List Text) → Kept body sha (transfer_message u sha body args)
    unfolding Kept
    transfer_message-Kept [] = tt
    transfer_message-Kept (s ∷ []) = tt
    transfer_message-Kept (s ∷ d ∷ e ∷ args) = tt
    transfer_message-Kept (s ∷ d ∷ []) =
        either (text_eqb (lower u d) (codes "reserve->operating")) _ _
          (either (is_amount u s) _ _ (refl, refl) tt) tt

    abbrev spells : Text → String → Bool
    spells first verb = text_eqb (upper u first) (codes verb)

    parse_parts-Kept : (parts : List Text) → Kept body sha (parse_parts u sha body parts)
    unfolding parse_parts
    parse_parts-Kept [] = refused _
    parse_parts-Kept (first ∷ args) =
        either (spells first "APPROVE") _ _ (with_uuid-Kept approve _ _ args refl) (
          either (spells first "REJECT") _ _ (with_uuid-Kept reject _ _ args refl) (
            either (spells first "CONTINUE") _ _ (alone-Kept continue _ args refl) (
              either (spells first "PAUSE") _ _ (alone-Kept pause _ args refl) (
                either (spells first "KILL") _ _ (kill_message-Kept args) (
                  either (spells first "RESUME") _ _ (with_uuid-Kept resume _ _ args refl) (
                    either (spells first "EMERGENCY_TRANSFER") _ _ (transfer_message-Kept args)
                      (refused _)))))))

  module _ (sha body : Text) (m : OperatorMessage)
      (excerpt : m.body_excerpt ≡ excerpt_of m.action body) (hash : m.raw_sha256 ≡ sha) where
    rebuilt : message_from m.action m.subject_id m.amount_usd body sha ≡ m
    unfolding message_from
    rebuilt = ground (arith, excerpt, hash)

    parse_parts-Spelled :
        (parts : List Text) → Spelled u parts m → parse_parts u sha body parts ≡ message m
    parse_parts-Spelled [] h = absurd h
    parse_parts-Spelled (first ∷ args) (v, arguments) =
        subst (λ x. parse_parts u sha body (first ∷ args) ≡ message x) rebuilt
          (accepted sha body first m.action m.subject_id m.amount_usd args v
            (subst (λ x. Arguments u m.action x args) (sym rebuilt) arguments))

    subject_reads :
        (t : Text)
        → Spelled u (split u t) m
        → (if is_empty t
            then reject_for u sha (codes "empty_subject")
            else parse_parts u sha body (split u t))
          ≡ message m
    subject_reads [] h = absurd h
    subject_reads (c ∷ t) h = parse_parts-Spelled (split u (c ∷ t)) h

  -- The parser lets a subject through as a message exactly if the first word of the subject
  -- spells, in any case, the verb of its action and the other words are exactly the arguments of
  -- that action, a UUID, nothing, the word ALL, or an amount and the direction reserve->operating,
  -- of which the message holds the values and no others, together with the excerpt of the body
  -- that the action keeps and the hash of subject and body.
  pub parse_iff :
      (sha256 : Text → Text) (subject body : Text) (m : OperatorMessage)
      → (parse u sha256 subject body ≡ message m) ↔ (
          Spelled u (split u (strip u subject)) m
          × (m.body_excerpt ≡ excerpt_of m.action body)
          × (m.raw_sha256 ≡ sha256 (strip u (subject ++ 10 ∷ body))))
  unfolding parse Kept
  parse_iff sha256 subject body m = (
    λ h.
        let (excerpt, sha) = subst (Kept body raw) h kept in
        (subst (Legal u parts) h (parse-Legal u sha256 subject body), excerpt, sha),
    λ (spelled, excerpt, sha). subject_reads raw body m excerpt sha (strip u subject) spelled,
  )
    where
      raw : Text
      raw = sha256 (strip u (subject ++ 10 ∷ body))

      parts : List Text
      parts = split u (strip u subject)

      kept : Kept body raw (parse u sha256 subject body)
      kept =
          either raw body (is_empty (strip u subject)) _ _
            (refused raw body (codes "empty_subject")) (parse_parts-Kept raw body parts)
