-- ===== src/Core/Operator/Commands/RoundTrip.antt =====
-- A command that is spelled for the parser of aae/core/operator_parser.py is read as it is meant.
use self_spawn_agents.Prelude.{◌<◌, ◌^◌, ◌≡◌, ◌≢◌, refl, ◌∙◌, List, [], ◌∷◌, ◌++◌, Text, codes, All}
use self_spawn_agents.Prelude.Unicode.{Unicode, strip}
use self_spawn_agents.Core.Operator.{message, parse, parse_parts}
use self_spawn_agents.Core.Operator.Commands.{
  Command, approve_proposal, reject_proposal, kill_one, resume_event, continue_all, pause_all,
  kill_everyone, transfer_cents, spell, meant, joined,
}
use self_spawn_agents.Core.Operator.Commands.Lexing.{
  IsWord, upper-capitals, lower-small, strip-joined, split-joined,
}
use self_spawn_agents.Core.Operator.Commands.Numerals.{
  is_uuid-print_uuid, uuid_value-print_uuid, print_uuid-IsWord, print_uuid-is_not_all,
  is_amount-print_cents, amount_value-print_cents, print_cents-IsWord,
}

-- The UUID of a command is a number of 128 bits.
abbrev pub IsSpellable : Command → Type 0
IsSpellable (approve_proposal n) = n < 2 ^ 128
IsSpellable (reject_proposal n) = n < 2 ^ 128
IsSpellable (kill_one n) = n < 2 ^ 128
IsSpellable (resume_event n) = n < 2 ^ 128
IsSpellable continue_all = Unit
IsSpellable pause_all = Unit
IsSpellable kill_everyone = Unit
IsSpellable (transfer_cents c) = Unit

spell-words : (c : Command) → All IsWord (spell c)
unfolding spell
spell-words (approve_proposal n) = (refl, (print_uuid-IsWord n, tt))
spell-words (reject_proposal n) = (refl, (print_uuid-IsWord n, tt))
spell-words (kill_one n) = (refl, (print_uuid-IsWord n, tt))
spell-words (resume_event n) = (refl, (print_uuid-IsWord n, tt))
spell-words continue_all = (refl, tt)
spell-words pause_all = (refl, tt)
spell-words kill_everyone = (refl, (refl, tt))
spell-words (transfer_cents c) = (refl, (print_cents-IsWord c, (refl, tt)))

spell-nonempty : (c : Command) → spell c ≢ []
unfolding spell
spell-nonempty (approve_proposal n) e = cc
spell-nonempty (reject_proposal n) e = cc
spell-nonempty (kill_one n) e = cc
spell-nonempty (resume_event n) e = cc
spell-nonempty continue_all e = cc
spell-nonempty pause_all e = cc
spell-nonempty kill_everyone e = cc
spell-nonempty (transfer_cents c) e = cc

module _ (u : Unicode) where
  parse_parts-spell :
      (c : Command) (sha body : Text)
      → IsSpellable c
      → parse_parts u sha body (spell c) ≡ message (meant c body sha)
  unfolding parse_parts spell meant
  parse_parts-spell (approve_proposal n) sha body h =
      rw (upper-capitals u (codes "APPROVE") refl, is_uuid-print_uuid n, uuid_value-print_uuid n h)
        refl
  parse_parts-spell (reject_proposal n) sha body h =
      rw (upper-capitals u (codes "REJECT") refl, is_uuid-print_uuid n, uuid_value-print_uuid n h)
        refl
  parse_parts-spell (kill_one n) sha body h =
      rw
        (
          upper-capitals u (codes "KILL") refl,
          print_uuid-is_not_all u n,
          is_uuid-print_uuid n,
          uuid_value-print_uuid n h,
        )
        refl
  parse_parts-spell (resume_event n) sha body h =
      rw (upper-capitals u (codes "RESUME") refl, is_uuid-print_uuid n, uuid_value-print_uuid n h)
        refl
  parse_parts-spell continue_all sha body h = rw (upper-capitals u (codes "CONTINUE") refl) refl
  parse_parts-spell pause_all sha body h = rw (upper-capitals u (codes "PAUSE") refl) refl
  parse_parts-spell kill_everyone sha body h =
      rw (upper-capitals u (codes "KILL") refl, upper-capitals u (codes "ALL") refl) refl
  parse_parts-spell (transfer_cents c) sha body h =
      rw
        (
          upper-capitals u (codes "EMERGENCY_TRANSFER") refl,
          lower-small u (codes "reserve->operating") refl,
          is_amount-print_cents u c,
          amount_value-print_cents u c,
        )
        refl

  parse-words :
      (sha256 : Text → Text) (body : Text) (ws : List Text)
      → ws ≢ []
      → All IsWord ws
      → parse u sha256 (joined ws) body
        ≡ parse_parts u (sha256 (strip u (joined ws ++ 10 ∷ body))) body ws
  unfolding parse
  parse-words sha256 body [] ne h = absurd (ne refl)
  parse-words sha256 body ([] ∷ ws) ne h = absurd h.0
  parse-words sha256 body ((c ∷ w) ∷ []) ne h =
      rw (strip-joined u (c ∷ w) [] h, split-joined u (c ∷ w) [] h) refl
  parse-words sha256 body ((c ∷ w) ∷ v ∷ ws) ne h =
      rw (strip-joined u (c ∷ w) (v ∷ ws) h, split-joined u (c ∷ w) (v ∷ ws) h) refl

  -- A command that is spelled as the list of allowed verbs says, its UUID of 128 bits in the form
  -- of str(UUID) and its amount in dollars with two digits of cents, is parsed as the message with
  -- its action, that UUID or amount, and the excerpt of the body where the action keeps one,
  -- whatever the body is.
  pub parse_spelled :
      (sha256 : Text → Text) (c : Command) (body : Text)
      → IsSpellable c
      → parse u sha256 (joined (spell c)) body
        ≡ message (meant c body (sha256 (strip u (joined (spell c) ++ 10 ∷ body))))
  parse_spelled sha256 c body h =
      parse-words sha256 body (spell c) (spell-nonempty c) (spell-words c)
      ∙ parse_parts-spell c _ body h
