-- ===== src/Gmail.antt =====
-- aae/gmail (client.py, watch.py and webhook.py) and the webhooks of aae/server/routes. The
-- mailbox is a transport that the server is given; base64 is a function.
pub mod Drain
mod Tests
use self_spawn_agents.Prelude.{
  ℕ, join_lines, ◌+◌, ◌-◌, ◌*◌, ◌%◌, Bool, Option, none, some, List, [], ◌∷◌, ◌++◌, Text, codes,
  text_eq, leb, length, take, Exception, Result, ok, err, Action, pure, ◌>>=◌, ◌>>◌,
  attribute_error, type_error, value_error, json_error,
}
use self_spawn_agents.Prelude.Int.{ℤ, pos}
use self_spawn_agents.Prelude.Digits.{print_int}
use self_spawn_agents.Prelude.Dict.{Dict, lookup}
use self_spawn_agents.Prelude.Unicode.{Unicode}
use self_spawn_agents.Prelude.Json.{
  Json, null, number, string, array, object, JsonList, item, empty, fields_of, dict, JsonLibrary,
}
use self_spawn_agents.Schemas.Common.{Time}
use self_spawn_agents.Core.Operator.{
  OperatorAction, OperatorMessage, FormLetter, ParseResult, message, form_letter, parse, approve,
  reject, continue, pause, kill_child, kill_all, resume, emergency_transfer,
}

pub record GmailMessage : Type 0 where
  pub id : Text
  pub thread_id : Text
  pub subject : Text
  pub body : Text
  pub from_addr : Text
  pub snippet : Text

-- What a push uses of the protocol `GmailTransport`, on the state of a mailbox.
pub record GmailTransport (S : Type 0) : Type 0 where
  pub list_unread : Action S (List GmailMessage)
  pub mark_read : Text → Action S (Unit {0})

-- `timedelta(days=6, hours=12)` in microseconds.
abbrev pub watch_ttl : ℕ
watch_ttl = (6 * 24 + 12) * 3600 * 1000000

abbrev pub next_renewal_at : Time → Time
next_renewal_at watched_at = watched_at + watch_ttl

unfoldable pub needs_renewal : Time → Time → Bool
needs_renewal watched_at now = leb (next_renewal_at watched_at) now

pub record PushEnvelope : Type 0 where
  pub message_data : Json
  pub message_id : Json
  pub subscription : Json

-- `"=" * (-len(data_b64) % 4)`
abbrev pub pad_of : ℕ → Text
pad_of n = take ((4 - n % 4) % 4) (codes "===")

-- `decode_body`: `urlsafe_b64decode` and the decoding of UTF-8 are functions.
unfoldable pub decode_body : (Text → Result (List ℕ)) → (List ℕ → Text) → Text → Result Text
decode_body urlsafe_b64decode decode b64 = elim (urlsafe_b64decode (b64 ++ pad_of (length b64))) [
  | ok bytes ↦ ok (decode bytes)
  | err x ↦ err x
]

-- `value.get(key, default)`: only a `dict` has `get`.
abbrev pub get_or : Text → Json → Json → Result Json
get_or key default (object fs) = ok (found (lookup key (fields_of fs)))
  where
    found : Option Json → Json
    found none = default
    found (some v) = v
get_or key default _ = err attribute_error

abbrev pub then_ok {ℓ κ} : {A : Type ℓ} {B : Type κ} → Result A → (A → Result B) → Result B
then_ok (ok a) f = f a
then_ok (err x) f = err x

module _ (js : JsonLibrary) (b64decode : Text → Option Text) where
  abbrev pub loaded : Option Json → Result Json
  loaded none = err json_error
  loaded (some j) = ok j

  abbrev pub decoded : Option Text → Result Json
  decoded none = err value_error
  decoded (some t) = loaded (js.loads t)

  -- The length and the padding ask for a text.
  abbrev pub payload_of : Json → Result Json
  payload_of (string s) = decoded (b64decode (s ++ pad_of (length s)))
  payload_of _ = err type_error

  unfoldable pub decode_push : Json → Result PushEnvelope
  decode_push envelope = then_ok (get_or (codes "message") (dict []) envelope) (λ msg.
      then_ok (get_or (codes "data") (string []) msg) (λ data_b64.
        then_ok (payload_of data_b64) (λ payload.
          then_ok (get_or (codes "messageId") (string []) msg) (λ id.
            then_ok (get_or (codes "subscription") (string []) envelope) (λ subscription.
              ok (record {
                message_data = payload;
                message_id = id;
                subscription = subscription;
              }))))))

module _ (js : JsonLibrary) (b64decode : Text → Option Text) (u : Unicode) (sha256 : Text → Text)
    {S : Type 0} (t : GmailTransport S) where
  abbrev pub raise_or_go : Result PushEnvelope → Action S (Unit {0})
  raise_or_go (ok e) s = (ok tt, s)
  raise_or_go (err x) s = (err x, s)

  unfoldable pub parse_messages : List GmailMessage → Action S (List ParseResult)
  unfolding ◌>>=◌
  parse_messages [] = pure []
  parse_messages (m ∷ ms) =
      t.mark_read m.id
      >> (parse_messages ms >>= λ parsed. pure (parse u sha256 m.subject m.body ∷ parsed))

  unfoldable pub handle_push : Json → Action S (List ParseResult)
  unfolding decode_push parse_messages ◌>>=◌
  handle_push envelope =
      raise_or_go (decode_push js b64decode envelope) >> (t.list_unread >>= parse_messages)

abbrev pub indented : List Text → List Text
indented [] = []
indented (v ∷ vs) = (codes "  " ++ v) ∷ indented vs

unfoldable pub form_letter_body : FormLetter → Text
form_letter_body form = join_lines (
    codes "Sorry — your message didn't match any of the allowed commands."
    ∷ (codes "Reason: " ++ form.reason)
    ∷ []
    ∷ codes "Allowed commands:"
    ∷ indented form.allowed_verbs)

-- The answer of a route: a body, or an `HTTPException` with its status and detail.
pub data RouteReply : Type 0 where
  body : Json → RouteReply
  http_exception : ℕ → Text → RouteReply

abbrev pub action_text : OperatorAction → Text
action_text approve = codes "APPROVE"
action_text reject = codes "REJECT"
action_text continue = codes "CONTINUE"
action_text pause = codes "PAUSE"
action_text kill_child = codes "KILL_CHILD"
action_text kill_all = codes "KILL_ALL"
action_text resume = codes "RESUME"
action_text emergency_transfer = codes "EMERGENCY_TRANSFER"

abbrev pub summary_of : ParseResult → Json
summary_of (message r) = dict (
    (codes "kind", string (codes "operator_message"))
    ∷ (codes "action", string (action_text r.action))
    ∷ [])
summary_of (form_letter r) =
    dict ((codes "kind", string (codes "form_letter")) ∷ (codes "reason", string r.reason) ∷ [])

abbrev pub summaries : List ParseResult → JsonList
summaries [] = empty
summaries (r ∷ rs) = item (summary_of r) (summaries rs)

abbrev pub push_reply : List ParseResult → RouteReply
push_reply rs = body (
    dict (
      (codes "processed", number (print_int (pos (length rs))))
      ∷ (codes "results", array (summaries rs))
      ∷ []))

module _ (js : JsonLibrary) (b64decode : Text → Option Text) (u : Unicode) (sha256 : Text → Text)
    {S : Type 0} where
  -- The route after the body was read as JSON.
  unfoldable pub gmail_push : Option (GmailTransport S) → Json → Action S RouteReply
  unfolding ◌>>=◌
  gmail_push none envelope = pure (http_exception 503 (codes "gmail transport not configured"))
  gmail_push (some t) envelope =
      handle_push js b64decode u sha256 t envelope >>= λ results. pure (push_reply results)

-- The three routes of the payment providers: `signature` is the header.
unfoldable pub polar_webhook : Option Text → RouteReply
polar_webhook none = http_exception 401 (codes "missing signature")
polar_webhook (some x_polar_signature) =
    body (dict ((codes "status", string (codes "accepted")) ∷ []))

unfoldable pub lemonsqueezy_webhook : Option Text → RouteReply
lemonsqueezy_webhook none = http_exception 401 (codes "missing signature")
lemonsqueezy_webhook (some x_signature) =
    body (dict ((codes "status", string (codes "accepted")) ∷ []))

unfoldable pub stripe_webhook : Option Text → RouteReply
stripe_webhook none = http_exception 401 (codes "missing signature")
stripe_webhook (some stripe_signature) =
    body (dict ((codes "status", string (codes "accepted")) ∷ []))
