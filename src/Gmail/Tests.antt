-- ===== src/Gmail/Tests.antt =====
-- A mailbox that is the list of its unread messages.
use self_spawn_agents.Prelude.{◌≡◌, refl, true, some, List, [], ◌∷◌, Text, codes, take, ok, text_eq}
use self_spawn_agents.Prelude.Json.{Json, null, string, dict, JsonLibrary}
use self_spawn_agents.Schemas.Samples.{ascii}
use self_spawn_agents.Gmail.{
  GmailMessage, GmailTransport, decode_push, gmail_push, needs_renewal, next_renewal_at,
}
use self_spawn_agents.Gmail.Drain.{Mailbox, without, Pushed, gmail_push-Pushed}

abbrev mail : Text → Text → GmailMessage
mail id subject = record {
  id = id;
  thread_id = id;
  subject = subject;
  body = codes "please";
  from_addr = codes "operator@example.org";
  snippet = [];
}

abbrev transport : GmailTransport (List GmailMessage)
transport = record { list_unread = λ s. (ok s, s); mark_read = λ id s. (ok tt, without id s) }

abbrev mailbox : Mailbox transport
mailbox = record {
  unread = λ s. s;
  list_unread-ok = λ s. refl;
  mark_read-ok = λ id s. refl;
  mark_read-unread = λ id s. refl;
}

abbrev json : JsonLibrary
json = record { loads = λ t. some null; str = λ j. [] }

abbrev envelope : Json
envelope = dict ((codes "message", dict ((codes "data", string (codes "e30")) ∷ [])) ∷ [])

abbrev inbox : List GmailMessage
inbox = mail (codes "a") (codes "KILL ALL") ∷ mail (codes "b") (codes "hello") ∷ []

gmail_push-Pushed_example :
    Pushed json
      (λ t. some t)
      ascii
      (take 4)
      transport
      mailbox
      inbox
      (decode_push json (λ t. some t) envelope)
      (gmail_push json (λ t. some t) ascii (take 4) (some transport) envelope inbox)
gmail_push-Pushed_example =
    gmail_push-Pushed json (λ t. some t) ascii (take 4) transport mailbox envelope inbox

renewed_in_time : needs_renewal 5 (next_renewal_at 5) ≡ true
unfolding needs_renewal
renewed_in_time = refl
