-- ===== src/Gmail/Drain.antt =====
-- A push answers for every unread message, once.
use self_spawn_agents.Prelude.{
  ◌≡◌, refl, ap, ◌∙◌, Bool, true, false, not, ◌||◌, Option, some, List, [], ◌∷◌, map, Text,
  text_eqb, text_eqb_iff, text_eq, Result, ok, err, ◌>>=◌, select, any, All, Bool-cases, inl, inr,
}
use self_spawn_agents.Prelude.Unicode.{Unicode}
use self_spawn_agents.Prelude.Json.{Json, JsonLibrary}
use self_spawn_agents.Core.Operator.{ParseResult, parse}
use self_spawn_agents.Gmail.{
  GmailMessage, GmailTransport, PushEnvelope, RouteReply, decode_push, parse_messages, handle_push,
  push_reply, gmail_push,
}

-- The messages that do not have an id.
abbrev pub without : Text → List GmailMessage → List GmailMessage
without id = select (λ m. not (text_eqb m.id id))

-- A mailbox that answers: it lists its unread messages, and marks those with an id as read.
pub record Mailbox {S : Type 0} (t : GmailTransport S) : Type 0 where
  pub unread : S → List GmailMessage
  pub list_unread-ok : (s : S) → t.list_unread s ≡ (ok (unread s), s)
  pub mark_read-ok : (id : Text) (s : S) → (t.mark_read id s).0 ≡ ok tt
  pub mark_read-unread : (id : Text) (s : S) → unread (t.mark_read id s).1 ≡ without id (unread s)

abbrev without_all : List GmailMessage → List GmailMessage → List GmailMessage
without_all [] ms = ms
without_all (n ∷ ns) ms = without_all ns (without n.id ms)

-- Each message has the id of one of the others.
abbrev Covers : List GmailMessage → List GmailMessage → Type 0
Covers ns ms = All (λ m. any (λ n. text_eqb m.id n.id) ns ≡ true) ms

Covers-less :
    (n : GmailMessage) (ns ms : List GmailMessage)
    → Covers (n ∷ ns) ms
    → Covers ns (without n.id ms)
Covers-less n ns [] h = tt
Covers-less n ns (m ∷ ms) (h, hs) = elim (Bool-cases (text_eqb m.id n.id)) [
  | inl e ↦ rw e (Covers-less n ns ms hs)
  | inr e ↦ rw e (other e h, Covers-less n ns ms hs)
]
  where
    other : {a b : Bool} → a ≡ false → (a || b) ≡ true → b ≡ true
    other e k = cc

covered_empties : (ns ms : List GmailMessage) → Covers ns ms → without_all ns ms ≡ []
covered_empties [] [] h = refl
covered_empties [] (m ∷ ms) (h, hs) = absurd (no_other h)
  where
    no_other : false ≡ true → ⊥
    no_other e = cc
covered_empties (n ∷ ns) ms h = covered_empties ns (without n.id ms) (Covers-less n ns ms h)

Covers-more : (n : GmailMessage) (ns ms : List GmailMessage) → Covers ns ms → Covers (n ∷ ns) ms
Covers-more n ns [] h = tt
Covers-more n ns (m ∷ ms) (h, hs) = (either (text_eqb m.id n.id) h, Covers-more n ns ms hs)
  where
    either : {b : Bool} (a : Bool) → b ≡ true → (a || b) ≡ true
    either true k = refl
    either false k = k

Covers-itself : (ms : List GmailMessage) → Covers ms ms
Covers-itself [] = tt
Covers-itself (m ∷ ms) = (first, Covers-more m ms ms (Covers-itself ms))
  where
    first : any (λ n. text_eqb m.id n.id) (m ∷ ms) ≡ true
    first = rw ((text_eqb_iff m.id m.id).1 refl) refl

module _ (js : JsonLibrary) (b64decode : Text → Option Text) (u : Unicode) (sha256 : Text → Text)
    {S : Type 0} (t : GmailTransport S) (box : Mailbox t) where
  abbrev pub parsed_all : List GmailMessage → List ParseResult
  parsed_all = map (λ m. parse u sha256 m.subject m.body)

  Parses : List GmailMessage → S → Result (List ParseResult) × S → Type 0
  Parses ms s (r, s') = (r ≡ ok (parsed_all ms)) × (box.unread s' ≡ without_all ms (box.unread s))

  parse_messages-Parses :
      (ms : List GmailMessage) (s : S) → Parses ms s (parse_messages js b64decode u sha256 t ms s)
  unfolding parse_messages ◌>>=◌ Parses
  parse_messages-Parses [] s = (refl, refl)
  parse_messages-Parses (m ∷ ms) s =
      let (r, l) = parse_messages-Parses ms (t.mark_read m.id s).1 in
      (
        rw (box.mark_read-ok m.id s, r) refl,
        rw (box.mark_read-ok m.id s, r) (l ∙ ap (without_all ms) (box.mark_read-unread m.id s)),
      )

  -- The end of a push, by what its envelope decodes to.
  abbrev pub Pushed : S → Result PushEnvelope → Result RouteReply × S → Type 0
  Pushed s (ok e) (r, s') = (r ≡ ok (push_reply (parsed_all (box.unread s)))) × (box.unread s' ≡ [])
  Pushed s (err x) (r, s') = (r ≡ err x) × (s' ≡ s)

  listed :
      (s : S)
      → (t.list_unread >>= parse_messages js b64decode u sha256 t) s
        ≡ parse_messages js b64decode u sha256 t (box.unread s) s
  unfolding ◌>>=◌
  listed s = rw (box.list_unread-ok s) refl

  pushed :
      (envelope : Json) (s : S) (d : Result PushEnvelope)
      → decode_push js b64decode envelope ≡ d
      → Pushed s d (gmail_push js b64decode u sha256 (some t) envelope s)
  unfolding gmail_push handle_push ◌>>=◌ Parses
  pushed envelope s (err x) e = rw e (refl, refl)
  pushed envelope s (ok v) e =
      let (r, l) = parse_messages-Parses (box.unread s) s in
      rw (e, listed s, r)
        (refl, l ∙ covered_empties (box.unread s) (box.unread s) (Covers-itself (box.unread s)))

  -- On a transport that lists its unread messages and marks those with an id as read: a push whose
  -- envelope decodes answers with what the parser makes of every unread message, in order, and
  -- leaves no message unread; a push whose envelope does not decode raises and changes nothing.
  pub gmail_push-Pushed :
      (envelope : Json) (s : S)
      → Pushed s
          (decode_push js b64decode envelope)
          (gmail_push js b64decode u sha256 (some t) envelope s)
  gmail_push-Pushed envelope s = pushed envelope s _ refl
