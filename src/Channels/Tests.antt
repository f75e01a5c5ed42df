-- ===== src/Channels/Tests.antt =====
-- A wire on which one provider answers, one is down and one answers in plain text.
use self_spawn_agents.Prelude.{
  ℕ, zero, suc, ◌*◌, ◌≡◌, refl, true, none, some, [], ◌∷◌, codes, text_eq, length, ltb,
  if◌then◌else◌, text_eqb, ok, err, value_error,
}
use self_spawn_agents.Prelude.Int.{pos}
use self_spawn_agents.Prelude.Json.{null}
use self_spawn_agents.Schemas.Common.{World}
use self_spawn_agents.Channels.{Wire, unreachable, answered, Sent}
use self_spawn_agents.Channels.Stripe.{
  StripeConnectClient, stripe_connect_client, create_payment_intent, create_transfer, create_payout,
}
use self_spawn_agents.Channels.Payments.{
  PolarClient, LemonSqueezyClient, polar_create_product, create_variant,
}
use self_spawn_agents.Channels.Hosting.{VercelClient, NetlifyClient, vercel_client}
use self_spawn_agents.Channels.Domains.{CloudflareClient, PorkbunClient}
use self_spawn_agents.Channels.Health.{stripe, polar, lemonsqueezy, porkbun, run_health_cycle}
use self_spawn_agents.Channels.Checks.{some_break}
use self_spawn_agents.Channels.Cycle.{CycleEnds, run_health_cycle-CycleEnds}
use self_spawn_agents.Channels.Calls.{
  StripeSends, PolarSends, LemonSqueezySends, VercelSends, NetlifySends, CloudflareSends,
  PorkbunSends, clients_send_home,
}
use self_spawn_agents.Channels.Cents.{SendsCents, amount-SendsCents}

abbrev answer : ℕ → Sent
answer zero = answered (record { status_code = 200; text = codes "{}" })
answer (suc zero) = unreachable (codes "timed out")
answer (suc (suc n)) = answered (record { status_code = 200; text = codes "fine" })

abbrev wire : Wire
wire = record {
  send = λ log r. answer (length log);
  status_error = λ r. if ltb r.status_code 300 then none else some r.text;
  json = λ r. if text_eqb r.text (codes "{}") then some null else none;
  monotonic = λ log. 1500 * length log;
  utf8 = λ s. s;
  is_nonzero = λ s. true;
}

abbrev stripe_client : StripeConnectClient
stripe_client = record { secret = codes "sk_test_1" }

abbrev polar_client : PolarClient
polar_client = record { token = codes "org" }

abbrev lemon_client : LemonSqueezyClient
lemon_client = record { api_key = codes "lemon" }

abbrev porkbun_client : PorkbunClient
porkbun_client = record { api_key = codes "pk"; secret = codes "sk" }

abbrev test_world : World
test_world = record { uuid4 = λ n. n; utc_now = λ n. n }

accepts_test_key : stripe_connect_client (codes "sk_test_1") ≡ ok stripe_client
unfolding stripe_connect_client
accepts_test_key = refl

refuses_hobby : vercel_client (codes "token") (codes "hobby") ≡ err value_error
unfolding vercel_client
refuses_hobby = refl

run_health_cycle-CycleEnds_example :
    let cs = stripe stripe_client ∷ polar polar_client ∷ porkbun porkbun_client ∷ [] in
    let (r, log', rows') = run_health_cycle wire test_world 7 cs [] [] in
    CycleEnds wire cs [] [] (some_break wire cs []) r log' rows'
run_health_cycle-CycleEnds_example =
    run_health_cycle-CycleEnds wire test_world 7
      (stripe stripe_client ∷ polar polar_client ∷ porkbun porkbun_client ∷ []) [] []

-- The third answer is good and not JSON, so the cycle breaks.
plain_text_breaks :
    some_break wire (stripe stripe_client ∷ polar polar_client ∷ lemonsqueezy lemon_client ∷ []) []
    ≡ true
plain_text_breaks = refl

abbrev vercel_pro : VercelClient
vercel_pro = record { pat = codes "v"; plan = codes "pro" }

abbrev netlify_client : NetlifyClient
netlify_client = record { pat = codes "n" }

abbrev cloudflare_client : CloudflareClient
cloudflare_client = record { token = codes "t"; account_id = codes "a" }

clients_send_home_example :
    let s = codes "s" in
    let a = pos 12345678 in
    (StripeSends wire s s s a stripe_client
      × PolarSends wire s s s a true polar_client
      × LemonSqueezySends wire s s s a lemon_client)
    × VercelSends wire s s s a none [] vercel_pro
    × NetlifySends wire s s s a [] netlify_client
    × CloudflareSends wire s s s a [] (pos 1) cloudflare_client
    × PorkbunSends wire s s s a [] (pos 1) porkbun_client
clients_send_home_example =
    clients_send_home wire (codes "s") (codes "s") (codes "s") (pos 12345678) true none [] [] []
      (pos 1) stripe_client polar_client lemon_client vercel_pro netlify_client cloudflare_client
      porkbun_client

abbrev price : ℕ
price = 19999999

amount-SendsCents_example :
    let s = codes "s" in
    SendsCents price (codes "amount" ∷ []) (create_payment_intent wire stripe_client (pos price) s)
    × SendsCents price (codes "amount" ∷ []) (create_transfer wire stripe_client (pos price) s)
    × SendsCents price (codes "amount" ∷ []) (create_payout wire stripe_client (pos price) s)
    × SendsCents price
        (codes "prices" ∷ codes "amount_cents" ∷ [])
        (polar_create_product wire polar_client s (pos price) true)
    × SendsCents price
        (codes "data" ∷ codes "attributes" ∷ codes "price" ∷ [])
        (create_variant wire lemon_client s (pos price))
amount-SendsCents_example =
    amount-SendsCents wire price (codes "s") true stripe_client polar_client lemon_client
