-- ===== src/Channels/Calls.antt =====
-- Where the operations of the clients send, and with which credentials.
use self_spawn_agents.Prelude.{
  ℕ, ◌≡◌, refl, Bool, true, Option, some, List, ◌∷◌, Text, text_eq, All,
}
use self_spawn_agents.Prelude.Int.{ℤ}
use self_spawn_agents.Prelude.Decimal.{Money}
use self_spawn_agents.Prelude.Dict.{Dict, lookup}
use self_spawn_agents.Prelude.Json.{Json}
use self_spawn_agents.Codebuilder.{starts_with}
use self_spawn_agents.Channels.{Wire, Request, Operation}
use self_spawn_agents.Channels.Stripe.{
  StripeConnectClient, stripe_url, stripe_headers, create_custom_account, create_account_link,
  create_payment_intent, create_transfer, create_payout,
}
use self_spawn_agents.Channels.Payments.{
  PolarClient, polar_url, polar_headers, polar_create_product, polar_create_checkout, list_payouts,
  LemonSqueezyClient, lemonsqueezy_url, lemonsqueezy_headers, lemonsqueezy_create_product,
  create_variant, lemonsqueezy_create_checkout, list_subscriptions,
}
use self_spawn_agents.Channels.Hosting.{
  VercelClient, vercel_url, vercel_headers, create_project, create_deployment, NetlifyClient,
  netlify_url, netlify_headers, create_site, upload_zip_deploy, get_site_url,
}
use self_spawn_agents.Channels.Domains.{
  CloudflareClient, cloudflare_url, cloudflare_headers, put_worker_script, r2_put_object,
  registrar_check_domain, registrar_register_domain, PorkbunClient, porkbun_url, porkbun_headers,
  check_domain, register_domain, update_nameservers,
}

-- One request, to an address that starts with the client's, with all of its headers.
abbrev pub Sends {ℓ} : Text → Dict Text Text → {A : Type ℓ} → Operation A → Type 0
Sends base headers op =
    (log : List Request)
    → (r : Request) × ((op log).1 ≡ r ∷ log)
      × (starts_with base r.url ≡ true)
      × All (λ h. lookup h.0 r.headers ≡ some h.1) headers

module _ (w : Wire) (s t u : Text) (amount : Money) where
  abbrev pub StripeSends : StripeConnectClient → Type 0
  StripeSends c =
      Sends stripe_url (stripe_headers w c) (create_custom_account w c s t)
      × Sends stripe_url (stripe_headers w c) (create_account_link w c s t u)
      × Sends stripe_url (stripe_headers w c) (create_payment_intent w c amount s)
      × Sends stripe_url (stripe_headers w c) (create_transfer w c amount s)
      × Sends stripe_url (stripe_headers w c) (create_payout w c amount s)

  abbrev pub PolarSends : Bool → PolarClient → Type 0
  PolarSends b c =
      Sends polar_url (polar_headers w c) (polar_create_product w c s amount b)
      × Sends polar_url (polar_headers w c) (polar_create_checkout w c s t)
      × Sends polar_url (polar_headers w c) (list_payouts w c)

  abbrev pub LemonSqueezySends : LemonSqueezyClient → Type 0
  LemonSqueezySends c =
      Sends lemonsqueezy_url (lemonsqueezy_headers w c) (lemonsqueezy_create_product w c s t)
      × Sends lemonsqueezy_url (lemonsqueezy_headers w c) (create_variant w c s amount)
      × Sends lemonsqueezy_url (lemonsqueezy_headers w c) (lemonsqueezy_create_checkout w c s t)
      × Sends lemonsqueezy_url (lemonsqueezy_headers w c) (list_subscriptions w c)

  abbrev pub VercelSends : Option Text → Dict Text Json → VercelClient → Type 0
  VercelSends framework files c =
      Sends vercel_url (vercel_headers w c) (create_project w c s framework)
      × Sends vercel_url (vercel_headers w c) (create_deployment w c s files)

  abbrev pub NetlifySends : List ℕ → NetlifyClient → Type 0
  NetlifySends bytes c =
      Sends netlify_url (netlify_headers w c) (create_site w c s)
      × Sends netlify_url (netlify_headers w c) (upload_zip_deploy w c s bytes)
      × Sends netlify_url (netlify_headers w c) (get_site_url w c s)

  abbrev pub CloudflareSends : List ℕ → ℤ → CloudflareClient → Type 0
  CloudflareSends bytes years c =
      Sends cloudflare_url (cloudflare_headers w c) (put_worker_script w c s t)
      × Sends cloudflare_url (cloudflare_headers w c) (r2_put_object w c s t bytes)
      × Sends cloudflare_url (cloudflare_headers w c) (registrar_check_domain w c s)
      × Sends cloudflare_url (cloudflare_headers w c) (registrar_register_domain w c s years)

  abbrev pub PorkbunSends : List Text → ℤ → PorkbunClient → Type 0
  PorkbunSends ns years c =
      Sends porkbun_url porkbun_headers (check_domain w c s)
      × Sends porkbun_url porkbun_headers (register_domain w c s years)
      × Sends porkbun_url porkbun_headers (update_nameservers w c s ns)

  merchants_send_home :
      (b : Bool) (stripe : StripeConnectClient) (polar : PolarClient) (lemon : LemonSqueezyClient)
      → StripeSends stripe × PolarSends b polar × LemonSqueezySends lemon
  merchants_send_home b stripe polar lemon = (
    (
      λ log. (_, refl, refl, (refl, tt)),
      λ log. (_, refl, refl, (refl, tt)),
      λ log. (_, refl, refl, (refl, tt)),
      λ log. (_, refl, refl, (refl, tt)),
      λ log. (_, refl, refl, (refl, tt)),
    ),
    (
      λ log. (_, refl, refl, (refl, tt)),
      λ log. (_, refl, refl, (refl, tt)),
      λ log. (_, refl, refl, (refl, tt)),
    ),
    (
      λ log. (_, refl, refl, (refl, (refl, (refl, tt)))),
      λ log. (_, refl, refl, (refl, (refl, (refl, tt)))),
      λ log. (_, refl, refl, (refl, (refl, (refl, tt)))),
      λ log. (_, refl, refl, (refl, (refl, (refl, tt)))),
    ),
  )

  hosts_send_home :
      (framework : Option Text) (files : Dict Text Json) (bytes : List ℕ) (ns : List Text)
      (years : ℤ) (vercel : VercelClient) (netlify : NetlifyClient) (cloudflare : CloudflareClient)
      (porkbun : PorkbunClient)
      → VercelSends framework files vercel
        × NetlifySends bytes netlify
        × CloudflareSends bytes years cloudflare
        × PorkbunSends ns years porkbun
  hosts_send_home framework files bytes ns years vercel netlify cloudflare porkbun = (
    (λ log. (_, refl, refl, (refl, tt)), λ log. (_, refl, refl, (refl, tt))),
    (
      λ log. (_, refl, refl, (refl, tt)),
      λ log. (_, refl, refl, (refl, tt)),
      λ log. (_, refl, refl, (refl, tt)),
    ),
    (
      λ log. (_, refl, refl, (refl, tt)),
      λ log. (_, refl, refl, (refl, tt)),
      λ log. (_, refl, refl, (refl, tt)),
      λ log. (_, refl, refl, (refl, tt)),
    ),
    (
      λ log. (_, refl, refl, (refl, tt)),
      λ log. (_, refl, refl, (refl, tt)),
      λ log. (_, refl, refl, (refl, tt)),
    ),
  )

  -- Each of the twenty-four operations of the seven clients but the deploy hook of Vercel sends
  -- exactly one request, whatever comes back, to an address that starts with the base URL of its
  -- client, and with the authentication headers of its client.
  pub clients_send_home :
      (b : Bool) (framework : Option Text) (files : Dict Text Json) (bytes : List ℕ)
      (ns : List Text) (years : ℤ) (stripe : StripeConnectClient) (polar : PolarClient)
      (lemon : LemonSqueezyClient) (vercel : VercelClient) (netlify : NetlifyClient)
      (cloudflare : CloudflareClient) (porkbun : PorkbunClient)
      → (StripeSends stripe × PolarSends b polar × LemonSqueezySends lemon)
        × VercelSends framework files vercel
        × NetlifySends bytes netlify
        × CloudflareSends bytes years cloudflare
        × PorkbunSends ns years porkbun
  clients_send_home b framework files bytes ns years stripe polar lemon vercel netlify cloudflare
        porkbun =
      let (v, n, c, p) =
        hosts_send_home framework files bytes ns years vercel netlify cloudflare porkbun in
      (merchants_send_home b stripe polar lemon, v, n, c, p)
