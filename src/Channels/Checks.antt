-- ===== src/Channels/Checks.antt =====
-- What one health check does, against the answer of the provider.
use self_spawn_agents.Prelude.{
  ◌≡◌, refl, Bool, true, false, ◌&&◌, ◌||◌, not, Option, none, some, List, [], ◌∷◌, Text, codes,
  is_some, json_error, ℕ,
}
use self_spawn_agents.Prelude.Dict.{Dict}
use self_spawn_agents.Prelude.Json.{Json, dict, string}
use self_spawn_agents.Channels.{
  Wire, get, post, no_body, json_body, Request, Sent, unreachable, answered, Reply, done, raised,
  ChannelStatus, checked, parsed, raise_for_status, json_of, nothing_of, status_of,
}
use self_spawn_agents.Channels.Stripe.{stripe_headers}
use self_spawn_agents.Channels.Payments.{polar_headers, lemonsqueezy_headers}
use self_spawn_agents.Channels.Hosting.{vercel_headers, netlify_headers}
use self_spawn_agents.Channels.Domains.{cloudflare_headers, porkbun_headers}
use self_spawn_agents.Channels.Health.{
  ChannelClient, stripe, polar, lemonsqueezy, vercel, netlify, cloudflare, porkbun, health,
}

abbrev pub channel_name : ChannelClient → Text
channel_name (stripe c) = codes "stripe_connect"
channel_name (polar c) = codes "polar"
channel_name (lemonsqueezy c) = codes "lemonsqueezy"
channel_name (vercel c) = codes "vercel"
channel_name (netlify c) = codes "netlify"
channel_name (cloudflare c) = codes "cloudflare"
channel_name (porkbun c) = codes "porkbun"

abbrev pub get_ping : Text → Dict Text Text → Request
get_ping url headers = record { method = get; url = url; headers = headers; body = no_body }

-- The request that asks a provider whether it is there.
abbrev pub ping : Wire → ChannelClient → Request
ping w (stripe c) = get_ping (codes "https://api.stripe.com/v1/balance") (stripe_headers w c)
ping w (polar c) = get_ping (codes "https://api.polar.sh/v1/organizations/me") (polar_headers w c)
ping w (lemonsqueezy c) =
    get_ping (codes "https://api.lemonsqueezy.com/v1/users/me") (lemonsqueezy_headers w c)
ping w (vercel c) = get_ping (codes "https://api.vercel.com/v2/user") (vercel_headers w c)
ping w (netlify c) = get_ping (codes "https://api.netlify.com/api/v1/user") (netlify_headers w c)
ping w (cloudflare c) =
    get_ping (codes "https://api.cloudflare.com/client/v4/user/tokens/verify")
      (cloudflare_headers w c)
ping w (porkbun c) = record {
  method = post;
  url = codes "https://api.porkbun.com/api/json/v3/ping";
  headers = porkbun_headers;
  body =
      json_body
        (dict ((codes "apikey", string c.api_key) ∷ (codes "secretapikey", string c.secret) ∷ []));
}

-- Whether a check reads the answer as JSON.
abbrev pub reads_json : ChannelClient → Bool
reads_json (stripe c) = false
reads_json (porkbun c) = false
reads_json _ = true

-- No error of httpx: the provider answered, with a status that is no error.
abbrev pub is_fine : Wire → Sent → Bool
is_fine w (unreachable e) = false
is_fine w (answered r) = not (is_some (w.status_error r))

abbrev pub is_json : Wire → Sent → Bool
is_json w (unreachable e) = false
is_json w (answered r) = is_some (w.json r)

-- A good answer that the check cannot read.
abbrev pub breaks : Wire → ChannelClient → Sent → Bool
breaks w c sent = reads_json c && is_fine w sent && not (is_json w sent)

module _ (w : Wire) where
  -- Whether some check of the cycle breaks, and which providers are fine, with the requests so far.
  abbrev pub some_break : List ChannelClient → List Request → Bool
  some_break [] log = false
  some_break (c ∷ cs) log = breaks w c (w.send log (ping w c)) || some_break cs (ping w c ∷ log)

  abbrev pub fine_flags : List ChannelClient → List Request → List Bool
  fine_flags [] log = []
  fine_flags (c ∷ cs) log = is_fine w (w.send log (ping w c)) ∷ fine_flags cs (ping w c ∷ log)

  abbrev pub pinged : List ChannelClient → List Request → List Request
  pinged [] log = log
  pinged (c ∷ cs) log = pinged cs (ping w c ∷ log)

  -- The reply of one check, by whether the provider is fine and whether the check breaks.
  abbrev pub Answer : Text → Bool → Bool → Reply ChannelStatus → Type 0
  Answer name fine true r = r ≡ raised json_error
  Answer name fine false r = (s : ChannelStatus) × (r ≡ done s) × (s.name ≡ name) × (s.ok ≡ fine)

  parsed-Answer :
      (name : Text) (ms : ℕ) (j : Option Json)
      → Answer name true (not (is_some j)) (status_of w name ms (parsed w j))
  parsed-Answer name ms none = refl
  parsed-Answer name ms (some j) = (_, refl, refl, refl)

  json-Answer :
      (name : Text) (ms : ℕ) (sent : Sent)
      → Answer name
          (is_fine w sent)
          (is_fine w sent && not (is_json w sent))
          (status_of w name ms (json_of w (raise_for_status w sent)))
  json-Answer name ms (unreachable e) = (_, refl, refl, refl)
  json-Answer name ms (answered r) = of_error (w.status_error r)
    where
      of_error :
          (o : Option Text)
          → Answer name
              (not (is_some o))
              (not (is_some o) && not (is_some (w.json r)))
              (status_of w name ms (json_of w (checked w o r)))
      of_error none = parsed-Answer name ms (w.json r)
      of_error (some e) = (_, refl, refl, refl)

  only-Answer :
      (name : Text) (ms : ℕ) (sent : Sent)
      → Answer name
          (is_fine w sent)
          false
          (status_of w name ms (nothing_of w (raise_for_status w sent)))
  only-Answer name ms (unreachable e) = (_, refl, refl, refl)
  only-Answer name ms (answered r) = of_error (w.status_error r)
    where
      of_error :
          (o : Option Text)
          → Answer name (not (is_some o)) false (status_of w name ms (nothing_of w (checked w o r)))
      of_error none = (_, refl, refl, refl)
      of_error (some e) = (_, refl, refl, refl)

  -- One check sends its ping and answers.
  abbrev pub Checked : ChannelClient → List Request → Reply ChannelStatus × List Request → Type 0
  Checked c log (r, log') =
      (log' ≡ ping w c ∷ log)
      × Answer (channel_name c) (is_fine w (w.send log (ping w c)))
          (breaks w c (w.send log (ping w c))) r

  pub health-Checked : (c : ChannelClient) (log : List Request) → Checked c log (health w c log)
  unfolding health
  health-Checked (stripe c) log = (refl, only-Answer _ _ _)
  health-Checked (polar c) log = (refl, json-Answer _ _ _)
  health-Checked (lemonsqueezy c) log = (refl, json-Answer _ _ _)
  health-Checked (vercel c) log = (refl, json-Answer _ _ _)
  health-Checked (netlify c) log = (refl, json-Answer _ _ _)
  health-Checked (cloudflare c) log = (refl, json-Answer _ _ _)
  health-Checked (porkbun c) log = (refl, only-Answer _ _ _)
