-- ===== src/Channels/Stripe.antt =====
-- aae/channels/stripe_connect.py.
use self_spawn_agents.Prelude.{
  ◌||◌, [], ◌∷◌, ◌++◌, Text, codes, text_eq, Result, ok, err, value_error, if◌then◌else◌,
}
use self_spawn_agents.Prelude.Decimal.{Money}
use self_spawn_agents.Prelude.Unicode.{is_empty}
use self_spawn_agents.Prelude.Dict.{Dict, insert}
use self_spawn_agents.Prelude.Json.{Json, string}
use self_spawn_agents.Codebuilder.{starts_with}
use self_spawn_agents.Channels.{
  Wire, get, post, no_body, form_body, Operation, ChannelStatus, request_json, request_only,
  health_by, cents_json, bearer,
}

pub record StripeConnectClient : Type 0 where
  pub secret : Text

-- `StripeConnectClient(client, secret_key=...)`
unfoldable pub stripe_connect_client : Text → Result StripeConnectClient
stripe_connect_client secret_key =
    if starts_with (codes "sk_live_") secret_key
      || starts_with (codes "sk_test_") secret_key
      || is_empty secret_key
    then ok (record { secret = secret_key })
    else err value_error

abbrev pub stripe_url : Text
stripe_url = codes "https://api.stripe.com/v1"

module _ (w : Wire) (c : StripeConnectClient) where
  abbrev pub stripe_headers : Dict Text Text
  stripe_headers = bearer c.secret

  -- The headers of a call for a connected account.
  abbrev pub connected_headers : Text → Dict Text Text
  connected_headers account = insert (codes "Stripe-Account") account stripe_headers

  abbrev pub stripe_form : Text → Dict Text Text → Dict Text Json → Operation Json
  stripe_form path headers data_fields = request_json w (record {
    method = post;
    url = stripe_url ++ path;
    headers = headers;
    body = form_body data_fields;
  })

  abbrev pub stripe_health : Operation ChannelStatus
  stripe_health = health_by w (codes "stripe_connect") (
      request_only w (record {
        method = get;
        url = stripe_url ++ codes "/balance";
        headers = stripe_headers;
        body = no_body;
      }))

  abbrev pub create_custom_account : Text → Text → Operation Json
  create_custom_account country email = stripe_form (codes "/accounts") stripe_headers (
      (codes "type", string (codes "custom"))
      ∷ (codes "country", string country)
      ∷ (codes "email", string email)
      ∷ [])

  abbrev pub create_account_link : Text → Text → Text → Operation Json
  create_account_link account refresh_url return_url =
      stripe_form (codes "/account_links") stripe_headers (
        (codes "account", string account)
        ∷ (codes "refresh_url", string refresh_url)
        ∷ (codes "return_url", string return_url)
        ∷ (codes "type", string (codes "account_onboarding"))
        ∷ [])

  abbrev pub amount_fields : Money → Dict Text Json → Dict Text Json
  amount_fields amount_usd rest =
      (codes "amount", cents_json amount_usd) ∷ (codes "currency", string (codes "usd")) ∷ rest

  abbrev pub create_payment_intent : Money → Text → Operation Json
  create_payment_intent amount_usd connected_account =
      stripe_form (codes "/payment_intents") (connected_headers connected_account)
        (amount_fields amount_usd [])

  abbrev pub create_transfer : Money → Text → Operation Json
  create_transfer amount_usd destination =
      stripe_form (codes "/transfers") stripe_headers
        (amount_fields amount_usd ((codes "destination", string destination) ∷ []))

  abbrev pub create_payout : Money → Text → Operation Json
  create_payout amount_usd connected_account =
      stripe_form (codes "/payouts") (connected_headers connected_account)
        (amount_fields amount_usd [])
