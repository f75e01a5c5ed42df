-- ===== src/Channels/Payments.antt =====
-- aae/channels/polar.py and aae/channels/lemonsqueezy.py: the merchants of record.
use self_spawn_agents.Prelude.{Bool, [], ◌∷◌, ◌++◌, Text, codes, if◌then◌else◌}
use self_spawn_agents.Prelude.Decimal.{Money}
use self_spawn_agents.Prelude.Dict.{Dict}
use self_spawn_agents.Prelude.Json.{Json, string, array, item, empty, dict}
use self_spawn_agents.Channels.{
  Wire, Operation, ChannelStatus, get_json, post_json, health_by, cents_json, bearer,
}

pub record PolarClient : Type 0 where
  pub token : Text

abbrev pub polar_url : Text
polar_url = codes "https://api.polar.sh/v1"

module _ (w : Wire) (c : PolarClient) where
  abbrev pub polar_headers : Dict Text Text
  polar_headers = bearer c.token

  abbrev pub polar_health : Operation ChannelStatus
  polar_health =
      health_by w (codes "polar") (get_json w polar_url polar_headers (codes "/organizations/me"))

  abbrev pub polar_create_product : Text → Money → Bool → Operation Json
  polar_create_product name price_usd is_recurring =
      post_json w polar_url polar_headers (codes "/products") (
        dict (
          (codes "name", string name)
          ∷ (
            codes "prices",
            array (
                item
                  (dict (
                    (codes "amount_cents", cents_json price_usd)
                    ∷ (codes "currency", string (codes "USD"))
                    ∷ (
                      codes "type",
                      string (if is_recurring then codes "recurring" else codes "one_time"),
                    )
                    ∷ []))
                  empty),
          )
          ∷ []))

  abbrev pub polar_create_checkout : Text → Text → Operation Json
  polar_create_checkout product_id success_url =
      post_json w polar_url polar_headers (codes "/checkouts") (
        dict (
          (codes "product_id", string product_id) ∷ (codes "success_url", string success_url) ∷ []))

  abbrev pub list_payouts : Operation Json
  list_payouts = get_json w polar_url polar_headers (codes "/payouts")

pub record LemonSqueezyClient : Type 0 where
  pub api_key : Text

abbrev pub lemonsqueezy_url : Text
lemonsqueezy_url = codes "https://api.lemonsqueezy.com/v1"

-- `{"data": {"type": kind, "id": id}}`
abbrev pub link : Text → Text → Json
link kind id =
    dict ((codes "data", dict ((codes "type", string kind) ∷ (codes "id", string id) ∷ [])) ∷ [])

abbrev pub data_of : Dict Text Json → Json
data_of d = dict ((codes "data", dict d) ∷ [])

module _ (w : Wire) (c : LemonSqueezyClient) where
  abbrev pub lemonsqueezy_headers : Dict Text Text
  lemonsqueezy_headers =
      (codes "Authorization", codes "Bearer " ++ c.api_key)
      ∷ (codes "Accept", codes "application/vnd.api+json")
      ∷ (codes "Content-Type", codes "application/vnd.api+json")
      ∷ []

  abbrev pub lemonsqueezy_health : Operation ChannelStatus
  lemonsqueezy_health =
      health_by w (codes "lemonsqueezy")
        (get_json w lemonsqueezy_url lemonsqueezy_headers (codes "/users/me"))

  abbrev pub lemonsqueezy_create_product : Text → Text → Operation Json
  lemonsqueezy_create_product name store_id =
      post_json w lemonsqueezy_url lemonsqueezy_headers (codes "/products") (
        data_of (
          (codes "type", string (codes "products"))
          ∷ (codes "attributes", dict ((codes "name", string name) ∷ []))
          ∷ (codes "relationships", dict ((codes "store", link (codes "stores") store_id) ∷ []))
          ∷ []))

  abbrev pub create_variant : Text → Money → Operation Json
  create_variant product_id price_usd =
      post_json w lemonsqueezy_url lemonsqueezy_headers (codes "/variants") (
        data_of (
          (codes "type", string (codes "variants"))
          ∷ (codes "attributes", dict ((codes "price", cents_json price_usd) ∷ []))
          ∷ (
            codes "relationships",
            dict ((codes "product", link (codes "products") product_id) ∷ []),
          )
          ∷ []))

  abbrev pub lemonsqueezy_create_checkout : Text → Text → Operation Json
  lemonsqueezy_create_checkout variant_id store_id =
      post_json w lemonsqueezy_url lemonsqueezy_headers (codes "/checkouts") (
        data_of (
          (codes "type", string (codes "checkouts"))
          ∷ (
            codes "relationships",
            dict (
                (codes "variant", link (codes "variants") variant_id)
                ∷ (codes "store", link (codes "stores") store_id)
                ∷ []),
          )
          ∷ []))

  abbrev pub list_subscriptions : Operation Json
  list_subscriptions = get_json w lemonsqueezy_url lemonsqueezy_headers (codes "/subscriptions")
