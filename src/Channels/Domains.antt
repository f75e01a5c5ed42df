-- ===== src/Channels/Domains.antt =====
-- aae/channels/cloudflare.py and aae/channels/porkbun.py.
use self_spawn_agents.Prelude.{ℕ, List, [], ◌∷◌, ◌++◌, Text, codes, text_eq}
use self_spawn_agents.Prelude.Int.{ℤ}
use self_spawn_agents.Prelude.Digits.{print_int}
use self_spawn_agents.Prelude.Dict.{Dict, insert}
use self_spawn_agents.Prelude.Json.{Json, number, string, array, JsonList, item, empty, dict}
use self_spawn_agents.Channels.{
  Wire, post, put, json_body, content, Operation, ChannelStatus, get_json, post_json, request_json,
  request_only, health_by, bearer,
}

pub record CloudflareClient : Type 0 where
  pub token : Text
  pub account_id : Text

abbrev pub cloudflare_url : Text
cloudflare_url = codes "https://api.cloudflare.com/client/v4"

module _ (w : Wire) (c : CloudflareClient) where
  abbrev pub cloudflare_headers : Dict Text Text
  cloudflare_headers = bearer c.token

  abbrev pub account_path : Text
  account_path = codes "/accounts/" ++ c.account_id

  abbrev pub cloudflare_health : Operation ChannelStatus
  cloudflare_health =
      health_by w (codes "cloudflare")
        (get_json w cloudflare_url cloudflare_headers (codes "/user/tokens/verify"))

  abbrev pub put_worker_script : Text → Text → Operation Json
  put_worker_script name body = request_json w (record {
    method = put;
    url = cloudflare_url ++ account_path ++ codes "/workers/scripts/" ++ name;
    headers = insert (codes "Content-Type") (codes "application/javascript") cloudflare_headers;
    body = content (w.utf8 body);
  })

  abbrev pub r2_put_object : Text → Text → List ℕ → Operation (Unit {0})
  r2_put_object bucket key body = request_only w (record {
    method = put;
    url =
        cloudflare_url
        ++ account_path
        ++ codes "/r2/buckets/"
        ++ bucket
        ++ codes "/objects/"
        ++ key;
    headers = cloudflare_headers;
    body = content body;
  })

  abbrev pub domain_path : Text → Text
  domain_path name = account_path ++ codes "/registrar/domains/" ++ name

  abbrev pub registrar_check_domain : Text → Operation Json
  registrar_check_domain name = get_json w cloudflare_url cloudflare_headers (domain_path name)

  abbrev pub registrar_register_domain : Text → ℤ → Operation Json
  registrar_register_domain name years =
      post_json w cloudflare_url cloudflare_headers (domain_path name)
        (dict ((codes "years", number (print_int years)) ∷ []))

pub record PorkbunClient : Type 0 where
  pub api_key : Text
  pub secret : Text

abbrev pub porkbun_url : Text
porkbun_url = codes "https://api.porkbun.com/api/json/v3"

abbrev pub porkbun_headers : Dict Text Text
porkbun_headers = (codes "Content-Type", codes "application/json") ∷ []

abbrev pub texts : List Text → JsonList
texts [] = empty
texts (s ∷ ss) = item (string s) (texts ss)

module _ (w : Wire) (c : PorkbunClient) where
  abbrev pub creds : Dict Text Json → Dict Text Json
  creds rest = (codes "apikey", string c.api_key) ∷ (codes "secretapikey", string c.secret) ∷ rest

  abbrev pub porkbun_health : Operation ChannelStatus
  porkbun_health = health_by w (codes "porkbun") (
      request_only w (record {
        method = post;
        url = porkbun_url ++ codes "/ping";
        headers = porkbun_headers;
        body = json_body (dict (creds []));
      }))

  abbrev pub check_domain : Text → Operation Json
  check_domain name =
      post_json w porkbun_url porkbun_headers (codes "/domain/checkDomain/" ++ name)
        (dict (creds []))

  abbrev pub register_domain : Text → ℤ → Operation Json
  register_domain name years =
      post_json w porkbun_url porkbun_headers (codes "/domain/create/" ++ name)
        (dict (creds ((codes "years", number (print_int years)) ∷ [])))

  abbrev pub update_nameservers : Text → List Text → Operation Json
  update_nameservers name ns =
      post_json w porkbun_url porkbun_headers (codes "/domain/updateNs/" ++ name)
        (dict (creds ((codes "ns", array (texts ns)) ∷ [])))
