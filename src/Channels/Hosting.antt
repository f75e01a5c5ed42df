-- ===== src/Channels/Hosting.antt =====
-- aae/channels/vercel.py and aae/channels/netlify.py.
use self_spawn_agents.Prelude.{
  ℕ, Bool, true, false, not, Option, none, some, List, [], ◌∷◌, ◌++◌, Text, codes, text_eqb,
  text_eq, if◌then◌else◌, Result, ok, err, value_error, attribute_error,
}
use self_spawn_agents.Prelude.Unicode.{is_empty}
use self_spawn_agents.Prelude.Dict.{Dict, lookup, insert}
use self_spawn_agents.Prelude.Json.{
  Json, null, boolean, number, string, array, object, item, empty, field, no_fields, fields_of,
  dict,
}
use self_spawn_agents.Channels.{
  Wire, post, no_body, content, Reply, done, http_failed, raised, Operation, ChannelStatus,
  get_json, post_json, request_json, health_by, bearer,
}

pub record VercelClient : Type 0 where
  pub pat : Text
  pub plan : Text

-- `VercelClient(client, pat=..., plan=...)`
unfoldable pub vercel_client : Text → Text → Result VercelClient
vercel_client pat plan =
    if text_eqb plan (codes "pro") then ok (record { pat = pat; plan = plan }) else err value_error

abbrev pub vercel_url : Text
vercel_url = codes "https://api.vercel.com"

abbrev pub text_or_null : Option Text → Json
text_or_null none = null
text_or_null (some s) = string s

module _ (w : Wire) (c : VercelClient) where
  abbrev pub vercel_headers : Dict Text Text
  vercel_headers = bearer c.pat

  abbrev pub vercel_health : Operation ChannelStatus
  vercel_health =
      health_by w (codes "vercel") (get_json w vercel_url vercel_headers (codes "/v2/user"))

  abbrev pub create_project : Text → Option Text → Operation Json
  create_project name framework =
      post_json w vercel_url vercel_headers (codes "/v9/projects")
        (dict ((codes "name", string name) ∷ (codes "framework", text_or_null framework) ∷ []))

  abbrev pub create_deployment : Text → Dict Text Json → Operation Json
  create_deployment project_id files =
      post_json w vercel_url vercel_headers (codes "/v13/deployments")
        (dict ((codes "name", string project_id) ∷ (codes "files", dict files) ∷ []))

  abbrev pub trigger_deploy_hook : Text → Operation Json
  trigger_deploy_hook hook_url =
      request_json w (record { method = post; url = hook_url; headers = []; body = no_body })

pub record NetlifyClient : Type 0 where
  pub pat : Text

abbrev pub netlify_url : Text
netlify_url = codes "https://api.netlify.com/api/v1"

module _ (w : Wire) where
  -- `bool(value)`
  abbrev pub truth : Json → Bool
  truth null = false
  truth (boolean b) = b
  truth (number n) = w.is_nonzero n
  truth (string s) = not (is_empty s)
  truth (array empty) = false
  truth (array (item x xs)) = true
  truth (object no_fields) = false
  truth (object (field k v rest)) = true

  abbrev pub field_or : Json → Option Json → Json
  field_or default none = default
  field_or default (some v) = v

  -- `data.get("ssl_url") or data.get("url", "")`
  abbrev pub site_url : Dict Text Json → Json
  site_url d =
      let ssl_url = field_or null (lookup (codes "ssl_url") d) in
      if truth ssl_url then ssl_url else field_or (string []) (lookup (codes "url") d)

  -- Only a `dict` has `get`.
  abbrev pub url_in : Json → Reply Json
  url_in (object fs) = done (site_url (fields_of fs))
  url_in _ = raised attribute_error

  abbrev pub site_url_of : Reply Json → Reply Json
  site_url_of (done j) = url_in j
  site_url_of (http_failed e) = http_failed e
  site_url_of (raised x) = raised x

module _ (w : Wire) (c : NetlifyClient) where
  abbrev pub netlify_headers : Dict Text Text
  netlify_headers = bearer c.pat

  abbrev pub netlify_health : Operation ChannelStatus
  netlify_health =
      health_by w (codes "netlify") (get_json w netlify_url netlify_headers (codes "/user"))

  abbrev pub create_site : Text → Operation Json
  create_site name =
      post_json w netlify_url netlify_headers (codes "/sites")
        (dict ((codes "name", string name) ∷ []))

  abbrev pub upload_zip_deploy : Text → List ℕ → Operation Json
  upload_zip_deploy site_id zip_bytes = request_json w (record {
    method = post;
    url = netlify_url ++ codes "/sites/" ++ site_id ++ codes "/deploys";
    headers = insert (codes "Content-Type") (codes "application/zip") netlify_headers;
    body = content zip_bytes;
  })

  abbrev pub get_site_url : Text → Operation Json
  get_site_url site_id log =
      let (r, log') = get_json w netlify_url netlify_headers (codes "/sites/" ++ site_id) log in
      (site_url_of w r, log')
