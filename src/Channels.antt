-- ===== src/Channels.antt =====
-- aae/channels/base.py: one HTTP client for every provider. The library httpx, the clock and the
-- truth of a JSON number are functions. An operation writes each request that it sends to a log.
pub mod Stripe
pub mod Payments
pub mod Hosting
pub mod Domains
pub mod Health
pub mod Checks
pub mod Cycle
pub mod Calls
pub mod Cents
mod Tests
use self_spawn_agents.Prelude.{
  ℕ, ◌-◌, ◌/◌, Bool, true, false, ◌&&◌, Option, none, some, List, [], ◌∷◌, ◌++◌, Text, codes,
  text_eqb, ltb, ◌==◌, if◌then◌else◌, all, Exception, type_error, json_error, Result, ok, err,
}
use self_spawn_agents.Prelude.Int.{ℤ, pos, negsuc, neg}
use self_spawn_agents.Prelude.Decimal.{Money}
use self_spawn_agents.Prelude.Digits.{print_int}
use self_spawn_agents.Prelude.Dict.{Dict}
use self_spawn_agents.Prelude.Json.{Json, number}
use self_spawn_agents.Prelude.Unicode.{is_empty, compare_digest}

pub data HttpMethod : Type 0 where
  get post put : HttpMethod

pub data RequestBody : Type 0 where
  no_body : RequestBody
  json_body : Json → RequestBody
  form_body : Dict Text Json → RequestBody
  content : List ℕ → RequestBody

pub record Request : Type 0 where
  pub method : HttpMethod
  pub url : Text
  pub headers : Dict Text Text
  pub body : RequestBody

pub record Response : Type 0 where
  pub status_code : ℕ
  pub text : Text

-- How the client's `get`, `post` and `put` end: an `httpx.HTTPError` with its `str`, or a answered.
pub data Sent : Type 0 where
  unreachable : Text → Sent
  answered : Response → Sent

-- What the channels use of httpx, of the clock and of `str.encode`: `send` and `monotonic` (in
-- microseconds) see the requests before; `status_error` is the `str` of what `raise_for_status`
-- raises; `json` has no value where it raises.
pub record Wire : Type 0 where
  pub send : List Request → Request → Sent
  pub status_error : Response → Option Text
  pub json : Response → Option Json
  pub monotonic : List Request → ℕ
  pub utf8 : Text → List ℕ
  pub is_nonzero : Text → Bool

-- How an operation ends: `http_failed` is an `httpx.HTTPError` with its `str`.
pub data Reply {ℓ} (A : Type ℓ) : Type ℓ where
  done : A → Reply A
  http_failed : Text → Reply A
  raised : Exception → Reply A

-- The log has the last request first.
abbrev pub Operation {ℓ} : Type ℓ → Type ℓ
Operation A = List Request → Reply A × List Request

pub record ChannelStatus : Type 0 where
  pub name : Text
  pub ok : Bool
  pub latency_ms : ℕ
  pub detail : Text

-- `s.rstrip('/')` and `s.lstrip('/')`
abbrev pub rstrip_slash : Text → Text
rstrip_slash [] = []
rstrip_slash (c ∷ s) =
    let rest = rstrip_slash s in if (c == 47) && is_empty rest then [] else c ∷ rest

abbrev pub lstrip_slash : Text → Text
lstrip_slash [] = []
lstrip_slash (c ∷ s) = if c == 47 then lstrip_slash s else c ∷ s

-- `f"{base_url.rstrip('/')}/{path.lstrip('/')}"`
abbrev pub url_of : Text → Text → Text
url_of base_url path = rstrip_slash base_url ++ 47 ∷ lstrip_slash path

module _ (w : Wire) where
  abbrev pub checked : Option Text → Response → Reply Response
  checked none r = done r
  checked (some e) r = http_failed e

  -- The request, and `raise_for_status`.
  abbrev pub raise_for_status : Sent → Reply Response
  raise_for_status (unreachable e) = http_failed e
  raise_for_status (answered r) = checked (w.status_error r) r

  abbrev pub parsed : Option Json → Reply Json
  parsed none = raised json_error
  parsed (some j) = done j

  -- `r.json()`
  abbrev pub json_of : Reply Response → Reply Json
  json_of (done r) = parsed (w.json r)
  json_of (http_failed e) = http_failed e
  json_of (raised x) = raised x

  abbrev pub nothing_of : Reply Response → Reply (Unit {0})
  nothing_of (done r) = done tt
  nothing_of (http_failed e) = http_failed e
  nothing_of (raised x) = raised x

  abbrev pub request_json : Request → Operation Json
  request_json r log = (json_of (raise_for_status (w.send log r)), r ∷ log)

  -- A request whose answer is not read.
  abbrev pub request_only : Request → Operation (Unit {0})
  request_only r log = (nothing_of (raise_for_status (w.send log r)), r ∷ log)

  abbrev pub get_json : Text → Dict Text Text → Text → Operation Json
  get_json base_url headers path =
      request_json
        (record { method = get; url = url_of base_url path; headers = headers; body = no_body })

  abbrev pub post_json : Text → Dict Text Text → Text → Json → Operation Json
  post_json base_url headers path json = request_json (record {
    method = post;
    url = url_of base_url path;
    headers = headers;
    body = json_body json;
  })

  -- `int((time.monotonic() - t0) * 1000)`
  abbrev pub elapsed_ms : List Request → List Request → ℕ
  elapsed_ms log log' = (w.monotonic log' - w.monotonic log) / 1000

  -- A health check catches the errors of httpx and no other.
  abbrev pub status_of {ℓ} : {A : Type ℓ} → Text → ℕ → Reply A → Reply ChannelStatus
  status_of name ms (done a) =
      done (record { name = name; ok = true; latency_ms = ms; detail = [] })
  status_of name ms (http_failed e) =
      done (record { name = name; ok = false; latency_ms = ms; detail = e })
  status_of name ms (raised x) = raised x

  abbrev pub health_by : {A : Type 0} → Text → Operation A → Operation ChannelStatus
  health_by name ping log =
      let (r, log') = ping log in (status_of name (elapsed_ms log log') r, log')

-- `int(amount_usd * 100)`, which cuts towards zero.
unfoldable pub cents : Money → ℤ
cents (pos n) = pos (n / 10000)
cents (negsuc n) = neg (pos (Prim.Native.Nat.suc n / 10000))

abbrev pub cents_json : Money → Json
cents_json a = number (print_int (cents a))

-- `f"Bearer {token}"`
abbrev pub bearer : Text → Dict Text Text
bearer token = (codes "Authorization", codes "Bearer " ++ token) ∷ []

-- `webhook_verify`
unfoldable pub webhook_verify : (Text → Text → Text) → Text → Text → Text → Result Bool
webhook_verify hmac_sha256 signature body secret =
    compare_digest (hmac_sha256 secret body) signature
