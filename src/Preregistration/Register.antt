-- ===== src/Preregistration/Register.antt =====
-- aae/preregistration/register.py and aae/preregistration/analyze.py on the schema of
-- aae/schemas/preregistration.py. The session is the list of the rows and the number of draws
-- from the sources of randomness and time. SHA-256 and pydantic's readers are parameters.
use self_spawn_agents.Prelude.{
  ℕ, zero, suc, ◌+◌, ◌≡◌, Bool, true, false, ◌&&◌, ◌||◌, not, List, [], ◌∷◌, ◌++◌, Text, codes,
  text_eqb, text_eq, leb, ◌==◌, if◌then◌else◌, length, all, Result, ok, err, validation_error,
  no_result_found, multiple_results_found, prereg_locked, select,
}
use self_spawn_agents.Prelude.Unicode.{in_range}
use self_spawn_agents.Prelude.Int.{ℤ, pos, ltb_ℤ, leb_ℤ}
use self_spawn_agents.Prelude.Decimal.{Money}
use self_spawn_agents.Prelude.Dict.{Dict, insert}
use self_spawn_agents.Schemas.Common.{Uuid, Time, World}
use self_spawn_agents.Preregistration.Canonical.{
  PyValue, boolean, int, string, dict, to_fields, canonical_hash,
}

-- A `Decimal`, by what `str` gives for it, which tells its sign, digits and exponent.
abbrev pub Decimal : Type 0
Decimal = Text

pub data PrimaryMetric : Type 0 where
  monthly_recurring_revenue_usd gross_margin_usd_30d paid_conversions_30d : PrimaryMetric

pub record PreRegistration : Type 0 where
  pub id : Uuid
  pub created_at : Time
  pub vertical_title : Text
  pub hypothesis : Text
  pub primary_metric : PrimaryMetric
  pub primary_threshold : Decimal
  pub measurement_window_days : ℤ
  pub analysis_plan : Text
  pub stopping_rule : Text
  pub locked : Bool
  pub lock_hash : Text

-- What pydantic writes for a UUID and a time, and the value of a Decimal.
pub record Printer : Type 0 where
  pub uuid_text : Uuid → Text
  pub time_text : Time → Text
  pub decimal_value : Decimal → Money

abbrev pub metric_text : PrimaryMetric → Text
metric_text monthly_recurring_revenue_usd = codes "monthly_recurring_revenue_usd"
metric_text gross_margin_usd_30d = codes "gross_margin_usd_30d"
metric_text paid_conversions_30d = codes "paid_conversions_30d"

abbrev pub length_within : ℕ → ℕ → Text → Bool
length_within low high s = leb low (length s) && leb (length s) high

-- `^[a-f0-9]{64}$`
abbrev pub is_lower_hex : ℕ → Bool
is_lower_hex c = in_range 97 102 c || in_range 48 57 c

abbrev pub is_hash : Text → Bool
is_hash s = (length s == 64) && all is_lower_hex s

-- The bounds of the fields but the hash.
unfoldable pub content_fits : Printer → PreRegistration → Bool
content_fits pr p =
    length_within 50 1000 p.hypothesis
    && ltb_ℤ (pos 0) (pr.decimal_value p.primary_threshold)
    && leb_ℤ (pos 14) p.measurement_window_days
    && leb_ℤ p.measurement_window_days (pos 90)
    && length_within 100 3000 p.analysis_plan
    && length_within 30 500 p.stopping_rule

abbrev pub prereg_fits : Printer → PreRegistration → Bool
prereg_fits pr p = content_fits pr p && is_hash p.lock_hash

-- `json.loads(prereg.model_dump_json())`
unfoldable pub model_dump : Printer → PreRegistration → Dict Text PyValue
model_dump py p =
    (codes "id", string (py.uuid_text p.id))
    ∷ (codes "created_at", string (py.time_text p.created_at))
    ∷ (codes "vertical_title", string p.vertical_title)
    ∷ (codes "hypothesis", string p.hypothesis)
    ∷ (codes "primary_metric", string (metric_text p.primary_metric))
    ∷ (codes "primary_threshold", string p.primary_threshold)
    ∷ (codes "measurement_window_days", int p.measurement_window_days)
    ∷ (codes "analysis_plan", string p.analysis_plan)
    ∷ (codes "stopping_rule", string p.stopping_rule)
    ∷ (codes "locked", boolean p.locked)
    ∷ (codes "lock_hash", string p.lock_hash)
    ∷ []

-- `{k: v for k, v in data.items() if k != "lock_hash"}`
unfoldable pub canonical_payload : Dict Text PyValue → Dict Text PyValue
canonical_payload = select (λ m. not (text_eqb m.0 (codes "lock_hash")))

unfoldable pub compute_lock_hash : (Text → Text) → Dict Text PyValue → Result Text
unfolding canonical_hash canonical_payload
compute_lock_hash sha256 d = canonical_hash sha256 (dict (to_fields (canonical_payload d)))

-- `PreRegistration.model_validate`: a payload that was dumped reads as what was dumped, if the
-- fields are within their bounds.
pub record Serializer : Type 0 where
  pub printer : Printer
  pub model_validate : Dict Text PyValue → Result PreRegistration
  pub model_validate-model_dump :
      (p : PreRegistration)
      → model_validate (model_dump printer p)
        ≡ (if prereg_fits printer p then ok p else err validation_error)

pub record PreRegistrationRow : Type 0 where
  pub id : Text
  pub created_at : Time
  pub vertical_title : Text
  pub primary_metric : PrimaryMetric
  pub primary_threshold : Decimal
  pub measurement_window_days : ℤ
  pub locked : Bool
  pub lock_hash : Text
  pub payload_json : Dict Text PyValue

pub record Session : Type 0 where
  pub rows : List PreRegistrationRow
  pub drawn : ℕ

-- The arguments of `create`.
pub record Plan : Type 0 where
  pub vertical_title : Text
  pub hypothesis : Text
  pub primary_metric : PrimaryMetric
  pub primary_threshold : Decimal
  pub measurement_window_days : ℤ
  pub analysis_plan : Text
  pub stopping_rule : Text

abbrev zeros : ℕ → Text
zeros zero = []
zeros (suc n) = 48 ∷ zeros n

abbrev pub provisional : World → ℕ → Plan → PreRegistration
provisional w n a = record {
  id = w.uuid4 n;
  created_at = w.utc_now n;
  vertical_title = a.vertical_title;
  hypothesis = a.hypothesis;
  primary_metric = a.primary_metric;
  primary_threshold = a.primary_threshold;
  measurement_window_days = a.measurement_window_days;
  analysis_plan = a.analysis_plan;
  stopping_rule = a.stopping_rule;
  locked = true;
  lock_hash = zeros 64;
}

abbrev pub and_then {ℓ κ} : {A : Type ℓ} {B : Type κ} → Result A → (A → Result B) → Result B
and_then (ok a) f = f a
and_then (err x) f = err x

module _ (sha256 : Text → Text) (py : Serializer) where
  abbrev pub row_of : PreRegistration → PreRegistrationRow
  row_of p = record {
    id = py.printer.uuid_text p.id;
    created_at = p.created_at;
    vertical_title = p.vertical_title;
    primary_metric = p.primary_metric;
    primary_threshold = p.primary_threshold;
    measurement_window_days = p.measurement_window_days;
    locked = true;
    lock_hash = p.lock_hash;
    payload_json = model_dump py.printer p;
  }

  -- From the construction of the provisional model to the validation with the hash.
  abbrev pub lock_draft : PreRegistration → Result PreRegistration
  lock_draft p =
      if prereg_fits py.printer p
      then (and_then (compute_lock_hash sha256 (model_dump py.printer p)) (λ h.
          py.model_validate (insert (codes "lock_hash") (string h) (model_dump py.printer p))))
      else err validation_error

  abbrev pub insert_row : Result PreRegistration → Session → Result PreRegistration × Session
  insert_row (ok p) s = (ok p, record s { rows = s.rows ++ row_of p ∷ [] })
  insert_row (err x) s = (err x, s)

  unfoldable pub create : World → Plan → Session → Result PreRegistration × Session
  unfolding compute_lock_hash model_dump content_fits
  create w plan s =
      insert_row (lock_draft (provisional w s.drawn plan)) (record s { drawn = s.drawn + 1 })

  -- `scalar_one`
  abbrev pub scalar_one : List PreRegistrationRow → Result PreRegistrationRow
  scalar_one [] = err no_result_found
  scalar_one (r ∷ []) = ok r
  scalar_one (r ∷ q ∷ rs) = err multiple_results_found

  unfoldable pub get : Session → Text → Result PreRegistration
  get s prereg_id =
      and_then (scalar_one (select (λ r. text_eqb r.id prereg_id) s.rows))
        (λ r. py.model_validate r.payload_json)

  unfoldable pub ensure_locked_and_exists : Session → Text → Result PreRegistration
  unfolding get
  ensure_locked_and_exists s prereg_id =
      and_then (get s prereg_id) (λ p. if p.locked then ok p else err prereg_locked)

  unfoldable pub reject_mutation : Session → Result (Unit {0})
  reject_mutation s = err prereg_locked

  unfoldable pub verify_hash : PreRegistration → Result Bool
  unfolding compute_lock_hash model_dump
  verify_hash p =
      and_then (compute_lock_hash sha256 (model_dump py.printer p))
        (λ h. ok (text_eqb h p.lock_hash))

  abbrev pub notes_of : Bool → Bool → Text
  notes_of false met = codes "HASH DRIFT — prereg tampered with!"
  notes_of true true = codes "threshold met"
  notes_of true false = codes "threshold missed"

pub record AnalysisResult : Type 0 where
  pub preregistration_id : Text
  pub met_threshold : Bool
  pub observed_metric_value : Money
  pub threshold : Decimal
  pub hash_valid : Bool
  pub notes : Text

module _ (sha256 : Text → Text) (py : Serializer) where
  abbrev pub analysis_of : PreRegistration → Money → Bool → AnalysisResult
  analysis_of prereg observed_value hash_ok =
      let met = leb_ℤ (py.printer.decimal_value prereg.primary_threshold) observed_value in
      record {
        preregistration_id = py.printer.uuid_text prereg.id;
        met_threshold = met;
        observed_metric_value = observed_value;
        threshold = prereg.primary_threshold;
        hash_valid = hash_ok;
        notes = notes_of sha256 py hash_ok met;
      }

  unfoldable pub analyze : PreRegistration → Money → Result AnalysisResult
  unfolding verify_hash
  analyze prereg observed_value =
      and_then (verify_hash sha256 py prereg)
        (λ hash_ok. ok (analysis_of prereg observed_value hash_ok))
