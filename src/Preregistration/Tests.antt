-- ===== src/Preregistration/Tests.antt =====
-- A serializer whose identifiers, times and amounts are decimal digits, and a plan that fits.
use self_spawn_agents.Prelude.{
  ℕ, zero, suc, ◌+◌, ◌%◌, ◌==◌, ◌≡◌, ◌≢◌, refl, ap, Bool, true, false, Option, some, [], ◌∷◌, Text,
  codes, text_eqb, text_eq, Result, ok, err, validation_error, if◌then◌else◌, length, arith,
}
use mathlib.Core.List.{head-eq_of_cons-eq}
use self_spawn_agents.Prelude.Int.{ℤ, pos}
use self_spawn_agents.Prelude.Digits.{digits, print_int, read_digits, read_digits-digits}
use self_spawn_agents.Prelude.Dict.{Dict, lookup}
use self_spawn_agents.Schemas.Samples.{world}
use self_spawn_agents.Preregistration.Canonical.{
  PyValue, boolean, int, string, dict, to_fields, body_text, field, no_fields, canonical_dumps,
}
use self_spawn_agents.Preregistration.KeyOrder.{in_dict, swap, canonical_dumps-Reordered}
use self_spawn_agents.Preregistration.Register.{
  PreRegistration, PrimaryMetric, monthly_recurring_revenue_usd, gross_margin_usd_30d,
  paid_conversions_30d, Printer, Serializer, Session, Plan, provisional, metric_text, prereg_fits,
  content_fits, model_dump, create, verify_hash, AnalysisResult, analyze,
}
use self_spawn_agents.Preregistration.Lock.{NoCollision, locked_text, analyze_tampered}
use self_spawn_agents.Preregistration.Create.{Locks, create-Locks}

sorted_output :
    canonical_dumps
      (dict (to_fields ((codes "b", int (pos 12)) ∷ (codes "a", string (codes "x\"y")) ∷ [])))
    ≡ ok (codes "{\"a\":\"x\\\"y\",\"b\":12}\n")
unfolding canonical_dumps print_int
sorted_output = refl

differ : (m n : ℕ) → (m == n) ≡ false → m ≡ n → ⊥
differ m n h e = ground (arith, h, e)

b_is_not_a : codes "b" ≢ codes "a"
b_is_not_a e = differ 98 97 refl (head-eq_of_cons-eq e)

abbrev x_text : PyValue
x_text = string (codes "x")

canonical_dumps-Reordered_example :
    canonical_dumps (dict (field (codes "b") x_text (field (codes "a") (boolean true) no_fields)))
    ≡ canonical_dumps (dict (field (codes "a") (boolean true) (field (codes "b") x_text no_fields)))
canonical_dumps-Reordered_example = canonical_dumps-Reordered (in_dict (swap b_is_not_a))

abbrev printer : Printer
printer = record {
  uuid_text = digits;
  time_text = digits;
  decimal_value = λ s. pos (read_digits 0 s);
}

abbrev text_of : Option PyValue → Text
text_of (some (string s)) = s
text_of _ = []

abbrev int_of : Option PyValue → ℤ
int_of (some (int n)) = n
int_of _ = pos 0

abbrev bool_of : Option PyValue → Bool
bool_of (some (boolean b)) = b
bool_of _ = false

abbrev metric_of : Text → PrimaryMetric
metric_of s =
    if text_eqb s (codes "gross_margin_usd_30d")
    then gross_margin_usd_30d
    else if text_eqb s (codes "paid_conversions_30d")
    then paid_conversions_30d
    else monthly_recurring_revenue_usd

abbrev read_payload : Dict Text PyValue → PreRegistration
read_payload d = record {
  id = read_digits 0 (text_of (lookup (codes "id") d));
  created_at = read_digits 0 (text_of (lookup (codes "created_at") d));
  vertical_title = text_of (lookup (codes "vertical_title") d);
  hypothesis = text_of (lookup (codes "hypothesis") d);
  primary_metric = metric_of (text_of (lookup (codes "primary_metric") d));
  primary_threshold = text_of (lookup (codes "primary_threshold") d);
  measurement_window_days = int_of (lookup (codes "measurement_window_days") d);
  analysis_plan = text_of (lookup (codes "analysis_plan") d);
  stopping_rule = text_of (lookup (codes "stopping_rule") d);
  locked = bool_of (lookup (codes "locked") d);
  lock_hash = text_of (lookup (codes "lock_hash") d);
}

abbrev read_checked : Dict Text PyValue → Result PreRegistration
read_checked d =
    let p = read_payload d in if prereg_fits printer p then ok p else err validation_error

metric_of-metric_text : (m : PrimaryMetric) → metric_of (metric_text m) ≡ m
metric_of-metric_text monthly_recurring_revenue_usd = refl
metric_of-metric_text gross_margin_usd_30d = refl
metric_of-metric_text paid_conversions_30d = refl

read_payload-model_dump : (p : PreRegistration) → read_payload (model_dump printer p) ≡ p
unfolding model_dump
read_payload-model_dump p =
    rw
      (
        read_digits-digits p.id,
        read_digits-digits p.created_at,
        metric_of-metric_text p.primary_metric,
      )
      refl

abbrev serializer : Serializer
serializer = record {
  printer = printer;
  model_validate = read_checked;
  model_validate-model_dump = λ p.
      ap (λ q. if prereg_fits printer q then ok q else err validation_error)
        (read_payload-model_dump p);
}

abbrev repeat : ℕ → ℕ → Text
repeat zero c = []
repeat (suc n) c = c ∷ repeat n c

abbrev plan : Plan
plan = record {
  vertical_title = codes "Newsletter";
  hypothesis = repeat 50 104;
  primary_metric = gross_margin_usd_30d;
  primary_threshold = codes "100";
  measurement_window_days = pos 30;
  analysis_plan = repeat 100 97;
  stopping_rule = repeat 30 115;
}

abbrev empty_session : Session
empty_session = record { rows = []; drawn = 4 }

plan_fits : content_fits printer (provisional world 4 plan) ≡ true
unfolding content_fits read_digits
plan_fits = refl

create-Locks_example :
    Locks
      (λ t. repeat 64 97)
      serializer
      plan
      empty_session
      (content_fits printer (provisional world 4 plan))
      (create (λ t. repeat 64 97) serializer world plan empty_session)
create-Locks_example =
    create-Locks (λ t. repeat 64 97) serializer world plan empty_session tt (λ t. refl)

-- A stand-in for the hash: by the parity of the length.
abbrev parity_hash : Text → Text
parity_hash t = repeat 64 (97 + length t % 2)

abbrev registered : PreRegistration
registered = record (provisional world 4 plan) { lock_hash = repeat 64 98 }

-- One more letter in the hypothesis, and the same hash.
abbrev forged : PreRegistration
forged = record registered { hypothesis = repeat 51 104 }

registered_fits : prereg_fits printer registered ≡ true
unfolding content_fits read_digits
registered_fits = refl

forged_fits : prereg_fits printer forged ≡ true
unfolding content_fits read_digits
forged_fits = refl

registered_verifies : verify_hash parity_hash serializer registered ≡ ok true
unfolding verify_hash digits print_int
registered_verifies = refl

hashes_differ : NoCollision parity_hash serializer registered forged
unfolding locked_text digits print_int body_text
hashes_differ e = absurd (differ 98 97 refl (head-eq_of_cons-eq e))

changed : registered ≢ forged
changed e = differ 50 51 refl (ap (λ p. length p.hypothesis) e)

analyze_tampered_example :
    (a : AnalysisResult) × (analyze parity_hash serializer forged (pos 120) ≡ ok a)
    × (a.hash_valid ≡ false)
    × (a.notes ≡ codes "HASH DRIFT — prereg tampered with!")
analyze_tampered_example =
    analyze_tampered parity_hash serializer registered forged (pos 120) registered_fits forged_fits
      hashes_differ registered_verifies refl changed
