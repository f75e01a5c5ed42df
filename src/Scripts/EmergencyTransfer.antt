-- ===== src/Scripts/EmergencyTransfer.antt =====
-- scripts/emergency_transfer.py. HMAC-SHA256 and the reading of a Decimal are functions.
use self_spawn_agents.Prelude.{
  ℕ, ◌≡◌, refl, sym, ap, ◌∙◌, Bool, true, false, Option, none, some, [], ◌++◌, Text, codes,
  text_eqb, text_eqb_iff, if◌then◌else◌, Bool-cases, inl, inr, Result, ok, err, Exception,
}
use mathlib.Core.List.{append_cancel_right}
use self_spawn_agents.Prelude.Unicode.{is_empty, is_ascii}
use self_spawn_agents.Cashflow.Ledger.{PrintedDecimal, verify_emergency_hmac}

-- How a command ends: what it prints and its exit code, the usage error of a bad parameter, the
-- `InvalidOperation` of `Decimal`, or what the service's function raises.
pub data Ended : Type 0 where
  exited : Text → ℕ → Ended
  bad_parameter invalid_operation : Ended
  raised : Exception → Ended

-- `decimal` reads a text as `Decimal` does, without a value where it raises.
module _ (hmac_sha256 : Text → Text → Text) (decimal : Text → Option PrintedDecimal) where
  -- `date_iso or date.today().isoformat()`
  abbrev pub day_of : Option Text → Text → Text
  day_of none today = today
  day_of (some d) today = if is_empty d then today else d

  abbrev pub signed : Text → Text → Text → Option PrintedDecimal → Ended
  signed secret amount_usd day none = invalid_operation
  signed secret amount_usd day (some d) =
      exited (hmac_sha256 secret (amount_usd ++ (codes "|" ++ day))) 0

  -- `secret` is the variable of the environment.
  unfoldable pub sign : Option Text → Text → Text → Option Text → Ended
  sign none today amount_usd date_iso = bad_parameter
  sign (some secret) today amount_usd date_iso =
      if is_empty secret
      then bad_parameter
      else signed secret amount_usd (day_of date_iso today) (decimal amount_usd)

  abbrev pub secret_or_empty : Option Text → Text
  secret_or_empty none = []
  secret_or_empty (some s) = s

  abbrev pub verdict : Bool → Ended
  verdict true = exited (codes "OK") 0
  verdict false = exited (codes "BAD") 1

  abbrev judged : Result Bool → Ended
  judged (ok b) = verdict b
  judged (err x) = raised x

  abbrev pub verified : Text → Text → Text → Option PrintedDecimal → Ended
  verified secret date_iso signature none = invalid_operation
  verified secret date_iso signature (some d) =
      judged (verify_emergency_hmac hmac_sha256 secret d date_iso signature)

  unfoldable pub verify : Option Text → Text → Text → Text → Ended
  verify secret amount_usd date_iso signature =
      verified (secret_or_empty secret) date_iso signature (decimal amount_usd)

  -- The hash tells the two messages apart.
  abbrev pub KeepsApart : Text → Text → Text → Type 0
  KeepsApart secret m n = hmac_sha256 secret m ≡ hmac_sha256 secret n → m ≡ n

  matches :
      (secret amount day : Text) (d : PrintedDecimal)
      → is_ascii (hmac_sha256 secret (d.str ++ (codes "|" ++ day))) ≡ true
      → is_ascii (hmac_sha256 secret (amount ++ (codes "|" ++ day))) ≡ true
      → KeepsApart secret (d.str ++ (codes "|" ++ day)) (amount ++ (codes "|" ++ day))
      → verify_emergency_hmac hmac_sha256 secret d day
          (hmac_sha256 secret (amount ++ (codes "|" ++ day)))
        ≡ ok (text_eqb d.str amount)
  unfolding verify_emergency_hmac
  matches secret amount day d plain plain_too apart =
      let rest = codes "|" ++ day in
      let given = hmac_sha256 secret (d.str ++ rest) in
      let signature = hmac_sha256 secret (amount ++ rest) in
      rw (plain, plain_too)
        (ap ok (elim (Bool-cases (text_eqb d.str amount)) [
          | inl e ↦
              (text_eqb_iff given signature).1
                (ap (λ a. hmac_sha256 secret (a ++ rest)) ((text_eqb_iff d.str amount).0 e))
              ∙ sym e
          | inr e ↦ elim (Bool-cases (text_eqb given signature)) [
            | inl k ↦ absurd (
                same_text
                  (append_cancel_right d.str amount rest
                    (apart ((text_eqb_iff given signature).0 k)))
                  e)
            | inr k ↦ k ∙ sym e
          ]
        ]))
    where
      same_text : d.str ≡ amount → text_eqb d.str amount ≡ false → ⊥
      same_text h e = true_or_false (sym ((text_eqb_iff d.str amount).1 h) ∙ e)
        where
          true_or_false : true ≡ false → ⊥
          true_or_false k = cc

  -- With a secret and a day that are not empty, an amount that Decimal reads, and an HMAC whose
  -- digests of the two messages are ASCII and do not collide: sign prints a signature and exits
  -- with 0, and verify of that signature, on the same amount, day and secret, prints OK and exits
  -- with 0 if str of the Decimal is the very text of the amount, and prints BAD and exits with 1
  -- otherwise.
  pub verify-sign :
      (secret today amount day : Text) (d : PrintedDecimal)
      → is_empty secret ≡ false
      → is_empty day ≡ false
      → decimal amount ≡ some d
      → is_ascii (hmac_sha256 secret (d.str ++ (codes "|" ++ day))) ≡ true
      → is_ascii (hmac_sha256 secret (amount ++ (codes "|" ++ day))) ≡ true
      → KeepsApart secret (d.str ++ (codes "|" ++ day)) (amount ++ (codes "|" ++ day))
      → (signature : Text) × (sign (some secret) today amount (some day) ≡ exited signature 0)
        × (verify (some secret) amount day signature ≡ verdict (text_eqb d.str amount))
  unfolding sign verify
  verify-sign secret today amount day d hs hd read plain plain_too apart = (
    hmac_sha256 secret (amount ++ (codes "|" ++ day)),
    rw (hs, hd, read) refl,
    rw read (ap judged (matches secret amount day d plain plain_too apart)),
  )
